-- ===== src/Generation/Tests.antt =====
-- A guard with a primary, and a switch: tests, and the theorems at it.
use byte_danceliveauctioni.Base.{◌≡◌, refl, true, false, [], ◌∷◌, ok, err, inr}
use byte_danceliveauctioni.Base.Text.{str_eq, is_empty, trim_space}
use byte_danceliveauctioni.Generation.Refresh.{
  Guard, Config, Answers, frozen, verification_wait, new_status, refresh, refresh_identity,
  refresh_generation, close_refresh, observe, still_suspected, read_and_decide, decide, confirm,
  differs, verification_fresh, signal_switch_master, mark_ready, bounded_text, error_text,
  allow_write,
}
use byte_danceliveauctioni.Generation.Trusted.{IsTrusted, refresh-IsTrusted}
use byte_danceliveauctioni.Generation.Frozen.{refreshed, switched, run, run-allow_write}
use byte_danceliveauctioni.Generation.Interrupted.{interrupted-allow_write}

abbrev config : Config
config = record { has_verify = true; verify_interval = 30 }

abbrev first : Answers
first = record {
  identity = ok " run-a ";
  verified = ok "";
  verification = ok tt;
  confirmed = ok "run-a";
  published = ok tt;
  confirmed_after = ok "run-a";
  verified_after = ok "run-a";
  observed_at = 100;
  fresh_at = 101;
  ended_at = 102;
}

abbrev trusted : Guard
trusted = mark_ready new_status "run-a" 102

first_refresh : refresh config first false new_status ≡ (trusted, ok tt)
unfolding refresh refresh_identity refresh_generation close_refresh observe still_suspected
    read_and_decide decide confirm differs mark_ready str_eq is_empty trim_space
first_refresh = refl

refresh-IsTrusted_example : IsTrusted first new_status trusted
refresh-IsTrusted_example = refresh-IsTrusted config first false new_status trusted first_refresh

abbrev again : Answers
again = record first { verified = ok "run-a"; observed_at = 110; fresh_at = 111; ended_at = 112 }

-- After a switch the old primary is not trusted.
run-allow_write_example :
    allow_write (run config (refreshed false again ∷ switched ∷ []) (signal_switch_master trusted))
    ≡ err frozen
unfolding mark_ready trim_space is_empty
run-allow_write_example =
    run-allow_write config (refreshed false again ∷ switched ∷ []) trusted refl (inr refl, (tt, tt))

-- A switch during the refresh is lost.
interrupted-allow_write_example : allow_write (refresh config again true trusted).0 ≡ ok "run-a"
unfolding mark_ready trim_space is_empty verification_fresh
interrupted-allow_write_example =
    interrupted-allow_write config again trusted " run-a " refl refl refl refl refl refl

waits_for_the_new_primary : refresh config again false (signal_switch_master trusted) ≡ (
  record (signal_switch_master trusted) {
    reason = "waiting to observe the new Redis primary generation";
    last_checked_at = 110;
  },
  err verification_wait,
)
unfolding refresh refresh_identity refresh_generation observe still_suspected signal_switch_master
    mark_ready str_eq is_empty trim_space
waits_for_the_new_primary = refl

error_is_bounded : bounded_text (error_text "read: " "no\nroute") 8 ≡ "read: no"
unfolding bounded_text error_text
error_is_bounded = refl
