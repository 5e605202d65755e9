-- ===== src/Generation/Refresh.antt =====
-- guard.go: NewGuard, SignalSwitchMaster, Refresh and AllowWrite on a guard that is there. Times are
-- nanoseconds. What the Redis backend and the verification answer during a refresh is a parameter, as
-- is whether SignalSwitchMaster comes while the refresh waits for them.
use byte_danceliveauctioni.Base.{
  ℕ, ◌+◌, ◌*◌, ◌^◌, zero, suc, Bool, true, false, not, ◌&&◌, ◌||◌, String, Option, none, some, ltb,
  ◌==◌, any, [], ◌∷◌, if◌then◌else◌, Result, ok, err,
}
use byte_danceliveauctioni.Base.Text.{str_eq, is_empty, trim_space}
use Prim.Native.Char.{code}
use Prim.Native.String

pub data GuardError : Type 0 where
  frozen generation_change verification_wait : GuardError

pub record Guard : Type 0 where
  pub ready : Bool
  pub generation : String
  pub reason : String
  pub last_checked_at : ℕ
  pub last_verified_at : ℕ
  pub suspected : String

-- The configuration: whether there is a verification, and its interval.
pub record Config : Type 0 where
  pub has_verify : Bool
  pub verify_interval : ℕ

pub record NewConfig : Type 0 where
  pub has_backend : Bool
  pub config : Config

unfoldable pub normalized_config : Config → Config
normalized_config c =
    if c.has_verify && c.verify_interval == 0 then record c { verify_interval = 30 * 10 ^ 9 } else c

abbrev pub new_status : Guard
new_status = record {
  ready = false;
  generation = "";
  reason = "generation has not been verified";
  last_checked_at = 0;
  last_verified_at = 0;
  suspected = "";
}

unfoldable pub new_guard : NewConfig → Option (Guard × Config)
new_guard c = if c.has_backend then some (new_status, normalized_config c.config) else none

-- boundedText: line ends and nulls become spaces, and the text is cut.
unfoldable pub bounded_text : String → ℕ → String
bounded_text String.[] limit = String.[]
bounded_text (String.◌∷◌ c s) zero = String.[]
bounded_text (String.◌∷◌ c s) (suc limit) =
    String.◌∷◌ (if any ((code c == 10) ∷ (code c == 13) ∷ (code c == 0) ∷ []) then " " else c)
      (bounded_text s limit)

-- A text with an error's message, boundedReason.
unfoldable pub error_text : String → String → String
error_text text why = String.◌++◌ text (bounded_text why 384)

-- What the backend and the verification answer, with an error's text, and the clock.
pub record Answers : Type 0 where
  pub identity : Result String String
  pub verified : Result String String
  pub verification : Result String (Unit {0})
  pub confirmed : Result String String
  pub published : Result String (Unit {0})
  pub confirmed_after : Result String String
  pub verified_after : Result String String
  pub observed_at : ℕ
  pub fresh_at : ℕ
  pub ended_at : ℕ

unfoldable pub signal_switch_master : Guard → Guard
signal_switch_master g = record g {
  suspected = g.generation;
  ready = false;
  reason = "Sentinel reported a primary switch";
}

unfoldable pub freeze : Guard → String → ℕ → Guard
freeze g reason now = record g {
  ready = false;
  reason = bounded_text reason 512;
  last_checked_at = now;
}

unfoldable pub mark_ready : Guard → String → ℕ → Guard
mark_ready g generation now = record g {
  ready = true;
  generation = generation;
  reason = "";
  last_checked_at = now;
  last_verified_at = now;
  suspected = "";
}

-- How a refresh ends: it marks the guard ready, or freezes it with a reason.
pub data Verdict : Type 0 where
  trust : Verdict
  stop : String → GuardError → Verdict

-- `suspected != "" && generation == suspected`.
unfoldable pub still_suspected : Guard → String → Bool
still_suspected g generation = not (is_empty g.suspected) && str_eq generation g.suspected

-- The first section under the lock.
unfoldable pub observe : Guard → String → ℕ → Guard
observe g generation now =
    let seen : Guard = record g { last_checked_at = now } in
    let changed = not (is_empty g.generation) && not (str_eq generation g.generation) in
    if still_suspected g generation
    then record seen {
      ready = false;
      reason = "waiting to observe the new Redis primary generation";
    }
    else if changed || is_empty g.generation || not (is_empty g.suspected)
    then record seen { ready = false; reason = "reconciling Redis primary generation" }
    else seen

-- `err != nil || answer != generation`.
unfoldable pub differs : Result String String → String → Bool
differs (err why) generation = true
differs (ok answer) generation = not (str_eq answer generation)

-- After the verification: the primary is confirmed, the marker is published and read back.
unfoldable pub confirm : Answers → String → Verdict
confirm a generation =
    if differs a.confirmed generation
    then stop "Redis primary changed during reconciliation" generation_change
    else elim a.published [
      | err why ↦ stop (error_text "publish verified generation: " why) frozen
      | ok _ ↦
          if differs a.confirmed_after generation
          then stop "Redis primary changed while publishing verification" generation_change
          else if differs a.verified_after generation
          then stop "verified generation marker did not persist" frozen
          else trust
    ]

unfoldable pub verification_fresh : Config → Guard → Answers → Bool
verification_fresh c g a =
    not c.has_verify
    || (ltb 0 c.verify_interval && ltb a.fresh_at (g.last_verified_at + c.verify_interval))

-- The decision, from what the first section saw of the guard.
unfoldable pub decide : Config → Guard → Answers → String → String → Verdict
decide c g a generation verified =
    if str_eq g.generation generation
      && is_empty g.suspected
      && str_eq verified generation
      && verification_fresh c g a
    then trust
    else if not c.has_verify
    then (if is_empty g.suspected && str_eq verified generation
        then trust
        else stop "waiting for generation coordinator verification" verification_wait)
    else elim a.verification [
      | err why ↦ stop (error_text "runtime reconciliation failed: " why) verification_wait
      | ok _ ↦ confirm a generation
    ]

unfoldable pub decide_answer : Config → Guard → Answers → String → Result String String → Verdict
decide_answer c g a generation (err why) = stop (error_text "read verified generation: " why) frozen
decide_answer c g a generation (ok verified) = decide c g a generation verified

unfoldable pub read_and_decide : Config → Guard → Answers → String → Verdict
unfolding decide_answer
read_and_decide c g a generation = decide_answer c g a generation a.verified

-- A primary switch that Sentinel reports in between.
abbrev pub interrupt : Bool → Guard → Guard
interrupt true g = signal_switch_master g
interrupt false g = g

unfoldable pub close_refresh : Verdict → Guard → String → ℕ → Guard × Result GuardError (Unit {0})
close_refresh trust g generation now = (mark_ready g generation now, ok tt)
close_refresh (stop reason why) g generation now = (freeze g reason now, err why)

unfoldable pub refresh_generation :
    Config → Answers → Bool → Guard → String → Guard × Result GuardError (Unit {0})
refresh_generation c a signalled g generation =
    let seen = observe g generation a.observed_at in
    if still_suspected g generation
    then (seen, err verification_wait)
    else close_refresh (read_and_decide c g a generation) (interrupt signalled seen) generation
        a.ended_at

unfoldable pub refresh_identity :
    Config → Answers → Bool → Guard → Result String String → Guard × Result GuardError (Unit {0})
refresh_identity c a signalled g (err why) =
    (freeze g (error_text "read Redis primary identity: " why) a.ended_at, err frozen)
refresh_identity c a signalled g (ok identity) =
    if is_empty (trim_space identity)
    then (freeze g "Redis primary identity is empty" a.ended_at, err frozen)
    else refresh_generation c a signalled g (trim_space identity)

unfoldable pub refresh : Config → Answers → Bool → Guard → Guard × Result GuardError (Unit {0})
refresh c a signalled g = refresh_identity c a signalled g a.identity

unfoldable pub allow_write : Guard → Result GuardError String
allow_write g = if not g.ready || is_empty g.generation then err frozen else ok g.generation
