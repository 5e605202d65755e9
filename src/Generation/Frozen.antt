-- ===== src/Generation/Frozen.antt =====
-- After a primary switch, refreshes that see the old primary keep the guard frozen.
use byte_danceliveauctioni.Base.{
  ◌≡◌, refl, ◌⊎◌, inl, inr, Bool, true, false, String, List, [], ◌∷◌, Result, ok, err, arith, All,
}
use byte_danceliveauctioni.Base.Text.{str_eq, str_eq_iff, is_empty, trim_space}
use byte_danceliveauctioni.Generation.Refresh.{
  Guard, Config, Answers, frozen, refresh, refresh_identity, refresh_generation, observe,
  still_suspected, signal_switch_master, freeze, allow_write,
}

-- What Run serves: a refresh, which a signal may interrupt, or a signal.
pub data Event : Type 0 where
  refreshed : Bool → Answers → Event
  switched : Event

unfoldable pub step : Config → Event → Guard → Guard
step c (refreshed signalled a) g = (refresh c a signalled g).0
step c switched g = signal_switch_master g

unfoldable pub run : Config → List Event → Guard → Guard
run c [] g = g
run c (e ∷ events) g = run c events (step c e g)

-- The refresh fails to read the primary, or reads the old one.
abbrev pub SeesAnswer : String → Result String String → Type 0
SeesAnswer old (err why) = Unit
SeesAnswer old (ok identity) = (is_empty (trim_space identity) ≡ true) ⊎ (trim_space identity ≡ old)

abbrev pub SeesOnly : String → Event → Type 0
SeesOnly old (refreshed signalled a) = SeesAnswer old a.identity
SeesOnly old switched = Unit

-- The guard is frozen and suspects its generation.
pub record Suspects (old : String) (g : Guard) : Type 0 where
  pub unready : g.ready ≡ false
  pub generation : g.generation ≡ old
  pub suspected : g.suspected ≡ old

refresh_generation-Suspects :
    (c : Config) (a : Answers) (signalled : Bool) (g : Guard) (old : String)
    → is_empty old ≡ false
    → Suspects old g
    → Suspects old (refresh_generation c a signalled g old).0
unfolding refresh_generation observe still_suspected
refresh_generation-Suspects c a signalled g old n s =
    let same : str_eq old old ≡ true = (str_eq_iff old old).1 refl in ground arith

refresh_identity-Suspects :
    (c : Config) (a : Answers) (signalled : Bool) (g : Guard) (old : String)
    (answer : Result String String)
    → is_empty old ≡ false
    → SeesAnswer old answer
    → Suspects old g
    → Suspects old (refresh_identity c a signalled g answer).0
unfolding refresh_identity freeze
refresh_identity-Suspects c a signalled g old (err why) n e s = ground arith
refresh_identity-Suspects c a signalled g old (ok identity) n (inl blank) s = ground arith
refresh_identity-Suspects c a signalled g old (ok identity) n (inr same) s =
    rw same (rw n (refresh_generation-Suspects c a signalled g old n s))

step-Suspects :
    (c : Config) (e : Event) (g : Guard) (old : String)
    → is_empty old ≡ false
    → SeesOnly old e
    → Suspects old g
    → Suspects old (step c e g)
unfolding step refresh signal_switch_master
step-Suspects c (refreshed signalled a) g old n e s =
    refresh_identity-Suspects c a signalled g old a.identity n e s
step-Suspects c switched g old n e s = ground arith

run-Suspects :
    (c : Config) (events : List Event) (g : Guard) (old : String)
    → is_empty old ≡ false
    → All (SeesOnly old) events
    → Suspects old g
    → Suspects old (run c events g)
unfolding run
run-Suspects c [] g old n h s = s
run-Suspects c (e ∷ events) g old n h s =
    run-Suspects c events (step c e g) old n h.1 (step-Suspects c e g old n h.0 s)

-- For every guard with a generation and events: after SignalSwitchMaster, refreshes that start later and
-- fail to read the primary or read the old generation, and more signals, leave the guard frozen, and
-- AllowWrite refuses.
pub run-allow_write :
    (c : Config) (events : List Event) (g : Guard)
    → is_empty g.generation ≡ false
    → All (SeesOnly g.generation) events
    → allow_write (run c events (signal_switch_master g)) ≡ err frozen
unfolding allow_write signal_switch_master
run-allow_write c events g n h =
    let s =
      run-Suspects c events (signal_switch_master g) g.generation n h
        (record { unready = refl; generation = refl; suspected = refl }) in
    rw s.unready refl
