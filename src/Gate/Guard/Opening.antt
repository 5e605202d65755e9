-- ===== src/Gate/Guard/Opening.antt =====
-- When the gate is open.
use byte_danceliveauctioni.Base.{
  ◌≡◌, refl, ◌⊎◌, inl, inr, ℕ, ◌+◌, ◌≤◌, Bool, true, false, List, [], ◌∷◌, Bool-cases, arith,
  if◌then◌else◌, Result, ok, err,
}
use byte_danceliveauctioni.Gate.Snapshot.{Reason, Config, Snapshot, is_healthy}
use byte_danceliveauctioni.Gate.Guard.{
  Guard, Closed, new_guard, Readings, judge, conclude, unless_cancelled, refresh, publish,
  published, polls_before, polls_after, freeze, effective, status, snapshot_age,
}

-- What the gate serves: a refresh, or a question for its status.
pub data Event : Type 0 where
  refreshed : Readings → Event
  asked : ℕ → Event

unfoldable pub step : Config → Event → Guard → Guard
step c (refreshed r) g = (refresh c r g).0
step c (asked now) g = (status c g now).0

unfoldable pub run : Config → List Event → Guard → Guard
run c [] g = g
run c (e ∷ events) g = run c events (step c e g)

-- The healthy refreshes at the end of the events, after n before them: an unhealthy or failed refresh
-- sets the count back, a cancelled one leaves it.
abbrev pub is_healthy_result : Result Reason Snapshot → Bool
is_healthy_result (err reason) = false
is_healthy_result (ok s) = is_healthy s.reason

unfoldable pub counted : Config → Event → ℕ → ℕ
counted c (refreshed r) n =
    if r.cancelled then n else if is_healthy_result (judge c r) then n + 1 else 0
counted c (asked now) n = n

unfoldable pub healthy_streak : Config → List Event → ℕ → ℕ
healthy_streak c [] n = n
healthy_streak c (e ∷ events) n = healthy_streak c events (counted c e n)

-- The gate has counted no more than the streak, and is open only after enough healthy refreshes.
record IsCounted (c : Config) (n : ℕ) (g : Guard) : Type 0 where
  bounded : g.consecutive_healthy ≤ n
  opened : (g.snapshot.ready ≡ false) ⊎ (c.healthy_polls_to_open ≤ n)

-- Time only closes the gate.
effective-ready :
    (c : Config) (s : Snapshot) (now : ℕ)
    → (effective c s now).ready ≡ true
    → (s.ready ≡ true) × (snapshot_age s now ≤ c.max_staleness)
unfolding effective
effective-ready c s now h = ground arith

polls_after-le :
    (c : Config) (n : ℕ) (g : Guard) (now : ℕ)
    → IsCounted c n g
    → polls_after c g (effective c g.snapshot now) ≤ n + 1
unfolding polls_after polls_before
polls_after-le c n g now i = elim (Bool-cases (effective c g.snapshot now).ready) [
  | inl open_before ↦ let k = effective-ready c g.snapshot now open_before in ground arith
  | inr closed_before ↦ ground arith
]

publish-IsCounted :
    (c : Config) (n : ℕ) (g : Guard) (candidate : Snapshot) (now : ℕ)
    → IsCounted c n g
    → IsCounted c (if is_healthy candidate.reason then n + 1 else 0) (publish c g candidate now)
unfolding publish published
publish-IsCounted c n g candidate now i = let k = polls_after-le c n g now i in ground arith

conclude-IsCounted :
    (c : Config) (n : ℕ) (g : Guard) (now : ℕ) (r : Result Reason Snapshot)
    → IsCounted c n g
    → IsCounted c (if is_healthy_result r then n + 1 else 0) (conclude c g now r).0
unfolding conclude freeze
conclude-IsCounted c n g now (err reason) i = ground arith
conclude-IsCounted c n g now (ok s) i = publish-IsCounted c n g s now i

status-IsCounted :
    (c : Config) (n : ℕ) (g : Guard) (now : ℕ) → IsCounted c n g → IsCounted c n (status c g now).0
unfolding status effective
status-IsCounted c n g now i = ground arith

unless-IsCounted :
    (c : Config) (n m : ℕ) (g : Guard) (next : Guard × Result Closed (Unit {0})) (cancelled : Bool)
    → IsCounted c n g
    → IsCounted c m next.0
    → IsCounted c (if cancelled then n else m) (unless_cancelled cancelled g next).0
unless-IsCounted c n m g next true i j = i
unless-IsCounted c n m g next false i j = j

step-IsCounted :
    (c : Config) (e : Event) (n : ℕ) (g : Guard)
    → IsCounted c n g
    → IsCounted c (counted c e n) (step c e g)
unfolding step counted refresh
step-IsCounted c (asked now) n g i = status-IsCounted c n g now i
step-IsCounted c (refreshed r) n g i =
    unless-IsCounted c n (if is_healthy_result (judge c r) then n + 1 else 0) g
      (conclude c g r.published_at (judge c r)) r.cancelled i
      (conclude-IsCounted c n g r.published_at (judge c r) i)

run-IsCounted :
    (c : Config) (events : List Event) (n : ℕ) (g : Guard)
    → IsCounted c n g
    → IsCounted c (healthy_streak c events n) (run c events g)
unfolding run healthy_streak
run-IsCounted c [] n g i = i
run-IsCounted c (e ∷ events) n g i =
    run-IsCounted c events (counted c e n) (step c e g) (step-IsCounted c e n g i)

status-ready :
    (c : Config) (g : Guard) (now : ℕ)
    → (status c g now).1.ready ≡ true
    → (g.snapshot.ready ≡ true) × (snapshot_age g.snapshot now ≤ c.max_staleness)
unfolding status
status-ready c g now h = effective-ready c g.snapshot now (ground arith)

-- For every configuration, events from a new gate, and time: if the status is ready then, then the events
-- end with at least the configured number of refreshes that found all healthy, cancelled ones and questions
-- apart, and the last successful check is no older than the staleness allows.
pub run-status-ready :
    (c : Config) (events : List Event) (now : ℕ)
    → (status c (run c events new_guard) now).1.ready ≡ true
    → (c.healthy_polls_to_open ≤ healthy_streak c events 0)
      × (snapshot_age (run c events new_guard).snapshot now ≤ c.max_staleness)
run-status-ready c events now h =
    let i =
      run-IsCounted c events 0 new_guard (record { bounded = omega arith; opened = inl refl }) in
    let k = status-ready c (run c events new_guard) now h in (ground arith, k.1)
