-- ===== src/Runtime/Machine/Deadline.antt =====
-- How far late bids can push the end of an auction.
use byte_danceliveauctioni.Base.{
  ◌+◌, ◌*◌, ◌^◌, ◌≤◌, ◌<◌, ◌≡◌, refl, ◌∙◌, List, [], ◌∷◌, All, ok, err, arith,
}
use byte_danceliveauctioni.Base.Int.{ℤ, pos_part}
use byte_danceliveauctioni.Contract.Checks.{Externals}
use byte_danceliveauctioni.Runtime.Types.{
  RuntimeState, RuntimeConfig, StartLot, RuntimeDecision, Decision,
}
use byte_danceliveauctioni.Runtime.Fact.{new_runtime_decision}
use byte_danceliveauctioni.Runtime.Start.{decide_start_lot, started_state}
use byte_danceliveauctioni.Runtime.Bid.{raised_state}
use byte_danceliveauctioni.Runtime.Bid.Passed.{decide_place_bid-PassedBid}
use byte_danceliveauctioni.Runtime.Close.{cancelled_state}
use byte_danceliveauctioni.Runtime.Machine.{Command, place, cancel, close, sync, decide, after, run}
use byte_danceliveauctioni.Runtime.Machine.Forward.{run-Progress}
use byte_danceliveauctioni.Runtime.Bid.Effects.{recorded_outcome, decide_place_bid-RaisedBy}
use byte_danceliveauctioni.Runtime.Close.Passed.{
  decide_cancel_lot-PassedCancel, decide_close_if_expired-PassedClose,
}
use byte_danceliveauctioni.Runtime.Machine.Schedule.{
  IsScheduled, same_schedule, decide_start_lot-IsScheduled, settle_or_extend-IsScheduled,
  fail_or_settle-SameSchedule,
}

abbrev IsSync : Command → Type 0
IsSync (sync c) = Unit {0}
IsSync _ = ⊥

-- No command of the list changes the configuration.
abbrev pub NoSync : List Command → Type 0
NoSync = All λ c. ¬ IsSync c

accepted-IsScheduled :
    (x : Externals) (s : RuntimeState) (c : Command) {d : RuntimeDecision}
    → ¬ IsSync c
    → IsScheduled s
    → decide x s c ≡ ok d
    → IsScheduled d.state × (d.state.config ≡ s.config)
unfolding decide raised_state
accepted-IsScheduled x s (place c) {d} n w h =
    let p = decide_place_bid-PassedBid x s c h in
    let (r, e, same, _) = recorded_outcome x s c p.recorded in
    let raised = same_schedule s (raised_state s c) refl refl refl refl w in
    (
      rw same
          (settle_or_extend-IsScheduled (raised_state s c) c p.valid.config p.valid.ends raised e),
      (decide_place_bid-RaisedBy x s c h).config,
    )
accepted-IsScheduled x s (cancel c) {d} n w h =
    let p = decide_cancel_lot-PassedCancel x s c h in
    rw p.state (unfold cancelled_state in (same_schedule s _ refl refl refl refl w, refl))
accepted-IsScheduled x s (close c) {d} n w h =
    let p = decide_close_if_expired-PassedClose x s c h in
    let k = fail_or_settle-SameSchedule s c p.outcome_of in
    rw p.state (same_schedule s p.outcome.0 k.0 k.1 k.2 k.3 w, k.3)
accepted-IsScheduled x s (sync c) {d} n w h = absurd (n tt)

step-IsScheduled :
    (x : Externals) (s : RuntimeState) (c : Command) (r : Decision)
    → ¬ IsSync c
    → IsScheduled s
    → decide x s c ≡ r
    → IsScheduled (after s r) × ((after s r).config ≡ s.config)
step-IsScheduled x s c (ok d) n w h = accepted-IsScheduled x s c n w h
step-IsScheduled x s c (err e) n w h = (w, refl)

run-IsScheduled :
    (x : Externals) (s : RuntimeState) (cs : List Command)
    → NoSync cs
    → IsScheduled s
    → IsScheduled (run x s cs) × ((run x s cs).config ≡ s.config)
unfolding run
run-IsScheduled x s [] n w = (w, refl)
run-IsScheduled x s (c ∷ cs) n w =
    let one = step-IsScheduled x s c (decide x s c) n.0 w refl in
    let more = run-IsScheduled x (after s (decide x s c)) cs n.1 one.0 in (more.0, more.1 ∙ one.1)

started_config :
    (x : Externals) (c : StartLot) {d : RuntimeDecision}
    → decide_start_lot x c ≡ ok d
    → (d.state.config ≡ c.config) × (d.state.started_at_unix_ms ≡ c.now_unix_ms)
unfolding decide_start_lot new_runtime_decision started_state
started_config x c h = ground arith

bound :
    (s : RuntimeState) (k : RuntimeConfig) (now : ℤ)
    → IsScheduled s
    → s.config ≡ k
    → s.started_at_unix_ms ≡ now
    → pos_part s.ends_at_unix_ms
      ≤ pos_part now
        + pos_part k.duration_ms
        + pos_part k.max_extend_count * pos_part k.anti_snipe_extend_ms
bound s k now w c b = rw (← c, ← b) (grind (arith, w.end, w.capped))

-- An auction that is started with a configuration ends at the latest after its duration and all the
-- extensions that the configuration allows, whatever bids, cancellations and closings follow; the
-- number of extensions is an int32.
pub deadline :
    (x : Externals) (c : StartLot) {d : RuntimeDecision} (cs : List Command)
    → pos_part c.config.max_extend_count < 2 ^ 31
    → decide_start_lot x c ≡ ok d
    → NoSync cs
    → pos_part (run x d.state cs).ends_at_unix_ms
      ≤ pos_part c.now_unix_ms
        + pos_part c.config.duration_ms
        + pos_part c.config.max_extend_count * pos_part c.config.anti_snipe_extend_ms
deadline x c {d} cs l h n =
    let (w, same) = run-IsScheduled x d.state cs n (decide_start_lot-IsScheduled x c l h) in
    let e = started_config x c h in
    let b : (run x d.state cs).started_at_unix_ms ≡ c.now_unix_ms =
      (run-Progress x d.state cs).started ∙ e.1 in
    bound (run x d.state cs) c.config c.now_unix_ms w (same ∙ e.0) b
