-- ===== src/Runtime/Close/Passed.antt =====
-- What an accepted cancellation or closing tells: the guards that it has passed.
use byte_danceliveauctioni.Base.{
  ◌-◌, ◌^◌, ◌≤◌, ◌<◌, ◌≡◌, true, false, Option, none, ok, ◌>>=◌, >>=-eq-ok, arith,
}
use byte_danceliveauctioni.Base.Int.{pos_part}
use byte_danceliveauctioni.Base.Text.{is_empty, trim_space}
use byte_danceliveauctioni.Proto.{OrderDraft, is_open, close_if_expired}
use byte_danceliveauctioni.Contract.Checks.{Externals}
use byte_danceliveauctioni.Runtime.Types.{RuntimeState, CancelLot, CloseIfExpired, RuntimeDecision}
use byte_danceliveauctioni.Runtime.Validate.{is_runtime_terminal}
use byte_danceliveauctioni.Runtime.Validate.Facts.{
  IsExactPositive, IsValidState, validate_runtime_state-IsValidState, IsExactPositive-of_test,
}
use byte_danceliveauctioni.Runtime.Fact.{new_runtime_decision, runtime_fact}
use byte_danceliveauctioni.Runtime.Fact.Built.{new_runtime_decision-eq-ok}
use byte_danceliveauctioni.Runtime.Close.{
  decide_cancel_lot, cancelled_state, decide_close_if_expired, fail_or_settle,
}

pub record PassedCancel (x : Externals) (s : RuntimeState) (c : CancelLot) (d : RuntimeDecision)
    : Type 0 where
  pub valid : IsValidState s
  pub now : IsExactPositive c.now_unix_ms
  pub reason : is_empty (trim_space c.reason) ≡ false
  pub version_left : pos_part s.version < 2 ^ 53 - 1
  pub running : is_runtime_terminal s.status ≡ false
  pub state : d.state ≡ cancelled_state s c

pub decide_cancel_lot-PassedCancel :
    (x : Externals) (s : RuntimeState) (c : CancelLot) {d : RuntimeDecision}
    → decide_cancel_lot x s c ≡ ok d
    → PassedCancel x s c d
unfolding decide_cancel_lot new_runtime_decision
decide_cancel_lot-PassedCancel x s c h =
    let v : IsValidState s = validate_runtime_state-IsValidState s (ground arith) in
    record {
      valid = v;
      now = IsExactPositive-of_test _ (ground arith);
      reason = ground arith;
      version_left = ground (arith, v.version);
      running = ground arith;
      state = ground arith;
    }

pub record PassedClose (x : Externals) (s : RuntimeState) (c : CloseIfExpired) (d : RuntimeDecision)
    : Type 0 where
  pub valid : IsValidState s
  pub now : IsExactPositive c.now_unix_ms
  pub version_left : pos_part s.version < 2 ^ 53 - 1
  pub open_status : is_open s.status ≡ true
  pub ended : pos_part s.ends_at_unix_ms ≤ pos_part c.now_unix_ms
  pub has_end : 0 < pos_part s.ends_at_unix_ms
  pub outcome : RuntimeState × Option OrderDraft
  pub outcome_of : fail_or_settle s c ≡ ok outcome
  pub state : d.state ≡ outcome.0
  pub fact :
      d.fact ≡ runtime_fact c.meta close_if_expired s.version outcome.0 none outcome.1 c.now_unix_ms

pub decide_close_if_expired-PassedClose :
    (x : Externals) (s : RuntimeState) (c : CloseIfExpired) {d : RuntimeDecision}
    → decide_close_if_expired x s c ≡ ok d
    → PassedClose x s c d
unfolding decide_close_if_expired
decide_close_if_expired-PassedClose x s c {d} h =
    let v : IsValidState s = validate_runtime_state-IsValidState s (ground arith) in
    let now : IsExactPositive c.now_unix_ms = IsExactPositive-of_test _ (ground arith) in
    let rest : (fail_or_settle s c >>= λ r.
    new_runtime_decision x c.meta close_if_expired s.version r.0 none r.1 c.now_unix_ms)
        ≡ ok d =
      ground arith in
    let (r, e, k) = >>=-eq-ok (fail_or_settle s c) _ rest in
    let built =
      new_runtime_decision-eq-ok x c.meta close_if_expired s.version r.0 none r.1 c.now_unix_ms k in
    record {
      valid = v;
      now = now;
      version_left = ground (arith, v.version);
      open_status = ground arith;
      ended = ground (arith, v.ends, now);
      has_end = ground (arith, v.ends);
      outcome = r;
      outcome_of = e;
      state = built.0;
      fact = built.1;
    }
