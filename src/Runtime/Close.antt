-- ===== src/Runtime/Close.antt =====
-- runtime_state_machine.go: `DecideRuntimeCancelLot` and `DecideRuntimeCloseIfExpired`.
pub mod Passed
pub mod Accepts
use byte_danceliveauctioni.Base.{
  not, ◌||◌, [], ◌∷◌, none, some, any, if◌then◌else◌, ok, ◌>>◌, ◌>>=◌, reject_if,
}
use byte_danceliveauctioni.Base.Int.{ℤ, pos, ltb_ℤ, leb_ℤ, eqb_ℤ, add64}
use byte_danceliveauctioni.Base.Text.{is_empty, is_blank, trim_space}
use byte_danceliveauctioni.Proto.{cancelled, failed, cancel_lot, close_if_expired, is_open}
use byte_danceliveauctioni.Contract.Checks.{Externals, max_redis_exact_integer}
use byte_danceliveauctioni.Runtime.Types.{
  invalid_argument, not_live, not_expired, already_terminal, expired_no_bid_reason, rejected,
  RuntimeState, CancelLot, CloseIfExpired, Decision, runtime_reject,
}
use byte_danceliveauctioni.Runtime.Validate.{
  is_redis_exact_positive, is_runtime_terminal, validate_runtime_state,
}
use byte_danceliveauctioni.Runtime.Fact.{runtime_order_draft, new_runtime_decision}
use byte_danceliveauctioni.Runtime.Settle.{settle_runtime_state, Outcome}

unfoldable pub cancelled_state : RuntimeState → CancelLot → RuntimeState
cancelled_state s c = record s {
  status = cancelled;
  version = add64 s.version (pos 1);
  cancel_reason = trim_space c.reason;
  cancelled_at_unix_ms = c.now_unix_ms;
}

unfoldable pub decide_cancel_lot : Externals → RuntimeState → CancelLot → Decision
decide_cancel_lot x s c = do
  validate_runtime_state s
  reject_if
      (any (
        not (is_redis_exact_positive c.now_unix_ms)
        ∷ is_empty (trim_space c.reason)
        ∷ is_blank c.operator_id
        ∷ eqb_ℤ s.version max_redis_exact_integer
        ∷ []))
      (runtime_reject invalid_argument)
  reject_if (is_runtime_terminal s.status) (runtime_reject already_terminal)
  new_runtime_decision x c.meta cancel_lot s.version (cancelled_state s c) none none c.now_unix_ms

unfoldable pub failed_state : RuntimeState → ℤ → RuntimeState
failed_state s now = record s {
  status = failed;
  version = add64 s.version (pos 1);
  cancel_reason = expired_no_bid_reason;
  cancelled_at_unix_ms = now;
}

-- The expired auction fails without a leader, and is settled to the leader otherwise.
unfoldable pub fail_or_settle : RuntimeState → CloseIfExpired → Outcome
fail_or_settle s c =
    if is_empty s.leading_user_id
    then ok (failed_state s c.now_unix_ms, none)
    else (reject_if (is_blank c.order_id) (runtime_reject invalid_argument)
        >> (let next =
              settle_runtime_state (record s { version = add64 s.version (pos 1) })
                s.leading_user_id s.leading_nickname s.current_price_fen c.order_id c.now_unix_ms in
            ok (
              next,
              some (
                  runtime_order_draft next c.order_id s.leading_user_id s.leading_nickname
                    s.current_price_fen c.now_unix_ms),
            )))

unfoldable pub decide_close_if_expired : Externals → RuntimeState → CloseIfExpired → Decision
decide_close_if_expired x s c = do
  validate_runtime_state s
  reject_if (not (is_redis_exact_positive c.now_unix_ms) || eqb_ℤ s.version max_redis_exact_integer)
      (runtime_reject invalid_argument)
  reject_if (not (is_open s.status)) (runtime_reject not_live)
  reject_if (leb_ℤ s.ends_at_unix_ms (pos 0) || ltb_ℤ c.now_unix_ms s.ends_at_unix_ms) (
      rejected (record {
        code = not_expired;
        ends_at_unix_ms = s.ends_at_unix_ms;
        current_price = pos 0;
        min_increment = pos 0;
        minimum_bid = pos 0;
        lot_version = pos 0;
      }))
  r ← fail_or_settle s c
  new_runtime_decision x c.meta close_if_expired s.version r.0 none r.1 c.now_unix_ms
