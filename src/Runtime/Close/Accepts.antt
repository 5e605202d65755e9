-- ===== src/Runtime/Close/Accepts.antt =====
-- Commands that the guards let through are accepted: the fact of the decision passes the contract.
use byte_danceliveauctioni.Base.{
  ℕ, ◌-◌, ◌^◌, ◌<◌, ◌≡◌, true, false, not, ◌||◌, String, none, some, ok, arith, ltb,
}
use byte_danceliveauctioni.Base.Int.{ℤ, pos, pos_part, ltb_ℤ, eqb_ℤ, add64}
use byte_danceliveauctioni.Base.Text.{str_eq, str_eq_iff, is_empty, is_blank, trim_space}
use byte_danceliveauctioni.Proto.{RuntimeFact, cancel_lot}
use byte_danceliveauctioni.Contract.Checks.{Externals}
use byte_danceliveauctioni.Contract.Fact.{validate_runtime_fact}
use byte_danceliveauctioni.Runtime.Types.{RuntimeState, CommandMeta, CancelLot}
use byte_danceliveauctioni.Runtime.Validate.{
  validate_runtime_state, is_runtime_terminal, is_redis_exact_positive,
}
use byte_danceliveauctioni.Runtime.Validate.Facts.{
  IsExact, IsExactPositive, IsValidState, validate_runtime_state-IsValidState,
}
use byte_danceliveauctioni.Runtime.Fact.{new_runtime_decision, runtime_fact, runtime_state_proto}
use byte_danceliveauctioni.Runtime.Close.{decide_cancel_lot, cancelled_state}
use byte_danceliveauctioni.Base.Text.{len}
use byte_danceliveauctioni.Runtime.Validate.{valid_runtime_currency}
use byte_danceliveauctioni.Contract.Checks.{
  valid_required_text, valid_redis_positive, valid_redis_non_negative, validate_event_id,
  valid_currency,
}
use byte_danceliveauctioni.Contract.State.{
  validate_fact_state, validate_status_fields, valid_cap_price,
}
use byte_danceliveauctioni.Contract.Command.{
  validate_fact_command, validate_command_result, validate_accepted_bid, validate_order_draft,
}
use byte_danceliveauctioni.Contract.Fact.{validate_state_after, validate_size, valid_optional}

non_negative_of_positive :
    (v : ℤ) → valid_redis_positive v ≡ true → valid_redis_non_negative v ≡ true
unfolding valid_redis_positive valid_redis_non_negative
non_negative_of_positive v h = ground arith

len_of_required : (s : String) (n : ℕ) → valid_required_text s n ≡ true → ltb n (len s) ≡ false
unfolding valid_required_text
len_of_required s n h = ground arith

not_empty_of_required : (s : String) (n : ℕ) → valid_required_text s n ≡ true → is_empty s ≡ false
unfolding valid_required_text
not_empty_of_required s n h = ground arith

cancelled-validate_fact_state :
    (s : RuntimeState) (c : CancelLot)
    → validate_fact_state (runtime_state_proto s) ≡ ok tt
    → valid_required_text (trim_space c.reason) 512 ≡ true
    → valid_redis_positive c.now_unix_ms ≡ true
    → validate_fact_state (runtime_state_proto (cancelled_state s c)) ≡ ok tt
unfolding validate_fact_state validate_status_fields runtime_state_proto cancelled_state
    valid_cap_price
cancelled-validate_fact_state s c h r n =
    let a = non_negative_of_positive c.now_unix_ms n in
    let b = len_of_required (trim_space c.reason) 512 r in ground arith

-- What the contract asks of the identifiers that a command hands to its fact, and of the state that
-- the last decision wrote.
pub record IsPublishable (x : Externals) (s : RuntimeState) (meta : CommandMeta) : Type 0 where
  pub event : validate_event_id x meta.event_id ≡ true
  pub trace :
      (ltb 128 (len meta.trace_id) || not (str_eq (trim_space meta.trace_id) meta.trace_id)) ≡ false
  pub lot : valid_required_text s.config.lot_id 64 ≡ true
  pub room : valid_required_text s.config.room_id 64 ≡ true
  pub state : validate_fact_state (runtime_state_proto s) ≡ ok tt

version_advances :
    (v : ℤ)
    → IsExact v
    → (ltb_ℤ v (pos 0) || not (eqb_ℤ (add64 v (pos 1)) (add64 v (pos 1)))) ≡ false
version_advances v e = ground (arith, e)

test_of_positive : (v : ℤ) → IsExactPositive v → valid_redis_positive v ≡ true
unfolding valid_redis_positive
test_of_positive v h = ground (arith, h)

test_of_exact : (v : ℤ) → IsExact v → valid_redis_non_negative v ≡ true
unfolding valid_redis_non_negative
test_of_exact v h = ground (arith, h)

pub cancel_fact : RuntimeState → CancelLot → RuntimeFact
cancel_fact s c =
    runtime_fact c.meta cancel_lot s.version (cancelled_state s c) none none c.now_unix_ms

cancel_fact_passes :
    (x : Externals) (s : RuntimeState) (c : CancelLot)
    → IsValidState s
    → IsPublishable x s c.meta
    → valid_required_text (trim_space c.reason) 512 ≡ true
    → valid_redis_positive c.now_unix_ms ≡ true
    → validate_size (x.encoded_size (cancel_fact s c)) ≡ ok tt
    → validate_runtime_fact x (some (cancel_fact s c)) ≡ ok tt
unfolding validate_runtime_fact validate_state_after validate_fact_command validate_command_result
    validate_accepted_bid validate_order_draft runtime_fact runtime_state_proto cancelled_state
    valid_optional valid_currency valid_runtime_currency cancel_fact
cancel_fact_passes x s c v p r n z =
    let passed = cancelled-validate_fact_state s c p.state r n in
    let advances = version_advances s.version v.version in
    ground (
      arith,
      passed,
      advances,
      v.config.currency,
      test_of_positive s.config.config_version v.config.config_version,
      test_of_positive s.config.duration_ms v.config.duration,
      test_of_exact s.config.anti_snipe_window_ms v.config.window,
      test_of_exact s.config.anti_snipe_extend_ms v.config.extend,
      str_eq_iff s.config.lot_id s.config.lot_id,
      str_eq_iff s.config.room_id s.config.room_id,
    )

-- A running auction in a valid state, whose version is not exhausted, is cancelled at a positive time
-- by an operator with a reason that is not blank, fits 512 bytes, if the identifiers of the fact are
-- well formed and its encoding fits: the decision is the cancelled state and its fact.
pub decide_cancel_lot-accepts :
    (x : Externals) (s : RuntimeState) (c : CancelLot)
    → validate_runtime_state s ≡ ok tt
    → is_runtime_terminal s.status ≡ false
    → pos_part s.version < 2 ^ 53 - 1
    → IsExactPositive c.now_unix_ms
    → valid_required_text (trim_space c.reason) 512 ≡ true
    → is_blank c.operator_id ≡ false
    → IsPublishable x s c.meta
    → validate_size (x.encoded_size (cancel_fact s c)) ≡ ok tt
    → decide_cancel_lot x s c ≡ ok (record { state = cancelled_state s c; fact = cancel_fact s c })
unfolding decide_cancel_lot new_runtime_decision cancel_fact is_redis_exact_positive
decide_cancel_lot-accepts x s c valid running left now reason operator p z =
    let v = validate_runtime_state-IsValidState s valid in
    let passes = cancel_fact_passes x s c v p reason (test_of_positive c.now_unix_ms now) z in
    let named = not_empty_of_required (trim_space c.reason) 512 reason in
    ground (arith, passes, named, now, v.version, valid, left)
