-- ===== src/Contract/Fact.antt =====
-- contract.go, `ValidateRuntimeFact`.
use byte_danceliveauctioni.Base.{
  ℕ, Bool, true, false, not, ◌||◌, Option, none, some, ltb, err, ◌>>◌, reject_if,
}
use byte_danceliveauctioni.Base.Int.{ℤ, pos, ltb_ℤ, eqb_ℤ, add64}
use byte_danceliveauctioni.Base.Text.{len, str_eq, trim_space}
use byte_danceliveauctioni.Proto.{
  RuntimeCommandType, no_command, LotRuntimeState, RuntimeFact, is_unspecified,
}
use byte_danceliveauctioni.Contract.Checks.{
  Check, Externals, max_runtime_fact_bytes, runtime_schema_version, valid_currency,
  valid_redis_non_negative, valid_redis_positive, valid_required_text, validate_event_id,
  fact_required, unsupported_schema, invalid_event_id, identity_required, trace_id_invalid,
  version_must_advance, occurred_at_invalid, config_version_invalid, command_required,
  state_required, identity_mismatch, status_required, currency_invalid, duration_invalid,
  window_invalid, extend_invalid, encoding_failed, encoded_too_large,
}
use byte_danceliveauctioni.Contract.State.{validate_fact_state}
use byte_danceliveauctioni.Contract.Command.{validate_fact_command}

unfoldable pub valid_optional : (ℤ → Bool) → Option ℤ → Bool
valid_optional p none = false
valid_optional p (some v) = p v

unfoldable pub validate_size : Option ℕ → Check
validate_size none = err encoding_failed
validate_size (some size) = reject_if (ltb max_runtime_fact_bytes size) encoded_too_large

abbrev is_no_command : RuntimeCommandType → Bool
is_no_command no_command = true
is_no_command _ = false

-- The checks of `ValidateRuntimeFact` from `state := fact.StateAfter` on.
unfoldable pub validate_state_after : Externals → RuntimeFact → Option LotRuntimeState → Check
validate_state_after x f none = err state_required
validate_state_after x f (some s) = do
  reject_if (not (str_eq s.lot_id f.lot_id) || not (str_eq s.room_id f.room_id)) identity_mismatch
  reject_if (is_unspecified s.status) status_required
  reject_if (not (valid_currency s.currency)) currency_invalid
  reject_if (not (valid_optional valid_redis_positive s.duration_ms)) duration_invalid
  reject_if (not (valid_optional valid_redis_non_negative s.anti_snipe_window_ms)) window_invalid
  reject_if (not (valid_optional valid_redis_non_negative s.anti_snipe_extend_ms)) extend_invalid
  validate_fact_state s
  validate_fact_command f s
  validate_size (x.encoded_size f)

unfoldable pub validate_runtime_fact : Externals → Option RuntimeFact → Check
validate_runtime_fact x none = err fact_required
validate_runtime_fact x (some f) = do
  reject_if (not (eqb_ℤ f.schema_version runtime_schema_version)) unsupported_schema
  reject_if (not (validate_event_id x f.event_id)) invalid_event_id
  reject_if (not (valid_required_text f.lot_id 64) || not (valid_required_text f.room_id 64))
      identity_required
  reject_if (ltb 128 (len f.trace_id) || not (str_eq (trim_space f.trace_id) f.trace_id))
      trace_id_invalid
  reject_if
      (ltb_ℤ f.prev_lot_version (pos 0)
        || not (eqb_ℤ f.lot_version (add64 f.prev_lot_version (pos 1))))
      version_must_advance
  reject_if (not (valid_redis_positive f.occurred_at_unix_ms)) occurred_at_invalid
  reject_if (not (valid_redis_positive f.config_version)) config_version_invalid
  reject_if (is_no_command f.command) command_required
  validate_state_after x f f.state_after
