-- ===== src/Runtime/Validate.antt =====
-- runtime_state_machine.go: `validateRuntimeConfig` and `validateRuntimeState`.
pub mod Facts
use byte_danceliveauctioni.Base.{
  Bool, true, false, not, ◌&&◌, ◌||◌, String, [], ◌∷◌, Option, none, some, leb, ltb, ◌==◌, any, all,
  length, Result, ◌>>◌, reject_if,
}
use byte_danceliveauctioni.Base.Int.{ℤ, pos, ltb_ℤ, leb_ℤ, sub64}
use byte_danceliveauctioni.Base.Text.{codes, len, is_blank}
use byte_danceliveauctioni.Proto.{
  LotStatus, draft, ready, queued, live, extended, settled, cancelled, failed,
}
use byte_danceliveauctioni.Contract.Checks.{max_redis_exact_integer}
use byte_danceliveauctioni.Runtime.Types.{
  RuntimeError, RuntimeConfig, RuntimeState, RankingEntry, runtime_reject, invalid_argument,
  max_runtime_ranking_limit,
}

unfoldable pub is_redis_exact_non_negative : ℤ → Bool
is_redis_exact_non_negative v = leb_ℤ (pos 0) v && leb_ℤ v max_redis_exact_integer

unfoldable pub is_redis_exact_positive : ℤ → Bool
is_redis_exact_positive v = ltb_ℤ (pos 0) v && leb_ℤ v max_redis_exact_integer

unfoldable pub valid_runtime_currency : String → Bool
valid_runtime_currency value = len value == 3 && all (λ c. leb b'A' c && leb c b'Z') (codes value)

unfoldable pub valid_runtime_status : LotStatus → Bool
valid_runtime_status draft = true
valid_runtime_status ready = true
valid_runtime_status queued = true
valid_runtime_status live = true
valid_runtime_status extended = true
valid_runtime_status settled = true
valid_runtime_status cancelled = true
valid_runtime_status failed = true
valid_runtime_status _ = false

unfoldable pub is_runtime_terminal : LotStatus → Bool
is_runtime_terminal settled = true
is_runtime_terminal cancelled = true
is_runtime_terminal failed = true
is_runtime_terminal _ = false

-- A set cap is in range and at least the start price.
unfoldable pub valid_cap : ℤ → Option ℤ → Bool
valid_cap start none = true
valid_cap start (some cap) = is_redis_exact_non_negative cap && not (ltb_ℤ cap start)

unfoldable pub validate_runtime_config : RuntimeConfig → Result RuntimeError (Unit {0})
validate_runtime_config c = do
  reject_if
      (any (
        is_blank c.lot_id
        ∷ is_blank c.room_id
        ∷ is_blank c.main_account_id
        ∷ is_blank c.title
        ∷ not (is_redis_exact_positive c.config_version)
        ∷ not (is_redis_exact_non_negative c.start_price_fen)
        ∷ not (is_redis_exact_positive c.min_increment_fen)
        ∷ not (is_redis_exact_positive c.duration_ms)
        ∷ not (is_redis_exact_non_negative c.anti_snipe_window_ms)
        ∷ not (is_redis_exact_non_negative c.anti_snipe_extend_ms)
        ∷ ltb_ℤ c.max_extend_count (pos 0)
        ∷ []))
      (runtime_reject invalid_argument)
  reject_if
      (not (valid_runtime_currency c.currency)
        || ltb_ℤ (sub64 max_redis_exact_integer c.min_increment_fen) c.start_price_fen)
      (runtime_reject invalid_argument)
  reject_if (not (valid_cap c.start_price_fen c.cap_price_fen)) (runtime_reject invalid_argument)

unfoldable pub valid_entry : RankingEntry → Bool
valid_entry e = not (
    any (
      is_blank e.user_id
      ∷ not (is_redis_exact_non_negative e.amount_fen)
      ∷ not (is_redis_exact_positive e.bid_at_unix_ms)
      ∷ []))

unfoldable pub validate_runtime_state : RuntimeState → Result RuntimeError (Unit {0})
validate_runtime_state s = do
  validate_runtime_config s.config
  reject_if
      (any (
        not (valid_runtime_status s.status)
        ∷ not (is_redis_exact_non_negative s.version)
        ∷ not (is_redis_exact_non_negative s.current_price_fen)
        ∷ not (is_redis_exact_non_negative s.started_at_unix_ms)
        ∷ not (is_redis_exact_non_negative s.ends_at_unix_ms)
        ∷ not (is_redis_exact_non_negative s.settled_at_unix_ms)
        ∷ not (is_redis_exact_non_negative s.cancelled_at_unix_ms)
        ∷ not (is_redis_exact_non_negative s.final_price_fen)
        ∷ not (is_redis_exact_non_negative s.bid_count)
        ∷ ltb_ℤ s.extend_count (pos 0)
        ∷ ltb_ℤ s.config.max_extend_count s.extend_count
        ∷ ltb max_runtime_ranking_limit (length s.top_ranking)
        ∷ []))
      (runtime_reject invalid_argument)
  reject_if (not (all valid_entry s.top_ranking)) (runtime_reject invalid_argument)
