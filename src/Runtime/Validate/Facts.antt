-- ===== src/Runtime/Validate/Facts.antt =====
-- What a configuration and a state that passed their validation satisfy.
use byte_danceliveauctioni.Base.{◌+◌, ◌^◌, ◌≤◌, ◌<◌, ◌≡◌, true, false, not, ok, all, length, arith}
use byte_danceliveauctioni.Base.Int.{ℤ, pos_part, neg_part, sub64_exact}
use byte_danceliveauctioni.Contract.Checks.{max_redis_exact_integer}
use byte_danceliveauctioni.Runtime.Types.{RuntimeConfig, RuntimeState, max_runtime_ranking_limit}
use byte_danceliveauctioni.Runtime.Validate.{
  valid_runtime_currency, is_redis_exact_non_negative, is_redis_exact_positive,
  validate_runtime_config, validate_runtime_state, valid_entry, valid_cap,
}

-- In the range of exact integers, and not negative.
pub record IsExact (v : ℤ) : Type 0 where
  pub not_negative : neg_part v ≡ 0
  pub in_range : pos_part v < 2 ^ 53

pub IsExact-of_test : (v : ℤ) → not (is_redis_exact_non_negative v) ≡ false → IsExact v
unfolding is_redis_exact_non_negative
IsExact-of_test v h = ground arith

pub record IsExactPositive (v : ℤ) : Type 0 where
  pub not_negative : neg_part v ≡ 0
  pub is_positive : 0 < pos_part v
  pub in_range : pos_part v < 2 ^ 53

pub IsExactPositive-of_test : (v : ℤ) → not (is_redis_exact_positive v) ≡ false → IsExactPositive v
unfolding is_redis_exact_positive
IsExactPositive-of_test v h = ground arith

-- A configuration that passed `validateRuntimeConfig`.
pub record IsValidConfig (c : RuntimeConfig) : Type 0 where
  pub config_version : IsExactPositive c.config_version
  pub start_price : IsExact c.start_price_fen
  pub min_increment : IsExactPositive c.min_increment_fen
  pub duration : IsExactPositive c.duration_ms
  pub window : IsExact c.anti_snipe_window_ms
  pub extend : IsExact c.anti_snipe_extend_ms
  pub max_extend : neg_part c.max_extend_count ≡ 0
  pub bid_fits : pos_part c.start_price_fen + pos_part c.min_increment_fen < 2 ^ 53
  pub currency : valid_runtime_currency c.currency ≡ true
  pub cap : valid_cap c.start_price_fen c.cap_price_fen ≡ true

pub validate_runtime_config-IsValidConfig :
    (c : RuntimeConfig) → validate_runtime_config c ≡ ok tt → IsValidConfig c
unfolding validate_runtime_config
validate_runtime_config-IsValidConfig c h = record {
  config_version = IsExactPositive-of_test _ (ground arith);
  start_price = IsExact-of_test _ (ground arith);
  min_increment = IsExactPositive-of_test _ (ground arith);
  duration = IsExactPositive-of_test _ (ground arith);
  window = IsExact-of_test _ (ground arith);
  extend = IsExact-of_test _ (ground arith);
  max_extend = ground arith;
  bid_fits = ground (
    arith,
    IsExact-of_test c.start_price_fen,
    IsExactPositive-of_test c.min_increment_fen,
    sub64_exact max_redis_exact_integer c.min_increment_fen,
  );
  currency = ground arith;
  cap = ground arith;
}

-- A state that passed `validateRuntimeState`.
pub record IsValidState (s : RuntimeState) : Type 0 where
  pub config : IsValidConfig s.config
  pub version : IsExact s.version
  pub price : IsExact s.current_price_fen
  pub started : IsExact s.started_at_unix_ms
  pub ends : IsExact s.ends_at_unix_ms
  pub settled_at : IsExact s.settled_at_unix_ms
  pub cancelled_at : IsExact s.cancelled_at_unix_ms
  pub final_price : IsExact s.final_price_fen
  pub bid_count : IsExact s.bid_count
  pub extend_count : neg_part s.extend_count ≡ 0
  pub extend_capped : pos_part s.extend_count ≤ pos_part s.config.max_extend_count
  pub ranking_length : length s.top_ranking ≤ max_runtime_ranking_limit
  pub entries : all valid_entry s.top_ranking ≡ true

pub validate_runtime_state-IsValidState :
    (s : RuntimeState) → validate_runtime_state s ≡ ok tt → IsValidState s
unfolding validate_runtime_state
validate_runtime_state-IsValidState s h =
    let v : IsValidConfig s.config =
      validate_runtime_config-IsValidConfig s.config (ground arith) in
    record {
      config = v;
      version = IsExact-of_test _ (ground arith);
      price = IsExact-of_test _ (ground arith);
      started = IsExact-of_test _ (ground arith);
      ends = IsExact-of_test _ (ground arith);
      settled_at = IsExact-of_test _ (ground arith);
      cancelled_at = IsExact-of_test _ (ground arith);
      final_price = IsExact-of_test _ (ground arith);
      bid_count = IsExact-of_test _ (ground arith);
      extend_count = ground arith;
      extend_capped = ground (arith, v.max_extend);
      ranking_length = ground arith;
      entries = ground arith;
    }
