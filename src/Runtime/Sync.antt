-- ===== src/Runtime/Sync.antt =====
-- runtime_state_machine.go: `DecideRuntimeSyncLotConfig`.
pub mod Passed
use byte_danceliveauctioni.Base.{
  Bool, false, not, ◌||◌, [], ◌∷◌, Option, none, some, any, ◌>>◌, reject_if,
}
use byte_danceliveauctioni.Base.Int.{ℤ, pos, ltb_ℤ, leb_ℤ, eqb_ℤ, add64}
use byte_danceliveauctioni.Base.Text.{str_eq}
use byte_danceliveauctioni.Proto.{sync_lot_config}
use byte_danceliveauctioni.Contract.Checks.{Externals, max_redis_exact_integer}
use byte_danceliveauctioni.Runtime.Types.{
  invalid_argument, config_version_conflict, config_frozen, RuntimeState, SyncLotConfig, Decision,
  runtime_reject,
}
use byte_danceliveauctioni.Runtime.Validate.{
  is_redis_exact_positive, is_runtime_terminal, validate_runtime_config, validate_runtime_state,
}
use byte_danceliveauctioni.Runtime.Fact.{new_runtime_decision}

-- A new cap at or below the price would already be reached.
unfoldable pub cap_is_reached : Option ℤ → ℤ → Bool
cap_is_reached none price = false
cap_is_reached (some cap) price = leb_ℤ cap price

unfoldable pub synced_state : RuntimeState → SyncLotConfig → RuntimeState
synced_state s c = record s { config = c.next_config; version = add64 s.version (pos 1) }

unfoldable pub decide_sync_lot_config : Externals → RuntimeState → SyncLotConfig → Decision
decide_sync_lot_config x s c = do
  validate_runtime_state s
  reject_if (not (is_redis_exact_positive c.now_unix_ms)) (runtime_reject invalid_argument)
  reject_if (not (eqb_ℤ c.expected_config_version s.config.config_version))
      (runtime_reject config_version_conflict)
  validate_runtime_config c.next_config
  reject_if
      (any (
        eqb_ℤ s.config.config_version max_redis_exact_integer
        ∷ not (eqb_ℤ c.next_config.config_version (add64 s.config.config_version (pos 1)))
        ∷ not (str_eq c.next_config.lot_id s.config.lot_id)
        ∷ not (str_eq c.next_config.room_id s.config.room_id)
        ∷ not (str_eq c.next_config.main_account_id s.config.main_account_id)
        ∷ not (str_eq c.next_config.title s.config.title)
        ∷ not (str_eq c.next_config.image_url s.config.image_url)
        ∷ not (str_eq c.next_config.currency s.config.currency)
        ∷ []))
      (runtime_reject config_version_conflict)
  reject_if (is_runtime_terminal s.status) (runtime_reject config_frozen)
  reject_if
      (ltb_ℤ c.next_config.max_extend_count s.extend_count
        || cap_is_reached c.next_config.cap_price_fen s.current_price_fen)
      (runtime_reject config_frozen)
  reject_if (eqb_ℤ s.version max_redis_exact_integer) (runtime_reject invalid_argument)
  new_runtime_decision x c.meta sync_lot_config s.version (synced_state s c) none none c.now_unix_ms
