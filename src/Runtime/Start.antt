-- ===== src/Runtime/Start.antt =====
-- runtime_state_machine.go: `DecideRuntimeStartLot`.
use byte_danceliveauctioni.Base.{Bool, true, false, not, [], ◌∷◌, none, any, ◌>>◌, reject_if}
use byte_danceliveauctioni.Base.Int.{pos, ltb_ℤ, eqb_ℤ, add64, sub64}
use byte_danceliveauctioni.Proto.{LotStatus, draft, queued, live, start_lot}
use byte_danceliveauctioni.Contract.Checks.{Externals, max_redis_exact_integer}
use byte_danceliveauctioni.Runtime.Types.{
  invalid_argument, state_already_exists, RuntimeState, StartLot, Decision, runtime_reject,
}
use byte_danceliveauctioni.Runtime.Validate.{
  is_redis_exact_non_negative, is_redis_exact_positive, validate_runtime_config,
}
use byte_danceliveauctioni.Runtime.Fact.{new_runtime_decision}

unfoldable pub may_start : LotStatus → Bool
may_start draft = true
may_start queued = true
may_start _ = false

unfoldable pub started_state : StartLot → RuntimeState
started_state c = record {
  config = c.config;
  status = live;
  version = add64 c.previous_lot_version (pos 1);
  current_price_fen = c.config.start_price_fen;
  leading_user_id = "";
  leading_nickname = "";
  winner_user_id = "";
  winner_nickname = "";
  final_price_fen = pos 0;
  started_at_unix_ms = c.now_unix_ms;
  ends_at_unix_ms = add64 c.now_unix_ms c.config.duration_ms;
  settled_at_unix_ms = pos 0;
  cancelled_at_unix_ms = pos 0;
  cancel_reason = "";
  bid_count = pos 0;
  participant_ids = [];
  extend_count = pos 0;
  order_id = "";
  top_ranking = [];
}

unfoldable pub decide_start_lot : Externals → StartLot → Decision
decide_start_lot x c = do
  reject_if (not (may_start c.previous_status)) (runtime_reject state_already_exists)
  validate_runtime_config c.config
  reject_if
      (any (
        not (is_redis_exact_non_negative c.previous_lot_version)
        ∷ not (is_redis_exact_positive c.now_unix_ms)
        ∷ eqb_ℤ c.previous_lot_version max_redis_exact_integer
        ∷ ltb_ℤ (sub64 max_redis_exact_integer c.config.duration_ms) c.now_unix_ms
        ∷ []))
      (runtime_reject invalid_argument)
  new_runtime_decision x c.meta start_lot c.previous_lot_version (started_state c) none none
      c.now_unix_ms
