-- ===== src/Runtime/Fact.antt =====
-- runtime_state_machine.go: the fact that a decision writes, `runtimeStateProto`,
-- `runtimeOrderDraft` and `newRuntimeDecision`. A copy of a value is the value.
pub mod Built
use byte_danceliveauctioni.Base.{
  ℕ, ◌+◌, String, List, [], ◌∷◌, Option, some, length, ok, ◌>>◌, map_err,
}
use byte_danceliveauctioni.Base.Int.{ℤ, pos, wrap32}
use byte_danceliveauctioni.Proto.{
  RuntimeCommandType, RuntimeRankingItem, LotRuntimeState, AcceptedBid, OrderDraft, RuntimeFact,
}
use byte_danceliveauctioni.Contract.Checks.{Externals, runtime_schema_version}
use byte_danceliveauctioni.Contract.Fact.{validate_runtime_fact}
use byte_danceliveauctioni.Runtime.Types.{
  RuntimeState, RankingEntry, CommandMeta, Decision, build_fact,
}

unfoldable pub ranking_item : ℕ → RankingEntry → RuntimeRankingItem
ranking_item index e = record {
  rank = wrap32 (pos (index + 1));
  user_id = e.user_id;
  masked_nickname = e.masked_nickname;
  avatar_url = e.avatar_url;
  amount_fen = e.amount_fen;
  bid_at_unix_ms = e.bid_at_unix_ms;
}

unfoldable pub ranking_proto_from : ℕ → List RankingEntry → List (Option RuntimeRankingItem)
ranking_proto_from index [] = []
ranking_proto_from index (e ∷ es) = some (ranking_item index e) ∷ ranking_proto_from (index + 1) es

unfoldable pub runtime_state_proto : RuntimeState → LotRuntimeState
runtime_state_proto s = record {
  lot_id = s.config.lot_id;
  room_id = s.config.room_id;
  status = s.status;
  currency = s.config.currency;
  start_price_fen = s.config.start_price_fen;
  min_increment_fen = s.config.min_increment_fen;
  cap_price_fen = s.config.cap_price_fen;
  current_price_fen = s.current_price_fen;
  leading_user_id = s.leading_user_id;
  leading_nickname = s.leading_nickname;
  winner_user_id = s.winner_user_id;
  winner_nickname = s.winner_nickname;
  final_price_fen = s.final_price_fen;
  started_at_unix_ms = s.started_at_unix_ms;
  ends_at_unix_ms = s.ends_at_unix_ms;
  settled_at_unix_ms = s.settled_at_unix_ms;
  cancelled_at_unix_ms = s.cancelled_at_unix_ms;
  cancel_reason = s.cancel_reason;
  bid_count = s.bid_count;
  participant_count = pos (length s.participant_ids);
  extend_count = s.extend_count;
  max_extend_count = s.config.max_extend_count;
  order_id = s.order_id;
  top_ranking = ranking_proto_from 0 s.top_ranking;
  duration_ms = some s.config.duration_ms;
  anti_snipe_window_ms = some s.config.anti_snipe_window_ms;
  anti_snipe_extend_ms = some s.config.anti_snipe_extend_ms;
}

unfoldable pub runtime_order_draft : RuntimeState → String → String → String → ℤ → ℤ → OrderDraft
runtime_order_draft s order_id buyer_id buyer_nickname amount_fen now = record {
  order_id = order_id;
  lot_id = s.config.lot_id;
  room_id = s.config.room_id;
  main_account_id = s.config.main_account_id;
  buyer_user_id = buyer_id;
  buyer_nickname = buyer_nickname;
  title = s.config.title;
  image_url = s.config.image_url;
  total_amount_fen = amount_fen;
  currency = s.config.currency;
  created_at_unix_ms = now;
}

unfoldable pub runtime_fact :
    CommandMeta
    → RuntimeCommandType
    → ℤ
    → RuntimeState
    → Option AcceptedBid
    → Option OrderDraft
    → ℤ
    → RuntimeFact
runtime_fact meta command previous_version next bid order now = record {
  event_id = meta.event_id;
  trace_id = meta.trace_id;
  lot_id = next.config.lot_id;
  room_id = next.config.room_id;
  prev_lot_version = previous_version;
  lot_version = next.version;
  occurred_at_unix_ms = now;
  config_version = next.config.config_version;
  command = command;
  state_after = some (runtime_state_proto next);
  accepted_bid = bid;
  order_draft = order;
  idempotency_key = meta.idempotency_key;
  schema_version = runtime_schema_version;
}

unfoldable pub new_runtime_decision :
    Externals
    → CommandMeta
    → RuntimeCommandType
    → ℤ
    → RuntimeState
    → Option AcceptedBid
    → Option OrderDraft
    → ℤ
    → Decision
new_runtime_decision x meta command previous_version next bid order now =
    let fact = runtime_fact meta command previous_version next bid order now in
    map_err build_fact (validate_runtime_fact x (some fact))
    >> ok (record { state = next; fact = fact })
