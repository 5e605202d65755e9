-- ===== src/Projection.antt =====
-- biz/auction/runtime_fact.go and presentation.go: the lot that readers see, put together from its
-- metadata, a runtime fact and the host's presentation.
pub mod Overlay
pub mod Owned
pub mod Tests
use byte_danceliveauctioni.Base.{
  ℕ, suc, ◌/◌, Bool, true, false, String, List, [], ◌∷◌, Option, none, some, ◌||◌, if◌then◌else◌,
}
use byte_danceliveauctioni.Base.Int.{ℤ, pos, negsuc, sub_ℕ, wrap32}
use byte_danceliveauctioni.Proto.{
  RuntimeFact, LotRuntimeState, RuntimeRankingItem, RuntimeCommandType, start_lot, LotStatus,
  settled, cancelled, failed, unspecified,
}
use byte_danceliveauctioni.Proto.Lot.{
  Lot, Money, DuelState, RankingItem, not_queued, no_queue_status, no_stage, LotQueueStatus,
}
use byte_danceliveauctioni.Lot.Messages.{empty_duel}

abbrev pub runtime_fact_terminal_status : LotStatus → Bool
runtime_fact_terminal_status settled = true
runtime_fact_terminal_status cancelled = true
runtime_fact_terminal_status failed = true
runtime_fact_terminal_status _ = false

-- presentation.go, MergeRuntimeDuelState. `some_duel` is the state that a nil pointer starts from.
abbrev pub some_duel : Option DuelState → DuelState
some_duel none = empty_duel
some_duel (some d) = d

unfoldable pub merge_runtime_duel_state : Option DuelState → String → ℤ → ℤ → ℤ → Bool → DuelState
merge_runtime_duel_state current lot_id ends_at extend_count max_extend_count terminal =
    record (some_duel current) {
      lot_id = lot_id;
      ends_at_unix_ms = ends_at;
      extend_count = extend_count;
      max_extend_count = max_extend_count;
      active = if terminal then false else (some_duel current).active;
    }

-- `int32(ms / 1000)`: Go's division truncates, and the conversion wraps around.
abbrev pub quot_1000 : ℤ → ℤ
quot_1000 (pos n) = pos (n / 1000)
quot_1000 (negsuc n) = sub_ℕ 0 (suc n / 1000)

abbrev pub or_zero : Option ℤ → ℤ
or_zero none = pos 0
or_zero (some v) = v

unfoldable pub seconds_of : Option ℤ → ℤ
seconds_of ms = wrap32 (quot_1000 (or_zero ms))

abbrev pub money : ℤ → String → Option Money
money amount currency = some (record { amount = amount; currency = currency })

abbrev pub cap_money : Option ℤ → String → Option Money
cap_money none currency = none
cap_money (some amount) currency = money amount currency

abbrev pub is_start_lot : RuntimeCommandType → Bool
is_start_lot start_lot = true
is_start_lot _ = false

-- The fact ends the lot's time in the queue.
abbrev pub leaves_queue : RuntimeFact → LotRuntimeState → Bool
leaves_queue fact state = is_start_lot fact.command || runtime_fact_terminal_status state.status

unfoldable pub lot_after_fact : Lot → RuntimeFact → LotRuntimeState → Lot
lot_after_fact base fact state = record base {
  id = fact.lot_id;
  room_id = fact.room_id;
  config_version = fact.config_version;
  status = state.status;
  current_price = money state.current_price_fen state.currency;
  leading_user_id = state.leading_user_id;
  leading_nickname = state.leading_nickname;
  winner_user_id = state.winner_user_id;
  winner_nickname = state.winner_nickname;
  final_price = money state.final_price_fen state.currency;
  started_at_unix_ms = state.started_at_unix_ms;
  ends_at_unix_ms = state.ends_at_unix_ms;
  settled_at_unix_ms = state.settled_at_unix_ms;
  cancelled_at_unix_ms = state.cancelled_at_unix_ms;
  cancel_reason = state.cancel_reason;
  version = fact.lot_version;
  stats =
      some (record { participant_count = state.participant_count; bid_count = state.bid_count });
  queue_status = if leaves_queue fact state then not_queued else base.queue_status;
  queue_position = if leaves_queue fact state then pos 0 else base.queue_position;
  duel_state = some (
      merge_runtime_duel_state base.duel_state fact.lot_id state.ends_at_unix_ms state.extend_count
        state.max_extend_count (runtime_fact_terminal_status state.status));
  rule = some (record {
    start_price = money state.start_price_fen state.currency;
    min_increment = money state.min_increment_fen state.currency;
    duration_seconds = seconds_of state.duration_ms;
    anti_snipe_window_seconds = seconds_of state.anti_snipe_window_ms;
    anti_snipe_extend_seconds = seconds_of state.anti_snipe_extend_ms;
    max_extend_count = state.max_extend_count;
    cap_price = cap_money state.cap_price_fen state.currency;
  });
}

-- `&v1.Lot{}`.
abbrev pub empty_lot : Lot
empty_lot = record {
  id = "";
  room_id = "";
  title = "";
  description = "";
  image_url = "";
  status = unspecified;
  rule = none;
  current_price = none;
  leading_user_id = "";
  leading_nickname = "";
  started_at_unix_ms = pos 0;
  ends_at_unix_ms = pos 0;
  settled_at_unix_ms = pos 0;
  winner_user_id = "";
  winner_nickname = "";
  final_price = none;
  version = pos 0;
  trust_cards = [];
  duel_state = none;
  playbook_stage = no_stage;
  cancel_reason = "";
  cancelled_at_unix_ms = pos 0;
  queue_status = no_queue_status;
  queue_position = pos 0;
  gallery_image_urls = [];
  category = "";
  tags = [];
  estimate_price = none;
  stock = pos 0;
  after_sale_notes = "";
  deposit_amount = none;
  stats = none;
  main_account_id = "";
  created_at_unix_ms = pos 0;
  updated_at_unix_ms = pos 0;
  config_version = pos 0;
  presentation_version = pos 0;
}

abbrev pub some_lot : Option Lot → Lot
some_lot none = empty_lot
some_lot (some lot) = lot

abbrev pub after_state : Lot → RuntimeFact → Option LotRuntimeState → Lot
after_state lot fact none = lot
after_state lot fact (some state) = lot_after_fact lot fact state

unfoldable pub lot_from_runtime_fact : Option Lot → Option RuntimeFact → Lot
lot_from_runtime_fact base none = some_lot base
lot_from_runtime_fact base (some fact) = after_state (some_lot base) fact fact.state_after

unfoldable pub ranking_items : String → List (Option RuntimeRankingItem) → List RankingItem
ranking_items currency [] = []
ranking_items currency (none ∷ items) = ranking_items currency items
ranking_items currency (some i ∷ items) =
    record {
      rank = i.rank;
      user_id = i.user_id;
      nickname = i.masked_nickname;
      amount = money i.amount_fen currency;
      bid_at_unix_ms = i.bid_at_unix_ms;
      avatar_url = i.avatar_url;
    }
    ∷ ranking_items currency items

abbrev pub ranking_of_state : Option LotRuntimeState → List RankingItem
ranking_of_state none = []
ranking_of_state (some state) = ranking_items state.currency state.top_ranking

unfoldable pub ranking_from_runtime_fact : Option RuntimeFact → List RankingItem
ranking_from_runtime_fact none = []
ranking_from_runtime_fact (some fact) = ranking_of_state fact.state_after
