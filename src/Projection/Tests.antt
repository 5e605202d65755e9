-- ===== src/Projection/Tests.antt =====
-- A lot in its auction, with the host's presentation: the theorems at it.
use byte_danceliveauctioni.Base.{◌≡◌, refl, true, [], none, some}
use byte_danceliveauctioni.Base.Int.{pos}
use byte_danceliveauctioni.Base.Text.{str_eq}
use byte_danceliveauctioni.Proto.{RuntimeFact, LotRuntimeState, extended, place_bid}
use byte_danceliveauctioni.Proto.Lot.{Lot, DuelState, duel_mode}
use byte_danceliveauctioni.Lot.Messages.{empty_duel}
use byte_danceliveauctioni.Projection.{
  lot_after_fact, lot_from_runtime_fact, empty_lot, merge_runtime_duel_state,
}
use byte_danceliveauctioni.Projection.Overlay.{overlaid_lot, overlay_lot_presentation}
use byte_danceliveauctioni.Projection.Owned.{
  IsSameAuction, IsTimedBy, lot_from_runtime_fact-again, overlay_lot_presentation-keeps,
}

abbrev state : LotRuntimeState
state = record {
  lot_id = "lot";
  room_id = "room";
  status = extended;
  currency = "CNY";
  start_price_fen = pos 100;
  min_increment_fen = pos 10;
  cap_price_fen = none;
  current_price_fen = pos 120;
  leading_user_id = "u1";
  leading_nickname = "ann";
  winner_user_id = "";
  winner_nickname = "";
  final_price_fen = pos 0;
  started_at_unix_ms = pos 1000;
  ends_at_unix_ms = pos 91000;
  settled_at_unix_ms = pos 0;
  cancelled_at_unix_ms = pos 0;
  cancel_reason = "";
  bid_count = pos 2;
  participant_count = pos 2;
  extend_count = pos 1;
  max_extend_count = pos 3;
  order_id = "";
  top_ranking = [];
  duration_ms = some (pos 60000);
  anti_snipe_window_ms = some (pos 15000);
  anti_snipe_extend_ms = some (pos 30000);
}

abbrev fact : RuntimeFact
fact = record {
  event_id = "e";
  trace_id = "t";
  lot_id = "lot";
  room_id = "room";
  prev_lot_version = pos 3;
  lot_version = pos 4;
  occurred_at_unix_ms = pos 2000;
  config_version = pos 1;
  command = place_bid;
  state_after = some state;
  accepted_bid = none;
  order_draft = none;
  idempotency_key = "k";
  schema_version = pos 1;
}

abbrev presentation : Lot
presentation = record empty_lot {
  id = "lot";
  presentation_version = pos 2;
  playbook_stage = duel_mode;
  duel_state = some (record empty_duel { active = true; user_a_id = "u1"; user_b_id = "u2" });
}

abbrev seen : Lot
seen = lot_after_fact empty_lot fact state

abbrev shown : Lot
shown = overlaid_lot seen presentation

lot_from_runtime_fact-again_example : lot_from_runtime_fact (some shown) (some fact) ≡ shown
unfolding overlay_lot_presentation lot_after_fact str_eq lot_from_runtime_fact
lot_from_runtime_fact-again_example =
    lot_from_runtime_fact-again none presentation shown fact state refl refl

abbrev timed : DuelState
timed = record empty_duel {
  lot_id = "lot";
  ends_at_unix_ms = pos 91000;
  extend_count = pos 1;
  max_extend_count = pos 3;
}

overlay_lot_presentation-keeps_example :
    IsSameAuction seen shown
    × ((after : DuelState) × (shown.duel_state ≡ some after) × IsTimedBy seen after)
unfolding overlay_lot_presentation lot_after_fact merge_runtime_duel_state str_eq
overlay_lot_presentation-keeps_example =
    overlay_lot_presentation-keeps seen presentation shown timed refl refl
