-- ===== src/Projector/Payload.antt =====
-- sql_projection.go, `projectLotPayload`: the lot document with the state of the fact.
use byte_danceliveauctioni.Base.{
  ◌/◌, ◌%◌, String, Bool, true, false, not, ◌||◌, ◌==◌, ltb, Option, none, some, ok, err, ◌>>◌,
  ◌>>=◌, reject_if, if◌then◌else◌, any, [], ◌∷◌,
}
use byte_danceliveauctioni.Base.Int.{ℤ, pos, pos_part, ltb_ℤ, leb_ℤ}
use byte_danceliveauctioni.Base.Text.{is_empty}
use byte_danceliveauctioni.Proto.{
  LotStatus, settled, cancelled, failed, LotRuntimeState, RuntimeFact, RuntimeCommandType,
  start_lot,
}
use byte_danceliveauctioni.Proto.Lot.{Lot, BidRule, DuelState, Money, not_queued}
use byte_danceliveauctioni.Lot.Messages.{empty_rule}
use byte_danceliveauctioni.Projector.Errors.{invalid_projection, Encodings, Step, encoded}

unfoldable pub is_terminal_lot_status : LotStatus → Bool
is_terminal_lot_status settled = true
is_terminal_lot_status cancelled = true
is_terminal_lot_status failed = true
is_terminal_lot_status _ = false

is_start : RuntimeCommandType → Bool
is_start start_lot = true
is_start _ = false

-- `command == START_LOT`.
unfoldable pub starts_lot : RuntimeFact → Bool
unfolding is_start
starts_lot f = is_start f.command

-- `clearQueue`.
unfoldable pub clears_queue : RuntimeFact → LotRuntimeState → Bool
clears_queue f s = starts_lot f || is_terminal_lot_status s.status

-- The remainder and the quotient are those of a number that is not negative: the guard before has seen to it.
unfoldable pub exact_seconds : Option ℤ → Bool → Step ℤ
exact_seconds none positive = err invalid_projection
exact_seconds (some value) positive = do
  reject_if
      (any (
        (if positive then leb_ℤ value (pos 0) else ltb_ℤ value (pos 0))
        ∷ not (pos_part value % 1000 == 0)
        ∷ ltb 2147483647 (pos_part value / 1000)
        ∷ []))
      invalid_projection
  ok (pos (pos_part value / 1000))

pub record Seconds : Type 0 where
  pub duration : ℤ
  pub window : ℤ
  pub extend : ℤ

unfoldable pub seconds_of_state : LotRuntimeState → Step Seconds
seconds_of_state s = do
  duration ← exact_seconds s.duration_ms true
  window ← exact_seconds s.anti_snipe_window_ms false
  extend ← exact_seconds s.anti_snipe_extend_ms false
  ok (record { duration = duration; window = window; extend = extend })

money_in : LotRuntimeState → ℤ → Option Money
money_in s amount = some (record { amount = amount; currency = s.currency })

cap_price : LotRuntimeState → Option ℤ → Option Money
unfolding money_in
cap_price s none = none
cap_price s (some amount) = money_in s amount

rule_or_empty : Option BidRule → BidRule
rule_or_empty none = empty_rule
rule_or_empty (some rule) = rule

projected_rule : LotRuntimeState → Seconds → BidRule → BidRule
unfolding money_in cap_price
projected_rule s t rule = record rule {
  start_price = money_in s s.start_price_fen;
  min_increment = money_in s s.min_increment_fen;
  duration_seconds = t.duration;
  anti_snipe_window_seconds = t.window;
  anti_snipe_extend_seconds = t.extend;
  max_extend_count = s.max_extend_count;
  cap_price = cap_price s s.cap_price_fen;
}

projected_duel : LotRuntimeState → Option DuelState → Option DuelState
projected_duel s none = none
projected_duel s (some duel) = some (record duel {
  extend_count = s.extend_count;
  max_extend_count = s.max_extend_count;
  active = if is_terminal_lot_status s.status then false else duel.active;
})

unfoldable pub project_lot : RuntimeFact → LotRuntimeState → Seconds → Lot → Lot
unfolding money_in rule_or_empty projected_rule projected_duel
project_lot f s t lot = record lot {
  id = f.lot_id;
  room_id = f.room_id;
  status = s.status;
  version = f.lot_version;
  config_version = f.config_version;
  current_price = money_in s s.current_price_fen;
  leading_user_id = s.leading_user_id;
  leading_nickname = s.leading_nickname;
  winner_user_id = s.winner_user_id;
  winner_nickname = s.winner_nickname;
  final_price = money_in s s.final_price_fen;
  started_at_unix_ms = s.started_at_unix_ms;
  ends_at_unix_ms = s.ends_at_unix_ms;
  settled_at_unix_ms = s.settled_at_unix_ms;
  cancelled_at_unix_ms = s.cancelled_at_unix_ms;
  cancel_reason = s.cancel_reason;
  updated_at_unix_ms = f.occurred_at_unix_ms;
  stats = some (record { bid_count = s.bid_count; participant_count = s.participant_count });
  rule = some (projected_rule s t (rule_or_empty lot.rule));
  queue_status = if clears_queue f s then not_queued else lot.queue_status;
  queue_position = if clears_queue f s then pos 0 else lot.queue_position;
  duel_state = projected_duel s lot.duel_state;
}

-- `projectLotPayload`: the encoded lot and the seconds.
unfoldable pub project_lot_payload :
    Encodings → String → RuntimeFact → LotRuntimeState → Step (String × Seconds)
project_lot_payload x raw f s = do
  reject_if (is_empty raw) invalid_projection
  lot ← encoded invalid_projection (x.decode_lot raw)
  t ← seconds_of_state s
  payload ← encoded invalid_projection (x.encode_lot (project_lot f s t lot))
  ok (payload, t)
