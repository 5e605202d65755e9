-- ===== src/Projector/Write.antt =====
-- sql_projection.go: the statements that write, each a function of the table it writes. A row that a
-- unique key forbids is MySQL's duplicate entry; `e` says which statements fail.
use byte_danceliveauctioni.Base.{
  String, Bool, not, ◌||◌, ◌&&◌, List, [], ◌∷◌, ◌++◌, some, ok, ◌>>◌, reject_if, if◌then◌else◌,
}
use byte_danceliveauctioni.Base.Int.{ℤ, pos, eqb_ℤ, add64}
use byte_danceliveauctioni.Base.Text.{str_eq, is_empty}
use byte_danceliveauctioni.Proto.{RuntimeFact, LotRuntimeState}
use byte_danceliveauctioni.Proto.Lot.{not_queued}
use byte_danceliveauctioni.Projector.Tables.{
  OffsetRow, InboxRow, ProjectionStateRow, LotRow, RoomRow, DomainMessage, update, affected, exists,
}
use byte_danceliveauctioni.Projector.Errors.{
  invalid_projection, Encodings, Refusals, Step, answered, duplicate_entry, require_one_row,
  update_lot, update_room, advance_state, insert_inbox, insert_message, advance_offset,
}
use byte_danceliveauctioni.Projector.Payload.{
  Seconds, is_terminal_lot_status, starts_lot, clears_queue,
}

-- A record of the topic, decoded, as far as the projector uses it.
pub record DecodedRecord : Type 0 where
  pub topic : String
  pub partition : ℤ
  pub offset : ℤ
  pub fact : RuntimeFact
  pub payload : String
  pub payload_hash : String
  pub owner_epoch : ℤ
  pub outbox_shard : ℤ

unfoldable pub is_lot_at : RuntimeFact → ℤ → LotRow → Bool
is_lot_at f config_version row =
    str_eq row.id f.lot_id
    && eqb_ℤ row.version f.prev_lot_version
    && eqb_ℤ row.config_version config_version

unfoldable pub set_lot : RuntimeFact → LotRuntimeState → String → Seconds → LotRow → LotRow
set_lot f s payload t row = record row {
  status = s.status;
  queue_status = if clears_queue f s then not_queued else row.queue_status;
  queue_position = if clears_queue f s then pos 0 else row.queue_position;
  currency = s.currency;
  start_price_amount = s.start_price_fen;
  min_increment_amount = s.min_increment_fen;
  cap_price_amount = s.cap_price_fen;
  duration_seconds = t.duration;
  anti_snipe_window_seconds = t.window;
  anti_snipe_extend_seconds = t.extend;
  max_extend_count = s.max_extend_count;
  current_price_amount = s.current_price_fen;
  leading_user_id = s.leading_user_id;
  leading_nickname = s.leading_nickname;
  started_at_unix_ms = s.started_at_unix_ms;
  ends_at_unix_ms = s.ends_at_unix_ms;
  settled_at_unix_ms = s.settled_at_unix_ms;
  cancel_reason = s.cancel_reason;
  cancelled_at_unix_ms = s.cancelled_at_unix_ms;
  winner_user_id = s.winner_user_id;
  winner_nickname = s.winner_nickname;
  final_price_amount = s.final_price_fen;
  version = f.lot_version;
  config_version = f.config_version;
  payload = payload;
}

unfoldable pub update_projection_lot :
    Refusals
    → RuntimeFact
    → LotRuntimeState
    → String
    → Seconds
    → ℤ
    → List LotRow
    → Step (List LotRow)
update_projection_lot e f s payload t config_version lots = do
  answered (e update_lot)
  require_one_row (affected (is_lot_at f config_version) lots)
  ok (update (is_lot_at f config_version) (set_lot f s payload t) lots)

-- The condition on the active lot is that of the statement chosen.
unfoldable pub is_room_of : RuntimeFact → LotRuntimeState → String → RoomRow → Bool
is_room_of f s account row =
    str_eq row.room_id f.room_id
    && str_eq row.main_account_id account
    && (str_eq row.active_lot_id f.lot_id
        || (not (is_terminal_lot_status s.status) && starts_lot f && is_empty row.active_lot_id))

unfoldable pub set_room : RuntimeFact → LotRuntimeState → RoomRow → RoomRow
set_room f s row = record row {
  active_lot_id =
      if is_terminal_lot_status s.status
      then ""
      else (if starts_lot f then f.lot_id else row.active_lot_id);
  display_lot_id = f.lot_id;
  active_lot_version = f.lot_version;
  updated_at_unix_ms = f.occurred_at_unix_ms;
}

unfoldable pub update_room_projection :
    Refusals → RuntimeFact → LotRuntimeState → String → List RoomRow → Step (List RoomRow)
update_room_projection e f s account rooms = do
  answered (e update_room)
  require_one_row (affected (is_room_of f s account) rooms)
  ok (update (is_room_of f s account) (set_room f s) rooms)

unfoldable pub is_state_at : RuntimeFact → ProjectionStateRow → Bool
is_state_at f row =
    str_eq row.lot_id f.lot_id
    && str_eq row.room_id f.room_id
    && eqb_ℤ row.last_lot_version f.prev_lot_version
    && not row.frozen

unfoldable pub set_state : RuntimeFact → String → ℤ → ProjectionStateRow → ProjectionStateRow
set_state f hash applied_at row = record row {
  last_event_id = some f.event_id;
  last_lot_version = f.lot_version;
  canonical_hash = hash;
  last_applied_ms = applied_at;
}

unfoldable pub advance_projection_state :
    Refusals → RuntimeFact → String → ℤ → List ProjectionStateRow → Step (List ProjectionStateRow)
advance_projection_state e f hash applied_at states = do
  answered (e advance_state)
  require_one_row (affected (is_state_at f) states)
  ok (update (is_state_at f) (set_state f hash applied_at) states)

-- The keys of auction_projection_inbox: the event, and the position it came from.
unfoldable pub is_inbox : DecodedRecord → InboxRow → Bool
is_inbox r row =
    str_eq row.event_id r.fact.event_id
    || (str_eq row.topic r.topic
        && eqb_ℤ row.kafka_partition r.partition
        && eqb_ℤ row.kafka_offset r.offset)

unfoldable pub inbox_row : DecodedRecord → ℤ → InboxRow
inbox_row r applied_at = record {
  event_id = r.fact.event_id;
  topic = r.topic;
  kafka_partition = r.partition;
  kafka_offset = r.offset;
  lot_id = r.fact.lot_id;
  lot_version = r.fact.lot_version;
  payload_hash = r.payload_hash;
  applied_at_ms = applied_at;
}

unfoldable pub insert_projection_inbox :
    Refusals → DecodedRecord → ℤ → List InboxRow → Step (List InboxRow)
unfolding is_inbox
insert_projection_inbox e r applied_at inbox = do
  answered (e insert_inbox)
  reject_if (exists (is_inbox r) inbox) duplicate_entry
  ok (inbox ++ inbox_row r applied_at ∷ [])

is_message : DomainMessage → DomainMessage → Bool
is_message message row = str_eq row.message_id message.message_id

unfoldable pub insert_domain_messages :
    Encodings → Refusals → List DomainMessage → List DomainMessage → Step (List DomainMessage)
unfolding is_message
insert_domain_messages x e [] outbox = ok outbox
insert_domain_messages x e (message ∷ messages) outbox = do
  reject_if (not (x.valid_json message.headers_json)) invalid_projection
  answered (e insert_message)
  reject_if (exists (is_message message) outbox) duplicate_entry
  insert_domain_messages x e messages (outbox ++ message ∷ [])

unfoldable pub is_partition : DecodedRecord → OffsetRow → Bool
is_partition r row = str_eq row.topic r.topic && eqb_ℤ row.kafka_partition r.partition

unfoldable pub is_partition_at : DecodedRecord → OffsetRow → Bool
is_partition_at r row = is_partition r row && eqb_ℤ row.next_offset r.offset

unfoldable pub set_offset : DecodedRecord → ℤ → OffsetRow → OffsetRow
set_offset r applied_at row = record row {
  next_offset = add64 r.offset (pos 1);
  updated_at_ms = applied_at;
}

unfoldable pub advance_partition_offset :
    Refusals → DecodedRecord → ℤ → List OffsetRow → Step (List OffsetRow)
advance_partition_offset e r applied_at offsets = do
  answered (e advance_offset)
  require_one_row (affected (is_partition_at r) offsets)
  ok (update (is_partition_at r) (set_offset r applied_at) offsets)
