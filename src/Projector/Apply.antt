-- ===== src/Projector/Apply.antt =====
-- sql_projection.go, `applyRuntimeRecord`: one record of the topic, in one transaction.
pub mod Passed
pub mod Event
pub mod Ledger
pub mod Again
pub mod Projected
pub mod Refines
use byte_danceliveauctioni.Base.{
  String, Bool, true, false, not, ◌||◌, List, [], ◌∷◌, Option, none, some, ok, err, ◌>>◌, ◌>>=◌,
  reject_if, if◌then◌else◌,
}
use byte_danceliveauctioni.Base.Int.{ℤ, pos, ltb_ℤ, leb_ℤ, eqb_ℤ, add64, sub64}
use byte_danceliveauctioni.Base.Text.{str_eq}
use byte_danceliveauctioni.Proto.{RuntimeFact, LotRuntimeState, RuntimeCommandType, sync_lot_config}
use byte_danceliveauctioni.Projector.Tables.{
  OffsetRow, InboxRow, ProjectionStateRow, LotRow, BidRow, ParticipantRow, OrderRow, OrderItemRow,
  Database, select, update, affected, insert_ignore,
}
use byte_danceliveauctioni.Projector.Errors.{
  invalid_apply_record, partition_offset_missing, partition_offset_gap, event_identity_conflict,
  runtime_projection_gap, projection_lot_frozen, projection_lot_not_found, projection_identity,
  projection_config_version, database_error, other_error, lock_offset, find_inbox, init_state,
  lock_state, lock_lot, Encodings, Refusals, Step, answered,
}
use byte_danceliveauctioni.Projector.Build.{LotMetadata, Built, build_projection, fact_state_of}
use byte_danceliveauctioni.Projector.Payload.{Seconds, project_lot_payload}
use byte_danceliveauctioni.Projector.Write.{
  DecodedRecord, update_projection_lot, update_room_projection, advance_projection_state,
  insert_projection_inbox, insert_domain_messages, is_partition, advance_partition_offset,
}
use byte_danceliveauctioni.Projector.Sales.{
  insert_accepted_bid, upsert_lot_stats, insert_order_draft,
}

pub record ApplyResult : Type 0 where
  pub next_offset : ℤ
  pub already_advanced : Bool
  pub duplicate_event : Bool

unfoldable pub next_offset_of : Option OffsetRow → Step ℤ
next_offset_of none = err partition_offset_missing
next_offset_of (some row) = do
  reject_if (ltb_ℤ row.next_offset (pos 0)) partition_offset_gap
  ok row.next_offset

unfoldable pub lock_partition_offset : Refusals → DecodedRecord → List OffsetRow → Step ℤ
unfolding next_offset_of
lock_partition_offset e r offsets = do
  answered (e lock_offset)
  next_offset_of (select (is_partition r) offsets)

unfoldable pub is_event : RuntimeFact → InboxRow → Bool
is_event f row = str_eq row.event_id f.event_id

unfoldable pub same_payload : DecodedRecord → Option InboxRow → Step Bool
same_payload r none = ok false
same_payload r (some row) = do
  reject_if (not (str_eq row.payload_hash r.payload_hash)) event_identity_conflict
  ok true

unfoldable pub find_projection_inbox : Refusals → DecodedRecord → List InboxRow → Step Bool
unfolding same_payload
find_projection_inbox e r inbox = do
  answered (e find_inbox)
  same_payload r (select (is_event r.fact) inbox)

unfoldable pub is_state_of : RuntimeFact → ProjectionStateRow → Bool
is_state_of f row = str_eq row.lot_id f.lot_id

-- INSERT IGNORE of the lot's first projection state.
unfoldable pub initialize_state : RuntimeFact → List ProjectionStateRow → List ProjectionStateRow
initialize_state f states =
    insert_ignore (is_state_of f)
      (record {
        lot_id = f.lot_id;
        room_id = f.room_id;
        last_event_id = none;
        last_lot_version = f.prev_lot_version;
        canonical_hash = "";
        frozen = false;
        last_applied_ms = pos 0;
      })
      states

unfoldable pub found_state : Option ProjectionStateRow → Step ProjectionStateRow
found_state none = err (database_error other_error)
found_state (some row) = ok row

unfoldable pub lock_projection_state :
    Refusals → RuntimeFact → List ProjectionStateRow → Step ProjectionStateRow
unfolding found_state
lock_projection_state e f states = do
  answered (e lock_state)
  found_state (select (is_state_of f) states)

unfoldable pub is_lot_of : RuntimeFact → LotRow → Bool
is_lot_of f row = str_eq row.id f.lot_id

unfoldable pub found_lot : Option LotRow → Step LotRow
found_lot none = err projection_lot_not_found
found_lot (some row) = ok row

unfoldable pub lock_projection_lot : Refusals → RuntimeFact → List LotRow → Step LotRow
unfolding found_lot
lock_projection_lot e f lots = do answered (e lock_lot); found_lot (select (is_lot_of f) lots)

-- The columns that `lockProjectionLot` reads into `Metadata`.
unfoldable pub metadata_of : LotRow → LotMetadata
metadata_of row = record {
  lot_id = row.id;
  room_id = row.room_id;
  main_account_id = row.main_account_id;
  title = row.title;
  description = row.description;
  image_url = row.image_url;
  lot_payload_json = row.payload;
}

is_sync : RuntimeCommandType → Bool
is_sync sync_lot_config = true
is_sync _ = false

unfoldable pub expected_config_version : RuntimeFact → ℤ
unfolding is_sync
expected_config_version f =
    if is_sync f.command then sub64 f.config_version (pos 1) else f.config_version

unfoldable pub check_state : RuntimeFact → ProjectionStateRow → Step (Unit {0})
check_state f state = do
  reject_if (not (str_eq state.room_id f.room_id)) projection_identity
  reject_if state.frozen projection_lot_frozen
  reject_if (not (eqb_ℤ state.last_lot_version f.prev_lot_version)) runtime_projection_gap

unfoldable pub check_lot : RuntimeFact → LotRow → Step (Unit {0})
check_lot f lot = do
  reject_if (not (str_eq lot.room_id f.room_id) || not (str_eq lot.id f.lot_id)) projection_identity
  reject_if (not (eqb_ℤ lot.version f.prev_lot_version)) runtime_projection_gap
  reject_if
      (leb_ℤ (expected_config_version f) (pos 0)
        || not (eqb_ℤ lot.config_version (expected_config_version f)))
      projection_config_version

-- The writes, once the rows are locked and the projection is built.
unfoldable pub write_projection :
    Encodings
    → Refusals
    → DecodedRecord
    → ℤ
    → LotRow
    → LotRuntimeState
    → Built
    → String × Seconds
    → List ProjectionStateRow
    → Database
    → Step Database
write_projection x e r applied_at lot s built (payload, seconds) states db = do
  let f = r.fact
  let account = lot.main_account_id
  lots ← update_projection_lot e f s payload seconds lot.config_version db.lots
  rooms ← update_room_projection e f s account db.rooms
  bids ← insert_accepted_bid x e f s account f.accepted_bid (db.bids, db.participants)
  stats ← upsert_lot_stats e f s account db.stats
  orders ← insert_order_draft x e f f.order_draft (db.orders, db.order_items)
  states ← advance_projection_state e f built.canonical_state_hash applied_at states
  inbox ← insert_projection_inbox e r applied_at db.inbox
  outbox ← insert_domain_messages x e built.domain_messages db.outbox
  offsets ← advance_partition_offset e r applied_at db.offsets
  ok (record {
    offsets = offsets;
    inbox = inbox;
    states = states;
    lots = lots;
    rooms = rooms;
    bids = bids.0;
    participants = bids.1;
    stats = stats;
    orders = orders.0;
    order_items = orders.1;
    outbox = outbox;
    findings = db.findings;
  })

-- The record of a new event: from `INSERT IGNORE` on.
unfoldable pub apply_new_event : Encodings → Refusals → DecodedRecord → ℤ → Database → Step Database
apply_new_event x e r applied_at db = do
  answered (e init_state)
  let states = initialize_state r.fact db.states
  state ← lock_projection_state e r.fact states
  check_state r.fact state
  lot ← lock_projection_lot e r.fact db.lots
  check_lot r.fact lot
  built ← build_projection x r.fact (metadata_of lot)
  s ← fact_state_of r.fact
  payload ← project_lot_payload x lot.payload r.fact s
  write_projection x e r applied_at lot s built payload states db

-- The event of an earlier record: only the offset advances.
unfoldable pub skip_duplicate :
    Refusals → DecodedRecord → ℤ → Database → Step (Database × ApplyResult)
skip_duplicate e r applied_at db = do
  offsets ← advance_partition_offset e r applied_at db.offsets
  ok (
    record db { offsets = offsets },
    record {
      next_offset = add64 r.offset (pos 1);
      already_advanced = false;
      duplicate_event = true;
    },
  )

unfoldable pub apply_event :
    Encodings → Refusals → DecodedRecord → ℤ → Database → Step (Database × ApplyResult)
apply_event x e r applied_at db = do
  after ← apply_new_event x e r applied_at db
  ok (
    after,
    record {
      next_offset = add64 r.offset (pos 1);
      already_advanced = false;
      duplicate_event = false;
    },
  )

unfoldable pub apply_at_offset :
    Encodings → Refusals → DecodedRecord → ℤ → Database → Step (Database × ApplyResult)
unfolding apply_event
apply_at_offset x e r applied_at db = do
  duplicate ← find_projection_inbox e r db.inbox
  if duplicate then skip_duplicate e r applied_at db else apply_event x e r applied_at db

unfoldable pub apply_from :
    Encodings → Refusals → DecodedRecord → ℤ → Database → ℤ → Step (Database × ApplyResult)
apply_from x e r applied_at db next_offset =
    if ltb_ℤ r.offset next_offset
    then ok
        (db, record { next_offset = next_offset; already_advanced = true; duplicate_event = false })
    else (reject_if (ltb_ℤ next_offset r.offset) partition_offset_gap
        >> apply_at_offset x e r applied_at db)

-- `applyRuntimeRecord`: the database after the transaction, and the result.
unfoldable pub apply_runtime_record :
    Encodings → Refusals → DecodedRecord → ℤ → Database → Step (Database × ApplyResult)
apply_runtime_record x e r applied_at db = do
  reject_if (leb_ℤ applied_at (pos 0)) invalid_apply_record
  next_offset ← lock_partition_offset e r db.offsets
  apply_from x e r applied_at db next_offset
