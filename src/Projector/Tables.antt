-- ===== src/Projector/Tables.antt =====
-- The tables that the projector reads and writes, with the columns its statements name, and its
-- statements on one table. Columns that the server fills with its own clock are left out.
pub mod Rows
use byte_danceliveauctioni.Base.{
  ℕ, suc, String, Bool, true, false, List, [], ◌∷◌, ◌++◌, Option, none, some, if◌then◌else◌, ◌≡◌,
  refl,
}
use byte_danceliveauctioni.Base.Int.{ℤ}
use byte_danceliveauctioni.Proto.{LotStatus}
use byte_danceliveauctioni.Proto.Lot.{LotQueueStatus}

pub record OffsetRow : Type 0 where
  pub topic : String
  pub kafka_partition : ℤ
  pub next_offset : ℤ
  pub updated_at_ms : ℤ

pub record InboxRow : Type 0 where
  pub event_id : String
  pub topic : String
  pub kafka_partition : ℤ
  pub kafka_offset : ℤ
  pub lot_id : String
  pub lot_version : ℤ
  pub payload_hash : String
  pub applied_at_ms : ℤ

pub record ProjectionStateRow : Type 0 where
  pub lot_id : String
  pub room_id : String
  pub last_event_id : Option String
  pub last_lot_version : ℤ
  pub canonical_hash : String
  pub frozen : Bool
  pub last_applied_ms : ℤ

pub record LotRow : Type 0 where
  pub id : String
  pub room_id : String
  pub main_account_id : String
  pub title : String
  pub description : String
  pub image_url : String
  pub payload : String
  pub status : LotStatus
  pub queue_status : LotQueueStatus
  pub queue_position : ℤ
  pub currency : String
  pub start_price_amount : ℤ
  pub min_increment_amount : ℤ
  pub cap_price_amount : Option ℤ
  pub duration_seconds : ℤ
  pub anti_snipe_window_seconds : ℤ
  pub anti_snipe_extend_seconds : ℤ
  pub max_extend_count : ℤ
  pub current_price_amount : ℤ
  pub leading_user_id : String
  pub leading_nickname : String
  pub started_at_unix_ms : ℤ
  pub ends_at_unix_ms : ℤ
  pub settled_at_unix_ms : ℤ
  pub cancel_reason : String
  pub cancelled_at_unix_ms : ℤ
  pub winner_user_id : String
  pub winner_nickname : String
  pub final_price_amount : ℤ
  pub version : ℤ
  pub config_version : ℤ

pub record RoomRow : Type 0 where
  pub room_id : String
  pub main_account_id : String
  pub active_lot_id : String
  pub display_lot_id : String
  pub active_lot_version : ℤ
  pub updated_at_unix_ms : ℤ

pub record BidRow : Type 0 where
  pub id : String
  pub main_account_id : String
  pub lot_id : String
  pub user_id : String
  pub nickname : String
  pub amount : ℤ
  pub idempotency_key : String
  pub created_at_unix_ms : ℤ
  pub payload : String

pub record ParticipantRow : Type 0 where
  pub lot_id : String
  pub user_id : String
  pub main_account_id : String
  pub room_id : String
  pub first_bid_id : String
  pub first_bid_at_unix_ms : ℤ

pub record StatsRow : Type 0 where
  pub lot_id : String
  pub main_account_id : String
  pub room_id : String
  pub bid_count : ℤ
  pub participant_count : ℤ
  pub last_bid_id : String
  pub last_bid_at_unix_ms : ℤ
  pub projected_version : ℤ
  pub updated_at_unix_ms : ℤ

pub record OrderRow : Type 0 where
  pub id : String
  pub source : String
  pub source_order_id : String
  pub order_no : String
  pub main_account_id : String
  pub user_id : String
  pub nickname : String
  pub status : String
  pub payment_status : String
  pub title : String
  pub total_amount : ℤ
  pub currency : String
  pub created_at_unix_ms : ℤ
  pub updated_at_unix_ms : ℤ
  pub expires_at_unix_ms : ℤ
  pub version : ℤ
  pub source_payload : String

pub record OrderItemRow : Type 0 where
  pub id : String
  pub order_id : String
  pub source : String
  pub source_item_id : String
  pub lot_id : String
  pub room_id : String
  pub title : String
  pub image_url : String
  pub sku_name : String
  pub quantity : ℤ
  pub unit_amount : ℤ
  pub total_amount : ℤ
  pub currency : String

pub record DomainMessage : Type 0 where
  pub message_id : String
  pub causation_id : String
  pub topic : String
  pub partition_key : String
  pub payload : String
  pub headers_json : String
  pub created_at_ms : ℤ

pub record FindingRow : Type 0 where
  pub kind : String
  pub lot_id : String
  pub severity : String
  pub detail_json : String
  pub detected_at_ms : ℤ

pub record Database : Type 0 where
  pub offsets : List OffsetRow
  pub inbox : List InboxRow
  pub states : List ProjectionStateRow
  pub lots : List LotRow
  pub rooms : List RoomRow
  pub bids : List BidRow
  pub participants : List ParticipantRow
  pub stats : List StatsRow
  pub orders : List OrderRow
  pub order_items : List OrderItemRow
  pub outbox : List DomainMessage
  pub findings : List FindingRow

module _ {ℓ} {A : Type ℓ} where
  -- The row that a SELECT ... WHERE with a unique key gives, or none (sql.ErrNoRows).
  abbrev pub select : (A → Bool) → List A → Option A
  select here [] = none
  select here (row ∷ rows) = let rest = select here rows in if here row then some row else rest

  -- UPDATE ... SET ... WHERE.
  abbrev pub update : (A → Bool) → (A → A) → List A → List A
  update here set [] = []
  update here set (row ∷ rows) = (if here row then set row else row) ∷ update here set rows

  -- The rows that the WHERE of an UPDATE finds.
  abbrev pub affected : (A → Bool) → List A → ℕ
  affected here [] = 0
  affected here (row ∷ rows) = let rest = affected here rows in if here row then suc rest else rest

  has : Option A → Bool
  has none = false
  has (some a) = true

  -- Whether a row with this key is there.
  unfoldable pub exists : (A → Bool) → List A → Bool
  unfolding has
  exists here rows = has (select here rows)

  -- INSERT IGNORE.
  unfoldable pub insert_ignore : (A → Bool) → A → List A → List A
  insert_ignore same row rows = if exists same rows then rows else rows ++ row ∷ []
