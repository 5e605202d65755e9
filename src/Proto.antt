-- ===== src/Proto.antt =====
-- The protobuf messages of api/auction/service/v1 that the auction core exchanges, with the Go
-- types of auction.pb.go and runtime.pb.go. A pointer to a message is an `Option`; a proto3 enum is
-- open, so it has a case for a number without a name. int64, int32 and uint32 fields are integers.
pub mod Lot
pub mod Domain
use byte_danceliveauctioni.Base.{Bool, true, false, String, List, Option}
use byte_danceliveauctioni.Base.Int.{ℤ}

pub data LotStatus : Type 0 where
  unspecified draft ready queued live extended settled cancelled failed : LotStatus
  unrecognized : ℤ → LotStatus

pub data RuntimeCommandType : Type 0 where
  no_command start_lot place_bid cancel_lot close_if_expired sync_lot_config : RuntimeCommandType
  unknown_command : ℤ → RuntimeCommandType

pub record RuntimeRankingItem : Type 0 where
  pub rank : ℤ
  pub user_id : String
  pub masked_nickname : String
  pub avatar_url : String
  pub amount_fen : ℤ
  pub bid_at_unix_ms : ℤ

pub record LotRuntimeState : Type 0 where
  pub lot_id : String
  pub room_id : String
  pub status : LotStatus
  pub currency : String
  pub start_price_fen : ℤ
  pub min_increment_fen : ℤ
  pub cap_price_fen : Option ℤ
  pub current_price_fen : ℤ
  pub leading_user_id : String
  pub leading_nickname : String
  pub winner_user_id : String
  pub winner_nickname : String
  pub final_price_fen : ℤ
  pub started_at_unix_ms : ℤ
  pub ends_at_unix_ms : ℤ
  pub settled_at_unix_ms : ℤ
  pub cancelled_at_unix_ms : ℤ
  pub cancel_reason : String
  pub bid_count : ℤ
  pub participant_count : ℤ
  pub extend_count : ℤ
  pub max_extend_count : ℤ
  pub order_id : String
  pub top_ranking : List (Option RuntimeRankingItem)
  pub duration_ms : Option ℤ
  pub anti_snipe_window_ms : Option ℤ
  pub anti_snipe_extend_ms : Option ℤ

pub record AcceptedBid : Type 0 where
  pub bid_id : String
  pub user_id : String
  pub nickname : String
  pub avatar_url : String
  pub amount_fen : ℤ
  pub accepted_at_unix_ms : ℤ

pub record OrderDraft : Type 0 where
  pub order_id : String
  pub lot_id : String
  pub room_id : String
  pub main_account_id : String
  pub buyer_user_id : String
  pub buyer_nickname : String
  pub title : String
  pub image_url : String
  pub total_amount_fen : ℤ
  pub currency : String
  pub created_at_unix_ms : ℤ

pub record RuntimeFact : Type 0 where
  pub event_id : String
  pub trace_id : String
  pub lot_id : String
  pub room_id : String
  pub prev_lot_version : ℤ
  pub lot_version : ℤ
  pub occurred_at_unix_ms : ℤ
  pub config_version : ℤ
  pub command : RuntimeCommandType
  pub state_after : Option LotRuntimeState
  pub accepted_bid : Option AcceptedBid
  pub order_draft : Option OrderDraft
  pub idempotency_key : String
  pub schema_version : ℤ

-- `status == LIVE || status == EXTENDED`.
abbrev pub is_open : LotStatus → Bool
is_open live = true
is_open extended = true
is_open _ = false

abbrev pub is_settled : LotStatus → Bool
is_settled settled = true
is_settled _ = false

abbrev pub is_live : LotStatus → Bool
is_live live = true
is_live _ = false

abbrev pub is_cancelled : LotStatus → Bool
is_cancelled cancelled = true
is_cancelled _ = false

abbrev pub is_failed : LotStatus → Bool
is_failed failed = true
is_failed _ = false

abbrev pub is_unspecified : LotStatus → Bool
is_unspecified unspecified = true
is_unspecified _ = false
