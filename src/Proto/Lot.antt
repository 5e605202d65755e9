-- ===== src/Proto/Lot.antt =====
-- The protobuf messages of api/auction/service/v1 that describe a lot before, during and after its
-- auction, with the Go types of auction.pb.go. A pointer to a message is an `Option`.
use byte_danceliveauctioni.Base.{Bool, String, List, Option}
use byte_danceliveauctioni.Base.Int.{ℤ}
use byte_danceliveauctioni.Proto.{LotStatus}

pub data LotQueueStatus : Type 0 where
  no_queue_status not_queued is_queued is_next : LotQueueStatus
  other_queue_status : ℤ → LotQueueStatus

pub data PlaybookStage : Type 0 where
  no_stage warm_up trust_blocked bidding_active duel_ready duel_mode settle_ready : PlaybookStage
  other_stage : ℤ → PlaybookStage

pub record Money : Type 0 where
  pub amount : ℤ
  pub currency : String

pub record LotStats : Type 0 where
  pub participant_count : ℤ
  pub bid_count : ℤ

pub record BidRule : Type 0 where
  pub start_price : Option Money
  pub min_increment : Option Money
  pub duration_seconds : ℤ
  pub anti_snipe_window_seconds : ℤ
  pub anti_snipe_extend_seconds : ℤ
  pub max_extend_count : ℤ
  pub cap_price : Option Money

pub record TrustRevealCard : Type 0 where
  pub id : String
  pub lot_id : String
  pub card_type : ℤ
  pub title : String
  pub content : String
  pub image_url : String
  pub revealed : Bool
  pub revealed_at_unix_ms : ℤ

pub record Bid : Type 0 where
  pub id : String
  pub lot_id : String
  pub user_id : String
  pub nickname : String
  pub amount : Option Money
  pub created_at_unix_ms : ℤ
  pub avatar_url : String

pub record RankingItem : Type 0 where
  pub rank : ℤ
  pub user_id : String
  pub nickname : String
  pub amount : Option Money
  pub bid_at_unix_ms : ℤ
  pub avatar_url : String

pub record DuelState : Type 0 where
  pub active : Bool
  pub lot_id : String
  pub user_a_id : String
  pub user_a_nickname : String
  pub user_b_id : String
  pub user_b_nickname : String
  pub started_at_unix_ms : ℤ
  pub ends_at_unix_ms : ℤ
  pub extend_count : ℤ
  pub max_extend_count : ℤ

pub record Lot : Type 0 where
  pub id : String
  pub room_id : String
  pub title : String
  pub description : String
  pub image_url : String
  pub status : LotStatus
  pub rule : Option BidRule
  pub current_price : Option Money
  pub leading_user_id : String
  pub leading_nickname : String
  pub started_at_unix_ms : ℤ
  pub ends_at_unix_ms : ℤ
  pub settled_at_unix_ms : ℤ
  pub winner_user_id : String
  pub winner_nickname : String
  pub final_price : Option Money
  pub version : ℤ
  pub trust_cards : List (Option TrustRevealCard)
  pub duel_state : Option DuelState
  pub playbook_stage : PlaybookStage
  pub cancel_reason : String
  pub cancelled_at_unix_ms : ℤ
  pub queue_status : LotQueueStatus
  pub queue_position : ℤ
  pub gallery_image_urls : List String
  pub category : String
  pub tags : List String
  pub estimate_price : Option Money
  pub stock : ℤ
  pub after_sale_notes : String
  pub deposit_amount : Option Money
  pub stats : Option LotStats
  pub main_account_id : String
  pub created_at_unix_ms : ℤ
  pub updated_at_unix_ms : ℤ
  pub config_version : ℤ
  pub presentation_version : ℤ

pub record CreateLotRequest : Type 0 where
  pub room_id : String
  pub title : String
  pub description : String
  pub image_url : String
  pub rule : Option BidRule
  pub trust_cards : List (Option TrustRevealCard)
  pub gallery_image_urls : List String
  pub category : String
  pub tags : List String
  pub estimate_price : Option Money
  pub stock : ℤ
  pub after_sale_notes : String
  pub deposit_amount : Option Money

pub record PatchLotDraftRequest : Type 0 where
  pub lot_id : String
  pub room_id : String
  pub title : String
  pub description : String
  pub image_url : String
  pub rule : Option BidRule
  pub trust_cards : List (Option TrustRevealCard)
  pub gallery_image_urls : List String
  pub category : String
  pub tags : List String
  pub estimate_price : Option Money
  pub stock : ℤ
  pub after_sale_notes : String
  pub deposit_amount : Option Money
