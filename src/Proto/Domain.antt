-- ===== src/Proto/Domain.antt =====
-- The domain events of api/auction/service/v1/domain.pb.go that the projector derives from a fact.
-- proto.Message is the sum of them.
use byte_danceliveauctioni.Base.{String, List, Option}
use byte_danceliveauctioni.Base.Int.{ℤ}
use byte_danceliveauctioni.Proto.{LotStatus}

pub record DomainEventMetadata : Type 0 where
  pub message_id : String
  pub causation_id : String
  pub trace_id : String
  pub schema_version : ℤ
  pub occurred_at_unix_ms : ℤ

pub record BidAcceptedDomainEvent : Type 0 where
  pub metadata : Option DomainEventMetadata
  pub lot_id : String
  pub room_id : String
  pub bid_id : String
  pub user_id : String
  pub amount_fen : ℤ
  pub currency : String
  pub lot_version : ℤ

pub record LotSettledDomainEvent : Type 0 where
  pub metadata : Option DomainEventMetadata
  pub lot_id : String
  pub room_id : String
  pub winner_user_id : String
  pub final_price_fen : ℤ
  pub currency : String
  pub order_id : String
  pub lot_version : ℤ

pub record OrderCreatedDomainEvent : Type 0 where
  pub metadata : Option DomainEventMetadata
  pub order_id : String
  pub lot_id : String
  pub room_id : String
  pub buyer_user_id : String
  pub total_amount_fen : ℤ
  pub currency : String
  pub lot_version : ℤ

pub record LotStateDomainEvent : Type 0 where
  pub metadata : Option DomainEventMetadata
  pub lot_id : String
  pub room_id : String
  pub main_account_id : String
  pub lot_version : ℤ
  pub status : LotStatus
  pub title : String
  pub description : String
  pub category : String
  pub tags : List String
  pub image_url : String
  pub current_price_fen : ℤ
  pub currency : String
  pub ends_at_unix_ms : ℤ
  pub content_hash : String
  pub start_price_fen : ℤ
  pub starts_at_unix_ms : ℤ

pub record OrderEnrichmentRequestedDomainEvent : Type 0 where
  pub metadata : Option DomainEventMetadata
  pub order_id : String
  pub lot_id : String
  pub address_id : String
  pub shop_id : String

pub data DomainEvent : Type 0 where
  bid_accepted : BidAcceptedDomainEvent → DomainEvent
  lot_settled : LotSettledDomainEvent → DomainEvent
  order_created : OrderCreatedDomainEvent → DomainEvent
  lot_state : LotStateDomainEvent → DomainEvent
  order_enrichment : OrderEnrichmentRequestedDomainEvent → DomainEvent
