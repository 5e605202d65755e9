-- ===== src/Projector/Build.antt =====
-- projection.go: the hash of the state and the domain messages that a fact gives rise to.
use byte_danceliveauctioni.Base.{
  String, not, ◌||◌, ◌&&◌, List, [], ◌∷◌, ◌++◌, Option, none, some, ok, ◌>>◌, ◌>>=◌, reject_if,
  Result, map_err, if◌then◌else◌,
}
use byte_danceliveauctioni.Base.Int.{pos}
use byte_danceliveauctioni.Base.Text.{str_eq, is_blank, is_empty}
use byte_danceliveauctioni.Proto.{RuntimeFact, LotRuntimeState, AcceptedBid, OrderDraft, is_settled}
use byte_danceliveauctioni.Proto.Lot.{Lot}
use byte_danceliveauctioni.Projection.{empty_lot}
use byte_danceliveauctioni.Proto.Domain.{
  DomainEventMetadata, DomainEvent, bid_accepted, lot_settled, order_created, lot_state,
  order_enrichment, LotStateDomainEvent,
}
use byte_danceliveauctioni.Contract.Fact.{validate_runtime_fact}
use byte_danceliveauctioni.Contract.Message.{
  domain_message_id, lot_state_content_hash, canonical_state_hash, bid_accepted_topic,
  lot_settled_topic, order_created_topic, lot_state_topic, order_enrichment_topic,
}
use byte_danceliveauctioni.Projector.Tables.{DomainMessage}
use byte_danceliveauctioni.Projector.Errors.{
  ApplyError, invalid_projection, Encodings, Step, encoded,
}

pub record LotMetadata : Type 0 where
  pub lot_id : String
  pub room_id : String
  pub main_account_id : String
  pub title : String
  pub description : String
  pub image_url : String
  pub lot_payload_json : String

pub record Built : Type 0 where
  pub canonical_state_hash : String
  pub domain_messages : List DomainMessage

-- `fmt.Errorf("%w: ...", ErrInvalidProjection)`.
unfoldable pub invalid {ℓ κ} : {E : Type ℓ} {A : Type κ} → Result E A → Result ApplyError A
invalid step = map_err (λ _. invalid_projection) step

unfoldable pub set_domain_metadata : DomainEvent → DomainEventMetadata → DomainEvent
set_domain_metadata (bid_accepted e) m = bid_accepted (record e { metadata = some m })
set_domain_metadata (lot_settled e) m = lot_settled (record e { metadata = some m })
set_domain_metadata (order_created e) m = order_created (record e { metadata = some m })
set_domain_metadata (lot_state e) m = lot_state (record e { metadata = some m })
set_domain_metadata (order_enrichment e) m = order_enrichment (record e { metadata = some m })

-- `appendMessage`, which gives the message.
unfoldable pub domain_message :
    Encodings → RuntimeFact → String → String → DomainEvent → Step DomainMessage
domain_message x f topic key message = do
  message_id ← invalid (domain_message_id x.externals f.event_id topic)
  let described = set_domain_metadata message (record {
    message_id = message_id;
    causation_id = f.event_id;
    trace_id = f.trace_id;
    schema_version = pos 1;
    occurred_at_unix_ms = f.occurred_at_unix_ms;
  })
  payload ← encoded invalid_projection (x.codec.event_bytes described)
  headers ← encoded invalid_projection (
      x.encode_headers
        (record { message_id = message_id; causation_id = f.event_id; trace_id = f.trace_id }))
  ok (record {
    message_id = message_id;
    causation_id = f.event_id;
    topic = topic;
    partition_key = key;
    payload = payload;
    headers_json = headers;
    created_at_ms = f.occurred_at_unix_ms;
  })

unfoldable pub bid_messages :
    Encodings → RuntimeFact → LotRuntimeState → Option AcceptedBid → Step (List DomainMessage)
bid_messages x f s none = ok []
bid_messages x f s (some bid) = do
  message ← domain_message x f bid_accepted_topic f.lot_id (
      bid_accepted (record {
        metadata = none;
        lot_id = f.lot_id;
        room_id = f.room_id;
        bid_id = bid.bid_id;
        user_id = bid.user_id;
        amount_fen = bid.amount_fen;
        currency = s.currency;
        lot_version = f.lot_version;
      }))
  ok (message ∷ [])

settled_message : Encodings → RuntimeFact → LotRuntimeState → Step (List DomainMessage)
settled_message x f s = do
  message ← domain_message x f lot_settled_topic f.lot_id (
      lot_settled (record {
        metadata = none;
        lot_id = f.lot_id;
        room_id = f.room_id;
        winner_user_id = s.winner_user_id;
        final_price_fen = s.final_price_fen;
        currency = s.currency;
        order_id = s.order_id;
        lot_version = f.lot_version;
      }))
  ok (message ∷ [])

unfoldable pub settled_messages :
    Encodings → RuntimeFact → LotRuntimeState → Step (List DomainMessage)
unfolding settled_message
settled_messages x f s = if is_settled s.status then settled_message x f s else ok []

unfoldable pub order_messages :
    Encodings → RuntimeFact → LotMetadata → Option OrderDraft → Step (List DomainMessage)
order_messages x f m none = ok []
order_messages x f m (some draft) = do
  reject_if (not (str_eq draft.main_account_id m.main_account_id)) invalid_projection
  message ← domain_message x f order_created_topic draft.order_id (
      order_created (record {
        metadata = none;
        order_id = draft.order_id;
        lot_id = f.lot_id;
        room_id = f.room_id;
        buyer_user_id = draft.buyer_user_id;
        total_amount_fen = draft.total_amount_fen;
        currency = draft.currency;
        lot_version = f.lot_version;
      }))
  ok (message ∷ [])

unfoldable pub lot_state_event :
    RuntimeFact → LotRuntimeState → LotMetadata → Lot → LotStateDomainEvent
lot_state_event f s m document = record {
  metadata = none;
  lot_id = f.lot_id;
  room_id = f.room_id;
  main_account_id = m.main_account_id;
  lot_version = f.lot_version;
  status = s.status;
  title = m.title;
  description = m.description;
  category = document.category;
  tags = document.tags;
  image_url = m.image_url;
  current_price_fen = s.current_price_fen;
  currency = s.currency;
  ends_at_unix_ms = s.ends_at_unix_ms;
  content_hash = "";
  start_price_fen = s.start_price_fen;
  starts_at_unix_ms = s.started_at_unix_ms;
}

unfoldable pub lot_state_messages :
    Encodings → RuntimeFact → LotRuntimeState → LotMetadata → Lot → Step (List DomainMessage)
lot_state_messages x f s m document = do
  content_hash ← invalid (lot_state_content_hash x.codec (lot_state_event f s m document))
  message ←
      domain_message x f lot_state_topic f.lot_id
        (lot_state (record (lot_state_event f s m document) { content_hash = content_hash }))
  ok (message ∷ [])

unfoldable pub enrichment_messages :
    Encodings → RuntimeFact → Option OrderDraft → Step (List DomainMessage)
enrichment_messages x f none = ok []
enrichment_messages x f (some draft) = do
  message ← domain_message x f order_enrichment_topic draft.order_id (
      order_enrichment (record {
        metadata = none;
        order_id = draft.order_id;
        lot_id = f.lot_id;
        address_id = "";
        shop_id = "";
      }))
  ok (message ∷ [])

decoded_document : String → Lot → Step Lot
decoded_document lot_id document = do
  reject_if (not (is_empty document.id) && not (str_eq document.id lot_id)) invalid_projection
  ok document

-- `metadataLotDocument`.
unfoldable pub metadata_lot_document : Encodings → LotMetadata → Step Lot
unfolding decoded_document
metadata_lot_document x m =
    if is_empty m.lot_payload_json
    then ok empty_lot
    else (encoded invalid_projection (x.decode_lot m.lot_payload_json)
        >>= decoded_document m.lot_id)

unfoldable pub build_from_state :
    Encodings → RuntimeFact → LotMetadata → Lot → LotRuntimeState → Step Built
build_from_state x f m document s = do
  hash ← invalid (canonical_state_hash x.codec s)
  bids ← bid_messages x f s f.accepted_bid
  settlements ← settled_messages x f s
  orders ← order_messages x f m f.order_draft
  states ← lot_state_messages x f s m document
  enrichments ← enrichment_messages x f f.order_draft
  ok (record {
    canonical_state_hash = hash;
    domain_messages = bids ++ settlements ++ orders ++ states ++ enrichments;
  })

-- `fact.GetStateAfter()`, which the contract has made sure of.
unfoldable pub fact_state_of : RuntimeFact → Step LotRuntimeState
fact_state_of f = encoded invalid_projection f.state_after

-- `BuildProjection`.
unfoldable pub build_projection : Encodings → RuntimeFact → LotMetadata → Step Built
build_projection x f m = do
  invalid (validate_runtime_fact x.externals (some f))
  reject_if
      (not (str_eq m.lot_id f.lot_id)
        || not (str_eq m.room_id f.room_id)
        || is_blank m.main_account_id)
      invalid_projection
  document ← metadata_lot_document x m
  s ← fact_state_of f
  build_from_state x f m document s
