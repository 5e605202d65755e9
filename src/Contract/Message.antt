-- ===== src/Contract/Message.antt =====
-- contract.go: the ids and hashes of domain events, and the topics of kafka.go.
use byte_danceliveauctioni.Base.{
  String, Bool, not, ◌||◌, ◌&&◌, Option, none, some, all, ltb, leb, ◌==◌, Result, ok, err, ◌>>◌,
  reject_if,
}
use Prim.Native.String.{◌++◌}
use byte_danceliveauctioni.Base.Text.{codes, len, trim_space, is_empty}
use byte_danceliveauctioni.Proto.{LotRuntimeState}
use byte_danceliveauctioni.Proto.Domain.{LotStateDomainEvent, DomainEvent, lot_state}
use byte_danceliveauctioni.Contract.Checks.{Externals, validate_event_id}

abbrev pub runtime_projection_topic : String
runtime_projection_topic = "auction.runtime.projection.v1"

abbrev pub bid_accepted_topic : String
bid_accepted_topic = "auction.bid.accepted.v1"

abbrev pub lot_settled_topic : String
lot_settled_topic = "auction.lot.settled.v1"

abbrev pub order_created_topic : String
order_created_topic = "auction.order.created.v1"

abbrev pub lot_state_topic : String
lot_state_topic = "auction.lot.state.v1"

abbrev pub order_enrichment_topic : String
order_enrichment_topic = "auction.order.enrichment.requested.v1"

pub data MessageError : Type 0 where
  causation_id_invalid event_type_invalid message_id_too_long encoding_failed : MessageError

-- Deterministic protobuf encoding, and SHA-256 as text in hexadecimal: of all bytes, and of the first 16.
pub record Codec : Type 0 where
  pub event_bytes : DomainEvent → Option String
  pub state_bytes : LotRuntimeState → Option String
  pub sha256_hex : String → String
  pub sha256_hex_16 : String → String

unfoldable pub valid_event_type : String → Bool
valid_event_type value =
    all
      (λ c.
        (leb 97 c && leb c 122) || (leb 48 c && leb c 57) || (c == 46) || (c == 45) || (c == 95))
      (codes value)

unfoldable pub domain_message_id : Externals → String → String → Result MessageError String
domain_message_id x causation_id event_type =
    reject_if (not (validate_event_id x causation_id)) causation_id_invalid
    >> (let event_type = trim_space event_type in
        reject_if (is_empty event_type || not (valid_event_type event_type)) event_type_invalid
        >> (let message_id = causation_id ++ ":" ++ event_type in
            reject_if (ltb 128 (len message_id)) message_id_too_long >> ok message_id))

hashed : (String → String) → Option String → Result MessageError String
hashed hash none = err encoding_failed
hashed hash (some payload) = ok (hash payload)

unfoldable pub payload_hash : Codec → DomainEvent → Result MessageError String
unfolding hashed
payload_hash c message = hashed c.sha256_hex (c.event_bytes message)

-- Without the metadata and the hash itself.
unfoldable pub lot_state_content_hash : Codec → LotStateDomainEvent → Result MessageError String
lot_state_content_hash c event =
    payload_hash c (lot_state (record event { metadata = none; content_hash = "" }))

unfoldable pub canonical_state_hash : Codec → LotRuntimeState → Result MessageError String
unfolding hashed
canonical_state_hash c state = hashed c.sha256_hex_16 (c.state_bytes state)
