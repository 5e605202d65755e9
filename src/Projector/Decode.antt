-- ===== src/Projector/Decode.antt =====
-- record.go: a record of Kafka with its headers, decoded and checked before any transaction.
pub mod Accepted
use byte_danceliveauctioni.Base.{
  String, Bool, true, false, not, ◌&&◌, ◌||◌, ltb, List, [], ◌∷◌, ◌++◌, Option, none, some, ok, err,
  ◌>>◌, ◌>>=◌, reject_if, if◌then◌else◌, any, map_err,
}
use byte_danceliveauctioni.Base.Int.{ℤ, pos, ltb_ℤ, leb_ℤ}
use byte_danceliveauctioni.Base.Text.{str_eq, len, is_empty}
use byte_danceliveauctioni.Proto.{RuntimeFact}
use byte_danceliveauctioni.Contract.Checks.{max_runtime_fact_bytes}
use byte_danceliveauctioni.Contract.Fact.{validate_runtime_fact}
use byte_danceliveauctioni.Contract.Message.{runtime_projection_topic}
use byte_danceliveauctioni.Projector.Tables.{select, exists}
use byte_danceliveauctioni.Projector.Errors.{invalid_runtime_record, Encodings, Step, encoded}
use byte_danceliveauctioni.Projector.Write.{DecodedRecord}

abbrev pub Headers : Type 0
Headers = List (String × String)

-- A record as Kafka gives it.
pub record KafkaRecord : Type 0 where
  pub topic : String
  pub partition : ℤ
  pub offset : ℤ
  pub key : String
  pub value : String
  pub headers : Headers

-- strconv: the decimal text of a number, and the number of a text.
pub record Decimal : Type 0 where
  pub format : ℤ → String
  pub parse : String → Option ℤ

abbrev required : List String
required =
    "content_type" ∷ "event_id" ∷ "trace_id" ∷ "schema_version" ∷ "lot_version" ∷ "owner_epoch"
    ∷ "outbox_shard" ∷ []

has_name : String → String × String → Bool
has_name name (other, value) = str_eq other name

-- The first loop of `runtimeHeaders`.
unfoldable pub collect_headers : Headers → Headers → Step Headers
unfolding has_name
collect_headers result [] = ok result
collect_headers result ((name, value) ∷ more) =
    let kept = collect_headers (result ++ (name, value) ∷ []) more in
    let passed = collect_headers result more in
    if not (exists (str_eq name) required)
    then passed
    else (if exists (has_name name) result then err invalid_runtime_record else kept)

-- The second loop.
unfoldable pub check_required : Headers → List String → Step (Unit {0})
unfolding has_name
check_required result [] = ok tt
check_required result (name ∷ names) = do
  reject_if (not (exists (has_name name) result)) invalid_runtime_record
  check_required result names

-- `runtimeHeaders`.
unfoldable pub runtime_headers : Headers → Step Headers
runtime_headers values = do
  result ← collect_headers [] values
  check_required result required
  ok result

header_value : Option (String × String) → String
header_value none = ""
header_value (some (name, value)) = value

-- `headers[name]`, the empty text when it is missing.
unfoldable pub header : Headers → String → String
unfolding has_name header_value
header result name = header_value (select (has_name name) result)

canonical : Decimal → String → Option ℤ → Step ℤ
canonical d value none = err invalid_runtime_record
canonical d value (some parsed) = do
  reject_if (ltb_ℤ parsed (pos 0) || not (str_eq (d.format parsed) value)) invalid_runtime_record
  ok parsed

unfoldable pub parse_canonical_non_negative_int64 : Decimal → String → Step ℤ
unfolding canonical
parse_canonical_non_negative_int64 d value = canonical d value (d.parse value)

unfoldable pub parse_canonical_positive_int64 : Decimal → String → Step ℤ
parse_canonical_positive_int64 d value = do
  parsed ← parse_canonical_non_negative_int64 d value
  reject_if (leb_ℤ parsed (pos 0)) invalid_runtime_record
  ok parsed

abbrev runtime_outbox_shard_count : ℤ
runtime_outbox_shard_count = pos 16

-- The checks of the headers against the fact: the owner's epoch and the shard.
unfoldable pub check_headers : Decimal → RuntimeFact → Headers → Step (ℤ × ℤ)
check_headers d f headers = do
  reject_if (not (str_eq (header headers "content_type") "application/x-protobuf"))
      invalid_runtime_record
  reject_if (not (str_eq (header headers "event_id") f.event_id)) invalid_runtime_record
  reject_if (not (str_eq (header headers "trace_id") f.trace_id)) invalid_runtime_record
  reject_if (not (str_eq (header headers "schema_version") (d.format f.schema_version)))
      invalid_runtime_record
  reject_if (not (str_eq (header headers "lot_version") (d.format f.lot_version)))
      invalid_runtime_record
  owner_epoch ← parse_canonical_positive_int64 d (header headers "owner_epoch")
  outbox_shard ← parse_canonical_non_negative_int64 d (header headers "outbox_shard")
  reject_if (leb_ℤ runtime_outbox_shard_count outbox_shard) invalid_runtime_record
  ok (owner_epoch, outbox_shard)

-- `DecodeRecord`, of a record that is there.
unfoldable pub decode_record : Encodings → Decimal → KafkaRecord → Step DecodedRecord
decode_record x d k = do
  reject_if (not (str_eq k.topic runtime_projection_topic)) invalid_runtime_record
  reject_if (ltb_ℤ k.partition (pos 0) || ltb_ℤ k.offset (pos 0)) invalid_runtime_record
  reject_if (is_empty k.value || ltb max_runtime_fact_bytes (len k.value)) invalid_runtime_record
  fact ← encoded invalid_runtime_record (x.decode_fact k.value)
  map_err (λ _. invalid_runtime_record) (validate_runtime_fact x.externals (some fact))
  reject_if (not (str_eq k.key fact.lot_id)) invalid_runtime_record
  headers ← runtime_headers k.headers
  checked ← check_headers d fact headers
  ok (record {
    topic = k.topic;
    partition = k.partition;
    offset = k.offset;
    fact = fact;
    payload = k.value;
    payload_hash = x.codec.sha256_hex k.value;
    owner_epoch = checked.0;
    outbox_shard = checked.1;
  })
