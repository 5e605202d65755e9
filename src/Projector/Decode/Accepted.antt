-- ===== src/Projector/Decode/Accepted.antt =====
-- What is decoded passes the checks of the store.
use byte_danceliveauctioni.Base.{
  true, false, not, ◌||◌, ltb, Option, none, some, ok, >>=-eq-ok, reject_if-eq-ok, ok_injective,
  map_err, map_err-eq-ok, ◌≡◌, refl, ap, subst, arith,
}
use byte_danceliveauctioni.Base.Int.{pos, ltb_ℤ}
use byte_danceliveauctioni.Base.Text.{str_eq, str_eq_iff, len, is_empty}
use byte_danceliveauctioni.Proto.{RuntimeFact}
use byte_danceliveauctioni.Contract.Checks.{max_runtime_fact_bytes}
use byte_danceliveauctioni.Contract.Fact.{validate_runtime_fact}
use byte_danceliveauctioni.Contract.Message.{runtime_projection_topic}
use byte_danceliveauctioni.Projector.Errors.{ApplyError, invalid_runtime_record, Encodings, encoded}
use byte_danceliveauctioni.Projector.Write.{DecodedRecord}
use byte_danceliveauctioni.Projector.Store.{same_decoded, validate_apply_record}
use byte_danceliveauctioni.Projector.Decode.{
  KafkaRecord, Decimal, runtime_headers, check_headers, decode_record,
}

-- proto.Equal holds of a message and itself.
abbrev pub ReflexiveEqual : Encodings → Type 0
ReflexiveEqual x = (f : RuntimeFact) → x.equal_fact f f ≡ true

-- The checks of the store, one by one.
record IsApplicable (x : Encodings) (r : DecodedRecord) : Type 0 where
  topic : str_eq r.topic runtime_projection_topic ≡ true
  position : (ltb_ℤ r.partition (pos 0) || ltb_ℤ r.offset (pos 0)) ≡ false
  valid : validate_runtime_fact x.externals (some r.fact) ≡ ok tt
  size : (is_empty r.payload || ltb max_runtime_fact_bytes (len r.payload)) ≡ false
  hash : r.payload_hash ≡ x.codec.sha256_hex r.payload
  decoded : x.decode_fact r.payload ≡ some r.fact

IsApplicable-validate_apply_record :
    (x : Encodings) (r : DecodedRecord)
    → ReflexiveEqual x
    → IsApplicable x r
    → validate_apply_record x r ≡ ok tt
unfolding validate_apply_record same_decoded
IsApplicable-validate_apply_record x r same p =
    let a = p.topic in
    let b = p.position in
    let c = p.valid in
    let d = p.size in
    let e = (str_eq_iff r.payload_hash (x.codec.sha256_hex r.payload)).1 p.hash in
    let f = p.decoded in let g = same r.fact in ground arith

encoded-eq-ok :
    {A : Type 0} (why : ApplyError) (o : Option A) {a : A} → encoded why o ≡ ok a → o ≡ some a
unfolding encoded
encoded-eq-ok why none h = cc
encoded-eq-ok why (some b) h = cc

decode_record-IsApplicable :
    (x : Encodings) (d : Decimal) (k : KafkaRecord) {r : DecodedRecord}
    → decode_record x d k ≡ ok r
    → IsApplicable x r
unfolding decode_record
decode_record-IsApplicable x d k h =
    let (topic, h1) =
      reject_if-eq-ok (not (str_eq k.topic runtime_projection_topic)) invalid_runtime_record _ h in
    let (position, h2) =
      reject_if-eq-ok (ltb_ℤ k.partition (pos 0) || ltb_ℤ k.offset (pos 0)) invalid_runtime_record _
        h1 in
    let (size, h3) =
      reject_if-eq-ok (is_empty k.value || ltb max_runtime_fact_bytes (len k.value))
        invalid_runtime_record _ h2 in
    let (fact, decoded, h4) =
      >>=-eq-ok (encoded invalid_runtime_record (x.decode_fact k.value)) _ h3 in
    let (u, valid, h5) =
      >>=-eq-ok
        (map_err (λ _. invalid_runtime_record) (validate_runtime_fact x.externals (some fact))) _
        h4 in
    let (_, h6) = reject_if-eq-ok (not (str_eq k.key fact.lot_id)) invalid_runtime_record _ h5 in
    let (headers, _, h7) = >>=-eq-ok (runtime_headers k.headers) _ h6 in
    let (checked, _, h8) = >>=-eq-ok (check_headers d fact headers) _ h7 in
    subst (λ (z : DecodedRecord). IsApplicable x z) (ok_injective h8)
      (record {
        topic = ground arith;
        position = position;
        valid =
            map_err-eq-ok (λ _. invalid_runtime_record)
              (validate_runtime_fact x.externals (some fact)) valid;
        size = size;
        hash = refl;
        decoded = encoded-eq-ok invalid_runtime_record (x.decode_fact k.value) decoded;
      })

-- For every record of Kafka, when proto.Equal holds of a message and itself: if DecodeRecord accepts the record,
-- then the store accepts what it decodes, so `Apply` never refuses it as an invalid record.
pub decode_record-validate_apply_record :
    (x : Encodings) (d : Decimal) (k : KafkaRecord) (r : DecodedRecord)
    → ReflexiveEqual x
    → decode_record x d k ≡ ok r
    → validate_apply_record x r ≡ ok tt
decode_record-validate_apply_record x d k r same h =
    IsApplicable-validate_apply_record x r same (decode_record-IsApplicable x d k h)

-- A decoded record keeps its position.
pub decode_record-position :
    (x : Encodings) (d : Decimal) (k : KafkaRecord) {r : DecodedRecord}
    → decode_record x d k ≡ ok r
    → (k.topic ≡ r.topic) × (k.partition ≡ r.partition) × (k.offset ≡ r.offset)
unfolding decode_record
decode_record-position x d k h =
    let (_, h1) =
      reject_if-eq-ok (not (str_eq k.topic runtime_projection_topic)) invalid_runtime_record _ h in
    let (_, h2) =
      reject_if-eq-ok (ltb_ℤ k.partition (pos 0) || ltb_ℤ k.offset (pos 0)) invalid_runtime_record _
        h1 in
    let (_, h3) =
      reject_if-eq-ok (is_empty k.value || ltb max_runtime_fact_bytes (len k.value))
        invalid_runtime_record _ h2 in
    let (fact, _, h4) = >>=-eq-ok (encoded invalid_runtime_record (x.decode_fact k.value)) _ h3 in
    let (u, _, h5) =
      >>=-eq-ok
        (map_err (λ _. invalid_runtime_record) (validate_runtime_fact x.externals (some fact))) _
        h4 in
    let (_, h6) = reject_if-eq-ok (not (str_eq k.key fact.lot_id)) invalid_runtime_record _ h5 in
    let (headers, _, h7) = >>=-eq-ok (runtime_headers k.headers) _ h6 in
    let (checked, _, h8) = >>=-eq-ok (check_headers d fact headers) _ h7 in
    let same = ok_injective h8 in
    (
      ap (λ (z : DecodedRecord). z.topic) same,
      ap (λ (z : DecodedRecord). z.partition) same,
      ap (λ (z : DecodedRecord). z.offset) same,
    )
