-- ===== src/Projector/Offsets.antt =====
-- offsets.go: the offsets at which the consumer starts on the partitions it is assigned. A Go map is the
-- list of its entries; the bounds are Kafka's answers to ListOffsets.
pub mod Bounded
use byte_danceliveauctioni.Base.{
  String, Bool, true, false, not, ◌&&◌, ◌||◌, List, [], ◌∷◌, ◌++◌, map, Option, none, some, ok, err,
  Result, ◌>>◌, ◌>>=◌, reject_if, if◌then◌else◌, any, ◌==◌, length,
}
use byte_danceliveauctioni.Base.Int.{ℤ, pos, ltb_ℤ, eqb_ℤ}
use byte_danceliveauctioni.Base.Text.{str_eq}
use byte_danceliveauctioni.Contract.Message.{runtime_projection_topic}
use byte_danceliveauctioni.Projector.Tables.{OffsetRow, select, exists}
use byte_danceliveauctioni.Projector.Errors.{ApplyError}
use byte_danceliveauctioni.Projector.Store.{ensure_partition_offset}

pub data OffsetError : Type 0 where
  invalid_assignment retention_cliff latest_missing kafka_error negative_offset : OffsetError
  duplicated_partition : OffsetError
  store_error : ApplyError → OffsetError

pub record TopicPartition : Type 0 where
  pub topic : String
  pub partition : ℤ

pub record PartitionBounds : Type 0 where
  pub earliest : ℤ
  pub latest : ℤ

-- One partition of a ListOffsets response.
pub record ListedOffset : Type 0 where
  pub key : TopicPartition
  pub error_code : ℤ
  pub offset : ℤ

unfoldable pub same_key : TopicPartition → TopicPartition → Bool
same_key a b = str_eq a.topic b.topic && eqb_ℤ a.partition b.partition

has_key : TopicPartition → TopicPartition × ℤ → Bool
unfolding same_key
has_key key (other, n) = same_key other key

-- The loop of `listOffsets` over the response.
unfoldable pub list_offsets :
    List (TopicPartition × ℤ) → List ListedOffset → Result OffsetError (List (TopicPartition × ℤ))
unfolding has_key
list_offsets result [] = ok result
list_offsets result (listed ∷ more) = do
  reject_if (not (eqb_ℤ listed.error_code (pos 0))) kafka_error
  reject_if (ltb_ℤ listed.offset (pos 0)) negative_offset
  reject_if (exists (has_key listed.key) result) duplicated_partition
  list_offsets (result ++ (listed.key, listed.offset) ∷ []) more

joined_bounds :
    TopicPartition
    → ℤ
    → Option (TopicPartition × ℤ)
    → Result OffsetError (TopicPartition × PartitionBounds)
joined_bounds key start none = err latest_missing
joined_bounds key start (some (other, end)) = ok (key, record { earliest = start; latest = end })

-- The loop of `ReadBounds` over the earliest offsets.
unfoldable pub join_bounds :
    List (TopicPartition × ℤ)
    → List (TopicPartition × ℤ)
    → Result OffsetError (List (TopicPartition × PartitionBounds))
unfolding joined_bounds has_key
join_bounds latest [] = ok []
join_bounds latest ((key, start) ∷ earliest) = do
  bound ← joined_bounds key start (select (has_key key) latest)
  rest ← join_bounds latest earliest
  ok (bound ∷ rest)

-- `ReadBounds`, of the responses to the two requests.
unfoldable pub read_bounds :
    List ListedOffset
    → List ListedOffset
    → Result OffsetError (List (TopicPartition × PartitionBounds))
read_bounds first_offsets last_offsets = do
  earliest ← list_offsets [] first_offsets
  latest ← list_offsets [] last_offsets
  join_bounds latest earliest

some_negative : List ℤ → Bool
some_negative partitions = any (map (λ p. ltb_ℤ p (pos 0)) partitions)

-- The first loop of `ResolveAssignmentOffsets`.
unfoldable pub check_assignments : List (String × List ℤ) → Result OffsetError (Unit {0})
unfolding some_negative
check_assignments [] = ok tt
check_assignments ((topic, partitions) ∷ more) = do
  reject_if (not (str_eq topic runtime_projection_topic) || (length partitions == 0))
      invalid_assignment
  reject_if (some_negative partitions) invalid_assignment
  check_assignments more

pub record Resolved : Type 0 where
  pub key : TopicPartition
  pub next_offset : ℤ

has_bound : TopicPartition → TopicPartition × PartitionBounds → Bool
unfolding same_key
has_bound key (other, bound) = same_key other key

unfoldable pub stored : {A : Type 0} → Result ApplyError A → Result OffsetError A
stored (ok a) = ok a
stored (err why) = err (store_error why)

-- One partition: with the table of offsets before and after.
unfoldable pub resolve_partition :
    ℤ
    → TopicPartition
    → Option (TopicPartition × PartitionBounds)
    → List OffsetRow
    → Result OffsetError (List OffsetRow × Resolved)
resolve_partition now key none rows = err retention_cliff
resolve_partition now key (some (other, bound)) rows = do
  reject_if (ltb_ℤ bound.earliest (pos 0) || ltb_ℤ bound.latest bound.earliest) retention_cliff
  kept ← stored (ensure_partition_offset key.topic key.partition bound.earliest now rows)
  reject_if (ltb_ℤ kept.1 bound.earliest || ltb_ℤ bound.latest kept.1) retention_cliff
  ok (kept.0, record { key = key; next_offset = kept.1 })

unfoldable pub bound_of :
    List (TopicPartition × PartitionBounds)
    → TopicPartition
    → Option (TopicPartition × PartitionBounds)
unfolding has_bound
bound_of bounds key = select (has_bound key) bounds

-- The second loop, over the partitions of all topics.
unfoldable pub resolve_partitions :
    ℤ
    → List (TopicPartition × PartitionBounds)
    → List TopicPartition
    → List OffsetRow
    → Result OffsetError (List OffsetRow × List Resolved)
resolve_partitions now bounds [] rows = ok (rows, [])
resolve_partitions now bounds (key ∷ keys) rows = do
  one ← resolve_partition now key (bound_of bounds key) rows
  rest ← resolve_partitions now bounds keys one.0
  ok (rest.0, one.1 ∷ rest.1)

keys_of_topic : String → List ℤ → List TopicPartition
keys_of_topic topic partitions = map (λ p. record { topic = topic; partition = p }) partitions

keys_of : List (String × List ℤ) → List TopicPartition
unfolding keys_of_topic
keys_of [] = []
keys_of ((topic, partitions) ∷ more) = keys_of_topic topic partitions ++ keys_of more

-- `if len(assignments) == 0`: the reader is not asked.
reader_unless_empty :
    List (String × List ℤ)
    → Result OffsetError (List (TopicPartition × PartitionBounds))
    → Result OffsetError (List (TopicPartition × PartitionBounds))
reader_unless_empty [] reader = ok []
reader_unless_empty (assignment ∷ more) reader = reader

-- `ResolveAssignmentOffsets`, with the answer of the bounds reader.
unfoldable pub resolve_assignment_offsets :
    ℤ
    → List (String × List ℤ)
    → Result OffsetError (List (TopicPartition × PartitionBounds))
    → List OffsetRow
    → Result OffsetError (List OffsetRow × List Resolved)
unfolding keys_of reader_unless_empty
resolve_assignment_offsets now assignments reader rows = do
  check_assignments assignments
  bounds ← reader_unless_empty assignments reader
  resolve_partitions now bounds (keys_of assignments) rows
