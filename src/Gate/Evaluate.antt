-- ===== src/Gate/Evaluate.antt =====
-- projectiongate/guard.go: evaluate. A Go map with its keys sorted is a list in that order; the maps of
-- offsets and of records are looked up. Where the code returns early with what it has, the model stops
-- with it as an error.
pub mod Healthy
use byte_danceliveauctioni.Base.{
  ℕ, ◌+◌, ◌-◌, ◌*◌, ◌/◌, ◌^◌, Bool, true, false, not, ◌&&◌, ◌||◌, String, List, [], ◌∷◌, ◌++◌,
  Option, none, some, ltb, leb, ◌==◌, length, if◌then◌else◌, Result, ok, err, reject_if, ◌>>◌,
  ◌>>=◌,
}
use byte_danceliveauctioni.Base.Int.{
  ℤ, pos, negsuc, pos_part, neg_part, ltb_ℤ, leb_ℤ, eqb_ℤ, sub64, add64,
}
use byte_danceliveauctioni.Gate.Snapshot.{
  Reason, healthy, partition_mismatch, offset_missing, retention_cliff, offset_ahead,
  record_missing, record_timestamp_invalid, lag_limit, oldest_age_limit, retention_headroom, Config,
  Snapshot, PartitionSnapshot, millisecond, unix_milli,
}

pub record PartitionBounds : Type 0 where
  pub earliest : ℤ
  pub latest : ℤ

pub record ProjectionOffset : Type 0 where
  pub next_offset : ℤ
  pub updated_at_ms : ℤ

-- A record of Kafka; its timestamp is missing where it is Go's zero time.
pub record OldestRecord : Type 0 where
  pub offset : ℤ
  pub timestamp : Option ℤ

abbrev pub PartitionMap : Type 0 → Type 0
PartitionMap V = List (ℤ × V)

unfoldable pub lookup : {V : Type 0} → ℤ → PartitionMap V → Option V
lookup p [] = none
lookup p ((q, v) ∷ m) = if eqb_ℤ q p then some v else lookup p m

-- What OldestRecords answers for the first unprojected offsets.
abbrev pub RecordSource : Type 0
RecordSource = PartitionMap ℤ → Result String (PartitionMap OldestRecord)

-- Every partition with an offset is a partition of the topic.
unfoldable pub offsets_are_known :
    PartitionMap PartitionBounds → PartitionMap ProjectionOffset → Bool
offsets_are_known bounds [] = true
offsets_are_known bounds ((p, o) ∷ offsets) = elim (lookup p bounds) [
  | none ↦ false
  | some b ↦ offsets_are_known bounds offsets
]

unfoldable pub check_offset :
    PartitionBounds → Option ProjectionOffset → Result Reason ProjectionOffset
check_offset bound none = err offset_missing
check_offset bound (some o) = do
  reject_if (ltb_ℤ o.next_offset (pos 0) || leb_ℤ o.updated_at_ms (pos 0)) offset_missing
  reject_if (ltb_ℤ bound.earliest (pos 0) || ltb_ℤ bound.latest bound.earliest) partition_mismatch
  reject_if (ltb_ℤ o.next_offset bound.earliest) retention_cliff
  reject_if (ltb_ℤ bound.latest o.next_offset) offset_ahead
  ok o

abbrev pub max_int64 : ℤ
max_int64 = pos (2 ^ 63 - 1)

unfoldable pub add_lag : ℤ → ℤ → ℤ
add_lag total lag = if ltb_ℤ (sub64 max_int64 lag) total then max_int64 else add64 total lag

unfoldable pub max_ℤ : ℤ → ℤ → ℤ
max_ℤ a b = if ltb_ℤ b a then a else b

unfoldable pub measured : Snapshot → ℤ → PartitionBounds → ℤ → Snapshot
measured s p bound next = record s {
  total_lag_records = add_lag s.total_lag_records (sub64 bound.latest next);
  max_partition_lag_records = max_ℤ (sub64 bound.latest next) s.max_partition_lag_records;
  partitions =
      s.partitions
      ++ (record {
        partition = p;
        earliest = bound.earliest;
        database_next = next;
        latest = bound.latest;
        lag_records = sub64 bound.latest next;
        oldest_age_ms = 0;
        oldest_timestamp = pos 0;
      }
          ∷ []);
}

-- The first loop.
unfoldable pub measure_offset :
    Snapshot → ℤ → PartitionBounds → Result Reason ProjectionOffset → Result Snapshot Snapshot
measure_offset s p bound (err why) = err (record s { reason = why })
measure_offset s p bound (ok o) = ok (measured s p bound o.next_offset)

unfoldable pub measure :
    PartitionMap ProjectionOffset
    → Snapshot
    → PartitionMap PartitionBounds
    → Result Snapshot Snapshot
measure offsets s [] = ok s
measure offsets s ((p, bound) ∷ bounds) =
    measure_offset s p bound (check_offset bound (lookup p offsets)) >>= λ t.
    measure offsets t bounds

-- The first offsets that are not projected, of the partitions that lag.
unfoldable pub starts : List PartitionSnapshot → PartitionMap ℤ
starts [] = []
starts (i ∷ items) =
    let rest = starts items in
    if ltb_ℤ (pos 0) i.lag_records then (i.partition, i.database_next) ∷ rest else rest

abbrev pub max_kafka_timestamp_future_skew : ℕ
max_kafka_timestamp_future_skew = 5 * 60 * 10 ^ 9

unfoldable pub check_timestamp : ℕ → Option ℤ → Result Reason ℤ
check_timestamp now none = err record_timestamp_invalid
check_timestamp now (some t) =
    reject_if (ltb_ℤ (pos (now + max_kafka_timestamp_future_skew)) t) record_timestamp_invalid
    >> ok t

unfoldable pub check_record : ℕ → PartitionSnapshot → Option OldestRecord → Result Reason ℤ
check_record now i none = err record_missing
check_record now i (some r) = do
  reject_if (not (eqb_ℤ r.offset i.database_next)) record_missing
  check_timestamp now r.timestamp

-- `now.Sub(timestamp)`, at least 0.
abbrev pub age_of : ℕ → ℤ → ℕ
age_of now t = now + neg_part t - pos_part t

abbrev pub unix_milli_ℤ : ℤ → ℤ
unix_milli_ℤ (pos t) = pos (unix_milli t)
unix_milli_ℤ (negsuc t) = negsuc (unix_milli t)

unfoldable pub aged : ℕ → PartitionSnapshot → ℤ → PartitionSnapshot
aged now i t = record i {
  oldest_timestamp = unix_milli_ℤ t;
  oldest_age_ms = age_of now t / millisecond;
}

abbrev pub max_ℕ : ℕ → ℕ → ℕ
max_ℕ a b = if ltb b a then a else b

-- The second loop; `done` are the items before.
unfoldable pub age_record :
    ℕ
    → Snapshot
    → List PartitionSnapshot
    → PartitionSnapshot
    → List PartitionSnapshot
    → Result Reason ℤ
    → Result Snapshot (Snapshot × PartitionSnapshot)
age_record now s done i items (err why) =
    err (record s { reason = why; partitions = done ++ (i ∷ items) })
age_record now s done i items (ok t) =
    ok (
      record s { oldest_age_ms = max_ℕ (age_of now t / millisecond) s.oldest_age_ms },
      aged now i t,
    )

unfoldable pub age_item :
    ℕ
    → PartitionMap OldestRecord
    → Snapshot
    → List PartitionSnapshot
    → PartitionSnapshot
    → List PartitionSnapshot
    → Result Snapshot (Snapshot × PartitionSnapshot)
age_item now records s done i items =
    if eqb_ℤ i.lag_records (pos 0)
    then ok (s, i)
    else age_record now s done i items (check_record now i (lookup i.partition records))

unfoldable pub age_partitions :
    ℕ
    → PartitionMap OldestRecord
    → Snapshot
    → List PartitionSnapshot
    → List PartitionSnapshot
    → Result Snapshot Snapshot
age_partitions now records s done [] = ok (record s { partitions = done })
age_partitions now records s done (i ∷ items) = age_item now records s done i items >>= λ r.
    age_partitions now records r.0 (done ++ (r.1 ∷ [])) items

unfoldable pub with_headroom : Config → Snapshot → Snapshot
with_headroom c s = record s {
  retention_headroom_ms = (c.runtime_topic_retention - s.oldest_age_ms * millisecond) / millisecond;
}

-- The final switch.
unfoldable pub judged : Config → Snapshot → Snapshot
judged c s =
    if ltb_ℤ c.max_lag_records s.max_partition_lag_records
    then record s { reason = lag_limit }
    else if ltb c.max_oldest_age (s.oldest_age_ms * millisecond)
    then record s { reason = oldest_age_limit }
    else if ltb (s.retention_headroom_ms * millisecond) c.min_retention_headroom
    then record s { reason = retention_headroom }
    else s

unfoldable pub first_snapshot : Config → ℕ → PartitionMap PartitionBounds → Snapshot
first_snapshot c now bounds = record {
  ready = false;
  reason = healthy;
  checked_at_ms = unix_milli now;
  last_successful_check_at_ms = 0;
  partition_count = length bounds;
  total_lag_records = pos 0;
  max_partition_lag_records = pos 0;
  oldest_age_ms = 0;
  retention_headroom_ms = c.runtime_topic_retention / millisecond;
  snapshot_age_ms = 0;
  consecutive_healthy_polls = 0;
  partitions = [];
}

abbrev pub is_nil {ℓ} : {A : Type ℓ} → List A → Bool
is_nil [] = true
is_nil (x ∷ xs) = false

-- What evaluate gives: a snapshot, early or at the end, or the error of OldestRecords.
abbrev pub settle : Config → Result Snapshot Snapshot → Snapshot
settle c (err s) = s
settle c (ok s) = judged c (with_headroom c s)

unfoldable pub with_ages : Config → ℕ → RecordSource → Snapshot → Result String Snapshot
with_ages c now source s =
    if is_nil (starts s.partitions)
    then ok (settle c (ok s))
    else (source (starts s.partitions) >>= λ records.
        ok (settle c (age_partitions now records s [] s.partitions)))

abbrev pub after_measure :
    Config → ℕ → RecordSource → Result Snapshot Snapshot → Result String Snapshot
after_measure c now source (err s) = ok s
after_measure c now source (ok s) = with_ages c now source s

unfoldable pub evaluate :
    Config
    → ℕ
    → RecordSource
    → PartitionMap PartitionBounds
    → PartitionMap ProjectionOffset
    → Result String Snapshot
evaluate c now source bounds offsets =
    let s = first_snapshot c now bounds in
    if is_nil bounds || not (offsets_are_known bounds offsets)
    then ok (record s { reason = partition_mismatch })
    else after_measure c now source (measure offsets s bounds)
