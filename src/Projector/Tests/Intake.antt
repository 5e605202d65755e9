-- ===== src/Projector/Tests/Intake.antt =====
-- A record of Kafka on its way to the database, and the offsets to start from.
use byte_danceliveauctioni.Base.{◌≡◌, refl, arith, true, List, [], ◌∷◌, none, some, ok, All}
use byte_danceliveauctioni.Base.Int.{pos}
use byte_danceliveauctioni.Base.Text.{str_eq_iff}
use byte_danceliveauctioni.Projector.Errors.{
  joined, projection_cas, database_error, bad_conn, is_transient_database_error, transient,
  errors_is, errors_of,
}
use byte_danceliveauctioni.Projector.Write.{DecodedRecord}
use byte_danceliveauctioni.Projector.Store.{
  validate_apply_record, ensure_partition_offset, is_row_of, loaded,
}
use byte_danceliveauctioni.Projector.Offsets.{
  TopicPartition, PartitionBounds, Resolved, stored, same_key, resolve_partition, bound_of,
  resolve_partitions, check_assignments, resolve_assignment_offsets,
}
use byte_danceliveauctioni.Projector.Offsets.Bounded.{
  IsReachable, resolve_assignment_offsets-IsReachable,
}
use byte_danceliveauctioni.Projector.Decode.{
  KafkaRecord, Decimal, collect_headers, check_required, runtime_headers, header,
  parse_canonical_non_negative_int64, parse_canonical_positive_int64, check_headers, decode_record,
}
use byte_danceliveauctioni.Projector.Decode.Accepted.{decode_record-validate_apply_record}
use byte_danceliveauctioni.Projector.Consumer.{projection_pause_reason, Fetched, process_partition}
use byte_danceliveauctioni.Projector.Consumer.Committed.{
  AreCommitsOf, IsComplete, process_partition-IsComplete,
}
use byte_danceliveauctioni.Projector.Tests.{plain, first, before, fine, projector}

-- Every number is written and read as 1.
abbrev ones : Decimal
ones = record { format = λ n. "1"; parse = λ s. some (pos 1) }

abbrev sent : KafkaRecord
sent = record {
  topic = "auction.runtime.projection.v1";
  partition = pos 0;
  offset = pos 7;
  key = "lot-1";
  value = "fact";
  headers =
      ("content_type", "application/x-protobuf")
      ∷ ("event_id", "e0")
      ∷ ("trace_id", "")
      ∷ ("schema_version", "1")
      ∷ ("lot_version", "1")
      ∷ ("owner_epoch", "1")
      ∷ ("outbox_shard", "1")
      ∷ [];
}

abbrev received : DecodedRecord
received = record first { outbox_shard = pos 1 }

decodes : decode_record plain ones sent ≡ ok received
unfolding projector decode_record check_headers parse_canonical_positive_int64
    parse_canonical_non_negative_int64 header runtime_headers check_required collect_headers
decodes = refl

decode_record-validate_apply_record_example : validate_apply_record plain received ≡ ok tt
decode_record-validate_apply_record_example =
    decode_record-validate_apply_record plain ones sent received
      (λ f. (str_eq_iff f.event_id f.event_id).1 refl) decodes

abbrev fetched : Fetched
fetched = record {
  kafka = sent;
  attempt = fine;
  more_attempts = [];
  finding_try = record {
    now_ms = pos 9;
    detail = none;
    begin_error = none;
    answers = (none, none);
    rollback = none;
    commit_error = none;
    landed = true;
  };
}

process_partition-IsComplete_example :
    AreCommitsOf (process_partition plain ones (fetched ∷ []) before).commits (fetched ∷ [])
    × IsComplete (process_partition plain ones (fetched ∷ []) before) (fetched ∷ [])
process_partition-IsComplete_example =
    process_partition-IsComplete plain ones (fetched ∷ []) before (omega arith, tt)

-- A conflict whose finding could not be kept pauses the partition for the connection.
pauses_for_connection :
    projection_pause_reason (joined projection_cas (database_error bad_conn))
    ≡ "mysql_transient_exhausted"
unfolding projection_pause_reason is_transient_database_error transient errors_is errors_of
pauses_for_connection = refl

abbrev zero_partition : TopicPartition
zero_partition = record { topic = "auction.runtime.projection.v1"; partition = pos 0 }

abbrev reported : List (TopicPartition × PartitionBounds)
reported = (zero_partition, record { earliest = pos 3; latest = pos 9 }) ∷ []

abbrev start_at : List Resolved
start_at = record { key = zero_partition; next_offset = pos 7 } ∷ []

resolves :
    resolve_assignment_offsets
      (pos 1)
      (("auction.runtime.projection.v1", pos 0 ∷ []) ∷ [])
      (ok reported)
      before.offsets
    ≡ ok (before.offsets, start_at)
unfolding projector resolve_assignment_offsets resolve_partitions resolve_partition bound_of
    check_assignments stored same_key ensure_partition_offset is_row_of loaded
resolves = refl

resolve_assignment_offsets-IsReachable_example : All (IsReachable reported) start_at
resolve_assignment_offsets-IsReachable_example =
    resolve_assignment_offsets-IsReachable (pos 1) ("auction.runtime.projection.v1", pos 0 ∷ []) []
      reported before.offsets before.offsets start_at resolves
