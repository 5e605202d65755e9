-- ===== src/Projector/Consumer.antt =====
-- consumer.go: the records of one partition of a poll, applied in order. After each the offset is
-- committed; the first that fails stops the partition, and may be kept as a finding.
pub mod Committed
use byte_danceliveauctioni.Base.{
  ℕ, String, Bool, true, false, not, List, [], ◌∷◌, Option, none, some, ok, err, ◌||◌, ◌>>◌, ◌>>=◌,
  reject_if, if◌then◌else◌,
}
use byte_danceliveauctioni.Base.Int.{ℤ}
use byte_danceliveauctioni.Projector.Tables.{Database}
use byte_danceliveauctioni.Projector.Errors.{
  ApplyError, invalid_apply_record, partition_offset_missing, partition_offset_gap,
  event_identity_conflict, runtime_projection_gap, projection_lot_frozen, projection_lot_not_found,
  projection_identity, projection_config_version, projection_cas, invalid_projection,
  invalid_runtime_record, encoding_failed, DatabaseError, database_error, joined, errors_is,
  invalid_finding, answered, Encodings, Step, is_transient_database_error,
}
use byte_danceliveauctioni.Projector.Write.{DecodedRecord}
use byte_danceliveauctioni.Projector.Apply.{ApplyResult}
use byte_danceliveauctioni.Projector.Store.{Attempt, rolled_back, validate_apply_record, apply}
use byte_danceliveauctioni.Projector.Finding.{valid_finding, record_projection_finding}
use byte_danceliveauctioni.Projector.Decode.{KafkaRecord, Decimal, decode_record}

pub record Finding : Type 0 where
  pub kind : String
  pub severity : String
  pub freeze : Bool

abbrev pub identity_finding : Finding
identity_finding = record { kind = "EVENT_IDENTITY_CONFLICT"; severity = "P0"; freeze = true }

abbrev pub gap_finding : Finding
gap_finding = record { kind = "RUNTIME_VERSION_GAP"; severity = "P1"; freeze = false }

abbrev pub conflict_finding : Finding
conflict_finding = record { kind = "PROJECTION_CONFLICT"; severity = "P0"; freeze = true }

-- The switch of `recordFailure`.
unfoldable pub finding_of : ApplyError → Option Finding
finding_of cause =
    if errors_is cause event_identity_conflict
    then some identity_finding
    else if errors_is cause runtime_projection_gap || errors_is cause partition_offset_gap
    then some gap_finding
    else if errors_is cause projection_identity
        || errors_is cause projection_config_version
        || errors_is cause projection_cas
    then some conflict_finding
    else none

-- `projectionPauseReason`.
unfoldable pub projection_pause_reason : ApplyError → String
projection_pause_reason e =
    if errors_is e invalid_runtime_record
      || errors_is e invalid_apply_record
      || errors_is e invalid_projection
    then "invalid_record"
    else if errors_is e event_identity_conflict
    then "event_identity"
    else if errors_is e partition_offset_gap
    then "offset_gap"
    else if errors_is e runtime_projection_gap
    then "version_gap"
    else if errors_is e projection_lot_frozen
    then "lot_frozen"
    else if errors_is e projection_config_version
    then "config_version"
    else if is_transient_database_error e
    then "mysql_transient_exhausted"
    else "projection_error"

-- What keeping a finding meets: the clock, the detail's JSON, the answers to the statements, and, as for
-- an attempt, those to BEGIN, ROLLBACK and COMMIT.
pub record FindingTry : Type 0 where
  pub now_ms : ℤ
  pub detail : Option String
  pub begin_error : Option DatabaseError
  pub answers : Option DatabaseError × Option DatabaseError
  pub rollback : Option DatabaseError
  pub commit_error : Option DatabaseError
  pub landed : Bool

unfoldable pub finding_committed :
    FindingTry → Database → Database → Option DatabaseError → Database × Option ApplyError
finding_committed t db after none = (after, none)
finding_committed t db after (some why) =
    (if t.landed then after else db, some (database_error why))

unfoldable pub finding_concluded :
    FindingTry → Database → Step Database → Database × Option ApplyError
unfolding finding_committed
finding_concluded t db (err why) = (db, some (rolled_back t.rollback why))
finding_concluded t db (ok after) = finding_committed t db after t.commit_error

unfoldable pub finding_begun :
    Database → Step (Unit {0}) → Database × Option ApplyError → Database × Option ApplyError
finding_begun db (err why) one = (db, some why)
finding_begun db (ok u) one = one

-- `RecordFinding`: the database after it, and its error.
unfoldable pub record_finding :
    Encodings → FindingTry → DecodedRecord → Finding → Database → Database × Option ApplyError
unfolding finding_begun finding_concluded
record_finding x t r finding db =
    let begun =
      validate_apply_record x r
      >> reject_if (not (valid_finding finding.kind finding.severity)) invalid_finding
      >> answered t.begin_error in
    finding_begun db begun (
      finding_concluded t db (
        record_projection_finding t.answers r finding.kind finding.severity finding.freeze t.detail
          t.now_ms db))

-- `recordFailure`.
unfoldable pub record_failure :
    Encodings
    → FindingTry
    → DecodedRecord
    → Option Finding
    → Database
    → Database × Option ApplyError
record_failure x t r none db = (db, none)
record_failure x t r (some finding) db = record_finding x t r finding db

-- `errors.Join(err, recordFailure(...))`.
unfoldable pub joined_failure : ApplyError → Option ApplyError → ApplyError
joined_failure why none = why
joined_failure why (some also) = joined why also

-- A fetched record, and what its application meets.
pub record Fetched : Type 0 where
  pub kafka : KafkaRecord
  pub attempt : Attempt
  pub more_attempts : List Attempt
  pub finding_try : FindingTry

-- `CommitProjected(record, nextOffset)`.
pub record Commit : Type 0 where
  pub record_offset : ℤ
  pub next_offset : ℤ

pub record Processed : Type 0 where
  pub database : Database
  pub commits : List Commit
  pub failure : Option ApplyError

unfoldable pub failed_or_applied :
    Encodings → Fetched → DecodedRecord → Database × Step ApplyResult → Database × Step ApplyResult
failed_or_applied x k r (after, err why) =
    let kept = record_failure x k.finding_try r (finding_of why) after in
    (kept.0, err (joined_failure why kept.1))
failed_or_applied x k r (after, ok result) = (after, ok result)

unfoldable pub process_decoded :
    Encodings → Fetched → Database → Step DecodedRecord → Database × Step ApplyResult
unfolding failed_or_applied
process_decoded x k db (err why) = (db, err why)
process_decoded x k db (ok r) = failed_or_applied x k r (apply x r k.attempt k.more_attempts db)

-- One turn of the loop in `processPartition`: decode, apply, and keep a failure.
unfoldable pub process_record :
    Encodings → Decimal → Fetched → Database → Database × Step ApplyResult
process_record x d k db = process_decoded x k db (decode_record x d k.kafka)

-- The commit and the records after it, or the end with the error.
unfoldable pub committed_or_stopped :
    KafkaRecord → Database × Step ApplyResult → Processed → Processed
committed_or_stopped k (db, err why) rest = record {
  database = db;
  commits = [];
  failure = some why;
}
committed_or_stopped k (db, ok result) rest = record rest {
  commits = record { record_offset = k.offset; next_offset = result.next_offset } ∷ rest.commits;
}

-- `processPartition`.
unfoldable pub process_partition : Encodings → Decimal → List Fetched → Database → Processed
process_partition x d [] db = record { database = db; commits = []; failure = none }
process_partition x d (k ∷ more) db =
    let one = process_record x d k db in
    let rest = process_partition x d more one.0 in committed_or_stopped k.kafka one rest
