-- ===== src/Projector/Store.antt =====
-- sql_store.go: the transaction with its retries, the delay between them, and the offset of a partition that
-- is assigned for the first time.
pub mod Once
pub mod Delay
use byte_danceliveauctioni.Base.{
  ℕ, zero, suc, ◌+◌, ◌*◌, ◌-◌, ◌/◌, ◌<◌, String, Bool, true, false, not, ◌&&◌, ◌||◌, ltb, leb, ◌==◌,
  List, [], ◌∷◌, ◌++◌, Option, none, some, ok, err, ◌>>◌, ◌>>=◌, reject_if, if◌then◌else◌, map_err,
  any,
}
use byte_danceliveauctioni.Base.Int.{ℤ, pos, ltb_ℤ, eqb_ℤ}
use byte_danceliveauctioni.Base.Text.{str_eq, len, is_empty}
use byte_danceliveauctioni.Proto.{RuntimeFact}
use byte_danceliveauctioni.Contract.Checks.{max_runtime_fact_bytes}
use byte_danceliveauctioni.Contract.Fact.{validate_runtime_fact}
use byte_danceliveauctioni.Contract.Message.{runtime_projection_topic}
use byte_danceliveauctioni.Projector.Tables.{OffsetRow, Database, select, insert_ignore}
use byte_danceliveauctioni.Projector.Errors.{
  ApplyError, invalid_apply_record, partition_offset_gap, joined, begin, database_error,
  other_error, DatabaseError, Statement, commit, Encodings, Refusals, Step, answered,
  is_transient_database_error,
}
use byte_danceliveauctioni.Projector.Write.{DecodedRecord}
use byte_danceliveauctioni.Projector.Apply.{ApplyResult, apply_runtime_record}

unfoldable pub same_decoded : Encodings → RuntimeFact → Option RuntimeFact → Bool
same_decoded x f none = false
same_decoded x f (some decoded) = x.equal_fact decoded f

-- `validateApplyRecord`.
unfoldable pub validate_apply_record : Encodings → DecodedRecord → Step (Unit {0})
unfolding same_decoded
validate_apply_record x r = do
  reject_if
      (any (
        not (str_eq r.topic runtime_projection_topic)
        ∷ ltb_ℤ r.partition (pos 0)
        ∷ ltb_ℤ r.offset (pos 0)
        ∷ []))
      invalid_apply_record
  map_err (λ _. invalid_apply_record) (validate_runtime_fact x.externals (some r.fact))
  reject_if (is_empty r.payload || ltb max_runtime_fact_bytes (len r.payload)) invalid_apply_record
  reject_if (not (str_eq r.payload_hash (x.codec.sha256_hex r.payload))) invalid_apply_record
  reject_if (not (same_decoded x r.fact (x.decode_fact r.payload))) invalid_apply_record

-- What an attempt meets: the clock, the statements that fail, whether a COMMIT whose answer is an
-- error has taken effect, the error of a ROLLBACK (but for sql.ErrTxDone), and the context's error if it
-- ends during the wait after the attempt.
pub record Attempt : Type 0 where
  pub now_ms : ℤ
  pub refusals : Refusals
  pub landed : Bool
  pub rollback : Option DatabaseError
  pub wait : Option DatabaseError

unfoldable pub committed :
    Attempt → Database → Option DatabaseError → Database × ApplyResult → Database × Step ApplyResult
committed a db none (after, result) = (after, ok result)
committed a db (some why) (after, result) =
    (if a.landed then after else db, err (database_error why))

-- `errors.Join(applyErr, rollbackErr)`.
unfoldable pub rolled_back : Option DatabaseError → ApplyError → ApplyError
rolled_back none why = why
rolled_back (some also) why = joined why (database_error also)

unfoldable pub concluded :
    Attempt → Database → Step (Database × ApplyResult) → Database × Step ApplyResult
unfolding committed
concluded a db (err why) = (db, err (rolled_back a.rollback why))
concluded a db (ok done) = committed a db (a.refusals commit) done

-- `BeginTx`, then the transaction.
unfoldable pub begun :
    Database → Option DatabaseError → Database × Step ApplyResult → Database × Step ApplyResult
begun db none one = one
begun db (some why) one = (db, err (database_error why))

-- `applyOnce`: a rolled back transaction leaves the database.
unfoldable pub apply_once :
    Encodings → DecodedRecord → Attempt → Database → Database × Step ApplyResult
apply_once x r a db =
    begun db (a.refusals begin) (concluded a db (apply_runtime_record x a.refusals r a.now_ms db))

-- The wait: the other attempts follow, or the context's error is joined.
unfoldable pub waited :
    Database
    → ApplyError
    → Option DatabaseError
    → Database × Step ApplyResult
    → Database × Step ApplyResult
waited db why none more = more
waited db why (some ended) more = (db, err (joined why (database_error ended)))

unfoldable pub retried :
    Attempt
    → Database × Step ApplyResult
    → Database × Step ApplyResult
    → Database × Step ApplyResult
retried a (db, ok result) more = (db, ok result)
retried a (db, err why) more =
    if not (is_transient_database_error why) then (db, err why) else waited db why a.wait more

-- The loop of `Apply`: the first attempt, and those left.
unfoldable pub apply_attempts :
    Encodings → DecodedRecord → Attempt → List Attempt → Database → Database × Step ApplyResult
apply_attempts x r a [] db = apply_once x r a db
apply_attempts x r a (b ∷ left) db =
    let once = apply_once x r a db in
    let more = apply_attempts x r b left once.0 in retried a once more

unfoldable pub checked_apply :
    Encodings
    → DecodedRecord
    → Attempt
    → List Attempt
    → Database
    → Step (Unit {0})
    → Database × Step ApplyResult
checked_apply x r a left db (err why) = (db, err why)
checked_apply x r a left db (ok u) = apply_attempts x r a left db

-- `Apply`, with as many attempts as the retry policy allows.
unfoldable pub apply :
    Encodings → DecodedRecord → Attempt → List Attempt → Database → Database × Step ApplyResult
apply x r a left db = checked_apply x r a left db (validate_apply_record x r)

-- The doubling of `retryDelay`, `steps` times at most.
unfoldable pub doubled : ℕ → ℕ → ℕ → ℕ
doubled max_delay zero limit = limit
doubled max_delay (suc steps) limit =
    let more = doubled max_delay steps (limit * 2) in
    if ltb limit max_delay then (if ltb (max_delay / 2) limit then max_delay else more) else limit

-- The argument of the jitter in `retryDelay`, in nanoseconds: `failed` attempts have failed.
unfoldable pub retry_limit : ℕ → ℕ → ℕ → ℕ
retry_limit base max_delay failed =
    let limit = doubled max_delay (failed - 1) base in
    if ltb max_delay limit then max_delay else limit

unfoldable pub is_row_of : String → ℤ → OffsetRow → Bool
is_row_of topic partition row = str_eq row.topic topic && eqb_ℤ row.kafka_partition partition

unfoldable pub loaded : Option OffsetRow → Step ℤ
loaded none = err (database_error other_error)
loaded (some row) = do
  reject_if (ltb_ℤ row.next_offset (pos 0)) partition_offset_gap
  ok row.next_offset

-- `EnsurePartitionOffset`, on the table of offsets.
unfoldable pub ensure_partition_offset :
    String → ℤ → ℤ → ℤ → List OffsetRow → Step (List OffsetRow × ℤ)
unfolding loaded
ensure_partition_offset topic partition earliest now offsets = do
  reject_if
      (any (
        not (str_eq topic runtime_projection_topic)
        ∷ ltb_ℤ partition (pos 0)
        ∷ ltb_ℤ earliest (pos 0)
        ∷ []))
      invalid_apply_record
  let rows =
      insert_ignore (is_row_of topic partition)
        (record {
          topic = topic;
          kafka_partition = partition;
          next_offset = earliest;
          updated_at_ms = now;
        })
        offsets
  next ← loaded (select (is_row_of topic partition) rows)
  ok (rows, next)
