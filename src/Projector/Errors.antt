-- ===== src/Projector/Errors.antt =====
-- The errors of the projector, those of the database among them (mysqlerr.go), and what the projector
-- is given: encodings, and a database that may refuse a statement.
use byte_danceliveauctioni.Base.{
  ℕ, String, Bool, true, false, Option, none, some, ◌||◌, ◌==◌, not, Result, ok, err, reject_if,
  List, [], ◌∷◌, ◌++◌, map, any, if◌then◌else◌,
}
use byte_danceliveauctioni.Proto.{RuntimeFact, OrderDraft}
use byte_danceliveauctioni.Proto.Lot.{Lot, Bid}
use byte_danceliveauctioni.Contract.Checks.{Externals}
use byte_danceliveauctioni.Contract.Message.{Codec}

pub data DatabaseError : Type 0 where
  mysql_error : ℕ → DatabaseError
  cancelled deadline_exceeded bad_conn conn_done eof unexpected_eof : DatabaseError
  network_error : Bool → DatabaseError
  other_error : DatabaseError

pub data ApplyError : Type 0 where
  invalid_apply_record partition_offset_missing partition_offset_gap : ApplyError
  event_identity_conflict runtime_projection_gap projection_lot_frozen : ApplyError
  projection_lot_not_found projection_identity projection_config_version : ApplyError
  projection_cas invalid_projection invalid_runtime_record encoding_failed : ApplyError
  database_error : DatabaseError → ApplyError
  invalid_finding : ApplyError
  joined : ApplyError → ApplyError → ApplyError

-- The statements of the transaction, in the order of the source.
pub data Statement : Type 0 where
  lock_offset find_inbox init_state lock_state lock_lot update_lot update_room insert_bid :
      Statement
  insert_participant upsert_stats insert_order insert_order_item advance_state : Statement
  insert_inbox insert_message advance_offset : Statement
  begin commit : Statement

pub record DomainHeaders : Type 0 where
  pub message_id : String
  pub causation_id : String
  pub trace_id : String

pub record Encodings : Type 0 where
  pub externals : Externals
  pub codec : Codec
  pub decode_lot : String → Option Lot
  pub encode_lot : Lot → Option String
  pub encode_bid : Bid → Option String
  pub encode_draft : OrderDraft → Option String
  pub encode_headers : DomainHeaders → Option String
  pub valid_json : String → Bool
  pub decode_fact : String → Option RuntimeFact
  pub equal_fact : RuntimeFact → RuntimeFact → Bool

-- Which statements fail, and how.
abbrev pub Refusals : Type 0
Refusals = Statement → Option DatabaseError

abbrev pub Step : Type 0 → Type 0
Step A = Result ApplyError A

-- `if err != nil { return err }` after a call of the database.
unfoldable pub answered : Option DatabaseError → Step (Unit {0})
answered none = ok tt
answered (some why) = err (database_error why)

-- MySQL's duplicate entry.
abbrev pub duplicate_entry : ApplyError
duplicate_entry = database_error (mysql_error 1062)

-- A value that an encoding gives, or the error.
unfoldable pub encoded : {A : Type 0} → ApplyError → Option A → Step A
encoded why none = err why
encoded why (some a) = ok a

-- `requireOneRow`.
unfoldable pub require_one_row : ℕ → Step (Unit {0})
require_one_row rows = reject_if (not (rows == 1)) projection_cas

-- The errors that `errors.Join` has put together, in its order.
unfoldable pub errors_of : ApplyError → List ApplyError
errors_of (joined a b) = errors_of a ++ errors_of b
errors_of e = e ∷ []

-- A number for each sentinel; the errors of the database are none.
sentinel : ApplyError → ℕ
sentinel invalid_apply_record = 1
sentinel partition_offset_missing = 2
sentinel partition_offset_gap = 3
sentinel event_identity_conflict = 4
sentinel runtime_projection_gap = 5
sentinel projection_lot_frozen = 6
sentinel projection_lot_not_found = 7
sentinel projection_identity = 8
sentinel projection_config_version = 9
sentinel projection_cas = 10
sentinel invalid_projection = 11
sentinel invalid_runtime_record = 12
sentinel encoding_failed = 13
sentinel invalid_finding = 14
sentinel (database_error why) = 0
sentinel (joined a b) = 0

-- `errors.Is`, for a sentinel.
unfoldable pub errors_is : ApplyError → ApplyError → Bool
unfolding errors_of sentinel
errors_is e target = any (map (λ one. sentinel one == sentinel target) (errors_of e))

is_context_error : ApplyError → Bool
is_context_error (database_error cancelled) = true
is_context_error (database_error deadline_exceeded) = true
is_context_error _ = false

-- `errors.As` for an error of MySQL: the first.
first_mysql : List ApplyError → Option ℕ
first_mysql [] = none
first_mysql (database_error (mysql_error number) ∷ more) = some number
first_mysql (e ∷ more) = first_mysql more

is_lost_connection : ApplyError → Bool
is_lost_connection (database_error bad_conn) = true
is_lost_connection (database_error conn_done) = true
is_lost_connection (database_error eof) = true
is_lost_connection (database_error unexpected_eof) = true
is_lost_connection _ = false

-- `errors.As` for a network error: whether the first is a timeout.
first_timeout : List ApplyError → Bool
first_timeout [] = false
first_timeout (database_error (network_error timeout) ∷ more) = timeout
first_timeout (e ∷ more) = first_timeout more

transient_number : List ApplyError → Option ℕ → Bool
unfolding is_lost_connection first_timeout
transient_number es none = any (map is_lost_connection es) || first_timeout es
transient_number es (some number) = (number == 1205) || (number == 1213)

-- `Transient`, of the errors that are joined.
unfoldable pub transient : List ApplyError → Bool
unfolding is_context_error first_mysql transient_number
transient es = if any (map is_context_error es) then false else transient_number es (first_mysql es)

-- `IsTransientDatabaseError`.
unfoldable pub is_transient_database_error : ApplyError → Bool
unfolding errors_of
is_transient_database_error e = transient (errors_of e)
