-- ===== src/Projector/Apply/Refines.antt =====
-- The specification of the projector for one partition, a ledger of events, and the transaction as one of
-- its steps.
use byte_danceliveauctioni.Base.{
  String, List, [], ◌∷◌, ◌++◌, map, Option, none, some, ok, ◌≡◌, refl, ap, ◌∙◌, ◌⊎◌, inl, inr,
  arith, Bool-cases,
}
use byte_danceliveauctioni.Base.Int.{ℤ, pos, add64, ◌<ℤ◌}
use byte_danceliveauctioni.Base.Text.{str_eq, str_eq_iff}
use byte_danceliveauctioni.Proto.{RuntimeFact}
use byte_danceliveauctioni.Projector.Tables.{Database, OffsetRow, InboxRow, select, update}
use byte_danceliveauctioni.Projector.Errors.{Encodings, Refusals}
use byte_danceliveauctioni.Projector.Write.{
  DecodedRecord, is_partition, is_partition_at, set_offset, inbox_row,
}
use byte_danceliveauctioni.Projector.Apply.{ApplyResult, is_event, apply_runtime_record}
use byte_danceliveauctioni.Projector.Apply.Ledger.{
  Applied, skipped, repeated, appended, apply_runtime_record-Applied,
}
use byte_danceliveauctioni.Projector.Apply.Again.{advanced, set_offset-next}

-- The next offset of the partition, if it has one, and the events applied, in order.
pub record Ledger : Type 0 where
  pub next_offset : Option ℤ
  pub events : List String

abbrev pub Listed : String → List String → Type 0
Listed e [] = ⊥
Listed e (x ∷ xs) = (x ≡ e) ⊎ Listed e xs

-- A record that has been passed, one whose event is listed, and one whose event is new.
pub data LedgerStep (event : String) (offset : ℤ) (l l' : Ledger) : Type 0 where
  behind : (n : ℤ) → l.next_offset ≡ some n → offset <ℤ n → l' ≡ l → LedgerStep event offset l l'
  known :
      l.next_offset ≡ some offset
      → Listed event l.events
      → l' ≡ record { next_offset = some (add64 offset (pos 1)); events = l.events }
      → LedgerStep event offset l l'
  new :
      l.next_offset ≡ some offset
      → ¬ Listed event l.events
      → l' ≡ record { next_offset = some (add64 offset (pos 1)); events = l.events ++ event ∷ [] }
      → LedgerStep event offset l l'

next_of : Option OffsetRow → Option ℤ
next_of none = none
next_of (some row) = some row.next_offset

events_of : List InboxRow → List String
events_of rows = map (λ row. row.event_id) rows

-- The ledger of a database, for the partition of a record.
unfoldable pub ledger_of : DecodedRecord → Database → Ledger
unfolding next_of events_of
ledger_of r db = record {
  next_offset = next_of (select (is_partition r) db.offsets);
  events = events_of db.inbox;
}

events_of-append :
    (rows : List InboxRow) (row : InboxRow)
    → events_of (rows ++ row ∷ []) ≡ events_of rows ++ row.event_id ∷ []
unfolding events_of
events_of-append [] row = refl
events_of-append (r ∷ rows) row = ap (λ es. r.event_id ∷ es) (events_of-append rows row)

Listed-found :
    (f : RuntimeFact) (rows : List InboxRow) {row : InboxRow}
    → select (is_event f) rows ≡ some row
    → Listed f.event_id (events_of rows)
unfolding events_of is_event
Listed-found f [] h = absurd (ground arith)
Listed-found f (r ∷ rows) {row = row} h = elim (Bool-cases (str_eq r.event_id f.event_id)) [
  | inl e ↦ inl ((str_eq_iff r.event_id f.event_id).0 e)
  | inr e ↦ inr (Listed-found f rows {row = row} (ground arith))
]

Listed-absent :
    (f : RuntimeFact) (rows : List InboxRow)
    → select (is_event f) rows ≡ none
    → ¬ Listed f.event_id (events_of rows)
unfolding events_of is_event
Listed-absent f [] h k = k
Listed-absent f (r ∷ rows) h (inl same) =
    let e = (str_eq_iff r.event_id f.event_id).1 same in absurd (ground arith)
Listed-absent f (r ∷ rows) h (inr later) = elim (Bool-cases (str_eq r.event_id f.event_id)) [
  | inl e ↦ absurd (ground arith)
  | inr e ↦ Listed-absent f rows (ground arith) later
]

next_advanced :
    (r : DecodedRecord) (at : ℤ) (db after : Database) (row : OffsetRow)
    → select (is_partition r) db.offsets ≡ some row
    → row.next_offset ≡ r.offset
    → after.offsets ≡ update (is_partition_at r) (set_offset r at) db.offsets
    → next_of (select (is_partition r) after.offsets) ≡ some (add64 r.offset (pos 1))
unfolding next_of
next_advanced r at db after row found same written =
    ap (λ rows. next_of (select (is_partition r) rows)) written
    ∙ ap next_of (advanced r at db row found same)
    ∙ ap some (set_offset-next r at row)

next_found :
    (o : Option OffsetRow) (row : OffsetRow) (n : ℤ)
    → o ≡ some row
    → row.next_offset ≡ n
    → next_of o ≡ some n
unfolding next_of
next_found o row n h k = ap next_of h ∙ ap some k

inbox_row-event : (r : DecodedRecord) (at : ℤ) → (inbox_row r at).event_id ≡ r.fact.event_id
unfolding inbox_row
inbox_row-event r at = refl

ledger_eq :
    {l l' : Ledger} (next : l.next_offset ≡ l'.next_offset) (events : l.events ≡ l'.events) → l ≡ l'
ledger_eq next events = cc

Applied-LedgerStep :
    (x : Encodings) (r : DecodedRecord) (at : ℤ) (db after : Database) (result : ApplyResult)
    → Applied x r at db after result
    → LedgerStep r.fact.event_id r.offset (ledger_of r db) (ledger_of r after)
unfolding ledger_of
Applied-LedgerStep x r at db after result (skipped row found below same is) =
    behind row.next_offset
      (next_found (select (is_partition r) db.offsets) row row.next_offset found refl) below
      (ap (ledger_of r) same)
Applied-LedgerStep x r at db after result
      (repeated row earlier found same present hash written is) =
    known (next_found (select (is_partition r) db.offsets) row r.offset found same)
      (Listed-found r.fact db.inbox present)
      (ledger_eq
        (next_advanced r at db after row found same (ap (λ (z : Database). z.offsets) written))
        (ap (λ (z : Database). events_of z.inbox) written))
Applied-LedgerStep x r at db after result (appended row found same absent n is) =
    new (next_found (select (is_partition r) db.offsets) row r.offset found same)
      (Listed-absent r.fact db.inbox absent)
      (ledger_eq (next_advanced r at db after row found same n.written.offsets) (
        ap events_of n.written.inbox
        ∙ events_of-append db.inbox (inbox_row r at)
        ∙ ap (λ e. events_of db.inbox ++ e ∷ []) (inbox_row-event r at)))

-- For every record and database: a transaction that commits is one step of the ledger for the record's
-- partition. The record is behind the next offset and nothing happens; or it is at the next offset, which
-- goes up by one, and its event is added to the events applied unless it is among them already.
pub apply_runtime_record-LedgerStep :
    (x : Encodings) (e : Refusals) (r : DecodedRecord) (at : ℤ) (db after : Database)
    (result : ApplyResult)
    → apply_runtime_record x e r at db ≡ ok (after, result)
    → LedgerStep r.fact.event_id r.offset (ledger_of r db) (ledger_of r after)
apply_runtime_record-LedgerStep x e r at db after result done =
    Applied-LedgerStep x r at db after result (apply_runtime_record-Applied x e r at db done)
