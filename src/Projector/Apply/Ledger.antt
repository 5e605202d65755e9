-- ===== src/Projector/Apply/Ledger.antt =====
-- The projector as a ledger of events: for one partition, the next offset and the events applied so far.
use byte_danceliveauctioni.Base.{
  Bool, true, false, not, List, Option, none, some, ok, >>=-eq-ok, reject_if-eq-ok, ok_injective,
  ◌≡◌, refl, sym, ap, subst, ◌∙◌, ◌⊎◌, inl, inr, arith, if◌then◌else◌, Bool-cases,
}
use byte_danceliveauctioni.Base.Int.{ℤ, pos, add64, leb_ℤ, ltb_ℤ, ◌<ℤ◌, eq_of_parts}
use byte_danceliveauctioni.Base.Text.{str_eq, str_eq_iff}
use byte_danceliveauctioni.Projector.Tables.{Database, OffsetRow, InboxRow, select, update}
use byte_danceliveauctioni.Projector.Errors.{
  Encodings, Refusals, answered, find_inbox, lock_offset, partition_offset_gap,
  invalid_apply_record,
}
use byte_danceliveauctioni.Projector.Write.{
  DecodedRecord, is_partition, is_partition_at, set_offset, advance_partition_offset,
}
use byte_danceliveauctioni.Projector.Apply.{
  ApplyResult, next_offset_of, lock_partition_offset, is_event, same_payload, find_projection_inbox,
  skip_duplicate, apply_new_event, apply_event, apply_at_offset, apply_from, apply_runtime_record,
}
use byte_danceliveauctioni.Projector.Apply.Passed.{advance_partition_offset-eq-ok}
use byte_danceliveauctioni.Projector.Apply.Event.{IsNewEvent, apply_new_event-IsNewEvent}

-- What a committed transaction was.
pub data Applied (x : Encodings) (r : DecodedRecord) (at : ℤ) (db after : Database)
    (result : ApplyResult) : Type 0 where
  skipped :
      (row : OffsetRow)
      → select (is_partition r) db.offsets ≡ some row
      → r.offset <ℤ row.next_offset
      → after ≡ db
      → result
        ≡ record { next_offset = row.next_offset; already_advanced = true; duplicate_event = false }
      → Applied x r at db after result
  repeated :
      (row : OffsetRow) (earlier : InboxRow)
      → select (is_partition r) db.offsets ≡ some row
      → row.next_offset ≡ r.offset
      → select (is_event r.fact) db.inbox ≡ some earlier
      → earlier.payload_hash ≡ r.payload_hash
      → after ≡ record db { offsets = update (is_partition_at r) (set_offset r at) db.offsets }
      → result ≡ record {
        next_offset = add64 r.offset (pos 1);
        already_advanced = false;
        duplicate_event = true;
      }
      → Applied x r at db after result
  appended :
      (row : OffsetRow)
      → select (is_partition r) db.offsets ≡ some row
      → row.next_offset ≡ r.offset
      → select (is_event r.fact) db.inbox ≡ none
      → IsNewEvent x r at db after
      → result ≡ record {
        next_offset = add64 r.offset (pos 1);
        already_advanced = false;
        duplicate_event = false;
      }
      → Applied x r at db after result

next_offset_of-eq-ok :
    (o : Option OffsetRow) {n : ℤ}
    → next_offset_of o ≡ ok n
    → (row : OffsetRow) × (o ≡ some row) × (row.next_offset ≡ n)
unfolding next_offset_of
next_offset_of-eq-ok none h = cc
next_offset_of-eq-ok (some row) h = (row, refl, ground arith)

lock_partition_offset-eq-ok :
    (e : Refusals) (r : DecodedRecord) (rows : List OffsetRow) {n : ℤ}
    → lock_partition_offset e r rows ≡ ok n
    → (row : OffsetRow) × (select (is_partition r) rows ≡ some row) × (row.next_offset ≡ n)
unfolding lock_partition_offset
lock_partition_offset-eq-ok e r rows h =
    let (u, _, found) = >>=-eq-ok (answered (e lock_offset)) _ h in
    next_offset_of-eq-ok (select (is_partition r) rows) found

same_payload-eq-ok :
    (r : DecodedRecord) (o : Option InboxRow) {b : Bool}
    → same_payload r o ≡ ok b
    → ((b ≡ false) × (o ≡ none))
      ⊎ ((b ≡ true) × (row : InboxRow) × (o ≡ some row) × (row.payload_hash ≡ r.payload_hash))
unfolding same_payload
same_payload-eq-ok r none h = inl (ground arith, refl)
same_payload-eq-ok r (some row) h =
    let a = reject_if-eq-ok (not (str_eq row.payload_hash r.payload_hash)) _ _ h in
    inr (
      sym (ok_injective a.1),
      row,
      refl,
      (str_eq_iff row.payload_hash r.payload_hash).0 (ground arith),
    )

find_projection_inbox-eq-ok :
    (e : Refusals) (r : DecodedRecord) (rows : List InboxRow) {b : Bool}
    → find_projection_inbox e r rows ≡ ok b
    → ((b ≡ false) × (select (is_event r.fact) rows ≡ none))
      ⊎ ((b ≡ true)
          × (row : InboxRow) × (select (is_event r.fact) rows ≡ some row)
          × (row.payload_hash ≡ r.payload_hash))
unfolding find_projection_inbox
find_projection_inbox-eq-ok e r rows h =
    let (u, _, found) = >>=-eq-ok (answered (e find_inbox)) _ h in
    same_payload-eq-ok r (select (is_event r.fact) rows) found

skip_duplicate-eq-ok :
    (e : Refusals) (r : DecodedRecord) (at : ℤ) (db : Database) {done : Database × ApplyResult}
    → skip_duplicate e r at db ≡ ok done
    → (done.0 ≡ record db { offsets = update (is_partition_at r) (set_offset r at) db.offsets })
      × (done.1 ≡ record {
        next_offset = add64 r.offset (pos 1);
        already_advanced = false;
        duplicate_event = true;
      })
unfolding skip_duplicate
skip_duplicate-eq-ok e r at db h =
    let (rows, advanced, pair) = >>=-eq-ok (advance_partition_offset e r at db.offsets) _ h in
    let same = ok_injective pair in
    (
      sym (ap (λ (p : Database × ApplyResult). p.0) same)
          ∙ ap (λ o. record db { offsets = o })
              (advance_partition_offset-eq-ok e r at db.offsets advanced),
      sym (ap (λ (p : Database × ApplyResult). p.1) same),
    )

apply_at_offset-Applied :
    (x : Encodings) (e : Refusals) (r : DecodedRecord) (at : ℤ) (db : Database) (row : OffsetRow)
    {done : Database × ApplyResult}
    → select (is_partition r) db.offsets ≡ some row
    → row.next_offset ≡ r.offset
    → apply_at_offset x e r at db ≡ ok done
    → Applied x r at db done.0 done.1
unfolding apply_at_offset apply_event
apply_at_offset-Applied x e r at db row {done = done} found same h =
    let (duplicate, is_duplicate, rest) = >>=-eq-ok (find_projection_inbox e r db.inbox) _ h in
    elim (find_projection_inbox-eq-ok e r db.inbox is_duplicate) [
      | inl (new, absent) ↦
          let run : (apply_event x e r at db) ≡ ok done =
            sym (ap (λ b. if b then skip_duplicate e r at db else apply_event x e r at db) new)
            ∙ rest in
          let (after, wrote, pair) = >>=-eq-ok (apply_new_event x e r at db) _ run in
          let whole = ok_injective pair in
          subst (λ (p : Database × ApplyResult). Applied x r at db p.0 p.1) whole
            (appended row found same absent (apply_new_event-IsNewEvent x e r at db wrote) refl)
      | inr (old, earlier, present, hash) ↦
          let run : skip_duplicate e r at db ≡ ok done =
            sym (ap (λ b. if b then skip_duplicate e r at db else apply_event x e r at db) old)
            ∙ rest in
          let a = skip_duplicate-eq-ok e r at db run in
          repeated row earlier found same present hash a.0 a.1
    ]

apply_from-Applied :
    (x : Encodings) (e : Refusals) (r : DecodedRecord) (at : ℤ) (db : Database) (row : OffsetRow)
    {done : Database × ApplyResult}
    → select (is_partition r) db.offsets ≡ some row
    → apply_from x e r at db row.next_offset ≡ ok done
    → Applied x r at db done.0 done.1
unfolding apply_from
apply_from-Applied x e r at db row {done = done} found h =
    elim (Bool-cases (ltb_ℤ r.offset row.next_offset)) [
      | inl below ↦
          let whole : (
            db,
            record {
              next_offset = row.next_offset;
              already_advanced = true;
              duplicate_event = false;
            },
          )
              ≡ done =
            ground arith in
          subst (λ (p : Database × ApplyResult). Applied x r at db p.0 p.1) whole
            (skipped row found (ground arith) refl refl)
      | inr reached ↦
          let (not_above, run) : (ltb_ℤ row.next_offset r.offset ≡ false)
              × (apply_at_offset x e r at db ≡ ok done) =
            reject_if-eq-ok (ltb_ℤ row.next_offset r.offset) partition_offset_gap _
              (ground arith) in
          apply_at_offset-Applied x e r at db row found
            (eq_of_parts row.next_offset r.offset (ground arith)) run
    ]

-- A transaction that commits has skipped the record, has seen its event before, or has applied it.
pub apply_runtime_record-Applied :
    (x : Encodings) (e : Refusals) (r : DecodedRecord) (at : ℤ) (db : Database)
    {done : Database × ApplyResult}
    → apply_runtime_record x e r at db ≡ ok done
    → Applied x r at db done.0 done.1
unfolding apply_runtime_record
apply_runtime_record-Applied x e r at db {done = done} h =
    let (_, run) = reject_if-eq-ok (leb_ℤ at (pos 0)) invalid_apply_record _ h in
    let (n, locked, rest) = >>=-eq-ok (lock_partition_offset e r db.offsets) _ run in
    let (row, found, same) = lock_partition_offset-eq-ok e r db.offsets locked in
    apply_from-Applied x e r at db row found (ap (apply_from x e r at db) same ∙ rest)
