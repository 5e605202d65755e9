-- ===== src/Projector/Apply/Again.antt =====
-- A record that comes again after its transaction has committed.
use byte_danceliveauctioni.Base.{◌^◌, true, false, none, some, ok, ◌≡◌, refl, sym, ap, ◌∙◌, arith}
use byte_danceliveauctioni.Base.Int.{ℤ, pos, add64, wrap64, eqb_ℤ_iff, ◌<ℤ◌, ◌≤ℤ◌}
use byte_danceliveauctioni.Projector.Tables.{Database, OffsetRow, select, update}
use byte_danceliveauctioni.Projector.Tables.Rows.{select-update, select_sound}
use byte_danceliveauctioni.Projector.Errors.{Encodings, Refusals, answered, lock_offset}
use byte_danceliveauctioni.Projector.Write.{
  DecodedRecord, is_partition, is_partition_at, set_offset,
}
use byte_danceliveauctioni.Projector.Apply.{
  ApplyResult, next_offset_of, lock_partition_offset, apply_from, apply_runtime_record,
}
use byte_danceliveauctioni.Projector.Apply.Ledger.{
  Applied, skipped, repeated, appended, apply_runtime_record-Applied,
}

set_offset-is_partition :
    (r : DecodedRecord) (at : ℤ) (row : OffsetRow)
    → is_partition_at r row ≡ true
    → is_partition r (set_offset r at row) ≡ true
unfolding is_partition is_partition_at set_offset
set_offset-is_partition r at row h = ground arith

is_partition-narrow :
    (r : DecodedRecord) (row : OffsetRow) → is_partition_at r row ≡ true → is_partition r row ≡ true
unfolding is_partition_at
is_partition-narrow r row h = ground arith

is_partition_at-eq :
    (r : DecodedRecord) (row : OffsetRow)
    → is_partition r row ≡ true
    → row.next_offset ≡ r.offset
    → is_partition_at r row ≡ true
unfolding is_partition_at
is_partition_at-eq r row h k = let e = (eqb_ℤ_iff row.next_offset r.offset).1 k in ground arith

-- The offset that a committed record leaves for its partition.
pub record IsPast (r : DecodedRecord) (next : ℤ) (db : Database) : Type 0 where
  pub row : OffsetRow
  pub found : select (is_partition r) db.offsets ≡ some row
  pub next_offset : row.next_offset ≡ next
  pub not_negative : pos 0 ≤ℤ next
  pub past : r.offset <ℤ next

pub advanced :
    (r : DecodedRecord) (at : ℤ) (db : Database) (row : OffsetRow)
    → select (is_partition r) db.offsets ≡ some row
    → row.next_offset ≡ r.offset
    → select (is_partition r) (update (is_partition_at r) (set_offset r at) db.offsets)
      ≡ some (set_offset r at row)
advanced r at db row found same =
    select-update (is_partition r) (is_partition_at r) (set_offset r at) (is_partition-narrow r)
      (set_offset-is_partition r at) db.offsets found
      (is_partition_at-eq r row (select_sound (is_partition r) db.offsets found) same)

add64_next :
    (n : ℤ) → pos 0 ≤ℤ n → n <ℤ pos (2 ^ 62) → (pos 0 ≤ℤ add64 n (pos 1)) × (n <ℤ add64 n (pos 1))
unfolding add64 wrap64
add64_next n h k = ground arith

pub set_offset-next :
    (r : DecodedRecord) (at : ℤ) (row : OffsetRow)
    → (set_offset r at row).next_offset ≡ add64 r.offset (pos 1)
unfolding set_offset
set_offset-next r at row = refl

IsPast-advanced :
    (r : DecodedRecord) (at : ℤ) (db after : Database) (row : OffsetRow) (next : ℤ)
    → select (is_partition r) db.offsets ≡ some row
    → row.next_offset ≡ r.offset
    → after.offsets ≡ update (is_partition_at r) (set_offset r at) db.offsets
    → next ≡ add64 r.offset (pos 1)
    → pos 0 ≤ℤ r.offset
    → r.offset <ℤ pos (2 ^ 62)
    → IsPast r next after
IsPast-advanced r at db after row next found same written is h k =
    let a = add64_next r.offset h k in
    record {
      row = set_offset r at row;
      found = ap (select (is_partition r)) written ∙ advanced r at db row found same;
      next_offset = set_offset-next r at row ∙ sym is;
      not_negative = let e = is in ground arith;
      past = let e = is in ground arith;
    }

pub Applied-IsPast :
    (x : Encodings) (r : DecodedRecord) (at : ℤ) (db after : Database) (result : ApplyResult)
    → pos 0 ≤ℤ r.offset
    → r.offset <ℤ pos (2 ^ 62)
    → Applied x r at db after result
    → IsPast r result.next_offset after
Applied-IsPast x r at db after result h k (skipped row found below same is) =
    let e = ap (λ (z : ApplyResult). z.next_offset) is in
    record {
      row = row;
      found = ap (λ (z : Database). select (is_partition r) z.offsets) same ∙ found;
      next_offset = sym e;
      not_negative = ground arith;
      past = ground arith;
    }
Applied-IsPast x r at db after result h k
      (repeated row earlier found same present hash written is) =
    IsPast-advanced r at db after row result.next_offset found same
      (ap (λ (z : Database). z.offsets) written) (ap (λ (z : ApplyResult). z.next_offset) is) h k
Applied-IsPast x r at db after result h k (appended row found same absent new is) =
    IsPast-advanced r at db after row result.next_offset found same new.written.offsets
      (ap (λ (z : ApplyResult). z.next_offset) is) h k

again :
    (x : Encodings) (e : Refusals) (r : DecodedRecord) (at : ℤ) (db : Database) (next : ℤ)
    → IsPast r next db
    → e lock_offset ≡ none
    → pos 0 <ℤ at
    → apply_runtime_record x e r at db
      ≡ ok (db, record { next_offset = next; already_advanced = true; duplicate_event = false })
unfolding apply_runtime_record lock_partition_offset answered next_offset_of apply_from
again x e r at db next p answers h =
    let f = p.found in
    let n = p.next_offset in let g = p.past in let z = p.not_negative in ground arith

-- For every record with an offset of 0 or more and below 2 ^ 62, and every database: if its transaction commits, then a second one of the same record, at any time and with any refusals but
-- that of the partition's row, commits too: it changes nothing and reports the offset of the first as
-- already advanced.
pub apply_runtime_record-again :
    (x : Encodings) (e e' : Refusals) (r : DecodedRecord) (at at' : ℤ) (db after : Database)
    (result : ApplyResult)
    → pos 0 ≤ℤ r.offset
    → r.offset <ℤ pos (2 ^ 62)
    → e' lock_offset ≡ none
    → pos 0 <ℤ at'
    → apply_runtime_record x e r at db ≡ ok (after, result)
    → apply_runtime_record x e' r at' after
      ≡ ok (
        after,
        record {
          next_offset = result.next_offset;
          already_advanced = true;
          duplicate_event = false;
        },
      )
apply_runtime_record-again x e e' r at at' db after result h k answers later done =
    again x e' r at' after result.next_offset
      (Applied-IsPast x r at db after result h k (apply_runtime_record-Applied x e r at db done))
      answers later
