-- ===== src/Projector/Store/Once.antt =====
-- However its attempts end, a record takes effect once at most.
use byte_danceliveauctioni.Base.{
  ◌^◌, List, [], ◌∷◌, Option, none, some, ok, err, ◌≡◌, refl, sym, ap, subst, ◌∙◌, ◌⊎◌, inl, inr,
  arith, Bool-cases, ok_injective,
}
use byte_danceliveauctioni.Base.Int.{ℤ, pos, ◌≤ℤ◌, ◌<ℤ◌}
use byte_danceliveauctioni.Projector.Tables.{Database, OffsetRow, select}
use byte_danceliveauctioni.Projector.Errors.{
  begin, ApplyError, Encodings, Refusals, Step, DatabaseError, commit, is_transient_database_error,
}
use byte_danceliveauctioni.Projector.Write.{DecodedRecord, is_partition}
use byte_danceliveauctioni.Projector.Apply.{ApplyResult, apply_runtime_record}
use byte_danceliveauctioni.Projector.Apply.Ledger.{
  Applied, skipped, repeated, appended, apply_runtime_record-Applied,
}
use byte_danceliveauctioni.Projector.Apply.Again.{IsPast, Applied-IsPast}
use byte_danceliveauctioni.Projector.Store.{
  Attempt, committed, concluded, begun, apply_once, waited, retried, apply_attempts, checked_apply,
  apply, validate_apply_record,
}

-- One transaction that commits, or none.
pub data AtMostOnce (x : Encodings) (r : DecodedRecord) (db after : Database) : Type 0 where
  never : after ≡ db → AtMostOnce x r db after
  once :
      (e : Refusals) (at : ℤ) (result : ApplyResult)
      → apply_runtime_record x e r at db ≡ ok (after, result)
      → AtMostOnce x r db after

-- The stored offset is one, behind or at the record.
not_at :
    (r : DecodedRecord) (n : ℤ) (db : Database) (p : IsPast r n db) (row : OffsetRow)
    → select (is_partition r) db.offsets ≡ some row
    → row.next_offset ≡ r.offset
    → ⊥
not_at r n db p row found same =
    let f = p.found in
    let e = p.next_offset in
    let l = p.past in
    let one : p.row ≡ row = cc in
    let offset = ap (λ (z : OffsetRow). z.next_offset) one in ground arith

-- Behind the offset, a transaction changes nothing.
IsPast-same :
    (x : Encodings) (r : DecodedRecord) (at n : ℤ) (db after : Database) (result : ApplyResult)
    → IsPast r n db
    → Applied x r at db after result
    → after ≡ db
IsPast-same x r at n db after result p (skipped row found below same is) = same
IsPast-same x r at n db after result p (repeated row earlier found same present hash written is) =
    absurd (not_at r n db p row found same)
IsPast-same x r at n db after result p (appended row found same absent new is) =
    absurd (not_at r n db p row found same)

committed-same :
    (a : Attempt) (db : Database) (o : Option DatabaseError) (done : Database × ApplyResult)
    → done.0 ≡ db
    → (committed a db o done).0 ≡ db
unfolding committed
committed-same a db none (after, result) h = h
committed-same a db (some why) (after, result) h = ground arith

concluded-same :
    (a : Attempt) (db : Database) (step : Step (Database × ApplyResult))
    → ((done : Database × ApplyResult) → step ≡ ok done → done.0 ≡ db)
    → (concluded a db step).0 ≡ db
unfolding concluded
concluded-same a db (err why) h = refl
concluded-same a db (ok done) h = committed-same a db (a.refusals commit) done (h done refl)

begun-same :
    (db : Database) (o : Option DatabaseError) (one : Database × Step ApplyResult)
    → one.0 ≡ db
    → (begun db o one).0 ≡ db
unfolding begun
begun-same db none one h = h
begun-same db (some why) one h = refl

once-same :
    (x : Encodings) (r : DecodedRecord) (n : ℤ) (a : Attempt) (db : Database)
    → IsPast r n db
    → (apply_once x r a db).0 ≡ db
unfolding apply_once
once-same x r n a db p = begun-same db (a.refusals begin) _ (
    concluded-same a db (apply_runtime_record x a.refusals r a.now_ms db) (λ done e.
      IsPast-same x r a.now_ms n db done.0 done.1 p
        (apply_runtime_record-Applied x a.refusals r a.now_ms db e)))

waited-cases :
    (db : Database) (why : ApplyError) (o : Option DatabaseError)
    (more : Database × Step ApplyResult)
    → ((waited db why o more).0 ≡ db) ⊎ (waited db why o more ≡ more)
unfolding waited
waited-cases db why none more = inr refl
waited-cases db why (some ended) more = inl refl

-- The other attempts follow only after an error that is transient, and a wait that ends.
retried-cases :
    (a : Attempt) (one more : Database × Step ApplyResult)
    → ((retried a one more).0 ≡ one.0) ⊎ (retried a one more ≡ more)
unfolding retried
retried-cases a (db, ok result) more = inl refl
retried-cases a (db, err why) more = elim (Bool-cases (is_transient_database_error why)) [
  | inl t ↦ rw t (waited-cases db why a.wait more)
  | inr t ↦ rw t (inl refl)
]

attempts-same :
    (x : Encodings) (r : DecodedRecord) (n : ℤ) (a : Attempt) (left : List Attempt) (db : Database)
    → IsPast r n db
    → (apply_attempts x r a left db).0 ≡ db
unfolding apply_attempts
attempts-same x r n a [] db p = once-same x r n a db p
attempts-same x r n a (b ∷ left) db p =
    let o = once-same x r n a db p in
    let later =
      attempts-same x r n b left (apply_once x r a db).0 (subst (λ d. IsPast r n d) (sym o) p) in
    elim (retried-cases a (apply_once x r a db)
      (apply_attempts x r b left (apply_once x r a db).0)) [
        | inl first ↦ first ∙ o
        | inr rest ↦ ap (λ (p : Database × Step ApplyResult). p.0) rest ∙ later ∙ o
      ]

committed-cases :
    (a : Attempt) (db : Database) (o : Option DatabaseError) (done : Database × ApplyResult)
    → ((committed a db o done).0 ≡ db) ⊎ ((committed a db o done).0 ≡ done.0)
unfolding committed
committed-cases a db none (after, result) = inr refl
committed-cases a db (some why) (after, result) = elim (Bool-cases a.landed) [
  | inl l ↦ inr (ground arith)
  | inr l ↦ inl (ground arith)
]

-- The transaction of the attempt has committed with this result.
Landed : Encodings → DecodedRecord → Attempt → Database → Database → Type 0
Landed x r a db after =
    (result : ApplyResult) × (apply_runtime_record x a.refusals r a.now_ms db ≡ ok (after, result))

concluded-cases :
    (x : Encodings) (r : DecodedRecord) (a : Attempt) (db : Database)
    (step : Step (Database × ApplyResult))
    → apply_runtime_record x a.refusals r a.now_ms db ≡ step
    → ((concluded a db step).0 ≡ db) ⊎ Landed x r a db (concluded a db step).0
unfolding concluded Landed
concluded-cases x r a db (err why) e = inl refl
concluded-cases x r a db (ok done) e = elim (committed-cases a db (a.refusals commit) done) [
  | inl same ↦ inl same
  | inr lands ↦ inr (done.1, e ∙ ap (λ d. ok (d, done.1)) (sym lands))
]

begun-cases :
    (x : Encodings) (r : DecodedRecord) (a : Attempt) (db : Database) (o : Option DatabaseError)
    (one : Database × Step ApplyResult)
    → (one.0 ≡ db) ⊎ Landed x r a db one.0
    → ((begun db o one).0 ≡ db) ⊎ Landed x r a db (begun db o one).0
unfolding begun
begun-cases x r a db none one h = h
begun-cases x r a db (some why) one h = inl refl

once-cases :
    (x : Encodings) (r : DecodedRecord) (a : Attempt) (db : Database)
    → ((apply_once x r a db).0 ≡ db) ⊎ Landed x r a db (apply_once x r a db).0
unfolding apply_once
once-cases x r a db =
    begun-cases x r a db (a.refusals begin)
      (concluded a db (apply_runtime_record x a.refusals r a.now_ms db))
      (concluded-cases x r a db (apply_runtime_record x a.refusals r a.now_ms db) refl)

module _ (x : Encodings) (r : DecodedRecord) (h : pos 0 ≤ℤ r.offset)
    (k : r.offset <ℤ pos (2 ^ 62)) where
  Landed-AtMostOnce :
      (a : Attempt) (db after : Database) → Landed x r a db after → AtMostOnce x r db after
  unfolding Landed
  Landed-AtMostOnce a db after l = once a.refusals a.now_ms l.0 l.1

  Landed-IsPast :
      (a : Attempt) (db after : Database) → Landed x r a db after → (n : ℤ) × IsPast r n after
  unfolding Landed
  Landed-IsPast a db after l = (
    l.0.next_offset,
    Applied-IsPast x r a.now_ms db after l.0 h k
        (apply_runtime_record-Applied x a.refusals r a.now_ms db l.1),
  )

  attempts-AtMostOnce :
      (a : Attempt) (left : List Attempt) (db : Database)
      → AtMostOnce x r db (apply_attempts x r a left db).0
  unfolding apply_attempts
  attempts-AtMostOnce a [] db = elim (once-cases x r a db) [
    | inl same ↦ never same
    | inr l ↦ Landed-AtMostOnce a db (apply_once x r a db).0 l
  ]
  attempts-AtMostOnce a (b ∷ left) db =
      let first = apply_once x r a db in
      let more = apply_attempts x r b left first.0 in
      let later = attempts-AtMostOnce b left first.0 in
      elim (once-cases x r a db) [
        | inl same ↦ elim (retried-cases a first more) [
          | inl stops ↦ never (stops ∙ same)
          | inr goes ↦
              subst (λ d. AtMostOnce x r db d)
                (sym (ap (λ (p : Database × Step ApplyResult). p.0) goes))
                (subst (λ d. AtMostOnce x r d more.0) same later)
        ]
        | inr l ↦
            let past = Landed-IsPast a db first.0 l in
            let kept = attempts-same x r past.0 b left first.0 past.1 in
            let whole : (retried a first more).0 ≡ first.0 = elim (retried-cases a first more) [
              | inl stops ↦ stops
              | inr goes ↦ ap (λ (p : Database × Step ApplyResult). p.0) goes ∙ kept
            ] in
            subst (λ d. AtMostOnce x r db d) (sym whole) (Landed-AtMostOnce a db first.0 l)
      ]

  committed-IsPast :
      (a : Attempt) (db : Database) (o : Option DatabaseError) (done : Database × ApplyResult)
      (result : ApplyResult)
      → IsPast r (done.1).next_offset done.0
      → (committed a db o done).1 ≡ ok result
      → IsPast r result.next_offset (committed a db o done).0
  unfolding committed
  committed-IsPast a db none (after, told) result p e =
      subst (λ (z : ApplyResult). IsPast r z.next_offset after) (ok_injective e) p
  committed-IsPast a db (some why) (after, told) result p e = absurd (ground arith)

  concluded-IsPast :
      (a : Attempt) (db : Database) (step : Step (Database × ApplyResult)) (result : ApplyResult)
      → apply_runtime_record x a.refusals r a.now_ms db ≡ step
      → (concluded a db step).1 ≡ ok result
      → IsPast r result.next_offset (concluded a db step).0
  unfolding concluded
  concluded-IsPast a db (err why) result s e = absurd (ground arith)
  concluded-IsPast a db (ok done) result s e =
      committed-IsPast a db (a.refusals commit) done result
        (Applied-IsPast x r a.now_ms db done.0 done.1 h k
          (apply_runtime_record-Applied x a.refusals r a.now_ms db s))
        e

  begun-IsPast :
      (db : Database) (o : Option DatabaseError) (one : Database × Step ApplyResult)
      (result : ApplyResult)
      → (one.1 ≡ ok result → IsPast r result.next_offset one.0)
      → (begun db o one).1 ≡ ok result
      → IsPast r result.next_offset (begun db o one).0
  unfolding begun
  begun-IsPast db none one result p e = p e
  begun-IsPast db (some why) one result p e = absurd (ground arith)

  once-IsPast :
      (a : Attempt) (db : Database) (result : ApplyResult)
      → (apply_once x r a db).1 ≡ ok result
      → IsPast r result.next_offset (apply_once x r a db).0
  unfolding apply_once
  once-IsPast a db result e =
      begun-IsPast db (a.refusals begin)
        (concluded a db (apply_runtime_record x a.refusals r a.now_ms db)) result
        (concluded-IsPast a db (apply_runtime_record x a.refusals r a.now_ms db) result refl) e

  waited-ok :
      (db : Database) (why : ApplyError) (o : Option DatabaseError)
      (more : Database × Step ApplyResult) (result : ApplyResult)
      → (waited db why o more).1 ≡ ok result
      → waited db why o more ≡ more
  unfolding waited
  waited-ok db why none more result e = refl
  waited-ok db why (some ended) more result e = absurd (ground arith)

  retried-ok :
      (a : Attempt) (one more : Database × Step ApplyResult) (result : ApplyResult)
      → (retried a one more).1 ≡ ok result
      → ((one.1 ≡ ok result) × ((retried a one more).0 ≡ one.0)) ⊎ (retried a one more ≡ more)
  unfolding retried
  retried-ok a (db, ok told) more result e = inl (e, refl)
  retried-ok a (db, err why) more result e = elim (Bool-cases (is_transient_database_error why)) [
    | inl t ↦
        let same : retried a (db, err why) more ≡ waited db why a.wait more = ground arith in
        inr (
          same
          ∙ waited-ok db why a.wait more result
              (ap (λ (p : Database × Step ApplyResult). p.1) (sym same) ∙ e))
    | inr t ↦ absurd (ground arith)
  ]

  attempts-IsPast :
      (a : Attempt) (left : List Attempt) (db : Database) (result : ApplyResult)
      → (apply_attempts x r a left db).1 ≡ ok result
      → IsPast r result.next_offset (apply_attempts x r a left db).0
  unfolding apply_attempts
  attempts-IsPast a [] db result e = once-IsPast a db result e
  attempts-IsPast a (b ∷ left) db result e =
      let first = apply_once x r a db in
      let more = apply_attempts x r b left first.0 in
      elim (retried-ok a first more result e) [
        | inl (told, stops) ↦
            subst (λ d. IsPast r result.next_offset d) (sym stops) (once-IsPast a db result told)
        | inr goes ↦
            subst (λ (p : Database × Step ApplyResult). IsPast r result.next_offset p.0) (sym goes)
              (attempts-IsPast b left first.0 result
                (ap (λ (p : Database × Step ApplyResult). p.1) (sym goes) ∙ e))
      ]

validate_apply_record-offset :
    (x : Encodings) (r : DecodedRecord) → validate_apply_record x r ≡ ok tt → pos 0 ≤ℤ r.offset
unfolding validate_apply_record
validate_apply_record-offset x r h = ground arith

checked_apply-AtMostOnce :
    (x : Encodings) (r : DecodedRecord) (a : Attempt) (left : List Attempt) (db : Database)
    (check : Step (Unit {0}))
    → validate_apply_record x r ≡ check
    → r.offset <ℤ pos (2 ^ 62)
    → AtMostOnce x r db (checked_apply x r a left db check).0
unfolding checked_apply
checked_apply-AtMostOnce x r a left db (err why) e k = never refl
checked_apply-AtMostOnce x r a left db (ok u) e k =
    attempts-AtMostOnce x r (validate_apply_record-offset x r e) k a left db

checked_apply-IsPast :
    (x : Encodings) (r : DecodedRecord) (a : Attempt) (left : List Attempt) (db : Database)
    (result : ApplyResult) (check : Step (Unit {0}))
    → validate_apply_record x r ≡ check
    → r.offset <ℤ pos (2 ^ 62)
    → (checked_apply x r a left db check).1 ≡ ok result
    → IsPast r result.next_offset (checked_apply x r a left db check).0
unfolding checked_apply
checked_apply-IsPast x r a left db result (err why) e k done = absurd (ground arith)
checked_apply-IsPast x r a left db result (ok u) e k done =
    attempts-IsPast x r (validate_apply_record-offset x r e) k a left db result done

-- For every record with an offset below 2 ^ 62, every database and all attempts, whichever statements
-- fail in each and whether or not a COMMIT that reports an error has taken effect: `Apply` leaves the
-- database as it was, or as one transaction of the record that commits leaves it; never two.
pub apply-AtMostOnce :
    (x : Encodings) (r : DecodedRecord) (a : Attempt) (left : List Attempt) (db : Database)
    → r.offset <ℤ pos (2 ^ 62)
    → AtMostOnce x r db (apply x r a left db).0
unfolding apply
apply-AtMostOnce x r a left db k =
    checked_apply-AtMostOnce x r a left db (validate_apply_record x r) refl k

-- For every record with an offset below 2 ^ 62, every database and all attempts: if `Apply` returns a
-- result, then the database has, for the record's partition, the offset of the result, and it is after
-- the record's.
pub apply-IsPast :
    (x : Encodings) (r : DecodedRecord) (a : Attempt) (left : List Attempt) (db : Database)
    (result : ApplyResult)
    → r.offset <ℤ pos (2 ^ 62)
    → (apply x r a left db).1 ≡ ok result
    → IsPast r result.next_offset (apply x r a left db).0
unfolding apply
apply-IsPast x r a left db result k done =
    checked_apply-IsPast x r a left db result (validate_apply_record x r) refl k done
