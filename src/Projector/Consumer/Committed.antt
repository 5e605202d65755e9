-- ===== src/Projector/Consumer/Committed.antt =====
-- The offsets that the consumer commits.
use byte_danceliveauctioni.Base.{
  ◌^◌, ◌<◌, List, [], ◌∷◌, none, some, ok, err, ◌≡◌, refl, sym, subst, ◌⊎◌, inl, inr, All, length,
  arith,
}
use byte_danceliveauctioni.Base.Int.{pos, ◌<ℤ◌}
use byte_danceliveauctioni.Projector.Tables.{Database}
use byte_danceliveauctioni.Projector.Errors.{ApplyError, Encodings, Step}
use byte_danceliveauctioni.Projector.Write.{DecodedRecord}
use byte_danceliveauctioni.Projector.Apply.{ApplyResult}
use byte_danceliveauctioni.Projector.Store.{apply}
use byte_danceliveauctioni.Projector.Store.Once.{apply-IsPast}
use byte_danceliveauctioni.Projector.Decode.{Decimal, decode_record}
use byte_danceliveauctioni.Projector.Decode.Accepted.{decode_record-position}
use byte_danceliveauctioni.Projector.Consumer.{
  Fetched, Commit, Processed, failed_or_applied, process_decoded, process_record,
  committed_or_stopped, process_partition,
}

-- The commits belong to the first records, in their order, each with an offset after its record's.
abbrev pub AreCommitsOf : List Commit → List Fetched → Type 0
AreCommitsOf [] ks = Unit
AreCommitsOf (c ∷ cs) [] = ⊥
AreCommitsOf (c ∷ cs) (k ∷ ks) =
    (c.record_offset ≡ k.kafka.offset) × (k.kafka.offset <ℤ c.next_offset) × AreCommitsOf cs ks

-- All are committed, or there is an error and some are not.
abbrev pub IsComplete : Processed → List Fetched → Type 0
IsComplete p ks =
    ((p.failure ≡ none) × (length p.commits ≡ length ks))
    ⊎ ((why : ApplyError) × (p.failure ≡ some why) × (length p.commits < length ks))

-- Kafka's offsets, far from overflow.
abbrev pub SmallOffset : Fetched → Type 0
SmallOffset k = k.kafka.offset <ℤ pos (2 ^ 62)

committed_or_stopped-IsComplete :
    (k : Fetched) (ks : List Fetched) (one : Database × Step ApplyResult) (rest : Processed)
    → ((result : ApplyResult) → one.1 ≡ ok result → k.kafka.offset <ℤ result.next_offset)
    → AreCommitsOf rest.commits ks × IsComplete rest ks
    → AreCommitsOf (committed_or_stopped k.kafka one rest).commits (k ∷ ks)
      × IsComplete (committed_or_stopped k.kafka one rest) (k ∷ ks)
unfolding committed_or_stopped
committed_or_stopped-IsComplete k ks (db, err why) rest past before =
    (tt, inr (why, refl, omega arith))
committed_or_stopped-IsComplete k ks (db, ok result) rest past (before, inl (fine, every)) =
    ((refl, past result refl, before), inl (fine, omega (arith, every)))
committed_or_stopped-IsComplete k ks (db, ok result) rest past (before, inr (why, failed, fewer)) =
    ((refl, past result refl, before), inr (why, failed, omega (arith, fewer)))

failed_or_applied-ok :
    (x : Encodings) (k : Fetched) (r : DecodedRecord) (done : Database × Step ApplyResult)
    (result : ApplyResult)
    → (failed_or_applied x k r done).1 ≡ ok result
    → done.1 ≡ ok result
unfolding failed_or_applied
failed_or_applied-ok x k r (after, err why) result h = absurd (ground arith)
failed_or_applied-ok x k r (after, ok told) result h = h

process_decoded-past :
    (x : Encodings) (d : Decimal) (k : Fetched) (db : Database) (step : Step DecodedRecord)
    (result : ApplyResult)
    → SmallOffset k
    → decode_record x d k.kafka ≡ step
    → (process_decoded x k db step).1 ≡ ok result
    → k.kafka.offset <ℤ result.next_offset
unfolding process_decoded
process_decoded-past x d k db (err why) result small e h = absurd (ground arith)
process_decoded-past x d k db (ok r) result small e h =
    let same = (decode_record-position x d k.kafka e).2 in
    let done = apply x r k.attempt k.more_attempts db in
    let told = failed_or_applied-ok x k r done result h in
    let p =
      apply-IsPast x r k.attempt k.more_attempts db result
        (subst (λ o. o <ℤ pos (2 ^ 62)) same small) told in
    subst (λ o. o <ℤ result.next_offset) (sym same) p.past

-- For every sequence of fetched records with offsets below 2 ^ 62, every database, and whatever fails: the
-- consumer commits for the first records of the sequence, in their order and without a gap, each time an
-- offset after the record's; it commits for all of them, or it ends with an error and fewer commits.
pub process_partition-IsComplete :
    (x : Encodings) (d : Decimal) (ks : List Fetched) (db : Database)
    → All SmallOffset ks
    → AreCommitsOf (process_partition x d ks db).commits ks
      × IsComplete (process_partition x d ks db) ks
unfolding process_partition process_record
process_partition-IsComplete x d [] db small = (tt, inl (refl, refl))
process_partition-IsComplete x d (k ∷ ks) db small =
    let one = process_record x d k db in
    committed_or_stopped-IsComplete k ks one (process_partition x d ks one.0)
      (λ result h. process_decoded-past x d k db (decode_record x d k.kafka) result small.0 refl h)
      (process_partition-IsComplete x d ks one.0 small.1)
