-- ===== src/Projector/Offsets/Bounded.antt =====
-- The consumer starts on offsets that Kafka still has.
use byte_danceliveauctioni.Base.{
  List, [], ◌∷◌, Option, none, some, ok, >>=-eq-ok, reject_if-eq-ok, ok_injective, ◌≡◌, refl, subst,
  All, arith, ◌||◌, String,
}
use byte_danceliveauctioni.Base.Int.{ℤ, pos, ltb_ℤ, ◌≤ℤ◌}
use byte_danceliveauctioni.Projector.Tables.{OffsetRow}
use byte_danceliveauctioni.Projector.Store.{ensure_partition_offset}
use byte_danceliveauctioni.Projector.Offsets.{
  TopicPartition, PartitionBounds, retention_cliff, Resolved, stored, resolve_partition, bound_of,
  resolve_partitions, keys_of, check_assignments, resolve_assignment_offsets,
}

-- The partition has bounds, and its offset is within them.
pub record IsReachable (bounds : List (TopicPartition × PartitionBounds)) (r : Resolved)
    : Type 0 where
  pub bound : TopicPartition × PartitionBounds
  pub known : bound_of bounds r.key ≡ some bound
  pub earliest : bound.1.earliest ≤ℤ r.next_offset
  pub latest : r.next_offset ≤ℤ bound.1.latest
  pub not_negative : pos 0 ≤ℤ r.next_offset

resolve_partition-IsReachable :
    (bounds : List (TopicPartition × PartitionBounds)) (now : ℤ) (key : TopicPartition)
    (found : Option (TopicPartition × PartitionBounds)) (rows : List OffsetRow)
    {done : List OffsetRow × Resolved}
    → bound_of bounds key ≡ found
    → resolve_partition now key found rows ≡ ok done
    → IsReachable bounds done.1
unfolding resolve_partition
resolve_partition-IsReachable bounds now key none rows e h = absurd (ground arith)
resolve_partition-IsReachable bounds now key (some (other, bound)) rows {done = done} e h =
    let (valid, run) =
      reject_if-eq-ok (ltb_ℤ bound.earliest (pos 0) || ltb_ℤ bound.latest bound.earliest)
        retention_cliff _ h in
    let (kept, _, rest) =
      >>=-eq-ok (stored (ensure_partition_offset key.topic key.partition bound.earliest now rows)) _
        run in
    let (within, last) =
      reject_if-eq-ok (ltb_ℤ kept.1 bound.earliest || ltb_ℤ bound.latest kept.1) retention_cliff _
        rest in
    subst (λ (d : List OffsetRow × Resolved). IsReachable bounds d.1) (ok_injective last)
      (record {
        bound = (other, bound);
        known = e;
        earliest = ground arith;
        latest = ground arith;
        not_negative = ground arith;
      })

resolve_partitions-IsReachable :
    (now : ℤ) (bounds : List (TopicPartition × PartitionBounds)) (keys : List TopicPartition)
    (rows : List OffsetRow) {done : List OffsetRow × List Resolved}
    → resolve_partitions now bounds keys rows ≡ ok done
    → All (IsReachable bounds) done.1
unfolding resolve_partitions
resolve_partitions-IsReachable now bounds [] rows h =
    subst (λ (d : List OffsetRow × List Resolved). All (IsReachable bounds) d.1) (ok_injective h) tt
resolve_partitions-IsReachable now bounds (key ∷ keys) rows h =
    let (one, resolved, run) =
      >>=-eq-ok (resolve_partition now key (bound_of bounds key) rows) _ h in
    let (rest, others, last) = >>=-eq-ok (resolve_partitions now bounds keys one.0) _ run in
    subst (λ (d : List OffsetRow × List Resolved). All (IsReachable bounds) d.1) (ok_injective last)
      (
        resolve_partition-IsReachable bounds now key (bound_of bounds key) rows refl resolved,
        resolve_partitions-IsReachable now bounds keys one.0 others,
      )

-- For every assignment, stored offsets, and bounds that Kafka reports: if the offsets are resolved, then each
-- is neither negative nor outside the bounds of its partition, so the consumer never starts on a record that
-- Kafka has deleted or that does not exist yet.
pub resolve_assignment_offsets-IsReachable :
    (now : ℤ) (assignment : String × List ℤ) (assignments : List (String × List ℤ))
    (bounds : List (TopicPartition × PartitionBounds)) (rows after : List OffsetRow)
    (resolved : List Resolved)
    → resolve_assignment_offsets now (assignment ∷ assignments) (ok bounds) rows
      ≡ ok (after, resolved)
    → All (IsReachable bounds) resolved
unfolding resolve_assignment_offsets
resolve_assignment_offsets-IsReachable now assignment assignments bounds rows after resolved h =
    let (u, _, run) = >>=-eq-ok (check_assignments (assignment ∷ assignments)) _ h in
    resolve_partitions-IsReachable now bounds (keys_of (assignment ∷ assignments)) rows run
