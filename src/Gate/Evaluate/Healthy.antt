-- ===== src/Gate/Evaluate/Healthy.antt =====
-- What a healthy evaluation says of every partition.
use byte_danceliveauctioni.Base.{
  ◌≡◌, refl, sym, ◌∙◌, inl, inr, ℕ, true, false, List, [], ◌∷◌, ◌++◌, Option, none, some, All,
  All-map, Bool-cases, arith, Result, ok, err, >>=-eq-ok, >>=-eq-err, ap, subst,
}
use byte_danceliveauctioni.Base.Int.{ℤ, pos, eqb_ℤ, sub64, ◌≤ℤ◌}
use byte_danceliveauctioni.Gate.Snapshot.{Reason, is_healthy, Config, Snapshot, PartitionSnapshot}
use byte_danceliveauctioni.Gate.Evaluate.{
  PartitionBounds, ProjectionOffset, OldestRecord, PartitionMap, RecordSource, lookup, check_offset,
  measured, measure_offset, measure, max_ℤ, age_record, age_item, age_partitions, check_record,
  check_timestamp, with_headroom, judged, settle, with_ages, after_measure, evaluate, starts,
  is_nil, offsets_are_known, first_snapshot,
}

-- The partition's projection lies within the topic, and lags by at most the limit.
pub record IsWithin (limit : ℤ) (offsets : PartitionMap ProjectionOffset) (p : ℤ)
    (bound : PartitionBounds) : Type 0 where
  pub projected : ProjectionOffset
  pub known : lookup p offsets ≡ some projected
  pub not_negative : pos 0 ≤ℤ bound.earliest
  pub retained : bound.earliest ≤ℤ projected.next_offset
  pub reached : projected.next_offset ≤ℤ bound.latest
  pub lag : sub64 bound.latest projected.next_offset ≤ℤ limit

abbrev pub AllWithin : ℤ → PartitionMap ProjectionOffset → PartitionMap PartitionBounds → Type 0
AllWithin limit offsets bounds = All (λ b. IsWithin limit offsets b.0 b.1) bounds

-- An early return has an unhealthy reason.
check_offset-unhealthy :
    (bound : PartitionBounds) (o : Option ProjectionOffset) (why : Reason)
    → check_offset bound o ≡ err why
    → is_healthy why ≡ false
unfolding check_offset
check_offset-unhealthy bound none why h = ground arith
check_offset-unhealthy bound (some o) why h = ground arith

check_offset-ok :
    (bound : PartitionBounds) (o : Option ProjectionOffset) (q : ProjectionOffset)
    → check_offset bound o ≡ ok q
    → (o ≡ some q)
      × (pos 0 ≤ℤ bound.earliest)
      × (bound.earliest ≤ℤ q.next_offset)
      × (q.next_offset ≤ℤ bound.latest)
unfolding check_offset
check_offset-ok bound none q h = cc
check_offset-ok bound (some o) q h = ground arith

measure_offset-eq-ok :
    (s t : Snapshot) (p : ℤ) (bound : PartitionBounds) (r : Result Reason ProjectionOffset)
    → measure_offset s p bound r ≡ ok t
    → (o : ProjectionOffset) × (r ≡ ok o) × (t ≡ measured s p bound o.next_offset)
unfolding measure_offset
measure_offset-eq-ok s t p bound (err why) h = cc
measure_offset-eq-ok s t p bound (ok o) h = (o, refl, cc)

measured_max :
    (s : Snapshot) (p : ℤ) (bound : PartitionBounds) (next : ℤ)
    → (sub64 bound.latest next ≤ℤ (measured s p bound next).max_partition_lag_records)
      × (s.max_partition_lag_records ≤ℤ (measured s p bound next).max_partition_lag_records)
unfolding measured max_ℤ
measured_max s p bound next = ground arith

IsWithin-more :
    (limit more : ℤ) (offsets : PartitionMap ProjectionOffset) (p : ℤ) (bound : PartitionBounds)
    → limit ≤ℤ more
    → IsWithin limit offsets p bound
    → IsWithin more offsets p bound
IsWithin-more limit more offsets p bound h w = record {
  projected = w.projected;
  known = w.known;
  not_negative = w.not_negative;
  retained = w.retained;
  reached = w.reached;
  lag = omega (arith, w.lag, h);
}

measure-AllWithin :
    (offsets : PartitionMap ProjectionOffset) (s t : Snapshot)
    (bounds : PartitionMap PartitionBounds)
    → measure offsets s bounds ≡ ok t
    → (s.max_partition_lag_records ≤ℤ t.max_partition_lag_records)
      × AllWithin t.max_partition_lag_records offsets bounds
unfolding measure
measure-AllWithin offsets s t [] h =
    let e : s.max_partition_lag_records ≡ t.max_partition_lag_records = cc in (ground arith, tt)
measure-AllWithin offsets s t ((p, bound) ∷ bounds) h =
    let k = >>=-eq-ok (measure_offset s p bound (check_offset bound (lookup p offsets))) _ h in
    let m = measure_offset-eq-ok s k.0 p bound (check_offset bound (lookup p offsets)) k.1 in
    let o = check_offset-ok bound (lookup p offsets) m.0 m.1 in
    let ih = measure-AllWithin offsets k.0 t bounds k.2 in
    let top = measured_max s p bound (m.0).next_offset in
    let e : k.0.max_partition_lag_records
        ≡ (measured s p bound (m.0).next_offset).max_partition_lag_records =
      ap (λ (z : Snapshot). z.max_partition_lag_records) m.2 in
    let ihle = ih.0 in
    let grows = top.1 in
    let covers = top.0 in
    (
      ground arith,
      (
        record {
          projected = m.0;
          known = o.0;
          not_negative = o.1;
          retained = o.2;
          reached = o.3;
          lag = ground arith;
        },
        ih.1,
      ),
    )

measure_offset-err :
    (s t : Snapshot) (p : ℤ) (bound : PartitionBounds) (o : Option ProjectionOffset)
    (r : Result Reason ProjectionOffset)
    → check_offset bound o ≡ r
    → measure_offset s p bound r ≡ err t
    → is_healthy t.reason ≡ false
unfolding measure_offset
measure_offset-err s t p bound o (err why) e h =
    let same : t.reason ≡ why = cc in rw same (check_offset-unhealthy bound o why e)
measure_offset-err s t p bound o (ok q) e h = cc

measure-err :
    (offsets : PartitionMap ProjectionOffset) (s t : Snapshot)
    (bounds : PartitionMap PartitionBounds)
    → measure offsets s bounds ≡ err t
    → is_healthy t.reason ≡ false
unfolding measure
measure-err offsets s t [] h = cc
measure-err offsets s t ((p, bound) ∷ bounds) h =
    elim (>>=-eq-err (measure_offset s p bound (check_offset bound (lookup p offsets))) _ h) [
      | inl first ↦ measure_offset-err s t p bound (lookup p offsets) _ refl first
      | inr later ↦ measure-err offsets later.0 t bounds later.2
    ]

check_record-unhealthy :
    (now : ℕ) (i : PartitionSnapshot) (r : Option OldestRecord) (why : Reason)
    → check_record now i r ≡ err why
    → is_healthy why ≡ false
unfolding check_record check_timestamp
check_record-unhealthy now i none why h = ground arith
check_record-unhealthy now i (some r) why h = ground arith

age_record-eq-ok :
    (now : ℕ) (s : Snapshot) (done items : List PartitionSnapshot) (i : PartitionSnapshot)
    (r : Result Reason ℤ) (t : Snapshot × PartitionSnapshot)
    → age_record now s done i items r ≡ ok t
    → t.0.max_partition_lag_records ≡ s.max_partition_lag_records
unfolding age_record
age_record-eq-ok now s done items i (err why) t h = cc
age_record-eq-ok now s done items i (ok at) t h = ground arith

age_record-err :
    (now : ℕ) (s t : Snapshot) (done items : List PartitionSnapshot) (i : PartitionSnapshot)
    (o : Option OldestRecord) (r : Result Reason ℤ)
    → check_record now i o ≡ r
    → age_record now s done i items r ≡ err t
    → is_healthy t.reason ≡ false
unfolding age_record
age_record-err now s t done items i o (err why) e h =
    let same : t.reason ≡ why = cc in rw same (check_record-unhealthy now i o why e)
age_record-err now s t done items i o (ok at) e h = cc

module _ (now : ℕ) (records : PartitionMap OldestRecord) where
  age_item-eq-ok :
      (s : Snapshot) (done items : List PartitionSnapshot) (i : PartitionSnapshot)
      (t : Snapshot × PartitionSnapshot)
      → age_item now records s done i items ≡ ok t
      → t.0.max_partition_lag_records ≡ s.max_partition_lag_records
  unfolding age_item
  age_item-eq-ok s done items i t h = elim (Bool-cases (eqb_ℤ i.lag_records (pos 0))) [
    | inl none_left ↦ ground arith
    | inr lags ↦
        age_record-eq-ok now s done items i (check_record now i (lookup i.partition records)) t
          (ground arith)
  ]

  age_item-err :
      (s t : Snapshot) (done items : List PartitionSnapshot) (i : PartitionSnapshot)
      → age_item now records s done i items ≡ err t
      → is_healthy t.reason ≡ false
  unfolding age_item
  age_item-err s t done items i h = elim (Bool-cases (eqb_ℤ i.lag_records (pos 0))) [
    | inl none_left ↦ ground arith
    | inr lags ↦
        age_record-err now s t done items i (lookup i.partition records)
          (check_record now i (lookup i.partition records)) refl (ground arith)
  ]

  age_partitions-eq-ok :
      (s t : Snapshot) (done items : List PartitionSnapshot)
      → age_partitions now records s done items ≡ ok t
      → t.max_partition_lag_records ≡ s.max_partition_lag_records
  unfolding age_partitions
  age_partitions-eq-ok s t done [] h = ground arith
  age_partitions-eq-ok s t done (i ∷ items) h =
      let k = >>=-eq-ok (age_item now records s done i items) _ h in
      age_partitions-eq-ok k.0.0 t (done ++ (k.0.1 ∷ [])) items k.2
      ∙ age_item-eq-ok s done items i k.0 k.1

  age_partitions-err :
      (s t : Snapshot) (done items : List PartitionSnapshot)
      → age_partitions now records s done items ≡ err t
      → is_healthy t.reason ≡ false
  unfolding age_partitions
  age_partitions-err s t done [] h = cc
  age_partitions-err s t done (i ∷ items) h =
      elim (>>=-eq-err (age_item now records s done i items) _ h) [
        | inl first ↦ age_item-err s t done items i first
        | inr later ↦ age_partitions-err later.0.0 t (done ++ (later.0.1 ∷ [])) items later.2
      ]

settle-healthy :
    (c : Config) (r : Result Snapshot Snapshot) (s : Snapshot)
    → r ≡ ok s
    → is_healthy (settle c r).reason ≡ true
    → s.max_partition_lag_records ≤ℤ c.max_lag_records
unfolding judged with_headroom
settle-healthy c (err t) s e h = cc
settle-healthy c (ok t) s e h =
    let k : t.max_partition_lag_records ≤ℤ c.max_lag_records = ground arith in
    let same : t ≡ s = cc in subst (λ z. z.max_partition_lag_records ≤ℤ c.max_lag_records) same k

settled-AllWithin :
    (c : Config) (s t : Snapshot) (offsets : PartitionMap ProjectionOffset)
    (bounds : PartitionMap PartitionBounds) (r : Result Snapshot Snapshot)
    → AllWithin s.max_partition_lag_records offsets bounds
    → ((u : Snapshot) → r ≡ ok u → u.max_partition_lag_records ≡ s.max_partition_lag_records)
    → ((u : Snapshot) → r ≡ err u → is_healthy u.reason ≡ false)
    → settle c r ≡ t
    → is_healthy t.reason ≡ true
    → AllWithin c.max_lag_records offsets bounds
settled-AllWithin c s t offsets bounds (err u) w keeps fails e h =
    let bad = fails u refl in let same : u.reason ≡ t.reason = cc in ground arith
settled-AllWithin c s t offsets bounds (ok u) w keeps fails e h =
    let kept = keeps u refl in
    let limit = settle-healthy c (ok u) u refl (ap (λ (z : Snapshot). is_healthy z.reason) e ∙ h) in
    All-map
      (λ (b : ℤ × PartitionBounds) k.
        IsWithin-more s.max_partition_lag_records c.max_lag_records offsets b.0 b.1
          (subst (λ z. z ≤ℤ c.max_lag_records) kept limit) k)
      bounds w

with_ages-lagging :
    (c : Config) (now : ℕ) (source : RecordSource) (s t : Snapshot)
    → is_nil (starts s.partitions) ≡ false
    → with_ages c now source s ≡ ok t
    → (records : PartitionMap OldestRecord) × (settle c
          (age_partitions now records s [] s.partitions)
        ≡ t)
unfolding with_ages
with_ages-lagging c now source s t lags h =
    let k =
      >>=-eq-ok (source (starts s.partitions))
        (λ records. ok (settle c (age_partitions now records s [] s.partitions)))
        (sym (rw lags refl) ∙ h) in
    (k.0, cc (k.2))

with_ages-current :
    (c : Config) (now : ℕ) (source : RecordSource) (s t : Snapshot)
    → is_nil (starts s.partitions) ≡ true
    → with_ages c now source s ≡ ok t
    → settle c (ok s) ≡ t
unfolding with_ages
with_ages-current c now source s t current h =
    let k : ok (settle c (ok s)) ≡ ok t = sym (rw current refl) ∙ h in cc (k)

with_ages-AllWithin :
    (c : Config) (now : ℕ) (source : RecordSource) (s t : Snapshot)
    (offsets : PartitionMap ProjectionOffset) (bounds : PartitionMap PartitionBounds)
    → AllWithin s.max_partition_lag_records offsets bounds
    → with_ages c now source s ≡ ok t
    → is_healthy t.reason ≡ true
    → AllWithin c.max_lag_records offsets bounds
unfolding with_ages
with_ages-AllWithin c now source s t offsets bounds w e h =
    elim (Bool-cases (is_nil (starts s.partitions))) [
      | inl current ↦
          settled-AllWithin c s t offsets bounds (ok s) w
            (λ u k.
              let same : s ≡ u = cc in
              ap (λ (z : Snapshot). z.max_partition_lag_records) (sym same))
            (λ u k. cc) (with_ages-current c now source s t current e) h
      | inr lagging ↦
          let k = with_ages-lagging c now source s t lagging e in
          settled-AllWithin c s t offsets bounds (age_partitions now k.0 s [] s.partitions) w
            (λ u r. age_partitions-eq-ok now k.0 s u [] s.partitions r)
            (λ u r. age_partitions-err now k.0 s u [] s.partitions r) k.1 h
    ]

after_measure-AllWithin :
    (c : Config) (now : ℕ) (source : RecordSource) (s t : Snapshot)
    (offsets : PartitionMap ProjectionOffset) (bounds : PartitionMap PartitionBounds)
    (r : Result Snapshot Snapshot)
    → measure offsets s bounds ≡ r
    → after_measure c now source r ≡ ok t
    → is_healthy t.reason ≡ true
    → AllWithin c.max_lag_records offsets bounds
after_measure-AllWithin c now source s t offsets bounds (err u) m e h =
    let bad = measure-err offsets s u bounds m in
    let same : u ≡ t = cc in
    let good = subst (λ (z : Snapshot). is_healthy z.reason ≡ true) (sym same) h in cc
after_measure-AllWithin c now source s t offsets bounds (ok u) m e h =
    with_ages-AllWithin c now source u t offsets bounds (measure-AllWithin offsets s u bounds m).1 e
      h

evaluate-measured :
    (c : Config) (now : ℕ) (source : RecordSource) (bounds : PartitionMap PartitionBounds)
    (offsets : PartitionMap ProjectionOffset) (t : Snapshot)
    → evaluate c now source bounds offsets ≡ ok t
    → is_healthy t.reason ≡ true
    → (offsets_are_known bounds offsets ≡ true)
      × (after_measure c now source (measure offsets (first_snapshot c now bounds) bounds) ≡ ok t)
unfolding evaluate
evaluate-measured c now source bounds offsets t e h = ground arith

-- For every configuration, time, source of records, bounds and offsets: if evaluate gives a snapshot whose
-- reason is healthy, then every offset belongs to a partition of the topic, and every partition has an
-- offset that lies between its earliest and its latest record, at most the limit behind the latest.
pub evaluate-AllWithin :
    (c : Config) (now : ℕ) (source : RecordSource) (bounds : PartitionMap PartitionBounds)
    (offsets : PartitionMap ProjectionOffset) (t : Snapshot)
    → evaluate c now source bounds offsets ≡ ok t
    → is_healthy t.reason ≡ true
    → (offsets_are_known bounds offsets ≡ true) × AllWithin c.max_lag_records offsets bounds
evaluate-AllWithin c now source bounds offsets t e h =
    let k = evaluate-measured c now source bounds offsets t e h in
    (
      k.0,
      after_measure-AllWithin c now source (first_snapshot c now bounds) t offsets bounds _ refl k.1
          h,
    )
