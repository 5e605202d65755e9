-- ===== src/Idgen/Unique.antt =====
-- Ids grow, and their parts can be read back.
use Prim.Native.Nat.{bit_or}
use byte_danceliveauctioni.Base.{
  ℕ, ◌+◌, ◌-◌, ◌*◌, ◌/◌, ◌%◌, ◌^◌, ◌≤◌, ◌<◌, ◌≡◌, sym, ap, ◌∙◌, ◌⊎◌, inl, inr, List, [], ◌∷◌, All,
  All-map, Bool-cases, ◌==◌, arith,
}
use byte_danceliveauctioni.Base.Int.{
  ℤ, pos, negsuc, pos_part, ◌<ℤ◌, ◌≤ℤ◌, eqb_ℤ, add64, sub64, wrap64,
}
use byte_danceliveauctioni.Idgen.{
  Generator, epoch_ms, max_ms, timestamp, next_timestamp_after, next_sequence, advance, id_of,
  next_id, next_ids,
}
use byte_danceliveauctioni.Idgen.Bits.{bit_or-add, bit_and-mask, worker-Fits, sequence-Fits}

-- 2 ^ 41 milliseconds after the epoch, in the year 2093, the shift would drop digits.
abbrev pub time_limit : ℕ
time_limit = 1704067200000 + 2 ^ 41

-- A generator: its worker and sequence are in range.
pub record IsGenerator (g : Generator) : Type 0 where
  pub worker : g.worker_id < 1024
  pub sequence : g.sequence < 4096

-- A generator that has given an id: its timestamp is between the epoch and the limit.
pub record HasIssued (g : Generator) : Type 0 where
  pub valid : IsGenerator g
  pub at : ℕ
  pub last : g.last_timestamp_ms ≡ pos at
  pub from_epoch : 1704067200000 ≤ at
  pub before_limit : at < time_limit

-- The number behind an id.
id_number : ℕ → ℕ → ℕ → ℕ
id_number at worker sequence = (at - 1704067200000) * 2 ^ 22 + worker * 2 ^ 12 + sequence

wrap64_small : (n : ℕ) → n < 2 ^ 63 → wrap64 (pos n) ≡ pos n
unfolding wrap64
wrap64_small n h = ground arith

sub64_epoch :
    (at : ℕ)
    → 1704067200000 ≤ at
    → at < time_limit
    → sub64 (pos at) epoch_ms ≡ pos (at - 1704067200000)
unfolding sub64 wrap64
sub64_epoch at h l = ground arith

shifted_small : (d : ℕ) → d < 2 ^ 41 → d * 2 ^ 22 % 2 ^ 64 ≡ d * 2 ^ 22
shifted_small d h = omega arith

bits_of_id :
    (d w s : ℕ)
    → d < 2 ^ 41
    → w < 1024
    → s < 4096
    → bit_or (bit_or (d * 2 ^ 22 % 2 ^ 64) (w * 2 ^ 12)) s ≡ d * 2 ^ 22 + w * 2 ^ 12 + s
bits_of_id d w s d_small w_small s_small =
    ap (λ k. bit_or (bit_or k (w * 2 ^ 12)) s) (shifted_small d d_small)
    ∙ ap (λ k. bit_or k s) (bit_or-add 22 (d * 2 ^ 22) (w * 2 ^ 12) (worker-Fits d w w_small))
    ∙ bit_or-add 12 (d * 2 ^ 22 + w * 2 ^ 12) s (sequence-Fits d w s s_small)

id_of-eq : (g : Generator) (h : HasIssued g) → id_of g ≡ pos (id_number h.at g.worker_id g.sequence)
unfolding id_of id_number
id_of-eq g h =
    let d = h.at - 1704067200000 in
    let since : pos_part (sub64 g.last_timestamp_ms epoch_ms) ≡ d =
      ap (λ k. pos_part (sub64 k epoch_ms)) h.last
      ∙ ap pos_part (sub64_epoch h.at h.from_epoch h.before_limit) in
    ap (λ k. wrap64 (pos (bit_or (bit_or (k * 2 ^ 22 % 2 ^ 64) (g.worker_id * 2 ^ 12)) g.sequence)))
      since
    ∙ ap (λ k. wrap64 (pos k))
        (bits_of_id d g.worker_id g.sequence (omega (arith, h.before_limit, h.from_epoch))
          h.valid.worker h.valid.sequence)
    ∙ wrap64_small (d * 2 ^ 22 + g.worker_id * 2 ^ 12 + g.sequence)
        (omega (arith, h.before_limit, h.valid.worker, h.valid.sequence))

-- The parts of a number.
id_number-parts :
    (at w s : ℕ)
    → 1704067200000 ≤ at
    → w < 1024
    → s < 4096
    → (id_number at w s / 2 ^ 22 + 1704067200000 ≡ at)
      × (id_number at w s / 2 ^ 12 % 1024 ≡ w)
      × (id_number at w s % 4096 ≡ s)
unfolding id_number
id_number-parts at w s e h k = omega arith

next_sequence-eq : (g : Generator) → IsGenerator g → next_sequence g ≡ (g.sequence + 1) % 4096
unfolding next_sequence
next_sequence-eq g v = bit_and-mask (g.sequence + 1) (omega (arith, v.sequence))

-- The state moves forward: a later timestamp, or the same with the next sequence.
pub record IsLater (g g' : Generator) : Type 0 where
  pub worker_same : g'.worker_id ≡ g.worker_id
  pub valid : IsGenerator g'
  pub epoch_passed : pos 1704067200000 ≤ℤ g'.last_timestamp_ms
  pub forward :
      (g.last_timestamp_ms <ℤ g'.last_timestamp_ms)
      ⊎ ((g.last_timestamp_ms ≡ g'.last_timestamp_ms) × (g.sequence < g'.sequence))

timestamp_bounds :
    (g : Generator) (now : ℤ)
    → (pos 1704067200000 ≤ℤ timestamp g now) × (g.last_timestamp_ms ≤ℤ timestamp g now)
unfolding timestamp max_ms
timestamp_bounds g now = ground arith

next_timestamp_after-gt :
    (last now : ℤ) → last <ℤ pos (2 ^ 62) → negsuc 0 ≤ℤ last → last <ℤ next_timestamp_after last now
unfolding next_timestamp_after add64 wrap64
next_timestamp_after-gt last now h k = ground arith

-- A generator as NewGenerator makes it, or after ids.
pub record IsReady (g : Generator) : Type 0 where
  pub valid : IsGenerator g
  pub from_minus_one : negsuc 0 ≤ℤ g.last_timestamp_ms
  pub far_from_overflow : g.last_timestamp_ms <ℤ pos (2 ^ 62)

advance-IsLater : (g : Generator) (now again : ℤ) → IsReady g → IsLater g (advance g now again)
unfolding advance
advance-IsLater g now again r =
    let b = timestamp_bounds g now in
    let next =
      next_timestamp_after-gt g.last_timestamp_ms again r.far_from_overflow r.from_minus_one in
    let seq = next_sequence-eq g r.valid in
    elim (Bool-cases (eqb_ℤ (timestamp g now) g.last_timestamp_ms)) [
      | inl same ↦ elim (Bool-cases (next_sequence g == 0)) [
        | inl full ↦ ground arith
        | inr room ↦ ground arith
      ]
      | inr moved ↦ ground arith
    ]

id_number-lt :
    (at at' w s s' : ℕ)
    → w < 1024
    → s < 4096
    → 1704067200000 ≤ at
    → (at < at') ⊎ ((at ≡ at') × (s < s'))
    → id_number at w s < id_number at' w s'
unfolding id_number
id_number-lt at at' w s s' hw hs e (inl later) = omega arith
id_number-lt at at' w s s' hw hs e (inr (same, more)) = omega arith

-- The timestamps are in range at each call.
abbrev pub InRange : Generator → List (ℤ × ℤ) → Type 0
InRange g [] = Unit
InRange g ((now, again) ∷ clock) =
    ((advance g now again).last_timestamp_ms <ℤ pos time_limit)
    × InRange (advance g now again) clock

issued :
    (g : Generator)
    → IsGenerator g
    → pos 1704067200000 ≤ℤ g.last_timestamp_ms
    → g.last_timestamp_ms <ℤ pos time_limit
    → HasIssued g
issued g v e l = record {
  valid = v;
  at = pos_part g.last_timestamp_ms;
  last = ground arith;
  from_epoch = ground arith;
  before_limit = ground arith;
}

forward_at :
    (g g' : Generator) (h : HasIssued g) (h' : HasIssued g')
    → IsLater g g'
    → (h.at < h'.at) ⊎ ((h.at ≡ h'.at) × (g.sequence < g'.sequence))
forward_at g g' h h' l = let a = h.last in let b = h'.last in let f = l.forward in ground arith

later-id_of :
    (g g' : Generator) (h : HasIssued g) (h' : HasIssued g') → IsLater g g' → id_of g <ℤ id_of g'
later-id_of g g' h h' l =
    let number =
      id_number-lt h.at h'.at g.worker_id g.sequence g'.sequence h.valid.worker h.valid.sequence
        h.from_epoch (forward_at g g' h h' l) in
    let k : id_number h'.at g'.worker_id g'.sequence ≡ id_number h'.at g.worker_id g'.sequence =
      ap (λ w. id_number h'.at w g'.sequence) l.worker_same in
    rw (id_of-eq g h) (rw (id_of-eq g' h') (rw k (omega (arith, number))))

ready_after : (g : Generator) → HasIssued g → IsReady g
ready_after g h =
    let a = h.last in
    let b = h.before_limit in
    record { valid = h.valid; from_minus_one = ground arith; far_from_overflow = ground arith }

next_issued :
    (g : Generator) (now again : ℤ)
    → IsReady g
    → (advance g now again).last_timestamp_ms <ℤ pos time_limit
    → HasIssued (advance g now again)
next_issued g now again r l =
    let k = advance-IsLater g now again r in issued (advance g now again) k.valid k.epoch_passed l

after_last :
    (g : Generator) (h : HasIssued g) (clock : List (ℤ × ℤ))
    → InRange g clock
    → All (λ y. id_of g <ℤ y) (next_ids g clock).0
unfolding next_ids next_id
after_last g h [] r = tt
after_last g h ((now, again) ∷ clock) r =
    let h' = next_issued g now again (ready_after g h) r.0 in
    let first =
      later-id_of g (advance g now again) h h' (advance-IsLater g now again (ready_after g h)) in
    (
      first,
      All-map (λ (y : ℤ) k. omega (arith, first, k)) (next_ids (advance g now again) clock).0
          (after_last (advance g now again) h' clock r.1),
    )

-- Each id is below all later ones.
abbrev pub Ascending : List ℤ → Type 0
Ascending [] = Unit
Ascending (x ∷ xs) = All (λ y. x <ℤ y) xs × Ascending xs

Ascending-after :
    (g : Generator) (clock : List (ℤ × ℤ))
    → IsReady g
    → InRange g clock
    → Ascending (next_ids g clock).0
unfolding next_ids next_id
Ascending-after g [] v r = tt
Ascending-after g ((now, again) ∷ clock) v r =
    let h = next_issued g now again v r.0 in
    (
      after_last (advance g now again) h clock r.1,
      Ascending-after (advance g now again) clock (ready_after (advance g now again) h) r.1,
    )

-- For every generator as it is made or after ids, and readings of the clock, in any order: while the
-- timestamps stay below the limit in the year 2093, each id that NextID gives is below all later ones,
-- also when the clock runs backwards.
pub next_ids-Ascending :
    (g : Generator) (clock : List (ℤ × ℤ))
    → IsReady g
    → InRange g clock
    → Ascending (next_ids g clock).0
next_ids-Ascending g clock v r = Ascending-after g clock v r

-- For every generator as it is made or after ids, and two readings of the clock: if the timestamp is below
-- the limit, then the id that NextID gives is not negative, and its digits give back the timestamp, the
-- worker and the sequence.
pub next_id-parts :
    (g : Generator) (now again : ℤ)
    → IsReady g
    → (advance g now again).last_timestamp_ms <ℤ pos time_limit
    → (n : ℕ) × ((next_id g now again).0 ≡ pos n)
      × (pos (n / 2 ^ 22 + 1704067200000) ≡ (advance g now again).last_timestamp_ms)
      × (n / 2 ^ 12 % 1024 ≡ g.worker_id)
      × (n % 4096 ≡ (advance g now again).sequence)
unfolding next_id
next_id-parts g now again v l =
    let h = next_issued g now again v l in
    let p =
      id_number-parts h.at (advance g now again).worker_id (advance g now again).sequence
        h.from_epoch h.valid.worker h.valid.sequence in
    (
      id_number h.at (advance g now again).worker_id (advance g now again).sequence,
      id_of-eq (advance g now again) h,
      ap pos p.0 ∙ sym h.last,
      p.1 ∙ (advance-IsLater g now again v).worker_same,
      p.2,
    )
