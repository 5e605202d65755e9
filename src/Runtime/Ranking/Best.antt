-- ===== src/Runtime/Ranking/Best.antt =====
-- What the ranking is after a bid, said without its algorithm: the best entries of the bidder's new one and those of
-- all others.
use byte_danceliveauctioni.Base.{
  ℕ, zero, suc, ◌≤◌, ◌≡◌, ◌↔◌, ◌⊎◌, refl, sym, ap, subst, ◌∙◌, true, inl, inr, String, List, [],
  ◌∷◌, ◌++◌, All, All-map, length, take, length-take-le, Bool-cases, arith, if◌then◌else◌,
}
use byte_danceliveauctioni.Base.Int.{pos, ltb_ℤ, ◌<ℤ◌, eqb_ℤ, eqb_ℤ_iff}
use byte_danceliveauctioni.Base.Text.{codes, str_eq}
use byte_danceliveauctioni.Base.Text.Order.{str_lt_iff, CodesBefore}
use byte_danceliveauctioni.Runtime.Types.{RankingEntry, PlaceBid}
use byte_danceliveauctioni.Runtime.Ranking.{
  ranks_before, sort_entries, replace_or_append, limit_entries, bid_entry, update_runtime_ranking,
}
use byte_danceliveauctioni.Runtime.Ranking.Order.{
  DifferentUsers, DifferentUsers-symm, IsDistinct, IsSorted, sort_entries-IsSorted,
  sort_entries-perm, sort_entries_unique,
}
use byte_danceliveauctioni.Runtime.Ranking.Update.{take_all, differs_from_same}
use mathlib.Core.List.{Perm}
use mathlib.Core.List.Perm

-- A higher amount, or the same earlier, or the same at the same time by the user whose id comes first.
abbrev pub Outranks : RankingEntry → RankingEntry → Type 0
Outranks a b =
    (b.amount_fen <ℤ a.amount_fen)
    ⊎ ((a.amount_fen ≡ b.amount_fen) × (a.bid_at_unix_ms <ℤ b.bid_at_unix_ms))
    ⊎ ((a.amount_fen ≡ b.amount_fen)
        × (a.bid_at_unix_ms ≡ b.bid_at_unix_ms)
        × CodesBefore (codes a.user_id) (codes b.user_id))

-- Each entry outranks all that follow.
abbrev pub InOrder : List RankingEntry → Type 0
InOrder [] = Unit
InOrder (x ∷ xs) = All (Outranks x) xs × InOrder xs

-- The entries of all users but one.
unfoldable pub of_others : String → List RankingEntry → List RankingEntry
of_others user [] = []
of_others user (x ∷ xs) =
    let rest = of_others user xs in if str_eq x.user_id user then rest else x ∷ rest

-- The best entries of a list, in order, as many as the limit allows.
pub record IsBestOf (limit : ℕ) (all ys : List RankingEntry) : Type 0 where
  pub rest : List RankingEntry
  pub same_entries : Perm (ys ++ rest) all
  pub ordered : InOrder (ys ++ rest)
  pub within : length ys ≤ limit
  pub full : (rest ≡ []) ⊎ (length ys ≡ limit)

ranks_before-Outranks : (a b : RankingEntry) → ranks_before a b ≡ true → Outranks a b
unfolding ranks_before
ranks_before-Outranks a b h =
    let amounts = eqb_ℤ_iff a.amount_fen b.amount_fen in
    let times = eqb_ℤ_iff a.bid_at_unix_ms b.bid_at_unix_ms in
    elim (Bool-cases (eqb_ℤ a.amount_fen b.amount_fen)) [
      | inl same ↦ elim (Bool-cases (eqb_ℤ a.bid_at_unix_ms b.bid_at_unix_ms)) [
        | inl at_once ↦ inr (
            inr
              (amounts.0 same, times.0 at_once, (str_lt_iff a.user_id b.user_id).0 (ground arith)))
        | inr apart ↦ inr (inl (amounts.0 same, ground arith))
      ]
      | inr apart ↦ inl (ground arith)
    ]

Outranks-ranks_before : (a b : RankingEntry) → Outranks a b → ranks_before a b ≡ true
unfolding ranks_before
Outranks-ranks_before a b (inl higher) = ground arith
Outranks-ranks_before a b (inr (inl (same, earlier))) =
    let e = (eqb_ℤ_iff a.amount_fen b.amount_fen).1 same in ground arith
Outranks-ranks_before a b (inr (inr (same, at_once, first))) =
    let e = (eqb_ℤ_iff a.amount_fen b.amount_fen).1 same in
    let f = (eqb_ℤ_iff a.bid_at_unix_ms b.bid_at_unix_ms).1 at_once in
    let g = (str_lt_iff a.user_id b.user_id).1 first in ground arith

InOrder-IsSorted : (xs : List RankingEntry) → InOrder xs → IsSorted xs
InOrder-IsSorted [] h = tt
InOrder-IsSorted (x ∷ xs) h = (All-map (Outranks-ranks_before x) xs h.0, InOrder-IsSorted xs h.1)

IsSorted-InOrder : (xs : List RankingEntry) → IsSorted xs → InOrder xs
IsSorted-InOrder [] h = tt
IsSorted-InOrder (x ∷ xs) h = (All-map (ranks_before-Outranks x) xs h.0, IsSorted-InOrder xs h.1)

of_others-All :
    (e : RankingEntry) (xs : List RankingEntry)
    → All (DifferentUsers e) xs
    → of_others e.user_id xs ≡ xs
unfolding of_others
of_others-All e [] d = refl
of_others-All e (x ∷ xs) d =
    let other = DifferentUsers-symm e x d.0 in
    let rest = of_others-All e xs d.1 in rw other (ap (◌∷◌ x) rest)

replace_or_append-perm :
    (e : RankingEntry) (xs : List RankingEntry)
    → IsDistinct xs
    → Perm (replace_or_append e xs) (e ∷ of_others e.user_id xs)
unfolding replace_or_append of_others
replace_or_append-perm e [] d = Perm.refl _
replace_or_append-perm e (x ∷ xs) d = elim (Bool-cases (str_eq x.user_id e.user_id)) [
  | inl same ↦
      let others = of_others-All e xs (All-map (λ y. differs_from_same e x y same) xs d.0) in
      rw same (rw others (Perm.refl _))
  | inr other ↦
      rw other (Perm.trans (Perm.cons x (replace_or_append-perm e xs d.1)) (Perm.swap e x _))
]

replace_or_append-All {ℓ} :
    (P : RankingEntry → Type ℓ) (e : RankingEntry) (xs : List RankingEntry)
    → P e
    → All P xs
    → All P (replace_or_append e xs)
unfolding replace_or_append
replace_or_append-All P e [] h k = (h, tt)
replace_or_append-All P e (x ∷ xs) h k = elim (Bool-cases (str_eq x.user_id e.user_id)) [
  | inl same ↦ rw same (h, k.1)
  | inr other ↦ rw other (k.0, replace_or_append-All P e xs h k.1)
]

replace_or_append-IsDistinct :
    (e : RankingEntry) (xs : List RankingEntry)
    → IsDistinct xs
    → IsDistinct (replace_or_append e xs)
unfolding replace_or_append
replace_or_append-IsDistinct e [] d = (tt, tt)
replace_or_append-IsDistinct e (x ∷ xs) d = elim (Bool-cases (str_eq x.user_id e.user_id)) [
  | inl same ↦ rw same (All-map (λ y. differs_from_same e x y same) xs d.0, d.1)
  | inr other ↦ rw other (
    replace_or_append-All (DifferentUsers x) e xs other d.0,
    replace_or_append-IsDistinct e xs d.1,
  )
]

limit_entries-eq_take : (n : ℕ) (xs : List RankingEntry) → limit_entries (pos n) xs ≡ take n xs
unfolding limit_entries
limit_entries-eq_take n xs = elim (Bool-cases (ltb_ℤ (pos n) (pos (length xs)))) [
  | inl long ↦ rw long refl
  | inr short ↦ rw short (sym (take_all n xs (ground arith)))
]

module _ {ℓ} {A : Type ℓ} where
  after : ℕ → List A → List A
  after zero xs = xs
  after (suc n) [] = []
  after (suc n) (x ∷ xs) = after n xs

  take-append_after : (n : ℕ) (xs : List A) → take n xs ++ after n xs ≡ xs
  unfolding after
  take-append_after zero xs = refl
  take-append_after (suc n) [] = refl
  take-append_after (suc n) (x ∷ xs) = ap (◌∷◌ x) (take-append_after n xs)

  after-full : (n : ℕ) (xs : List A) → (after n xs ≡ []) ⊎ (length (take n xs) ≡ n)
  unfolding after
  after-full zero xs = inr refl
  after-full (suc n) [] = inl refl
  after-full (suc n) (x ∷ xs) = elim (after-full n xs) [
    | inl none_left ↦ inl none_left
    | inr full ↦ inr (omega (arith, full))
  ]

  take-of_append :
      (n : ℕ) (ys rest : List A)
      → length ys ≤ n
      → (rest ≡ []) ⊎ (length ys ≡ n)
      → take n (ys ++ rest) ≡ ys
  take-of_append zero [] rest h f = refl
  take-of_append zero (y ∷ ys) rest h f = absurd (omega arith)
  take-of_append (suc n) [] rest h (inl e) = ap (take (suc n)) e
  take-of_append (suc n) [] rest h (inr e) = absurd (omega arith)
  take-of_append (suc n) (y ∷ ys) rest h (inl e) =
      ap (◌∷◌ y) (take-of_append n ys rest (omega arith) (inl e))
  take-of_append (suc n) (y ∷ ys) rest h (inr e) =
      ap (◌∷◌ y) (take-of_append n ys rest (omega arith) (inr (omega arith)))

module _ (xs : List RankingEntry) (c : PlaceBid) (limit : ℕ) (d : IsDistinct xs) where
  whole : List RankingEntry
  whole = sort_entries (replace_or_append (bid_entry c) xs)

  whole-perm : Perm whole (bid_entry c ∷ of_others (bid_entry c).user_id xs)
  unfolding whole
  whole-perm =
      Perm.trans (sort_entries-perm (replace_or_append (bid_entry c) xs))
        (replace_or_append-perm (bid_entry c) xs d)

  updated : update_runtime_ranking xs c (pos limit) ≡ take limit whole
  unfolding update_runtime_ranking whole
  updated = limit_entries-eq_take limit (sort_entries (replace_or_append (bid_entry c) xs))

  whole-IsBestOf :
      IsBestOf limit (bid_entry c ∷ of_others (bid_entry c).user_id xs) (take limit whole)
  unfolding whole
  whole-IsBestOf = record {
    rest = after limit whole;
    same_entries =
        subst (λ zs. Perm zs (bid_entry c ∷ of_others (bid_entry c).user_id xs))
          (sym (take-append_after limit whole)) whole-perm;
    ordered = subst InOrder (sym (take-append_after limit whole)) (
        IsSorted-InOrder whole (
          sort_entries-IsSorted (replace_or_append (bid_entry c) xs)
            (replace_or_append-IsDistinct (bid_entry c) xs d)));
    within = length-take-le limit whole;
    full = after-full limit whole;
  }

  IsBestOf-whole :
      (ys : List RankingEntry)
      → IsBestOf limit (bid_entry c ∷ of_others (bid_entry c).user_id xs) ys
      → ys ≡ take limit whole
  unfolding whole
  IsBestOf-whole ys b =
      let same =
        sort_entries_unique (replace_or_append (bid_entry c) xs) (ys ++ b.rest)
          (replace_or_append-IsDistinct (bid_entry c) xs d)
          (Perm.trans b.same_entries (Perm.symm (replace_or_append-perm (bid_entry c) xs d)))
          (InOrder-IsSorted (ys ++ b.rest) b.ordered) in
      sym (take-of_append limit ys b.rest b.within b.full) ∙ ap (take limit) same

-- For every ranking without repeated users, every bid and every limit: a list is the updated ranking
-- exactly when it has the best entries, as many as the limit allows, of the bid's and those of all users but
-- the bidder: a higher amount is better, then an earlier bid, then the user id that comes first. So the
-- result does not depend on the sorting algorithm either.
pub update_runtime_ranking-IsBestOf :
    (xs ys : List RankingEntry) (c : PlaceBid) (limit : ℕ)
    → IsDistinct xs
    → (ys ≡ update_runtime_ranking xs c (pos limit))
      ↔ IsBestOf limit (bid_entry c ∷ of_others c.user_id xs) ys
unfolding bid_entry
update_runtime_ranking-IsBestOf xs ys c limit d = (
  λ e.
      subst (IsBestOf limit (bid_entry c ∷ of_others c.user_id xs)) (sym (e ∙ updated xs c limit d))
        (whole-IsBestOf xs c limit d),
  λ b. IsBestOf-whole xs c limit d ys b ∙ sym (updated xs c limit d),
)
