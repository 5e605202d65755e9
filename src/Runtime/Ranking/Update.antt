-- ===== src/Runtime/Ranking/Update.antt =====
-- The ranking after a bid that exceeds every entry: the new entry comes first, the others follow in
-- order, and the length stays within the limit.
use byte_danceliveauctioni.Base.{
  ℕ, zero, suc, ◌-◌, ◌≤◌, ◌<◌, ◌≡◌, refl, sym, ◌∙◌, ap, true, false, inl, inr, List, [], ◌∷◌, All,
  All-map, All-take, length, take, length-take-le, Bool-cases, arith, if◌then◌else◌,
}
use byte_danceliveauctioni.Base.Int.{ℤ, pos, pos_part, ltb_ℤ, ◌<ℤ◌}
use byte_danceliveauctioni.Base.Text.{str_eq, str_eq_iff}
use byte_danceliveauctioni.Runtime.Types.{RankingEntry, PlaceBid}
use byte_danceliveauctioni.Runtime.Ranking.{
  ranks_before, insert_entry, sort_entries, replace_or_append, limit_entries, bid_entry,
  update_runtime_ranking,
}
use byte_danceliveauctioni.Runtime.Ranking.Order.{
  DifferentUsers, DifferentUsers-symm, IsDistinct, IsSorted, insert_entry-All, sort_entries-All,
  sort_entries-IsSorted,
}

-- Every entry is below an amount.
abbrev pub AllBelow : ℤ → List RankingEntry → Type 0
AllBelow amount = All λ y. y.amount_fen <ℤ amount

-- The entries but the first of a user.
pub without : RankingEntry → List RankingEntry → List RankingEntry
without e [] = []
without e (x ∷ xs) = if str_eq x.user_id e.user_id then xs else x ∷ without e xs

before_of_lt : (e y : RankingEntry) → y.amount_fen <ℤ e.amount_fen → ranks_before e y ≡ true
unfolding ranks_before
before_of_lt e y h = ground arith

not_before_of_lt : (e y : RankingEntry) → y.amount_fen <ℤ e.amount_fen → ranks_before y e ≡ false
unfolding ranks_before
not_before_of_lt e y h = ground arith

insert_entry-top :
    (e : RankingEntry) (xs : List RankingEntry)
    → AllBelow e.amount_fen xs
    → insert_entry e xs ≡ e ∷ xs
unfolding insert_entry
insert_entry-top e [] h = refl
insert_entry-top e (x ∷ xs) h = rw (not_before_of_lt e x h.0) refl

insert_entry-below :
    (e x : RankingEntry) (xs : List RankingEntry)
    → x.amount_fen <ℤ e.amount_fen
    → insert_entry x (e ∷ xs) ≡ e ∷ insert_entry x xs
unfolding insert_entry
insert_entry-below e x xs h = rw (before_of_lt e x h) refl

sort_entries-replace_or_append :
    (e : RankingEntry) (xs : List RankingEntry)
    → AllBelow e.amount_fen xs
    → sort_entries (replace_or_append e xs) ≡ e ∷ sort_entries (without e xs)
unfolding sort_entries replace_or_append without
sort_entries-replace_or_append e [] h = insert_entry-top e [] tt
sort_entries-replace_or_append e (x ∷ xs) h = elim (Bool-cases (str_eq x.user_id e.user_id)) [
  | inl same ↦
      rw (same, replace_or_append, without)
        (insert_entry-top e (sort_entries xs)
          (sort_entries-All (λ y. y.amount_fen <ℤ e.amount_fen) xs h.1))
  | inr other ↦
      rw (other, replace_or_append, without)
        (ap (insert_entry x) (sort_entries-replace_or_append e xs h.1)
          ∙ insert_entry-below e x (sort_entries (without e xs)) h.0)
]

without-All {ℓ} :
    (P : RankingEntry → Type ℓ) (e : RankingEntry) (xs : List RankingEntry)
    → All P xs
    → All P (without e xs)
unfolding without
without-All P e [] h = tt
without-All P e (x ∷ xs) h = elim (Bool-cases (str_eq x.user_id e.user_id)) [
  | inl same ↦ rw (same, without) h.1
  | inr other ↦ rw (other, without) (h.0, without-All P e xs h.1)
]

without-IsDistinct :
    (e : RankingEntry) (xs : List RankingEntry) → IsDistinct xs → IsDistinct (without e xs)
unfolding without
without-IsDistinct e [] d = tt
without-IsDistinct e (x ∷ xs) d = elim (Bool-cases (str_eq x.user_id e.user_id)) [
  | inl same ↦ rw (same, without) d.1
  | inr other ↦
      rw (other, without) (without-All (DifferentUsers x) e xs d.0, without-IsDistinct e xs d.1)
]

pub differs_from_same :
    (e x y : RankingEntry)
    → str_eq x.user_id e.user_id ≡ true
    → DifferentUsers x y
    → DifferentUsers e y
differs_from_same e x y h d = ground (
  arith,
  str_eq_iff x.user_id e.user_id,
  str_eq_iff e.user_id y.user_id,
  str_eq_iff x.user_id y.user_id,
)

without-differs :
    (e : RankingEntry) (xs : List RankingEntry)
    → IsDistinct xs
    → All (DifferentUsers e) (without e xs)
unfolding without
without-differs e [] d = tt
without-differs e (x ∷ xs) d = elim (Bool-cases (str_eq x.user_id e.user_id)) [
  | inl same ↦ rw (same, without) (All-map (λ y. differs_from_same e x y same) xs d.0)
  | inr other ↦ rw (other, without) (DifferentUsers-symm x e other, without-differs e xs d.1)
]

insert_entry-IsDistinct :
    (e : RankingEntry) (xs : List RankingEntry)
    → All (DifferentUsers e) xs
    → IsDistinct xs
    → IsDistinct (insert_entry e xs)
unfolding insert_entry
insert_entry-IsDistinct e [] h d = (tt, tt)
insert_entry-IsDistinct e (x ∷ xs) h d = elim (Bool-cases (ranks_before x e)) [
  | inl first ↦
      rw (first, insert_entry)
        (
          insert_entry-All (DifferentUsers x) e xs (DifferentUsers-symm e x h.0) d.0,
          insert_entry-IsDistinct e xs h.1 d.1,
        )
  | inr last ↦ rw (last, insert_entry) (h, d)
]

sort_entries-IsDistinct : (xs : List RankingEntry) → IsDistinct xs → IsDistinct (sort_entries xs)
unfolding sort_entries
sort_entries-IsDistinct [] d = tt
sort_entries-IsDistinct (x ∷ xs) d =
    insert_entry-IsDistinct x (sort_entries xs) (sort_entries-All (DifferentUsers x) xs d.0)
      (sort_entries-IsDistinct xs d.1)

take-IsSorted : (n : ℕ) (xs : List RankingEntry) → IsSorted xs → IsSorted (take n xs)
take-IsSorted zero xs s = tt
take-IsSorted (suc n) [] s = tt
take-IsSorted (suc n) (x ∷ xs) s =
    (All-take (λ y. ranks_before x y ≡ true) n xs s.0, take-IsSorted n xs s.1)

take-IsDistinct : (n : ℕ) (xs : List RankingEntry) → IsDistinct xs → IsDistinct (take n xs)
take-IsDistinct zero xs d = tt
take-IsDistinct (suc n) [] d = tt
take-IsDistinct (suc n) (x ∷ xs) d =
    (All-take (DifferentUsers x) n xs d.0, take-IsDistinct n xs d.1)

-- A ranking led by an entry, in order, with each user once.
pub record IsLedBy (e : RankingEntry) (limit : ℕ) (ranking : List RankingEntry) : Type 0 where
  pub rest : List RankingEntry
  pub leads : ranking ≡ e ∷ rest
  pub sorted : IsSorted (e ∷ rest)
  pub distinct : IsDistinct (e ∷ rest)
  pub below : AllBelow e.amount_fen rest
  pub bounded : length (e ∷ rest) ≤ limit

take-IsLedBy :
    (e : RankingEntry) (k n : ℕ) (ys : List RankingEntry)
    → k ≡ suc n
    → IsSorted ys
    → IsDistinct ys
    → All (DifferentUsers e) ys
    → AllBelow e.amount_fen ys
    → IsLedBy e k (e ∷ take n ys)
take-IsLedBy e k n ys p s d u b = record {
  rest = take n ys;
  leads = refl;
  sorted = (
    All-take (λ y. ranks_before e y ≡ true) n ys (All-map (λ y. before_of_lt e y) ys b),
    take-IsSorted n ys s,
  );
  distinct = (All-take (DifferentUsers e) n ys u, take-IsDistinct n ys d);
  below = All-take (λ y. y.amount_fen <ℤ e.amount_fen) n ys b;
  bounded = omega (arith, length-take-le n ys);
}

pub take_all {ℓ} : {A : Type ℓ} (n : ℕ) (xs : List A) → length xs ≤ n → take n xs ≡ xs
take_all zero [] h = refl
take_all zero (x ∷ xs) h = absurd (omega arith)
take_all (suc n) [] h = refl
take_all (suc n) (x ∷ xs) h = ap (◌∷◌ x) (take_all n xs (omega arith))

-- Cutting at the limit is `take`, also where the list is short enough.
limit_entries-take :
    (n : ℕ) (limit : ℤ) (e : RankingEntry) (ys : List RankingEntry)
    → pos_part limit ≡ suc n
    → limit_entries limit (e ∷ ys) ≡ e ∷ take n ys
unfolding limit_entries
limit_entries-take n limit e ys p = elim (Bool-cases (ltb_ℤ limit (pos (length (e ∷ ys))))) [
  | inl long ↦ rw long (rw p refl)
  | inr short ↦ rw short (ap (◌∷◌ e) (sym (take_all n ys (ground arith))))
]

-- A bid above every entry of a ranking without repeated users leads the new ranking: its entry is
-- first, the rest are entries of other users with lower amounts, in order and each user once, and
-- there are at most as many as the limit allows.
pub update_runtime_ranking-IsLedBy :
    (xs : List RankingEntry) (c : PlaceBid)
    → IsDistinct xs
    → AllBelow c.amount_fen xs
    → 0 < pos_part c.ranking_limit
    → IsLedBy (bid_entry c) (pos_part c.ranking_limit) (update_runtime_ranking xs c c.ranking_limit)
unfolding update_runtime_ranking
update_runtime_ranking-IsLedBy xs c d b l =
    let e = bid_entry c in
    let n = pos_part c.ranking_limit - 1 in
    let same_limit : pos_part c.ranking_limit ≡ suc n = omega arith in
    let below : AllBelow e.amount_fen xs = unfold bid_entry in b in
    let ys = sort_entries (without e xs) in
    rw (sort_entries-replace_or_append e xs below) (
      rw (limit_entries-take n c.ranking_limit e ys same_limit) (
        take-IsLedBy e (pos_part c.ranking_limit) n ys same_limit
          (sort_entries-IsSorted (without e xs) (without-IsDistinct e xs d))
          (sort_entries-IsDistinct (without e xs) (without-IsDistinct e xs d))
          (sort_entries-All (DifferentUsers e) (without e xs) (without-differs e xs d))
          (sort_entries-All (λ y. y.amount_fen <ℤ e.amount_fen) (without e xs)
            (without-All (λ y. y.amount_fen <ℤ e.amount_fen) e xs below))))
