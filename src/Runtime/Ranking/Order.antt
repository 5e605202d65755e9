-- ===== src/Runtime/Ranking/Order.antt =====
-- The comparator of the ranking orders entries of different users strictly, so the sorted ranking
-- is unique.
use byte_danceliveauctioni.Base.{
  ℕ, ◌≡◌, true, false, inl, inr, List, [], ◌∷◌, All, All-map, Bool-cases, arith, sym,
}
use byte_danceliveauctioni.Base.Text.{str_eq, str_eq_iff}
use byte_danceliveauctioni.Base.Text.Order.{str_lt_irrefl, str_lt_trans, str_lt_total}
use byte_danceliveauctioni.Runtime.Types.{RankingEntry}
use byte_danceliveauctioni.Runtime.Ranking.{ranks_before, insert_entry, sort_entries}
use mathlib.Core.List.{Perm, Mem, mem-cons, mem-cons_self, not-mem-nil}
use mathlib.Core.Logic.Or
use mathlib.Core.Bool.{Bool-set}
use mathlib.Core.HLevel.{prop→set}
use Prim.Native.Char.{IsScalar}
use text.Mathlib.TextEquality.{IsScalar-prop}
use mathlib.Core.List.Perm

-- Two entries are of different users.
abbrev pub DifferentUsers : RankingEntry → RankingEntry → Type 0
DifferentUsers a b = str_eq a.user_id b.user_id ≡ false

-- No user stands twice in the list.
abbrev pub IsDistinct : List RankingEntry → Type 0
IsDistinct [] = Unit {0}
IsDistinct (x ∷ xs) = All (DifferentUsers x) xs × IsDistinct xs

-- Each entry ranks before all that follow.
abbrev pub IsSorted : List RankingEntry → Type 0
IsSorted [] = Unit {0}
IsSorted (x ∷ xs) = All (λ y. ranks_before x y ≡ true) xs × IsSorted xs

pub DifferentUsers-symm : (a b : RankingEntry) → DifferentUsers a b → DifferentUsers b a
DifferentUsers-symm a b h =
    ground (arith, str_eq_iff a.user_id b.user_id, str_eq_iff b.user_id a.user_id)

pub ranks_before_irrefl : (a : RankingEntry) → ranks_before a a ≡ false
unfolding ranks_before
ranks_before_irrefl a = ground (arith, str_lt_irrefl a.user_id)

pub ranks_before_trans :
    (a b c : RankingEntry)
    → ranks_before a b ≡ true
    → ranks_before b c ≡ true
    → ranks_before a c ≡ true
unfolding ranks_before
ranks_before_trans a b c h k = ground (arith, str_lt_trans a.user_id b.user_id c.user_id)

pub ranks_before_total :
    (a b : RankingEntry) → DifferentUsers a b → ranks_before a b ≡ false → ranks_before b a ≡ true
unfolding ranks_before
ranks_before_total a b d h =
    ground (arith, str_lt_total a.user_id b.user_id, str_eq_iff a.user_id b.user_id)

pub insert_entry-All {ℓ} :
    (P : RankingEntry → Type ℓ) (e : RankingEntry) (xs : List RankingEntry)
    → P e
    → All P xs
    → All P (insert_entry e xs)
unfolding insert_entry
insert_entry-All P e [] h k = (h, k)
insert_entry-All P e (x ∷ xs) h k = elim (Bool-cases (ranks_before x e)) [
  | inl first ↦ rw (first, insert_entry) (k.0, insert_entry-All P e xs h k.1)
  | inr last ↦ rw (last, insert_entry) (h, k)
]

pub sort_entries-All {ℓ} :
    (P : RankingEntry → Type ℓ) (xs : List RankingEntry) → All P xs → All P (sort_entries xs)
unfolding sort_entries
sort_entries-All P [] h = h
sort_entries-All P (x ∷ xs) h =
    insert_entry-All P x (sort_entries xs) h.0 (sort_entries-All P xs h.1)

insert_entry-IsSorted :
    (e : RankingEntry) (xs : List RankingEntry)
    → All (DifferentUsers e) xs
    → IsSorted xs
    → IsSorted (insert_entry e xs)
unfolding insert_entry
insert_entry-IsSorted e [] d s = (tt, tt)
insert_entry-IsSorted e (x ∷ xs) d s = elim (Bool-cases (ranks_before x e)) [
  | inl first ↦
      rw (first, insert_entry)
        (
          insert_entry-All (λ y. ranks_before x y ≡ true) e xs first s.0,
          insert_entry-IsSorted e xs d.1 s.1,
        )
  | inr last ↦
      let before = ranks_before_total x e (DifferentUsers-symm e x d.0) last in
      rw (last, insert_entry)
        ((before, All-map (λ y k. ranks_before_trans e x y before k) xs s.0), s)
]

-- The sort puts a list without repeated users in order.
pub sort_entries-IsSorted : (xs : List RankingEntry) → IsDistinct xs → IsSorted (sort_entries xs)
unfolding sort_entries
sort_entries-IsSorted [] d = tt
sort_entries-IsSorted (x ∷ xs) d =
    insert_entry-IsSorted x (sort_entries xs) (sort_entries-All (DifferentUsers x) xs d.0)
      (sort_entries-IsSorted xs d.1)

insert_entry-perm : (e : RankingEntry) (xs : List RankingEntry) → Perm (insert_entry e xs) (e ∷ xs)
unfolding insert_entry
insert_entry-perm e [] = Perm.refl _
insert_entry-perm e (x ∷ xs) = elim (Bool-cases (ranks_before x e)) [
  | inl first ↦
      rw (first, insert_entry)
        (Perm.trans (Perm.cons x (insert_entry-perm e xs)) (Perm.swap e x xs))
  | inr last ↦ rw (last, insert_entry) (Perm.refl _)
]

-- The sort keeps the entries.
pub sort_entries-perm : (xs : List RankingEntry) → Perm (sort_entries xs) xs
unfolding sort_entries
sort_entries-perm [] = Perm.refl _
sort_entries-perm (x ∷ xs) =
    Perm.trans (insert_entry-perm x (sort_entries xs)) (Perm.cons x (sort_entries-perm xs))

IsScalar-set : (n : ℕ) → IsSet (IsScalar n)
IsScalar-set n = prop→set (IsScalar-prop n)

RankingEntry-set : IsSet RankingEntry
RankingEntry-set = hlevel IsScalar-set

before_of_mem :
    (a e : RankingEntry) (xs : List RankingEntry)
    → All (λ y. ranks_before a y ≡ true) xs
    → Mem e xs
    → ranks_before a e ≡ true
before_of_mem a e [] h m = absurd (not-mem-nil m)
before_of_mem a e (x ∷ xs) h m =
    Or.elim (Bool-set _ _) (mem-cons.0 m) (λ p. rw p h.0) (before_of_mem a e xs h.1)

heads_equal :
    (a b : RankingEntry) (xs ys : List RankingEntry)
    → IsSorted (a ∷ xs)
    → IsSorted (b ∷ ys)
    → Perm (a ∷ xs) (b ∷ ys)
    → a ≡ b
heads_equal a b xs ys s t p =
    Or.elim (RankingEntry-set a b) (mem-cons.0 ((Perm.mem_iff p).0 mem-cons_self)) (λ e. e)
      λ m. Or.elim (RankingEntry-set a b) (mem-cons.0 ((Perm.mem_iff p).1 mem-cons_self)) sym λ n.
        let forth = before_of_mem b a ys t.0 m in
        let back = before_of_mem a b xs s.0 n in
        cc (ranks_before_trans a b a back forth, ranks_before_irrefl a)

sorted_unique : (xs ys : List RankingEntry) → IsSorted xs → IsSorted ys → Perm xs ys → xs ≡ ys
sorted_unique [] ys s t p = sym (Perm.eq-nil (Perm.symm p))
sorted_unique (x ∷ xs) [] s t p = Perm.eq-nil p
sorted_unique (x ∷ xs) (y ∷ ys) s t p =
    let e = heads_equal x y xs ys s t p in
    let rest : Perm xs ys = Perm.cons_inv (rw (← e) at p) in cc (sorted_unique xs ys s.1 t.1 rest)

-- Any rearrangement of a list without repeated users that is in order is the model's sort of it.
pub sort_entries_unique :
    (xs ys : List RankingEntry) → IsDistinct xs → Perm ys xs → IsSorted ys → ys ≡ sort_entries xs
sort_entries_unique xs ys d p s =
    sorted_unique ys (sort_entries xs) s (sort_entries-IsSorted xs d)
      (Perm.trans p (Perm.symm (sort_entries-perm xs)))
