-- ===== src/Lot/Duel/Pair.antt =====
-- StartDuel chooses two different users of the ranking.
use byte_danceliveauctioni.Base.{
  ◌≡◌, refl, sym, List, [], ◌∷◌, Option, none, some, ok, Bool, true, false, not, ◌&&◌, ◌||◌, String,
  arith, Bool-cases, inl, inr, All, ltb, length, reject_if-eq-ok,
}
use byte_danceliveauctioni.Base.Int.{ℤ}
use byte_danceliveauctioni.Base.Text.{str_eq, str_eq_iff, is_empty}
use byte_danceliveauctioni.Proto.{is_open}
use byte_danceliveauctioni.Proto.Lot.{Lot, RankingItem, DuelState}
use byte_danceliveauctioni.Lot.Messages.{
  is_none, not_live, too_few_bidders, duel_user_a_missing, duel_user_b_missing, duel_users_equal,
  no_distinct_bidders,
}
use byte_danceliveauctioni.Lot.Duel.{
  start_duel, requested_user, same_user, fill_duel, begin_duel, duel_lot,
}

-- The user has an item in the ranking.
abbrev pub is_ranked : List RankingItem → String → Bool
is_ranked [] id = false
is_ranked (i ∷ ranking) id = str_eq i.user_id id || is_ranked ranking id

-- The chosen user, if there is one, is ranked.
abbrev IsChosen : (RankingItem → Type 0) → Option RankingItem → Type 0
IsChosen P none = Unit
IsChosen P (some i) = P i

module _ (P : RankingItem → Type 0) where
  requested_user-IsChosen :
      (id : String) (found : Option RankingItem) (ranking : List RankingItem)
      → IsChosen P found
      → All P ranking
      → IsChosen P (requested_user id found ranking)
  unfolding requested_user
  requested_user-IsChosen id found [] f h = f
  requested_user-IsChosen id found (i ∷ ranking) f h =
      elim (Bool-cases (not (is_empty id) && str_eq i.user_id id)) [
        | inl hit ↦ rw hit (requested_user-IsChosen id (some i) ranking h.0 h.1)
        | inr miss ↦ rw miss (requested_user-IsChosen id found ranking f h.1)
      ]

  fill_duel-IsChosen :
      (a b : Option RankingItem) (ranking : List RankingItem)
      → IsChosen P a
      → IsChosen P b
      → All P ranking
      → IsChosen P (fill_duel a b ranking).0 × IsChosen P (fill_duel a b ranking).1
  unfolding fill_duel
  fill_duel-IsChosen a b [] f g h = (f, g)
  fill_duel-IsChosen none none (i ∷ ranking) f g h =
      fill_duel-IsChosen (some i) none ranking h.0 tt h.1
  fill_duel-IsChosen none (some b) (i ∷ ranking) f g h =
      elim (Bool-cases (str_eq i.user_id b.user_id)) [
        | inl hit ↦ rw hit (fill_duel-IsChosen none (some b) ranking tt g h.1)
        | inr miss ↦ rw miss (fill_duel-IsChosen (some i) (some b) ranking h.0 g h.1)
      ]
  fill_duel-IsChosen (some a) none (i ∷ ranking) f g h =
      elim (Bool-cases (str_eq i.user_id a.user_id)) [
        | inl hit ↦ rw hit (fill_duel-IsChosen (some a) none ranking f tt h.1)
        | inr miss ↦ rw miss (f, h.0)
      ]
  fill_duel-IsChosen (some a) (some b) (i ∷ ranking) f g h =
      fill_duel-IsChosen (some a) (some b) ranking f g h.1

-- Every item's user is ranked, also in a longer ranking.
ranked-weaken :
    (i : RankingItem) (ranking items : List RankingItem)
    → All (λ j. is_ranked ranking j.user_id ≡ true) items
    → All (λ j. is_ranked (i ∷ ranking) j.user_id ≡ true) items
ranked-weaken i ranking [] h = tt
ranked-weaken i ranking (j ∷ items) h = (ground arith, ranked-weaken i ranking items h.1)

is_ranked_self :
    (ranking : List RankingItem) → All (λ j. is_ranked ranking j.user_id ≡ true) ranking
is_ranked_self [] = tt
is_ranked_self (i ∷ ranking) =
    let same : str_eq i.user_id i.user_id ≡ true = (str_eq_iff i.user_id i.user_id).1 refl in
    (rw same refl, ranked-weaken i ranking ranking (is_ranked_self ranking))

-- The duel is between two different ranked users.
pub record IsDuelOf (ranking : List RankingItem) (lot l : Lot) : Type 0 where
  pub duel : DuelState
  pub is_the_duel : l.duel_state ≡ some duel
  pub ranked_a : is_ranked ranking duel.user_a_id ≡ true
  pub ranked_b : is_ranked ranking duel.user_b_id ≡ true
  pub different : str_eq duel.user_a_id duel.user_b_id ≡ false
  pub active : duel.active ≡ true
  pub lot_same : duel.lot_id ≡ lot.id
  pub ends_same : duel.ends_at_unix_ms ≡ lot.ends_at_unix_ms

begin_duel-IsDuelOf :
    (lot l : Lot) (ranking : List RankingItem) (t : ℤ) (a b : Option RankingItem)
    → begin_duel lot t (a, b) ≡ ok l
    → IsChosen (λ j. is_ranked ranking j.user_id ≡ true) a
    → IsChosen (λ j. is_ranked ranking j.user_id ≡ true) b
    → IsDuelOf ranking lot l
unfolding begin_duel duel_lot
begin_duel-IsDuelOf lot l ranking t none b h f g = cc
begin_duel-IsDuelOf lot l ranking t (some a) none h f g = cc
begin_duel-IsDuelOf lot l ranking t (some a) (some b) h f g =
    let k = reject_if-eq-ok (str_eq a.user_id b.user_id) no_distinct_bidders _ h in
    let done : duel_lot lot t a b ≡ l = cc (k.1) in
    rw (sym done) (record {
      duel = _;
      is_the_duel = refl;
      ranked_a = f;
      ranked_b = g;
      different = k.0;
      active = refl;
      lot_same = refl;
      ends_same = refl;
    })

-- For every lot, ranking, time, wanted users and lot l: if StartDuel accepts and leaves l, then l has an
-- active duel of the lot, with its end, between two different users, both of them in the ranking.
pub start_duel-IsDuelOf :
    (lot l : Lot) (ranking : List RankingItem) (t : ℤ) (user_a user_b : String)
    → start_duel (some lot) ranking t user_a user_b ≡ ok l
    → IsDuelOf ranking lot l
unfolding start_duel
start_duel-IsDuelOf lot l ranking t user_a user_b h =
    let P : RankingItem → Type 0 = λ j. is_ranked ranking j.user_id ≡ true in
    let a = requested_user user_a none ranking in
    let b = requested_user user_b none ranking in
    let p = reject_if-eq-ok (not (is_open lot.status)) not_live _ h in
    let q = reject_if-eq-ok (ltb (length ranking) 2) too_few_bidders _ p.1 in
    let r = reject_if-eq-ok (not (is_empty user_a) && is_none a) duel_user_a_missing _ q.1 in
    let s = reject_if-eq-ok (not (is_empty user_b) && is_none b) duel_user_b_missing _ r.1 in
    let u = reject_if-eq-ok (same_user a b) duel_users_equal _ s.1 in
    let every = is_ranked_self ranking in
    let chosen =
      fill_duel-IsChosen P a b ranking (requested_user-IsChosen P user_a none ranking tt every)
        (requested_user-IsChosen P user_b none ranking tt every) every in
    begin_duel-IsDuelOf lot l ranking t (fill_duel a b ranking).0 (fill_duel a b ranking).1 u.1
      chosen.0 chosen.1
