-- ===== src/Lot/Trust/Once.antt =====
-- RevealTrustCard on a card that it has revealed.
use byte_danceliveauctioni.Base.{
  ◌≡◌, some, none, ok, not, List, [], ◌∷◌, Option, String, true, false, arith, sym, ap, subst,
  reject_if-eq-ok, ◌∙◌, ◌>>=◌, >>=-eq-ok, Bool-cases, inl, inr,
}
use byte_danceliveauctioni.Base.Int.{ℤ}
use byte_danceliveauctioni.Base.Text.{str_eq, is_empty}
use byte_danceliveauctioni.Proto.{is_open}
use byte_danceliveauctioni.Lot.Messages.{card_id_required, not_live}
use byte_danceliveauctioni.Proto.Lot.{Lot, TrustRevealCard}
use byte_danceliveauctioni.Lot.Trust.{
  Found, shown, opened, opened_card, find_card, behind, after_reveal, reveal_trust_card,
}

behind-opened :
    (card : Option TrustRevealCard) (f : Found) (c : TrustRevealCard)
    (after : List (Option TrustRevealCard))
    → behind card f ≡ opened c after
    → (rest : List (Option TrustRevealCard)) × (f ≡ opened c rest) × (after ≡ card ∷ rest)
behind-opened card (shown d) c after h = cc
behind-opened card (opened d rest) c after h = (rest, cc, cc)

behind-shown :
    (card : Option TrustRevealCard) (f : Found) (c : TrustRevealCard)
    → behind card f ≡ shown c
    → f ≡ shown c
behind-shown card (shown d) c h = cc
behind-shown card (opened d rest) c h = cc

find_card-other :
    (card_id : String) (t : ℤ) (d : TrustRevealCard) (cards : List (Option TrustRevealCard))
    → str_eq d.id card_id ≡ false
    → find_card card_id t (some d ∷ cards)
      ≡ (find_card card_id t cards >>= λ f. ok (behind (some d) f))
unfolding find_card
find_card-other card_id t d cards e = rw e

-- The loop again on the cards that it has left: it finds the same card, revealed.
find_card-shown :
    (card_id : String) (t u : ℤ) (cards after : List (Option TrustRevealCard)) (c : TrustRevealCard)
    → find_card card_id t cards ≡ ok (opened c after)
    → find_card card_id u after ≡ ok (shown c)
unfolding find_card opened_card
find_card-shown card_id t u [] after c h = cc
find_card-shown card_id t u (none ∷ cards) after c h = cc
find_card-shown card_id t u (some d ∷ cards) after c h =
    let ih = find_card-shown card_id t u cards in
    elim (Bool-cases (str_eq d.id card_id)) [
      | inl same ↦ ground arith
      | inr other ↦
          let r =
            >>=-eq-ok (find_card card_id t cards) (λ f. ok (behind (some d) f))
              (sym (find_card-other card_id t d cards other) ∙ h) in
          let b = behind-opened (some d) r.0 c after (cc (r.2)) in
          rw b.2 (find_card-other card_id u d b.0 other ∙ rw (ih b.0 c (r.1 ∙ ap ok b.1)))
    ]

find_card-kept :
    (card_id : String) (t u : ℤ) (cards : List (Option TrustRevealCard)) (c : TrustRevealCard)
    → find_card card_id t cards ≡ ok (shown c)
    → find_card card_id u cards ≡ ok (shown c)
unfolding find_card
find_card-kept card_id t u [] c h = cc
find_card-kept card_id t u (none ∷ cards) c h = cc
find_card-kept card_id t u (some d ∷ cards) c h = elim (Bool-cases (str_eq d.id card_id)) [
  | inl same ↦ ground arith
  | inr other ↦
      let r =
        >>=-eq-ok (find_card card_id t cards) (λ f. ok (behind (some d) f))
          (sym (find_card-other card_id t d cards other) ∙ h) in
      let b = behind-shown (some d) r.0 c (cc (r.2)) in
      find_card-other card_id u d cards other
      ∙ rw (find_card-kept card_id t u cards c (r.1 ∙ ap ok b))
]

reveal_trust_card-eq-ok :
    (lot : Lot) (card_id : String) (t : ℤ) (r : TrustRevealCard × Lot)
    → reveal_trust_card (some lot) card_id t ≡ ok r
    → (is_empty card_id ≡ false)
      × (is_open lot.status ≡ true)
      × ((f : Found) × (find_card card_id t lot.trust_cards ≡ ok f) × (after_reveal lot f ≡ r))
unfolding reveal_trust_card
reveal_trust_card-eq-ok lot card_id t r h =
    let a = reject_if-eq-ok (is_empty card_id) card_id_required _ h in
    let b = reject_if-eq-ok (not (is_open lot.status)) not_live _ a.1 in
    let f = >>=-eq-ok (find_card card_id t lot.trust_cards) (λ f. ok (after_reveal lot f)) b.1 in
    (a.0, ground arith, (f.0, f.1, cc (f.2)))

reveal_found :
    (lot : Lot) (card_id : String) (u : ℤ) (f : Found)
    → is_empty card_id ≡ false
    → is_open lot.status ≡ true
    → find_card card_id u lot.trust_cards ≡ ok f
    → reveal_trust_card (some lot) card_id u ≡ ok (after_reveal lot f)
unfolding reveal_trust_card
reveal_found lot card_id u f a b e = ground arith

reveal_again :
    (lot l : Lot) (card_id : String) (t u : ℤ) (c : TrustRevealCard) (f : Found)
    → is_empty card_id ≡ false
    → is_open lot.status ≡ true
    → find_card card_id t lot.trust_cards ≡ ok f
    → after_reveal lot f ≡ (c, l)
    → reveal_trust_card (some l) card_id u ≡ ok (c, l)
unfolding after_reveal
reveal_again lot l card_id t u c (shown d) a b e h =
    let same : d ≡ c = cc in
    let kept : lot ≡ l = cc in
    subst (λ k. reveal_trust_card (some k) card_id u ≡ ok (c, k)) kept
      (reveal_found lot card_id u (shown c) a b
        (find_card-kept card_id t u lot.trust_cards c (rw e (ap (λ k. ok (shown k)) same))))
reveal_again lot l card_id t u c (opened d after) a b e h =
    let same : d ≡ c = cc in
    let next : l.trust_cards ≡ after = ground arith in
    let live : is_open l.status ≡ true = ground arith in
    reveal_found l card_id u (shown c) a live (
      rw next (
        find_card-shown card_id t u lot.trust_cards after c
          (rw e (ap (λ k. ok (opened k after)) same))))

-- For every lot, card id and times t and u: if RevealTrustCard on the lot at t gives the card c and
-- the lot l, then RevealTrustCard on l at u succeeds, gives c and leaves l as it is, so that a card is
-- revealed once, at the time of the first call, and the version moves once.
pub reveal_trust_card-idempotent :
    (lot l : Lot) (card_id : String) (t u : ℤ) (c : TrustRevealCard)
    → reveal_trust_card (some lot) card_id t ≡ ok (c, l)
    → reveal_trust_card (some l) card_id u ≡ ok (c, l)
reveal_trust_card-idempotent lot l card_id t u c h =
    let i = reveal_trust_card-eq-ok lot card_id t (c, l) h in
    reveal_again lot l card_id t u c i.2.0 i.0 i.1 i.2.1 i.2.2
