-- ===== src/Lot/Trust.antt =====
-- lot.go: RevealTrustCard. Its loop follows a pointer to a card without a test for nil, which would
-- panic: nil_card.
pub mod Once
use byte_danceliveauctioni.Base.{
  ℕ, Bool, true, false, not, String, List, [], ◌∷◌, Option, none, some, if◌then◌else◌, Result, ok,
  err, reject_if, ◌>>◌, ◌>>=◌,
}
use byte_danceliveauctioni.Base.Int.{ℤ, pos, add64}
use byte_danceliveauctioni.Base.Text.{str_eq, is_empty}
use byte_danceliveauctioni.Proto.{is_open}
use byte_danceliveauctioni.Proto.Lot.{Lot, TrustRevealCard, trust_blocked}
use byte_danceliveauctioni.Lot.Messages.{
  LotError, lot_required, card_id_required, not_live, card_not_found, nil_card,
}

-- What the loop finds: a card that is revealed already, or one that it reveals, with the cards after.
pub data Found : Type 0 where
  shown : TrustRevealCard → Found
  opened : TrustRevealCard → List (Option TrustRevealCard) → Found

unfoldable pub opened_card : TrustRevealCard → ℤ → TrustRevealCard
opened_card c now_ms = record c { revealed = true; revealed_at_unix_ms = now_ms }

abbrev pub behind : Option TrustRevealCard → Found → Found
behind card (shown c) = shown c
behind card (opened c cards) = opened c (card ∷ cards)

unfoldable pub find_card : String → ℤ → List (Option TrustRevealCard) → Result LotError Found
find_card card_id now_ms [] = err card_not_found
find_card card_id now_ms (none ∷ cards) = err nil_card
find_card card_id now_ms (some c ∷ cards) =
    let rest = find_card card_id now_ms cards in
    if str_eq c.id card_id
    then (if c.revealed
        then ok (shown c)
        else ok (opened (opened_card c now_ms) (some (opened_card c now_ms) ∷ cards)))
    else (rest >>= λ f. ok (behind (some c) f))

unfoldable pub after_reveal : Lot → Found → TrustRevealCard × Lot
after_reveal lot (shown c) = (c, lot)
after_reveal lot (opened c cards) = (
  c,
  record lot {
    trust_cards = cards;
    playbook_stage = trust_blocked;
    presentation_version = add64 lot.presentation_version (pos 1);
  },
)

unfoldable pub reveal_trust_card : Option Lot → String → ℤ → Result LotError (TrustRevealCard × Lot)
reveal_trust_card none card_id now_ms = err lot_required
reveal_trust_card (some lot) card_id now_ms = do
  reject_if (is_empty card_id) card_id_required
  reject_if (not (is_open lot.status)) not_live
  found ← find_card card_id now_ms lot.trust_cards
  ok (after_reveal lot found)
