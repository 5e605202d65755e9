-- ===== src/Privacy/Hidden.antt =====
-- What redaction hides, and from whom.
use byte_danceliveauctioni.Base.{
  ◌≡◌, refl, sym, ◌⊎◌, inl, inr, true, false, String, Option, none, some, Bool-cases, arith, subst,
}
use byte_danceliveauctioni.Base.Text.{str_eq, str_eq_iff}
use byte_danceliveauctioni.Proto.Lot.{Lot, DuelState}
use byte_danceliveauctioni.Privacy.Viewer.{
  LotResultViewer, has_code, has_permission, has_any_permission, can_view_private_auction_data,
  can_view_main_account_private, can_view_buyer_identity, stripped, viewer_for_main_account,
}
use byte_danceliveauctioni.Privacy.Redact.{
  id_for, redact_duel_state, redact_duel_option, redacted_lot, redact_lot,
}

stripped-no_private : (v : LotResultViewer) → can_view_private_auction_data (stripped v) ≡ false
unfolding can_view_private_auction_data has_any_permission has_permission has_code stripped
stripped-no_private v = refl

viewer_for_main_account-no_private :
    (v : LotResultViewer) (main : String)
    → can_view_main_account_private v main ≡ false
    → can_view_private_auction_data (viewer_for_main_account v main) ≡ false
unfolding viewer_for_main_account
viewer_for_main_account-no_private v main h = elim (Bool-cases (can_view_private_auction_data v)) [
  | inl seen ↦ rw seen (rw h (stripped-no_private v))
  | inr unseen ↦ rw unseen unseen
]

viewer_for_main_account-user_id :
    (v : LotResultViewer) (main : String) → (viewer_for_main_account v main).user_id ≡ v.user_id
unfolding viewer_for_main_account stripped
viewer_for_main_account-user_id v main = ground arith

viewer_for_main_account-own :
    (v : LotResultViewer) (main : String)
    → can_view_main_account_private v main ≡ true
    → viewer_for_main_account v main ≡ v
unfolding viewer_for_main_account
viewer_for_main_account-own v main h = ground arith

-- An id that is shown to a user without the permissions of a host is empty or the user's own.
abbrev pub IsOwnOrHidden : String → String → Type 0
IsOwnOrHidden own id = (id ≡ "") ⊎ (id ≡ own)

pub identity-own :
    (v : LotResultViewer) (id : String)
    → can_view_private_auction_data v ≡ false
    → can_view_buyer_identity v id ≡ true
    → id ≡ v.user_id
unfolding can_view_buyer_identity
identity-own v id p h =
    let same : str_eq v.user_id id ≡ true = ground arith in sym ((str_eq_iff v.user_id id).0 same)

id_for-IsOwnOrHidden :
    (v : LotResultViewer) (id : String)
    → can_view_private_auction_data v ≡ false
    → IsOwnOrHidden v.user_id (id_for v id)
id_for-IsOwnOrHidden v id p = elim (Bool-cases (can_view_buyer_identity v id)) [
  | inl seen ↦ inr (rw seen (identity-own v id p seen))
  | inr unseen ↦ inl (rw unseen)
]

-- No user id of the duel is another's.
abbrev pub HidesDuel : String → Option DuelState → Type 0
HidesDuel own none = Unit
HidesDuel own (some d) = IsOwnOrHidden own d.user_a_id × IsOwnOrHidden own d.user_b_id

redact_duel_option-HidesDuel :
    (v : LotResultViewer) (d : Option DuelState)
    → can_view_private_auction_data v ≡ false
    → HidesDuel v.user_id (redact_duel_option d v)
unfolding redact_duel_state
redact_duel_option-HidesDuel v none p = tt
redact_duel_option-HidesDuel v (some d) p =
    rw p (id_for-IsOwnOrHidden v d.user_a_id p, id_for-IsOwnOrHidden v d.user_b_id p)

-- The lot tells a user nothing of the host's account and of other buyers' ids.
pub record HidesBuyers (own : String) (lot : Lot) : Type 0 where
  pub account : lot.main_account_id ≡ ""
  pub leader : IsOwnOrHidden own lot.leading_user_id
  pub winner : IsOwnOrHidden own lot.winner_user_id
  pub duel : HidesDuel own lot.duel_state

redacted_lot-HidesBuyers :
    (lot : Lot) (v : LotResultViewer)
    → can_view_private_auction_data v ≡ false
    → HidesBuyers v.user_id (redacted_lot lot v)
unfolding redacted_lot
redacted_lot-HidesBuyers lot v p = record {
  account = refl;
  leader = id_for-IsOwnOrHidden v lot.leading_user_id p;
  winner = id_for-IsOwnOrHidden v lot.winner_user_id p;
  duel = redact_duel_option-HidesDuel v lot.duel_state p;
}

private-of_main :
    (v : LotResultViewer) (main : String)
    → can_view_private_auction_data v ≡ false
    → can_view_main_account_private v main ≡ false
unfolding can_view_main_account_private
private-of_main v main h = rw h

-- For every lot and viewer: a viewer with a host's permission in the lot's account gets the lot as it
-- is; from every other viewer RedactLotForViewer hides the account, and each id of a leader, winner or
-- duel user that it leaves is the viewer's own.
pub redact_lot-hides :
    (lot : Lot) (v : LotResultViewer)
    → ((can_view_main_account_private v lot.main_account_id ≡ true) × (redact_lot lot v ≡ lot))
      ⊎ ((can_view_main_account_private v lot.main_account_id ≡ false)
          × HidesBuyers v.user_id (redact_lot lot v))
unfolding redact_lot
redact_lot-hides lot v = elim (Bool-cases (can_view_main_account_private v lot.main_account_id)) [
  | inl seen ↦ inl (seen, rw (viewer_for_main_account-own v lot.main_account_id seen) (rw seen))
  | inr unseen ↦
      let w = viewer_for_main_account v lot.main_account_id in
      let p = viewer_for_main_account-no_private v lot.main_account_id unseen in
      inr (
        unseen,
        rw (private-of_main w lot.main_account_id p) (
            subst (λ own. HidesBuyers own (redacted_lot lot w))
              (viewer_for_main_account-user_id v lot.main_account_id)
              (redacted_lot-HidesBuyers lot w p)),
      )
]
