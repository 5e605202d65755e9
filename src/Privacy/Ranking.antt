-- ===== src/Privacy/Ranking.antt =====
-- What the ranking shows, and to whom.
use Prim.Native.Char.{Char, code}
use byte_danceliveauctioni.Base.{
  ◌==◌, ◌≡◌, ◌≢◌, refl, sym, ap, ◌∙◌, ◌⊎◌, inl, inr, true, false, String, List, [], ◌∷◌, Option,
  none, some, map, Bool-cases, arith,
}
use byte_danceliveauctioni.Base.Text.{str_eq, str_eq_iff, is_empty, trim_space}
use byte_danceliveauctioni.Runtime.Ranking.{mask_from, mask_buyer_nickname}
use byte_danceliveauctioni.Proto.Lot.{RankingItem}
use byte_danceliveauctioni.Privacy.Viewer.{
  LotResultViewer, has_permission, has_any_permission, can_view_private_auction_data,
  can_view_buyer_identity,
}
use byte_danceliveauctioni.Privacy.Redact.{redact_item, redact_ranking, ranking_for_viewer}
use byte_danceliveauctioni.Privacy.Hidden.{identity-own}

-- The item with its user taken out: all but the id, which is gone, and the nickname, which is masked.
abbrev anonymous : RankingItem → RankingItem
anonymous i = record i { user_id = ""; nickname = mask_buyer_nickname i.nickname }

-- Nothing, three stars, or one character before them.
abbrev pub IsMask : String → Type 0
IsMask shown = (shown ≡ "") ⊎ (shown ≡ "***") ⊎ ((c : Char) × (shown ≡ String.◌∷◌ c "***"))

mask_from-IsMask : (s : String) → IsMask (mask_from s)
unfolding mask_from
mask_from-IsMask String.[] = inr (inl refl)
mask_from-IsMask (String.◌∷◌ c s) = elim (Bool-cases (code c == b'*')) [
  | inl star ↦ rw star (mask_from-IsMask s)
  | inr other ↦ rw other (inr (inr (c, refl)))
]

mask_buyer_nickname-IsMask : (s : String) → IsMask (mask_buyer_nickname s)
unfolding mask_buyer_nickname
mask_buyer_nickname-IsMask s = elim (Bool-cases (is_empty (trim_space s))) [
  | inl blank ↦ rw blank (inl refl)
  | inr filled ↦ rw filled (mask_from-IsMask (trim_space s))
]

-- An item that another shows to a viewer: the viewer's own as it is, all others without their user.
abbrev pub ShowsItem : LotResultViewer → Option RankingItem → Option RankingItem → Type 0
ShowsItem v none shown = shown ≡ none
ShowsItem v (some i) shown =
    ((shown ≡ some i)
      × (i.user_id ≡ v.user_id)
      × (i.user_id ≢ "")
      × (has_permission v "order.view_own" ≡ true))
    ⊎ ((shown ≡ some (anonymous i))
        × IsMask (mask_buyer_nickname i.nickname)
        × ((i.user_id ≢ v.user_id)
            ⊎ (i.user_id ≡ "")
            ⊎ (has_permission v "order.view_own" ≡ false)))

-- The two rankings have the same length, and each place shows the item of that place.
abbrev pub ShowsRanking :
    LotResultViewer → List (Option RankingItem) → List (Option RankingItem) → Type 0
ShowsRanking v [] [] = Unit
ShowsRanking v [] (shown ∷ more) = ⊥
ShowsRanking v (i ∷ ranking) [] = ⊥
ShowsRanking v (i ∷ ranking) (shown ∷ more) = ShowsItem v i shown × ShowsRanking v ranking more

-- A host's permission, in any account.
abbrev pub IsHost : LotResultViewer → Type 0
IsHost v =
    (has_permission v "lot.view_admin" ≡ true)
    ⊎ (has_permission v "auction.control" ≡ true)
    ⊎ (has_permission v "order.manage" ≡ true)

can_view_private-IsHost : (v : LotResultViewer) → can_view_private_auction_data v ≡ true → IsHost v
unfolding can_view_private_auction_data has_any_permission
can_view_private-IsHost v h = ground arith

can_view_private-not-IsHost :
    (v : LotResultViewer) → can_view_private_auction_data v ≡ false → ¬ IsHost v
unfolding can_view_private_auction_data has_any_permission
can_view_private-not-IsHost v h k = ground arith

empty_text : (s : String) → is_empty s ≡ true → s ≡ ""
unfolding is_empty
empty_text String.[] h = refl
empty_text (String.◌∷◌ c s) h = cc

not_empty : (s : String) → is_empty s ≡ false → s ≢ ""
unfolding is_empty
not_empty String.[] h k = cc
not_empty (String.◌∷◌ c s) h k = let e = ap is_empty k in cc

identity-seen :
    (v : LotResultViewer) (id : String)
    → can_view_private_auction_data v ≡ false
    → can_view_buyer_identity v id ≡ true
    → (id ≡ v.user_id) × (id ≢ "") × (has_permission v "order.view_own" ≡ true)
unfolding can_view_buyer_identity
identity-seen v id p h =
    let own : id ≡ v.user_id = identity-own v id p h in
    let named : is_empty v.user_id ≡ false = ground arith in
    (own, λ e. not_empty v.user_id named (sym own ∙ e), ground arith)

identity-unseen :
    (v : LotResultViewer) (id : String)
    → can_view_private_auction_data v ≡ false
    → can_view_buyer_identity v id ≡ false
    → (id ≢ v.user_id) ⊎ (id ≡ "") ⊎ (has_permission v "order.view_own" ≡ false)
unfolding can_view_buyer_identity
identity-unseen v id p h = elim (Bool-cases (str_eq v.user_id id)) [
  | inl same ↦ elim (Bool-cases (is_empty v.user_id)) [
    | inl nameless ↦
        inr (inl (sym ((str_eq_iff v.user_id id).0 same) ∙ empty_text v.user_id nameless))
    | inr named ↦ inr (inr (ground arith))
  ]
  | inr other ↦ inl (λ e. let both = (str_eq_iff v.user_id id).1 (sym e) in cc)
]

redact_item-ShowsItem :
    (v : LotResultViewer) (i : Option RankingItem)
    → can_view_private_auction_data v ≡ false
    → ShowsItem v i (redact_item v i)
unfolding redact_item
redact_item-ShowsItem v none p = refl
redact_item-ShowsItem v (some i) p = elim (Bool-cases (can_view_buyer_identity v i.user_id)) [
  | inl seen ↦
      let own = identity-seen v i.user_id p seen in rw seen (inl (refl, own.0, own.1, own.2))
  | inr unseen ↦
      rw unseen
        (inr (refl, mask_buyer_nickname-IsMask i.nickname, identity-unseen v i.user_id p unseen))
]

map-ShowsRanking :
    (v : LotResultViewer) (ranking : List (Option RankingItem))
    → can_view_private_auction_data v ≡ false
    → ShowsRanking v ranking (map (redact_item v) ranking)
map-ShowsRanking v [] p = tt
map-ShowsRanking v (i ∷ ranking) p = (redact_item-ShowsItem v i p, map-ShowsRanking v ranking p)

-- For every ranking and viewer: a viewer with one of the three permissions of a host, in any account, gets
-- the ranking from RankingForViewer as it is. Every other viewer gets a ranking of the same length, with the
-- same empty places, in which each item of the viewer's own id is as it was, if the viewer may see own
-- orders and the id is not empty, and each other item has lost its user id and has a masked nickname
-- (nothing, or three stars behind at most one character), with its rank, amount, time and picture left.
pub ranking_for_viewer-ShowsRanking :
    (ranking : List (Option RankingItem)) (v : LotResultViewer)
    → (IsHost v × (ranking_for_viewer ranking v ≡ ranking))
      ⊎ ((¬ IsHost v) × ShowsRanking v ranking (ranking_for_viewer ranking v))
unfolding ranking_for_viewer redact_ranking
ranking_for_viewer-ShowsRanking ranking v = elim (Bool-cases (can_view_private_auction_data v)) [
  | inl host ↦ inl (can_view_private-IsHost v host, rw host refl)
  | inr other ↦
      inr (can_view_private-not-IsHost v other, rw other (map-ShowsRanking v ranking other))
]
