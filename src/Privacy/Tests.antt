-- ===== src/Privacy/Tests.antt =====
-- A running lot and viewers of it: the theorems at them.
use byte_danceliveauctioni.Base.{◌≡◌, refl, ◌⊎◌, true, false, [], ◌∷◌, none, some}
use byte_danceliveauctioni.Base.Int.{pos}
use byte_danceliveauctioni.Base.Text.{str_eq, trim_space, is_empty, is_blank}
use byte_danceliveauctioni.Proto.{live}
use byte_danceliveauctioni.Proto.Lot.{Lot, RankingItem}
use byte_danceliveauctioni.Projection.{empty_lot}
use byte_danceliveauctioni.Lot.Messages.{empty_duel}
use byte_danceliveauctioni.Runtime.Ranking.{mask_buyer_nickname}
use byte_danceliveauctioni.Privacy.Viewer.{
  LotResultViewer, can_view_main_account_private, can_view_private_auction_data, has_any_permission,
  has_permission, has_code, viewer_for_main_account, can_view_buyer_identity,
}
use byte_danceliveauctioni.Privacy.Redact.{
  redact_lot, redacted_lot, redact_duel_state, redact_ranking, redact_item, ranking_for_viewer,
}
use byte_danceliveauctioni.Privacy.Hidden.{HidesBuyers, redact_lot-hides}
use byte_danceliveauctioni.Privacy.Ranking.{IsHost, ShowsRanking, ranking_for_viewer-ShowsRanking}

abbrev lot : Lot
lot = record empty_lot {
  id = "lot";
  status = live;
  main_account_id = "shop";
  leading_user_id = "u1";
  leading_nickname = "ann";
  duel_state = some (record empty_duel { active = true; user_a_id = "u1"; user_b_id = "u2" });
}

abbrev buyer : LotResultViewer
buyer = record {
  user_id = "u2";
  main_account_id = "";
  role_codes = [];
  permission_codes = "order.view_own" ∷ [];
}

abbrev host : LotResultViewer
host = record buyer { main_account_id = "shop"; permission_codes = "lot.view_admin" ∷ [] }

-- The buyer sees a masked leader, and that they are in the duel.
seen_by_buyer : redact_lot lot buyer ≡ record lot {
  main_account_id = "";
  leading_user_id = "";
  leading_nickname = "a***";
  duel_state = some (record empty_duel { active = true; user_b_id = "u2" });
}
unfolding redact_lot redacted_lot redact_duel_state viewer_for_main_account
    can_view_main_account_private can_view_private_auction_data can_view_buyer_identity
    has_any_permission has_permission has_code mask_buyer_nickname str_eq trim_space is_empty
    is_blank
seen_by_buyer = refl

redact_lot-hides_example :
    ((can_view_main_account_private buyer lot.main_account_id ≡ true)
      × (redact_lot lot buyer ≡ lot))
    ⊎ ((can_view_main_account_private buyer lot.main_account_id ≡ false)
        × HidesBuyers buyer.user_id (redact_lot lot buyer))
redact_lot-hides_example = redact_lot-hides lot buyer

abbrev item : RankingItem
item = record {
  rank = pos 1;
  user_id = "u1";
  nickname = "ann";
  amount = none;
  bid_at_unix_ms = pos 5;
  avatar_url = "";
}

ranking_for_viewer-ShowsRanking_example :
    (IsHost buyer × (ranking_for_viewer (some item ∷ none ∷ []) buyer ≡ some item ∷ none ∷ []))
    ⊎ ((¬ IsHost buyer)
        × ShowsRanking buyer
            (some item ∷ none ∷ [])
            (ranking_for_viewer (some item ∷ none ∷ []) buyer))
ranking_for_viewer-ShowsRanking_example =
    ranking_for_viewer-ShowsRanking (some item ∷ none ∷ []) buyer

-- The item of another buyer loses its user.
seen_in_ranking :
    ranking_for_viewer (some item ∷ none ∷ []) buyer
    ≡ some (record item { user_id = ""; nickname = "a***" }) ∷ none ∷ []
unfolding ranking_for_viewer redact_ranking redact_item can_view_private_auction_data
    can_view_buyer_identity has_any_permission has_permission has_code mask_buyer_nickname str_eq
    trim_space is_empty
seen_in_ranking = refl

seen_by_host : redact_lot lot host ≡ lot
unfolding redact_lot viewer_for_main_account can_view_main_account_private
    can_view_private_auction_data has_any_permission has_permission has_code str_eq trim_space
    is_empty is_blank
seen_by_host = refl
