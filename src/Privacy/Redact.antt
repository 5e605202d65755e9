-- ===== src/Privacy/Redact.antt =====
-- privacy.go: the functions that redact a lot, a bid, a ranking and a duel for a viewer, and their
-- variants that redact a copy. MaskBuyerNickname stands in Runtime/Ranking, which uses it too.
use byte_danceliveauctioni.Base.{
  ◌||◌, String, List, [], ◌∷◌, Option, none, some, map, if◌then◌else◌,
}
use byte_danceliveauctioni.Proto.{is_open}
use byte_danceliveauctioni.Proto.Lot.{Lot, Bid, RankingItem, DuelState}
use byte_danceliveauctioni.Runtime.Ranking.{mask_buyer_nickname}
use byte_danceliveauctioni.Privacy.Viewer.{
  LotResultViewer, can_view_private_auction_data, can_view_main_account_private,
  can_view_buyer_identity, viewer_for_main_account,
}

-- A pair of a user's id and nickname, as the viewer may see it.
abbrev pub id_for : LotResultViewer → String → String
id_for v user_id = if can_view_buyer_identity v user_id then user_id else ""

abbrev pub nickname_for : LotResultViewer → String → String → String
nickname_for v user_id nickname =
    if can_view_buyer_identity v user_id then nickname else mask_buyer_nickname nickname

unfoldable pub redact_duel_state : DuelState → LotResultViewer → DuelState
redact_duel_state d v = if can_view_private_auction_data v then d else (record d {
  user_a_id = id_for v d.user_a_id;
  user_a_nickname = nickname_for v d.user_a_id d.user_a_nickname;
  user_b_id = id_for v d.user_b_id;
  user_b_nickname = nickname_for v d.user_b_id d.user_b_nickname;
})

abbrev pub redact_duel_option : Option DuelState → LotResultViewer → Option DuelState
redact_duel_option none v = none
redact_duel_option (some d) v = some (redact_duel_state d v)

-- The leader's nickname is masked while the auction runs and removed otherwise.
abbrev pub leading_nickname_for : LotResultViewer → Lot → String
leading_nickname_for v lot =
    if can_view_buyer_identity v lot.leading_user_id
    then lot.leading_nickname
    else (if is_open lot.status then mask_buyer_nickname lot.leading_nickname else "")

unfoldable pub redacted_lot : Lot → LotResultViewer → Lot
redacted_lot lot v = record lot {
  main_account_id = "";
  leading_user_id = id_for v lot.leading_user_id;
  leading_nickname = leading_nickname_for v lot;
  winner_user_id = id_for v lot.winner_user_id;
  winner_nickname = nickname_for v lot.winner_user_id lot.winner_nickname;
  duel_state = redact_duel_option lot.duel_state v;
}

unfoldable pub redact_lot : Lot → LotResultViewer → Lot
redact_lot lot viewer =
    let v = viewer_for_main_account viewer lot.main_account_id in
    if can_view_main_account_private v lot.main_account_id then lot else redacted_lot lot v

unfoldable pub lot_for_viewer : Option Lot → LotResultViewer → Option Lot
lot_for_viewer none v = none
lot_for_viewer (some lot) v = some (redact_lot lot v)

unfoldable pub lots_for_viewer : List (Option Lot) → LotResultViewer → List (Option Lot)
lots_for_viewer [] v = []
lots_for_viewer (lot ∷ lots) v = lot_for_viewer lot v ∷ lots_for_viewer lots v

unfoldable pub redact_bid : Bid → LotResultViewer → Bid
redact_bid b v =
    if can_view_private_auction_data v || can_view_buyer_identity v b.user_id
    then b
    else record b { user_id = ""; nickname = mask_buyer_nickname b.nickname }

unfoldable pub bid_for_viewer : Option Bid → LotResultViewer → Option Bid
bid_for_viewer none v = none
bid_for_viewer (some b) v = some (redact_bid b v)

unfoldable pub redact_item : LotResultViewer → Option RankingItem → Option RankingItem
redact_item v none = none
redact_item v (some i) = some (
    if can_view_buyer_identity v i.user_id
    then i
    else record i { user_id = ""; nickname = mask_buyer_nickname i.nickname })

unfoldable pub redact_ranking :
    List (Option RankingItem) → LotResultViewer → List (Option RankingItem)
redact_ranking ranking v =
    if can_view_private_auction_data v then ranking else map (redact_item v) ranking

unfoldable pub ranking_for_viewer :
    List (Option RankingItem) → LotResultViewer → List (Option RankingItem)
ranking_for_viewer ranking v = redact_ranking ranking v
