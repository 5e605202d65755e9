-- ===== src/Privacy/Viewer.antt =====
-- order.go: LotResultViewer with its permissions (the codes of biz/user/rbac.go); privacy.go: the
-- tests of a viewer and viewerForMainAccount.
use byte_danceliveauctioni.Base.{
  Bool, true, false, not, ◌&&◌, ◌||◌, String, List, [], ◌∷◌, if◌then◌else◌,
}
use byte_danceliveauctioni.Base.Text.{str_eq, is_empty, is_blank, trim_space}

pub record LotResultViewer : Type 0 where
  pub user_id : String
  pub main_account_id : String
  pub role_codes : List String
  pub permission_codes : List String

abbrev pub permission_lot_view_admin : String
permission_lot_view_admin = "lot.view_admin"

abbrev pub permission_auction_control : String
permission_auction_control = "auction.control"

abbrev pub permission_order_manage : String
permission_order_manage = "order.manage"

abbrev pub permission_order_view_own : String
permission_order_view_own = "order.view_own"

unfoldable pub has_code : List String → String → Bool
has_code [] code = false
has_code (got ∷ codes) code = str_eq (trim_space got) code || has_code codes code

unfoldable pub has_permission : LotResultViewer → String → Bool
has_permission v code = has_code v.permission_codes (trim_space code)

unfoldable pub has_any_permission : LotResultViewer → List String → Bool
has_any_permission v [] = false
has_any_permission v (code ∷ codes) = has_permission v code || has_any_permission v codes

unfoldable pub can_view_private_auction_data : LotResultViewer → Bool
can_view_private_auction_data v =
    has_any_permission v
      (permission_lot_view_admin ∷ permission_auction_control ∷ permission_order_manage ∷ [])

unfoldable pub can_view_main_account_private : LotResultViewer → String → Bool
can_view_main_account_private v main_account_id =
    can_view_private_auction_data v
    && not (is_blank v.main_account_id)
    && str_eq (trim_space v.main_account_id) (trim_space main_account_id)

unfoldable pub can_view_buyer_identity : LotResultViewer → String → Bool
can_view_buyer_identity v user_id =
    if can_view_private_auction_data v
    then true
    else (has_permission v permission_order_view_own
        && not (is_empty v.user_id)
        && str_eq v.user_id user_id)

unfoldable pub stripped : LotResultViewer → LotResultViewer
stripped v = record v { role_codes = []; permission_codes = []; main_account_id = "" }

unfoldable pub viewer_for_main_account : LotResultViewer → String → LotResultViewer
viewer_for_main_account v main_account_id =
    if not (can_view_private_auction_data v) || can_view_main_account_private v main_account_id
    then v
    else stripped v
