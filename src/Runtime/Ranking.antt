-- ===== src/Runtime/Ranking.antt =====
-- runtime_state_machine.go, `updateRuntimeRanking`, and the masking of nicknames in privacy.go. The
-- library's sort is an insertion sort here: its comparator orders entries of different users
-- strictly, so any sort gives the same list for them.
pub mod Order
pub mod Update
pub mod Best
use byte_danceliveauctioni.Base.{
  Bool, not, String, List, [], ◌∷◌, ◌==◌, length, take, if◌then◌else◌,
}
use byte_danceliveauctioni.Base.Int.{ℤ, pos, ltb_ℤ, eqb_ℤ, pos_part}
use byte_danceliveauctioni.Base.Text.{str_eq, is_empty, trim_space}
use Prim.Native.Char.{code}
use byte_danceliveauctioni.Base.Text.Order.{str_lt}
use byte_danceliveauctioni.Runtime.Types.{RankingEntry, PlaceBid}

-- The loop over the characters: the first that is no star, and three stars.
unfoldable pub mask_from : String → String
mask_from String.[] = "***"
mask_from (String.◌∷◌ c s) =
    let rest = mask_from s in if code c == b'*' then rest else String.◌∷◌ c "***"

unfoldable pub mask_buyer_nickname : String → String
unfolding mask_from
mask_buyer_nickname nickname =
    let value = trim_space nickname in if is_empty value then "" else mask_from value

-- The comparator: the higher amount, then the earlier bid, then the smaller user id.
unfoldable pub ranks_before : RankingEntry → RankingEntry → Bool
ranks_before a b =
    if not (eqb_ℤ a.amount_fen b.amount_fen)
    then ltb_ℤ b.amount_fen a.amount_fen
    else (if not (eqb_ℤ a.bid_at_unix_ms b.bid_at_unix_ms)
        then ltb_ℤ a.bid_at_unix_ms b.bid_at_unix_ms
        else str_lt a.user_id b.user_id)

unfoldable pub insert_entry : RankingEntry → List RankingEntry → List RankingEntry
insert_entry e [] = e ∷ []
insert_entry e (x ∷ xs) = if ranks_before x e then x ∷ insert_entry e xs else e ∷ x ∷ xs

unfoldable pub sort_entries : List RankingEntry → List RankingEntry
sort_entries [] = []
sort_entries (x ∷ xs) = insert_entry x (sort_entries xs)

-- Replaces the first entry of the same user, or appends.
unfoldable pub replace_or_append : RankingEntry → List RankingEntry → List RankingEntry
replace_or_append e [] = e ∷ []
replace_or_append e (x ∷ xs) =
    if str_eq x.user_id e.user_id then e ∷ xs else x ∷ replace_or_append e xs

-- `if len(next) > limit { next = next[:limit] }`, for a limit that is not negative.
unfoldable pub limit_entries : ℤ → List RankingEntry → List RankingEntry
limit_entries limit xs = if ltb_ℤ limit (pos (length xs)) then take (pos_part limit) xs else xs

unfoldable pub bid_entry : PlaceBid → RankingEntry
bid_entry c = record {
  user_id = c.user_id;
  masked_nickname = mask_buyer_nickname c.nickname;
  avatar_url = c.avatar_url;
  amount_fen = c.amount_fen;
  bid_at_unix_ms = c.now_unix_ms;
}

unfoldable pub update_runtime_ranking : List RankingEntry → PlaceBid → ℤ → List RankingEntry
update_runtime_ranking current c limit =
    limit_entries limit (sort_entries (replace_or_append (bid_entry c) current))
