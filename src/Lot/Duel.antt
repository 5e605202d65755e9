-- ===== src/Lot/Duel.antt =====
-- lot.go: StartDuel. The rankings of its callers, and so of the model, hold no nil item.
pub mod Pair
use byte_danceliveauctioni.Base.{
  ℕ, Bool, true, false, not, ◌&&◌, ◌||◌, String, List, [], ◌∷◌, Option, none, some, ltb, length,
  if◌then◌else◌, Result, ok, err, reject_if, ◌>>◌, ◌>>=◌,
}
use byte_danceliveauctioni.Base.Int.{ℤ, pos, add64}
use byte_danceliveauctioni.Base.Text.{str_eq, is_empty}
use byte_danceliveauctioni.Proto.{is_open}
use byte_danceliveauctioni.Proto.Lot.{Lot, RankingItem, DuelState, duel_mode}
use byte_danceliveauctioni.Lot.Messages.{
  LotError, lot_required, not_live, too_few_bidders, duel_user_a_missing, duel_user_b_missing,
  duel_users_equal, no_distinct_bidders, is_none, rule_of,
}

-- The first loop for one of the two users: the last item of that user.
unfoldable pub requested_user : String → Option RankingItem → List RankingItem → Option RankingItem
requested_user user_id found [] = found
requested_user user_id found (item ∷ ranking) =
    requested_user user_id
      (if not (is_empty user_id) && str_eq item.user_id user_id then some item else found) ranking

-- `userA != nil && userB != nil && userA.UserId == userB.UserId`.
unfoldable pub same_user : Option RankingItem → Option RankingItem → Bool
same_user (some a) (some b) = str_eq a.user_id b.user_id
same_user _ _ = false

-- The second loop: the first items of users that are not chosen yet.
unfoldable pub fill_duel :
    Option RankingItem
    → Option RankingItem
    → List RankingItem
    → Option RankingItem × Option RankingItem
fill_duel a b [] = (a, b)
fill_duel none none (item ∷ ranking) = fill_duel (some item) none ranking
fill_duel none (some b) (item ∷ ranking) =
    let skipped = fill_duel none (some b) ranking in
    let taken = fill_duel (some item) (some b) ranking in
    if str_eq item.user_id b.user_id then skipped else taken
fill_duel (some a) none (item ∷ ranking) =
    let skipped = fill_duel (some a) none ranking in
    if str_eq item.user_id a.user_id then skipped else (some a, some item)
fill_duel (some a) (some b) (item ∷ ranking) = fill_duel (some a) (some b) ranking

unfoldable pub extend_count_of : Option DuelState → ℤ
extend_count_of none = pos 0
extend_count_of (some d) = d.extend_count

unfoldable pub duel_lot : Lot → ℤ → RankingItem → RankingItem → Lot
duel_lot lot now_ms a b = record lot {
  duel_state = some (record {
    active = true;
    lot_id = lot.id;
    user_a_id = a.user_id;
    user_a_nickname = a.nickname;
    user_b_id = b.user_id;
    user_b_nickname = b.nickname;
    started_at_unix_ms = now_ms;
    ends_at_unix_ms = lot.ends_at_unix_ms;
    extend_count = extend_count_of lot.duel_state;
    max_extend_count = (rule_of lot.rule).max_extend_count;
  });
  playbook_stage = duel_mode;
  presentation_version = add64 lot.presentation_version (pos 1);
}

unfoldable pub begin_duel : Lot → ℤ → Option RankingItem × Option RankingItem → Result LotError Lot
begin_duel lot now_ms (some a, some b) =
    reject_if (str_eq a.user_id b.user_id) no_distinct_bidders >> ok (duel_lot lot now_ms a b)
begin_duel lot now_ms (some a, none) = err no_distinct_bidders
begin_duel lot now_ms (none, b) = err no_distinct_bidders

unfoldable pub start_duel :
    Option Lot → List RankingItem → ℤ → String → String → Result LotError Lot
start_duel none ranking now_ms user_a_id user_b_id = err lot_required
start_duel (some lot) ranking now_ms user_a_id user_b_id = do
  reject_if (not (is_open lot.status)) not_live
  reject_if (ltb (length ranking) 2) too_few_bidders
  let a = requested_user user_a_id none ranking
  let b = requested_user user_b_id none ranking
  reject_if (not (is_empty user_a_id) && is_none a) duel_user_a_missing
  reject_if (not (is_empty user_b_id) && is_none b) duel_user_b_missing
  reject_if (same_user a b) duel_users_equal
  begin_duel lot now_ms (fill_duel a b ranking)
