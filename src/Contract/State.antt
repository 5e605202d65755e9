-- ===== src/Contract/State.antt =====
-- contract.go, `validateRuntimeState`.
use byte_danceliveauctioni.Base.{
  ℕ, ◌+◌, Bool, true, false, not, ◌&&◌, List, [], ◌∷◌, Option, none, some, ltb, any, all, length,
  err, ◌>>◌, reject_if,
}
use byte_danceliveauctioni.Base.Int.{ℤ, pos, ltb_ℤ, leb_ℤ, eqb_ℤ, wrap32}
use byte_danceliveauctioni.Base.Text.{len}
use byte_danceliveauctioni.Proto.{
  LotStatus, live, extended, settled, cancelled, failed, RuntimeRankingItem, LotRuntimeState,
}
use byte_danceliveauctioni.Contract.Checks.{
  Check, max_runtime_ranking_items, valid_redis_non_negative, valid_redis_positive,
  valid_required_text, monetary_invalid, cap_price_invalid, time_or_count_invalid,
  counters_inconsistent, ranking_too_long, ranking_item_invalid, string_too_long,
  auction_window_invalid, settled_incomplete, closed_incomplete, not_runtime_status,
}

valid_ranking_item : ℕ → Option RuntimeRankingItem → Bool
valid_ranking_item index none = false
valid_ranking_item index (some item) = not (
    any (
      not (eqb_ℤ item.rank (wrap32 (pos (index + 1))))
      ∷ not (valid_required_text item.user_id 64)
      ∷ ltb 128 (len item.masked_nickname)
      ∷ ltb 1024 (len item.avatar_url)
      ∷ not (valid_redis_non_negative item.amount_fen)
      ∷ not (valid_redis_positive item.bid_at_unix_ms)
      ∷ []))

-- The loop over the ranking, from a position on.
unfoldable pub valid_ranking_from : ℕ → List (Option RuntimeRankingItem) → Bool
unfolding valid_ranking_item
valid_ranking_from index [] = true
valid_ranking_from index (item ∷ items) =
    valid_ranking_item index item && valid_ranking_from (index + 1) items

unfoldable pub valid_cap_price : LotRuntimeState → Option ℤ → Bool
valid_cap_price s none = true
valid_cap_price s (some cap) = valid_redis_non_negative cap && leb_ℤ s.start_price_fen cap

-- The `switch` over the status at the end of `validateRuntimeState`.
unfoldable pub validate_status_fields : LotStatus → LotRuntimeState → Check
validate_status_fields live s =
    reject_if
      (any (
        not (valid_redis_positive s.started_at_unix_ms)
        ∷ not (valid_redis_positive s.ends_at_unix_ms)
        ∷ leb_ℤ s.ends_at_unix_ms s.started_at_unix_ms
        ∷ []))
      auction_window_invalid
validate_status_fields extended s =
    reject_if
      (any (
        not (valid_redis_positive s.started_at_unix_ms)
        ∷ not (valid_redis_positive s.ends_at_unix_ms)
        ∷ leb_ℤ s.ends_at_unix_ms s.started_at_unix_ms
        ∷ []))
      auction_window_invalid
validate_status_fields settled s =
    reject_if
      (any (
        not (valid_required_text s.winner_user_id 64)
        ∷ not (valid_required_text s.order_id 64)
        ∷ not (valid_redis_positive s.settled_at_unix_ms)
        ∷ not (eqb_ℤ s.final_price_fen s.current_price_fen)
        ∷ []))
      settled_incomplete
validate_status_fields cancelled s =
    reject_if
      (any (
        not (valid_required_text s.cancel_reason 512)
        ∷ not (valid_redis_positive s.cancelled_at_unix_ms)
        ∷ []))
      closed_incomplete
validate_status_fields failed s =
    reject_if
      (any (
        not (valid_required_text s.cancel_reason 512)
        ∷ not (valid_redis_positive s.cancelled_at_unix_ms)
        ∷ []))
      closed_incomplete
validate_status_fields _ s = err not_runtime_status

unfoldable pub validate_fact_state : LotRuntimeState → Check
validate_fact_state s = do
  reject_if
      (any (
        not (valid_redis_non_negative s.start_price_fen)
        ∷ not (valid_redis_positive s.min_increment_fen)
        ∷ not (valid_redis_non_negative s.current_price_fen)
        ∷ ltb_ℤ s.current_price_fen s.start_price_fen
        ∷ not (valid_redis_non_negative s.final_price_fen)
        ∷ []))
      monetary_invalid
  reject_if (not (valid_cap_price s s.cap_price_fen)) cap_price_invalid
  reject_if
      (not (
        all valid_redis_non_negative (
          s.started_at_unix_ms ∷ s.ends_at_unix_ms ∷ s.settled_at_unix_ms ∷ s.cancelled_at_unix_ms
          ∷ s.bid_count ∷ s.participant_count ∷ [])))
      time_or_count_invalid
  reject_if
      (any (
        ltb_ℤ s.bid_count s.participant_count
        ∷ ltb_ℤ s.extend_count (pos 0)
        ∷ ltb_ℤ s.max_extend_count (pos 0)
        ∷ ltb_ℤ s.max_extend_count s.extend_count
        ∷ []))
      counters_inconsistent
  reject_if (ltb max_runtime_ranking_items (length s.top_ranking)) ranking_too_long
  reject_if (not (valid_ranking_from 0 s.top_ranking)) ranking_item_invalid
  reject_if
      (any (
        ltb 64 (len s.leading_user_id)
        ∷ ltb 128 (len s.leading_nickname)
        ∷ ltb 64 (len s.winner_user_id)
        ∷ ltb 128 (len s.winner_nickname)
        ∷ ltb 64 (len s.order_id)
        ∷ ltb 512 (len s.cancel_reason)
        ∷ []))
      string_too_long
  validate_status_fields s.status s
