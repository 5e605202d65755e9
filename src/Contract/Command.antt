-- ===== src/Contract/Command.antt =====
-- contract.go: `validateRuntimeCommand`, `validateAcceptedBid` and `validateOrderDraft`.
use byte_danceliveauctioni.Base.{
  Bool, true, false, not, ◌&&◌, ◌||◌, [], ◌∷◌, Option, none, some, ltb, any, ok, err, ◌>>◌,
  reject_if,
}
use byte_danceliveauctioni.Base.Int.{eqb_ℤ}
use byte_danceliveauctioni.Base.Text.{len, str_eq}
use byte_danceliveauctioni.Proto.{
  RuntimeCommandType, start_lot, place_bid, cancel_lot, close_if_expired, sync_lot_config,
  LotRuntimeState, AcceptedBid, OrderDraft, RuntimeFact, is_open, is_settled, is_live, is_cancelled,
  is_failed,
}
use byte_danceliveauctioni.Contract.Checks.{
  Check, is_some, valid_currency, valid_redis_positive, valid_required_text, start_lot_inconsistent,
  place_bid_inconsistent, cancel_lot_inconsistent, close_inconsistent, sync_inconsistent,
  command_unsupported, accepted_bid_invalid, accepted_bid_mismatch, draft_unexpected, draft_missing,
  draft_invalid, draft_mismatch,
}

-- The `switch` over the command in `validateRuntimeCommand`.
unfoldable pub validate_command_result : RuntimeCommandType → RuntimeFact → LotRuntimeState → Check
validate_command_result start_lot f s =
    reject_if (any (not (is_live s.status) ∷ is_some f.accepted_bid ∷ is_some f.order_draft ∷ []))
      start_lot_inconsistent
validate_command_result place_bid f s =
    reject_if (not (is_some f.accepted_bid) || not (is_open s.status) && not (is_settled s.status))
      place_bid_inconsistent
validate_command_result cancel_lot f s =
    reject_if
      (any (not (is_cancelled s.status) ∷ is_some f.accepted_bid ∷ is_some f.order_draft ∷ []))
      cancel_lot_inconsistent
validate_command_result close_if_expired f s =
    reject_if ((not (is_settled s.status) && not (is_failed s.status)) || is_some f.accepted_bid)
      close_inconsistent
validate_command_result sync_lot_config f s =
    reject_if (any (not (is_open s.status) ∷ is_some f.accepted_bid ∷ is_some f.order_draft ∷ []))
      sync_inconsistent
validate_command_result _ f s = err command_unsupported

unfoldable pub validate_accepted_bid : Option AcceptedBid → RuntimeFact → LotRuntimeState → Check
validate_accepted_bid none f s = ok tt
validate_accepted_bid (some bid) f s = do
  reject_if
      (any (
        not (valid_required_text f.idempotency_key 128)
        ∷ not (valid_required_text bid.bid_id 64)
        ∷ not (valid_required_text bid.user_id 64)
        ∷ not (valid_required_text bid.nickname 128)
        ∷ ltb 1024 (len bid.avatar_url)
        ∷ not (valid_redis_positive bid.amount_fen)
        ∷ not (valid_redis_positive bid.accepted_at_unix_ms)
        ∷ []))
      accepted_bid_invalid
  reject_if
      (any (
        not (eqb_ℤ bid.amount_fen s.current_price_fen)
        ∷ not (str_eq bid.user_id s.leading_user_id)
        ∷ not (str_eq bid.nickname s.leading_nickname)
        ∷ not (eqb_ℤ bid.accepted_at_unix_ms f.occurred_at_unix_ms)
        ∷ []))
      accepted_bid_mismatch

unfoldable pub validate_draft_fields : RuntimeFact → LotRuntimeState → OrderDraft → Check
validate_draft_fields f s d = do
  reject_if
      (any (
        not (valid_required_text d.order_id 64)
        ∷ not (valid_required_text d.main_account_id 64)
        ∷ not (valid_required_text d.buyer_user_id 64)
        ∷ not (valid_required_text d.buyer_nickname 128)
        ∷ not (valid_required_text d.title 255)
        ∷ ltb 1024 (len d.image_url)
        ∷ not (valid_redis_positive d.total_amount_fen)
        ∷ not (valid_redis_positive d.created_at_unix_ms)
        ∷ not (valid_currency d.currency)
        ∷ []))
      draft_invalid
  reject_if
      (any (
        not (str_eq d.lot_id f.lot_id)
        ∷ not (str_eq d.room_id f.room_id)
        ∷ not (str_eq d.order_id s.order_id)
        ∷ not (str_eq d.buyer_user_id s.winner_user_id)
        ∷ not (str_eq d.buyer_nickname s.winner_nickname)
        ∷ not (eqb_ℤ d.total_amount_fen s.final_price_fen)
        ∷ not (str_eq d.currency s.currency)
        ∷ not (eqb_ℤ d.created_at_unix_ms f.occurred_at_unix_ms)
        ∷ []))
      draft_mismatch

-- `validateOrderDraft`, on whether the state is settled and on the draft.
unfoldable pub validate_order_draft :
    Bool → Option OrderDraft → RuntimeFact → LotRuntimeState → Check
validate_order_draft false none f s = ok tt
validate_order_draft false (some d) f s = err draft_unexpected
validate_order_draft true none f s = err draft_missing
validate_order_draft true (some d) f s = validate_draft_fields f s d

unfoldable pub validate_fact_command : RuntimeFact → LotRuntimeState → Check
validate_fact_command f s = do
  validate_command_result f.command f s
  validate_accepted_bid f.accepted_bid f s
  validate_order_draft (is_settled s.status) f.order_draft f s
