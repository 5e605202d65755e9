-- ===== src/Runtime/Machine/Sale.antt =====
-- When an auction is sold, to whom, and that the order says the same.
use byte_danceliveauctioni.Base.{
  ◌≤◌, ◌≡◌, refl, ap, true, false, String, List, [], ◌∷◌, Option, none, some, inl, inr, ◌≢◌, length,
  ok, arith, if◌then◌else◌,
}
use byte_danceliveauctioni.Base.Int.{pos, pos_part}
use byte_danceliveauctioni.Base.Text.{is_empty}
use byte_danceliveauctioni.Proto.{settled, failed, OrderDraft, is_open, is_settled}
use byte_danceliveauctioni.Contract.Checks.{Externals}
use byte_danceliveauctioni.Runtime.Types.{
  RuntimeState, PlaceBid, CancelLot, CloseIfExpired, SyncLotConfig, RuntimeDecision,
}
use byte_danceliveauctioni.Runtime.Validate.{is_runtime_terminal}
use byte_danceliveauctioni.Runtime.Fact.{new_runtime_decision, runtime_fact, runtime_order_draft}
use byte_danceliveauctioni.Runtime.Settle.{settle_runtime_state}
use byte_danceliveauctioni.Runtime.Bid.{
  decide_place_bid, contains, raised_state, settle_or_extend, extend_or_keep,
}
use byte_danceliveauctioni.Runtime.Bid.Passed.{decide_place_bid-PassedBid}
use byte_danceliveauctioni.Runtime.Close.{
  decide_cancel_lot, cancelled_state, decide_close_if_expired, fail_or_settle, failed_state,
}
use byte_danceliveauctioni.Runtime.Sync.{decide_sync_lot_config, synced_state}
use byte_danceliveauctioni.Runtime.Machine.{Command, place, cancel, close, sync, decide}
use byte_danceliveauctioni.Runtime.Machine.Invariant.{IsWellFormed}
use byte_danceliveauctioni.Runtime.Bid.Effects.{recorded_outcome}
use byte_danceliveauctioni.Runtime.Close.Passed.{decide_close_if_expired-PassedClose}

-- The order that a sold state asks for: the lot goes to the leader, at the current price.
pub record SoldWith (s : RuntimeState) (order : OrderDraft) : Type 0 where
  pub status : s.status ≡ settled
  pub lot : order.lot_id ≡ s.config.lot_id
  pub seller : order.main_account_id ≡ s.config.main_account_id
  pub buyer : order.buyer_user_id ≡ s.leading_user_id
  pub winner : s.winner_user_id ≡ s.leading_user_id
  pub amount : order.total_amount_fen ≡ s.current_price_fen
  pub final : s.final_price_fen ≡ s.current_price_fen
  pub number : order.order_id ≡ s.order_id
  pub currency : order.currency ≡ s.config.currency

-- A sale with its order, or no sale and no order.
abbrev pub SaleOrNot : RuntimeState → Option OrderDraft → Type 0
SaleOrNot s none = is_settled s.status ≡ false
SaleOrNot s (some order) = SoldWith s order

settle_or_extend-SaleOrNot :
    (s : RuntimeState) (c : PlaceBid) {r : RuntimeState × Option OrderDraft}
    → is_open s.status ≡ true
    → s.leading_user_id ≡ c.user_id
    → s.current_price_fen ≡ c.amount_fen
    → settle_or_extend s c ≡ ok r
    → SaleOrNot r.0 r.1
unfolding settle_or_extend extend_or_keep settle_runtime_state runtime_order_draft
settle_or_extend-SaleOrNot s c {r} o u a h = ground arith

fail_or_settle-SaleOrNot :
    (s : RuntimeState) (c : CloseIfExpired) {r : RuntimeState × Option OrderDraft}
    → fail_or_settle s c ≡ ok r
    → SaleOrNot r.0 r.1
unfolding fail_or_settle failed_state settle_runtime_state runtime_order_draft
fail_or_settle-SaleOrNot s c {r} h = ground arith

-- A bid is a sale, with an order for the leader at the current price, or it is none and has no order.
pub decide_place_bid-SaleOrNot :
    (x : Externals) (s : RuntimeState) (c : PlaceBid) {d : RuntimeDecision}
    → decide_place_bid x s c ≡ ok d
    → SaleOrNot d.state d.fact.order_draft
unfolding raised_state runtime_fact
decide_place_bid-SaleOrNot x s c {d} h =
    let p = decide_place_bid-PassedBid x s c h in
    let (r, e, same, fact) = recorded_outcome x s c p.recorded in
    rw (same, fact) (settle_or_extend-SaleOrNot (raised_state s c) c p.open_status refl refl e)

decide_close_if_expired-SaleOrNot :
    (x : Externals) (s : RuntimeState) (c : CloseIfExpired) {d : RuntimeDecision}
    → decide_close_if_expired x s c ≡ ok d
    → SaleOrNot d.state d.fact.order_draft
unfolding runtime_fact
decide_close_if_expired-SaleOrNot x s c {d} h =
    let p = decide_close_if_expired-PassedClose x s c h in
    rw (p.state, p.fact) (fail_or_settle-SaleOrNot s c p.outcome_of)

decide_cancel_lot-SaleOrNot :
    (x : Externals) (s : RuntimeState) (c : CancelLot) {d : RuntimeDecision}
    → decide_cancel_lot x s c ≡ ok d
    → SaleOrNot d.state d.fact.order_draft
unfolding decide_cancel_lot new_runtime_decision runtime_fact cancelled_state
decide_cancel_lot-SaleOrNot x s c {d} h = ground arith

decide_sync_lot_config-SaleOrNot :
    (x : Externals) (s : RuntimeState) (c : SyncLotConfig) {d : RuntimeDecision}
    → decide_sync_lot_config x s c ≡ ok d
    → SaleOrNot d.state d.fact.order_draft
unfolding decide_sync_lot_config new_runtime_decision runtime_fact synced_state is_runtime_terminal
decide_sync_lot_config-SaleOrNot x s c {d} h = ground arith

-- Every accepted command either sells the lot, with an order that names the leader as the buyer and
-- the current price as the amount, or leaves it unsold and writes no order.
pub accepted-SaleOrNot :
    (x : Externals) (s : RuntimeState) (c : Command) {d : RuntimeDecision}
    → decide x s c ≡ ok d
    → SaleOrNot d.state d.fact.order_draft
unfolding decide
accepted-SaleOrNot x s (place c) h = decide_place_bid-SaleOrNot x s c h
accepted-SaleOrNot x s (cancel c) h = decide_cancel_lot-SaleOrNot x s c h
accepted-SaleOrNot x s (close c) h = decide_close_if_expired-SaleOrNot x s c h
accepted-SaleOrNot x s (sync c) h = decide_sync_lot_config-SaleOrNot x s c h

fail_or_settle-status :
    (s : RuntimeState) (c : CloseIfExpired) {r : RuntimeState × Option OrderDraft}
    → fail_or_settle s c ≡ ok r
    → r.0.status ≡ (if is_empty s.leading_user_id then failed else settled)
unfolding fail_or_settle failed_state settle_runtime_state
fail_or_settle-status s c {r} h = ground arith

has_participant : (ids : List String) (id : String) → contains ids id ≡ true → length ids ≤ 0 → ⊥
unfolding contains
has_participant [] id h k = cc
has_participant (x ∷ ids) id h k = omega arith

no_leader_of_no_bids :
    {s : RuntimeState} → IsWellFormed s → s.bid_count ≡ pos 0 → is_empty s.leading_user_id ≡ true
no_leader_of_no_bids {s} w z = elim w.consistent.led [
  | inl fresh ↦ fresh.no_leader
  | inr led ↦ absurd (
      has_participant s.participant_ids s.leading_user_id led.takes_part
        (omega (arith, w.consistent.counted, ap pos_part z)))
]

leader_of_bids :
    {s : RuntimeState} → IsWellFormed s → s.bid_count ≢ pos 0 → is_empty s.leading_user_id ≡ false
leader_of_bids w z = elim w.consistent.led [
  | inl fresh ↦ absurd (z fresh.no_bids)
  | inr led ↦ led.has_name
]

-- Closing a well-formed auction happens only at or after its end, and sells it exactly when somebody
-- has bid; otherwise it fails.
pub decide_close_if_expired-status :
    (x : Externals) (s : RuntimeState) (c : CloseIfExpired) {d : RuntimeDecision}
    → IsWellFormed s
    → decide_close_if_expired x s c ≡ ok d
    → (pos_part s.ends_at_unix_ms ≤ pos_part c.now_unix_ms)
      × ((s.bid_count ≡ pos 0) → d.state.status ≡ failed)
      × ((s.bid_count ≢ pos 0) → d.state.status ≡ settled)
decide_close_if_expired-status x s c {d} w h =
    let p = decide_close_if_expired-PassedClose x s c h in
    let e = fail_or_settle-status s c p.outcome_of in
    (
      p.ended,
      λ z. rw (p.state, e, no_leader_of_no_bids w z) refl,
      λ z. rw (p.state, e, leader_of_bids w z) refl,
    )
