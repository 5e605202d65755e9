-- ===== src/Runtime/Bid/Cap.antt =====
-- When an accepted bid sells the lot, by the cap price.
use byte_danceliveauctioni.Base.{
  ◌≡◌, refl, true, false, Option, none, some, inl, inr, ok, arith, ◌⊎◌, Bool-cases,
}
use byte_danceliveauctioni.Base.Int.{ℤ, leb_ℤ, ◌≤ℤ◌, ◌<ℤ◌}
use byte_danceliveauctioni.Proto.{settled, OrderDraft, is_open}
use byte_danceliveauctioni.Contract.Checks.{Externals}
use byte_danceliveauctioni.Runtime.Types.{RuntimeState, PlaceBid, RuntimeDecision}
use byte_danceliveauctioni.Runtime.Fact.{runtime_fact, runtime_order_draft}
use byte_danceliveauctioni.Runtime.Settle.{settle_runtime_state}
use byte_danceliveauctioni.Runtime.Bid.{
  decide_place_bid, raised_state, settle_or_extend, extend_or_keep, reaches_cap,
}
use byte_danceliveauctioni.Runtime.Bid.Passed.{decide_place_bid-PassedBid}
use byte_danceliveauctioni.Runtime.Bid.Effects.{recorded_outcome}

-- Sold to the bidder for the amount, which is the cap price or more.
pub record IsSoldAtCap (s : RuntimeState) (c : PlaceBid) (t : RuntimeState)
    (draft : Option OrderDraft) : Type 0 where
  pub cap : ℤ
  pub has_cap : s.config.cap_price_fen ≡ some cap
  pub reached : cap ≤ℤ c.amount_fen
  pub status : t.status ≡ settled
  pub winner : t.winner_user_id ≡ c.user_id
  pub final_price : t.final_price_fen ≡ c.amount_fen
  pub settled_at : t.settled_at_unix_ms ≡ c.now_unix_ms
  pub order : OrderDraft
  pub written : draft ≡ some order
  pub buyer : order.buyer_user_id ≡ c.user_id
  pub amount : order.total_amount_fen ≡ c.amount_fen

-- No cap price, or one above the amount.
abbrev pub IsBelowCap : ℤ → Option ℤ → Type 0
IsBelowCap amount none = Unit
IsBelowCap amount (some cap) = amount <ℤ cap

-- Still running, with nobody the winner who was not before.
pub record IsStillOpen (s : RuntimeState) (c : PlaceBid) (t : RuntimeState)
    (draft : Option OrderDraft) : Type 0 where
  pub below : IsBelowCap c.amount_fen s.config.cap_price_fen
  pub running : is_open t.status ≡ true
  pub winner : t.winner_user_id ≡ s.winner_user_id
  pub final_price : t.final_price_fen ≡ s.final_price_fen
  pub no_order : draft ≡ none

settle_or_extend-IsSoldAtCap :
    (s : RuntimeState) (c : PlaceBid) (cap : ℤ) {r : RuntimeState × Option OrderDraft}
    → s.config.cap_price_fen ≡ some cap
    → leb_ℤ cap c.amount_fen ≡ true
    → settle_or_extend s c ≡ ok r
    → IsSoldAtCap s c r.0 r.1
unfolding settle_or_extend settle_runtime_state runtime_order_draft reaches_cap
settle_or_extend-IsSoldAtCap s c cap {r} k l h = record {
  cap = cap;
  has_cap = k;
  reached = ground arith;
  status = ground arith;
  winner = ground arith;
  final_price = ground arith;
  settled_at = ground arith;
  order = runtime_order_draft r.0 c.order_id c.user_id c.nickname c.amount_fen c.now_unix_ms;
  written = ground arith;
  buyer = refl;
  amount = refl;
}

settle_or_extend-IsStillOpen :
    (s : RuntimeState) (c : PlaceBid) {r : RuntimeState × Option OrderDraft}
    → is_open s.status ≡ true
    → IsBelowCap c.amount_fen s.config.cap_price_fen
    → reaches_cap s.config.cap_price_fen c.amount_fen ≡ false
    → settle_or_extend s c ≡ ok r
    → IsStillOpen s c r.0 r.1
unfolding settle_or_extend extend_or_keep
settle_or_extend-IsStillOpen s c {r} o b l h = record {
  below = b;
  running = ground arith;
  winner = ground arith;
  final_price = ground arith;
  no_order = ground arith;
}

-- An accepted bid sells the lot, or leaves it open.
abbrev pub CapOutcome : RuntimeState → PlaceBid → RuntimeState → Option OrderDraft → Type 0
CapOutcome s c t draft = IsSoldAtCap s c t draft ⊎ IsStillOpen s c t draft

below_cap :
    (amount : ℤ) (limit : Option ℤ) → reaches_cap limit amount ≡ false → IsBelowCap amount limit
unfolding reaches_cap
below_cap amount none h = tt
below_cap amount (some cap) h = ground arith

reached_cap :
    (amount : ℤ) (limit : Option ℤ)
    → reaches_cap limit amount ≡ true
    → (cap : ℤ) × (limit ≡ some cap) × (leb_ℤ cap amount ≡ true)
unfolding reaches_cap
reached_cap amount none h = absurd (ground arith)
reached_cap amount (some cap) h = (cap, refl, h)

settle_or_extend-CapOutcome :
    (s : RuntimeState) (c : PlaceBid) {r : RuntimeState × Option OrderDraft}
    → is_open s.status ≡ true
    → settle_or_extend s c ≡ ok r
    → CapOutcome s c r.0 r.1
settle_or_extend-CapOutcome s c o h =
    elim (Bool-cases (reaches_cap s.config.cap_price_fen c.amount_fen)) [
      | inl at_cap ↦
          let (cap, is_cap, reached) = reached_cap c.amount_fen s.config.cap_price_fen at_cap in
          inl (settle_or_extend-IsSoldAtCap s c cap is_cap reached h)
      | inr below ↦ inr (
          settle_or_extend-IsStillOpen s c o (below_cap c.amount_fen s.config.cap_price_fen below)
            below h)
    ]

raised_state-CapOutcome :
    (s : RuntimeState) (c : PlaceBid) (t : RuntimeState) (draft : Option OrderDraft)
    → CapOutcome (raised_state s c) c t draft
    → CapOutcome s c t draft
unfolding raised_state
raised_state-CapOutcome s c t draft (inl o) = inl (record {
  cap = o.cap;
  has_cap = o.has_cap;
  reached = o.reached;
  status = o.status;
  winner = o.winner;
  final_price = o.final_price;
  settled_at = o.settled_at;
  order = o.order;
  written = o.written;
  buyer = o.buyer;
  amount = o.amount;
})
raised_state-CapOutcome s c t draft (inr o) = inr (record {
  below = o.below;
  running = o.running;
  winner = o.winner;
  final_price = o.final_price;
  no_order = o.no_order;
})

-- For every accepted bid: when there is a cap price and the amount is the cap price or more, the lot is
-- settled at the bid's time, won by the bidder for the amount, with an order over it; when there is none or
-- the amount is below it, the auction stays open, with the winner and final price as before and no order.
pub decide_place_bid-CapOutcome :
    (x : Externals) (s : RuntimeState) (c : PlaceBid) {d : RuntimeDecision}
    → decide_place_bid x s c ≡ ok d
    → CapOutcome s c d.state d.fact.order_draft
unfolding runtime_fact raised_state
decide_place_bid-CapOutcome x s c {d} h =
    let p = decide_place_bid-PassedBid x s c h in
    let (r, e, same, fact) = recorded_outcome x s c p.recorded in
    rw (same, fact)
      (raised_state-CapOutcome s c r.0 r.1
        (settle_or_extend-CapOutcome (raised_state s c) c p.open_status e))
