-- ===== src/Runtime/Machine/Invariant.antt =====
-- What holds of a running auction between two commands, and that every command keeps it.
use byte_danceliveauctioni.Base.{
  ◌≡◌, refl, true, false, String, List, [], ◌∷◌, Option, none, some, inl, inr, ok, err, arith,
}
use byte_danceliveauctioni.Base.Int.{ℤ, pos}
use byte_danceliveauctioni.Base.Text.{is_empty, is_blank, is_blank-is_empty}
use byte_danceliveauctioni.Proto.{
  LotStatus, live, extended, settled, cancelled, failed, OrderDraft, is_open, place_bid,
  close_if_expired,
}
use byte_danceliveauctioni.Contract.Checks.{Externals}
use byte_danceliveauctioni.Runtime.Types.{
  RuntimeState, RankingEntry, PlaceBid, RuntimeDecision, Decision,
}
use byte_danceliveauctioni.Runtime.Bid.{
  decide_place_bid, raised_state, settle_or_extend, extend_or_keep,
}
use byte_danceliveauctioni.Runtime.Bid.Passed.{PassedBid, decide_place_bid-PassedBid}
use byte_danceliveauctioni.Base.{>>=-eq-ok, ◌>>=◌}
use byte_danceliveauctioni.Runtime.Validate.{is_runtime_terminal}
use byte_danceliveauctioni.Runtime.Bid.{record_bid, accepted_bid}
use byte_danceliveauctioni.Runtime.Types.{CancelLot, CloseIfExpired, SyncLotConfig, StartLot}
use byte_danceliveauctioni.Runtime.Settle.{settle_runtime_state}
use byte_danceliveauctioni.Runtime.Start.{decide_start_lot, started_state}
use byte_danceliveauctioni.Runtime.Fact.{new_runtime_decision}
use byte_danceliveauctioni.Runtime.Fact.Built.{new_runtime_decision-eq-ok}
use byte_danceliveauctioni.Runtime.Close.{
  decide_cancel_lot, cancelled_state, decide_close_if_expired, fail_or_settle, failed_state,
}
use byte_danceliveauctioni.Runtime.Sync.{decide_sync_lot_config, synced_state}
use byte_danceliveauctioni.Runtime.Machine.{Command, place, cancel, close, sync, decide, after, run}
use byte_danceliveauctioni.Runtime.Machine.Consistent.{IsConsistent, raised-IsConsistent}

-- What the status says of the winner, the final price and the order.
abbrev pub Stage : LotStatus → RuntimeState → Type 0
Stage live s = (s.winner_user_id ≡ "") × (s.final_price_fen ≡ pos 0) × (s.order_id ≡ "")
Stage extended s = (s.winner_user_id ≡ "") × (s.final_price_fen ≡ pos 0) × (s.order_id ≡ "")
Stage cancelled s = (s.winner_user_id ≡ "") × (s.final_price_fen ≡ pos 0) × (s.order_id ≡ "")
Stage failed s =
    (s.winner_user_id ≡ "")
    × (s.final_price_fen ≡ pos 0)
    × (s.order_id ≡ "")
    × (s.bid_count ≡ pos 0)
Stage settled s =
    (s.winner_user_id ≡ s.leading_user_id)
    × (s.winner_nickname ≡ s.leading_nickname)
    × (s.final_price_fen ≡ s.current_price_fen)
    × (is_blank s.order_id ≡ false)
    × (is_empty s.leading_user_id ≡ false)
Stage _ s = ⊥

pub record IsWellFormed (s : RuntimeState) : Type 0 where
  pub consistent :
      IsConsistent s.top_ranking s.participant_ids s.bid_count s.current_price_fen s.leading_user_id
  pub stage : Stage s.status s

-- A step that ends or prolongs the auction leaves the bidding side alone.
record KeepsBids (s t : RuntimeState) : Type 0 where
  same_ranking : t.top_ranking ≡ s.top_ranking
  same_participants : t.participant_ids ≡ s.participant_ids
  same_count : t.bid_count ≡ s.bid_count
  same_price : t.current_price_fen ≡ s.current_price_fen
  same_leader : t.leading_user_id ≡ s.leading_user_id

KeepsBids-IsConsistent :
    (s t : RuntimeState)
    → KeepsBids s t
    → IsConsistent s.top_ranking s.participant_ids s.bid_count s.current_price_fen s.leading_user_id
    → IsConsistent t.top_ranking t.participant_ids t.bid_count t.current_price_fen t.leading_user_id
KeepsBids-IsConsistent s t k c =
    rw (k.same_ranking, k.same_participants, k.same_count, k.same_price, k.same_leader) c

settle_or_extend-KeepsBids :
    (s : RuntimeState) (c : PlaceBid) {r : RuntimeState × Option OrderDraft}
    → settle_or_extend s c ≡ ok r
    → KeepsBids s r.0
unfolding settle_or_extend extend_or_keep settle_runtime_state
settle_or_extend-KeepsBids s c h = ground arith

settle_or_extend-Stage :
    (s : RuntimeState) (c : PlaceBid) {r : RuntimeState × Option OrderDraft}
    → is_open s.status ≡ true
    → Stage s.status s
    → s.leading_user_id ≡ c.user_id
    → s.leading_nickname ≡ c.nickname
    → s.current_price_fen ≡ c.amount_fen
    → is_empty c.user_id ≡ false
    → settle_or_extend s c ≡ ok r
    → Stage r.0.status r.0
unfolding settle_or_extend extend_or_keep settle_runtime_state
settle_or_extend-Stage s c o g u n a e h = ground arith

raised-Stage :
    (s : RuntimeState) (c : PlaceBid)
    → is_open s.status ≡ true
    → Stage s.status s
    → Stage s.status (raised_state s c)
unfolding raised_state
raised-Stage s c o g = ground arith

record_bid-IsWellFormed :
    (x : Externals) (s : RuntimeState) (c : PlaceBid) {d : RuntimeDecision}
    → PassedBid x s c d
    → IsWellFormed s
    → (r : RuntimeState × Option OrderDraft) → settle_or_extend (raised_state s c) c ≡ ok r
    → d.state ≡ r.0
    → IsWellFormed d.state
unfolding raised_state
record_bid-IsWellFormed x s c p w r h e = rw e (record {
  consistent =
      KeepsBids-IsConsistent (raised_state s c) r.0
        (settle_or_extend-KeepsBids (raised_state s c) c h)
        (raised-IsConsistent x s c p w.consistent);
  stage =
      settle_or_extend-Stage (raised_state s c) c p.open_status
        (raised-Stage s c p.open_status w.stage) refl refl refl (is_blank-is_empty c.user_id p.user)
        h;
})

decide_place_bid-IsWellFormed :
    (x : Externals) (s : RuntimeState) (c : PlaceBid) {d : RuntimeDecision}
    → IsWellFormed s
    → decide_place_bid x s c ≡ ok d
    → IsWellFormed d.state
unfolding record_bid
decide_place_bid-IsWellFormed x s c w h =
    let p = decide_place_bid-PassedBid x s c h in
    let (r, e, k) = >>=-eq-ok (settle_or_extend (raised_state s c) c) _ p.recorded in
    record_bid-IsWellFormed x s c p w r e
      (new_runtime_decision-eq-ok x c.meta place_bid s.version r.0 (some (accepted_bid c)) r.1
        c.now_unix_ms k).0

decide_cancel_lot-IsWellFormed :
    (x : Externals) (s : RuntimeState) (c : CancelLot) {d : RuntimeDecision}
    → IsWellFormed s
    → decide_cancel_lot x s c ≡ ok d
    → IsWellFormed d.state
unfolding decide_cancel_lot cancelled_state new_runtime_decision is_runtime_terminal
decide_cancel_lot-IsWellFormed x s c {d} w h =
    let e : d.state ≡ cancelled_state s c = ground arith in
    let o : is_runtime_terminal s.status ≡ false = ground arith in
    rw e (record { consistent = w.consistent; stage = ground (arith, w.stage) })

fail_or_settle-KeepsBids :
    (s : RuntimeState) (c : CloseIfExpired) {r : RuntimeState × Option OrderDraft}
    → fail_or_settle s c ≡ ok r
    → KeepsBids s r.0
unfolding fail_or_settle failed_state settle_runtime_state
fail_or_settle-KeepsBids s c h = ground arith

-- A state with bids has a leader.
no_bids_of_no_leader :
    {ranking : List RankingEntry} {participants : List String} {bids price : ℤ} {leader : String}
    → IsConsistent ranking participants bids price leader
    → is_empty leader ≡ true
    → bids ≡ pos 0
no_bids_of_no_leader k e = elim k.led [ inl fresh ↦ fresh.no_bids | inr led ↦ cc (led.has_name) ]

fail_or_settle-Stage :
    (s : RuntimeState) (c : CloseIfExpired) {r : RuntimeState × Option OrderDraft}
    → is_open s.status ≡ true
    → IsWellFormed s
    → fail_or_settle s c ≡ ok r
    → Stage r.0.status r.0
unfolding fail_or_settle failed_state settle_runtime_state
fail_or_settle-Stage s c o w h = ground (arith, w.stage, no_bids_of_no_leader w.consistent)

decide_close_if_expired-IsWellFormed :
    (x : Externals) (s : RuntimeState) (c : CloseIfExpired) {d : RuntimeDecision}
    → IsWellFormed s
    → decide_close_if_expired x s c ≡ ok d
    → IsWellFormed d.state
unfolding decide_close_if_expired
decide_close_if_expired-IsWellFormed x s c {d} w h =
    let o : is_open s.status ≡ true = ground arith in
    let rest : (fail_or_settle s c >>= λ r.
    new_runtime_decision x c.meta close_if_expired s.version r.0 none r.1 c.now_unix_ms)
        ≡ ok d =
      ground arith in
    let (r, e, k) = >>=-eq-ok (fail_or_settle s c) _ rest in
    rw
      (new_runtime_decision-eq-ok x c.meta close_if_expired s.version r.0 none r.1 c.now_unix_ms
        k).0
      (record {
        consistent = KeepsBids-IsConsistent s r.0 (fail_or_settle-KeepsBids s c e) w.consistent;
        stage = fail_or_settle-Stage s c o w e;
      })

decide_sync_lot_config-IsWellFormed :
    (x : Externals) (s : RuntimeState) (c : SyncLotConfig) {d : RuntimeDecision}
    → IsWellFormed s
    → decide_sync_lot_config x s c ≡ ok d
    → IsWellFormed d.state
unfolding decide_sync_lot_config synced_state new_runtime_decision
decide_sync_lot_config-IsWellFormed x s c {d} w h =
    let e : d.state ≡ synced_state s c = ground arith in
    rw e (record { consistent = w.consistent; stage = ground (arith, w.stage) })

-- A started auction is well formed.
pub decide_start_lot-IsWellFormed :
    (x : Externals) (c : StartLot) {d : RuntimeDecision}
    → decide_start_lot x c ≡ ok d
    → IsWellFormed d.state
unfolding decide_start_lot started_state new_runtime_decision is_empty
decide_start_lot-IsWellFormed x c {d} h =
    let e : d.state ≡ started_state c = ground arith in
    rw e (record {
      consistent = record {
        sorted = tt;
        distinct = tt;
        capped = tt;
        unique = tt;
        counted = omega arith;
        led = inl (record {
          no_bids = refl;
          no_entries = refl;
          no_participants = refl;
          no_leader = refl;
        });
      };
      stage = (refl, refl, refl);
    })

after-IsWellFormed :
    (s : RuntimeState) (r : Decision)
    → IsWellFormed s
    → ((d : RuntimeDecision) → r ≡ ok d → IsWellFormed d.state)
    → IsWellFormed (after s r)
after-IsWellFormed s (ok d) w f = f d refl
after-IsWellFormed s (err e) w f = w

-- Every decision, accepted or not, keeps a state well formed.
pub step-IsWellFormed :
    (x : Externals) (s : RuntimeState) (c : Command)
    → IsWellFormed s
    → IsWellFormed (after s (decide x s c))
unfolding decide
step-IsWellFormed x s (place c) w =
    after-IsWellFormed s (decide_place_bid x s c) w λ d h. decide_place_bid-IsWellFormed x s c w h
step-IsWellFormed x s (cancel c) w =
    after-IsWellFormed s (decide_cancel_lot x s c) w λ d h. decide_cancel_lot-IsWellFormed x s c w h
step-IsWellFormed x s (close c) w =
    after-IsWellFormed s (decide_close_if_expired x s c) w
      λ d h. decide_close_if_expired-IsWellFormed x s c w h
step-IsWellFormed x s (sync c) w =
    after-IsWellFormed s (decide_sync_lot_config x s c) w
      λ d h. decide_sync_lot_config-IsWellFormed x s c w h

-- Any sequence of commands, accepted or rejected, keeps a well-formed auction well formed: the ranking
-- is sorted, holds each user once and no entry above the price; the participants are distinct and at
-- most as many as the bids; nobody has bid, or the leader heads the ranking at the current price and
-- takes part; and the winner, the final price and the order are as the status says.
pub run-IsWellFormed :
    (x : Externals) (s : RuntimeState) (cs : List Command)
    → IsWellFormed s
    → IsWellFormed (run x s cs)
unfolding run
run-IsWellFormed x s [] w = w
run-IsWellFormed x s (c ∷ cs) w =
    run-IsWellFormed x (after s (decide x s c)) cs (step-IsWellFormed x s c w)
