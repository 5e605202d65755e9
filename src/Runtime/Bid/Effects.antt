-- ===== src/Runtime/Bid/Effects.antt =====
-- What an accepted bid changes.
use byte_danceliveauctioni.Base.{◌+◌, ◌≤◌, ◌≡◌, refl, Option, some, ok, >>=-eq-ok, arith}
use byte_danceliveauctioni.Base.Int.{pos, pos_part, add64_pos}
use byte_danceliveauctioni.Proto.{OrderDraft, place_bid}
use byte_danceliveauctioni.Contract.Checks.{Externals}
use byte_danceliveauctioni.Runtime.Types.{RuntimeState, PlaceBid, RuntimeDecision}
use byte_danceliveauctioni.Runtime.Ranking.{update_runtime_ranking}
use byte_danceliveauctioni.Runtime.Fact.{runtime_fact}
use byte_danceliveauctioni.Runtime.Fact.Built.{new_runtime_decision-eq-ok}
use byte_danceliveauctioni.Runtime.Settle.{settle_runtime_state}
use byte_danceliveauctioni.Runtime.Bid.{
  decide_place_bid, add_participant, raised_state, settle_or_extend, extend_or_keep, record_bid,
  accepted_bid,
}
use byte_danceliveauctioni.Runtime.Bid.Passed.{decide_place_bid-PassedBid}

-- What is left of an accepted bid after its guards: the outcome, and the decision built from it.
pub recorded_outcome :
    (x : Externals) (s : RuntimeState) (c : PlaceBid) {d : RuntimeDecision}
    → record_bid x s c ≡ ok d
    → (r : RuntimeState × Option OrderDraft) × (settle_or_extend (raised_state s c) c ≡ ok r)
      × (d.state ≡ r.0)
      × (d.fact
          ≡ runtime_fact c.meta place_bid s.version r.0 (some (accepted_bid c)) r.1 c.now_unix_ms)
unfolding record_bid
recorded_outcome x s c {d} h =
    let (r, e, k) = >>=-eq-ok (settle_or_extend (raised_state s c) c) _ h in
    let built =
      new_runtime_decision-eq-ok x c.meta place_bid s.version r.0 (some (accepted_bid c)) r.1
        c.now_unix_ms {d = d} k in
    (r, e, built.0, built.1)

-- What a bid changes in the state, up to the end of the auction.
pub record RaisedBy (s : RuntimeState) (c : PlaceBid) (t : RuntimeState) : Type 0 where
  pub price : t.current_price_fen ≡ c.amount_fen
  pub raise :
      pos_part s.current_price_fen + pos_part s.config.min_increment_fen
      ≤ pos_part t.current_price_fen
  pub leader : t.leading_user_id ≡ c.user_id
  pub nickname : t.leading_nickname ≡ c.nickname
  pub version : pos_part t.version ≡ pos_part s.version + 1
  pub bids : pos_part t.bid_count ≡ pos_part s.bid_count + 1
  pub takes_part : t.participant_ids ≡ add_participant c.user_id s.participant_ids
  pub config : t.config ≡ s.config
  pub started : t.started_at_unix_ms ≡ s.started_at_unix_ms
  pub ranking : t.top_ranking ≡ update_runtime_ranking s.top_ranking c c.ranking_limit

outcome-fields :
    (s : RuntimeState) (c : PlaceBid) {r : RuntimeState × Option OrderDraft}
    → settle_or_extend s c ≡ ok r
    → (r.0.current_price_fen ≡ s.current_price_fen)
      × (r.0.leading_user_id ≡ s.leading_user_id)
      × (r.0.leading_nickname ≡ s.leading_nickname)
      × (r.0.version ≡ s.version)
      × (r.0.bid_count ≡ s.bid_count)
      × (r.0.participant_ids ≡ s.participant_ids)
      × (r.0.config ≡ s.config)
      × (r.0.started_at_unix_ms ≡ s.started_at_unix_ms)
      × (r.0.top_ranking ≡ s.top_ranking)
unfolding settle_or_extend extend_or_keep settle_runtime_state
outcome-fields s c h = ground arith

-- An accepted bid becomes the price, exceeds the old one by at least the increment, makes the bidder
-- the leader and a participant, counts one version and one bid without overflow, and leaves the
-- configuration and the start as they were.
pub decide_place_bid-RaisedBy :
    (x : Externals) (s : RuntimeState) (c : PlaceBid) {d : RuntimeDecision}
    → decide_place_bid x s c ≡ ok d
    → RaisedBy s c d.state
unfolding raised_state
decide_place_bid-RaisedBy x s c {d} h =
    let p = decide_place_bid-PassedBid x s c h in
    let (r, e, same, _) = recorded_outcome x s c p.recorded in
    let f = outcome-fields (raised_state s c) c e in
    let v = add64_pos s.version (pos 1) p.valid.version.not_negative refl (omega arith) in
    let n = add64_pos s.bid_count (pos 1) p.valid.bid_count.not_negative refl (omega arith) in
    rw same (record {
      price = f.0;
      raise = rw f.0 p.raises;
      leader = f.1;
      nickname = f.2;
      version = rw f.3 v.1;
      bids = rw f.4 n.1;
      takes_part = f.5;
      config = f.6;
      started = f.7;
      ranking = f.8;
    })
