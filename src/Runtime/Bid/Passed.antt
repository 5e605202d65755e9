-- ===== src/Runtime/Bid/Passed.antt =====
-- What an accepted bid tells: the guards that it has passed.
use byte_danceliveauctioni.Base.{◌+◌, ◌-◌, ◌^◌, ◌≤◌, ◌<◌, ◌≡◌, true, false, ok, arith}
use byte_danceliveauctioni.Base.Int.{pos_part, add64_pos}
use byte_danceliveauctioni.Base.Text.{str_eq, str_eq_iff, is_blank}
use byte_danceliveauctioni.Proto.{is_open}
use byte_danceliveauctioni.Contract.Checks.{Externals}
use byte_danceliveauctioni.Runtime.Types.{
  RuntimeState, PlaceBid, RuntimeDecision, max_runtime_ranking_limit,
}
use byte_danceliveauctioni.Runtime.Bid.{decide_place_bid, accepts_bids, record_bid}
use byte_danceliveauctioni.Runtime.Validate.Facts.{
  IsExact, IsExact-of_test, IsExactPositive, IsExactPositive-of_test, IsValidState,
  validate_runtime_state-IsValidState,
}

-- A bid that was accepted, up to the part that builds the new state.
pub record PassedBid (x : Externals) (s : RuntimeState) (c : PlaceBid) (d : RuntimeDecision)
    : Type 0 where
  pub valid : IsValidState s
  pub now : IsExactPositive c.now_unix_ms
  pub amount : IsExact c.amount_fen
  pub user : is_blank c.user_id ≡ false
  pub limit_positive : 0 < pos_part c.ranking_limit
  pub limit_capped : pos_part c.ranking_limit ≤ max_runtime_ranking_limit
  pub version_left : pos_part s.version < 2 ^ 53 - 1
  pub count_left : pos_part s.bid_count < 2 ^ 53 - 1
  pub open_status : is_open s.status ≡ true
  pub not_ended :
      (0 < pos_part s.ends_at_unix_ms) → pos_part c.now_unix_ms < pos_part s.ends_at_unix_ms
  pub currency : c.currency ≡ s.config.currency
  pub not_leading : str_eq s.leading_user_id c.user_id ≡ false
  pub raises :
      pos_part s.current_price_fen + pos_part s.config.min_increment_fen ≤ pos_part c.amount_fen
  pub recorded : record_bid x s c ≡ ok d

pub decide_place_bid-PassedBid :
    (x : Externals) (s : RuntimeState) (c : PlaceBid) {d : RuntimeDecision}
    → decide_place_bid x s c ≡ ok d
    → PassedBid x s c d
unfolding decide_place_bid accepts_bids
decide_place_bid-PassedBid x s c h =
    let v : IsValidState s = validate_runtime_state-IsValidState s (ground arith) in
    let now : IsExactPositive c.now_unix_ms = IsExactPositive-of_test _ (ground arith) in
    let amount : IsExact c.amount_fen = IsExact-of_test _ (ground arith) in
    record {
      valid = v;
      now = now;
      amount = amount;
      user = ground arith;
      limit_positive = ground arith;
      limit_capped = ground arith;
      version_left = ground (arith, v.version);
      count_left = ground (arith, v.bid_count);
      open_status = ground arith;
      not_ended = ground (arith, now, v.ends);
      currency = ground (arith, str_eq_iff c.currency s.config.currency);
      not_leading = ground arith;
      raises = ground (
        arith,
        add64_pos s.current_price_fen s.config.min_increment_fen,
        v.price,
        v.config.min_increment,
        amount,
      );
      recorded = ground arith;
    }
