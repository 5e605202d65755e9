-- ===== src/Runtime/Bid.antt =====
-- runtime_state_machine.go: `DecideRuntimePlaceBid`. The code works on a copy of the state; here
-- the state is a value.
pub mod Passed
pub mod Effects
pub mod Cap
use byte_danceliveauctioni.Base.{
  Bool, false, not, ◌&&◌, ◌||◌, String, List, [], ◌∷◌, Option, none, some, any, if◌then◌else◌,
  Result, ok, err, ◌>>◌, ◌>>=◌, reject_if,
}
use byte_danceliveauctioni.Base.Int.{ℤ, pos, ltb_ℤ, leb_ℤ, eqb_ℤ, add64, sub64, add32}
use byte_danceliveauctioni.Base.Text.{str_eq, is_blank}
use byte_danceliveauctioni.Proto.{
  LotStatus, live, extended, settled, cancelled, failed, place_bid, AcceptedBid,
}
use byte_danceliveauctioni.Contract.Checks.{Externals, max_redis_exact_integer}
use byte_danceliveauctioni.Runtime.Types.{
  RuntimeCode, invalid_argument, bid_not_live, bid_ended, lot_cancelled, bid_currency_mismatch,
  bid_already_leading, bid_too_low, max_runtime_ranking_limit, RuntimeError, rejected, RuntimeState,
  PlaceBid, Decision, runtime_reject,
}
use byte_danceliveauctioni.Runtime.Ranking.{update_runtime_ranking}
use byte_danceliveauctioni.Runtime.Validate.{
  is_redis_exact_non_negative, is_redis_exact_positive, validate_runtime_state,
}
use byte_danceliveauctioni.Runtime.Fact.{runtime_order_draft, new_runtime_decision}
use byte_danceliveauctioni.Runtime.Settle.{settle_runtime_state, Outcome}

-- The `switch` over the status in `DecideRuntimePlaceBid`.
unfoldable pub accepts_bids : LotStatus → Result RuntimeError (Unit {0})
accepts_bids cancelled = err (runtime_reject lot_cancelled)
accepts_bids settled = err (runtime_reject bid_ended)
accepts_bids failed = err (runtime_reject bid_ended)
accepts_bids live = ok tt
accepts_bids extended = ok tt
accepts_bids _ = err (runtime_reject bid_not_live)

-- A rejection that tells the bidder the price and the end.
abbrev pub bid_rejection : RuntimeCode → RuntimeState → ℤ → RuntimeError
bid_rejection code s minimum_bid = rejected (record {
  code = code;
  ends_at_unix_ms = s.ends_at_unix_ms;
  current_price = s.current_price_fen;
  min_increment = pos 0;
  minimum_bid = minimum_bid;
  lot_version = pos 0;
})

unfoldable pub contains : List String → String → Bool
contains [] id = false
contains (x ∷ xs) id = str_eq x id || contains xs id

-- `state.ParticipantIDs[id] = struct{}{}`.
unfoldable pub add_participant : String → List String → List String
add_participant id ids = if contains ids id then ids else id ∷ ids

unfoldable pub raised_state : RuntimeState → PlaceBid → RuntimeState
raised_state s c = record s {
  version = add64 s.version (pos 1);
  current_price_fen = c.amount_fen;
  leading_user_id = c.user_id;
  leading_nickname = c.nickname;
  bid_count = add64 s.bid_count (pos 1);
  participant_ids = add_participant c.user_id s.participant_ids;
  top_ranking = update_runtime_ranking s.top_ranking c c.ranking_limit;
}

unfoldable pub reaches_cap : Option ℤ → ℤ → Bool
reaches_cap none amount = false
reaches_cap (some cap) amount = leb_ℤ cap amount

-- A bid in the anti-snipe window, with extensions left.
unfoldable pub is_sniped : RuntimeState → ℤ → Bool
is_sniped s now =
    let remaining = sub64 s.ends_at_unix_ms now in
    ltb_ℤ (pos 0) remaining
    && leb_ℤ remaining s.config.anti_snipe_window_ms
    && ltb_ℤ s.extend_count s.config.max_extend_count

-- The `else` branch: extend the auction if the bid came late.
unfoldable pub extend_or_keep : RuntimeState → PlaceBid → Outcome
extend_or_keep s c =
    if is_sniped s c.now_unix_ms
    then (reject_if
          (ltb_ℤ (sub64 max_redis_exact_integer s.config.anti_snipe_extend_ms) s.ends_at_unix_ms)
          (runtime_reject invalid_argument)
        >> ok (
          record s {
            ends_at_unix_ms = add64 s.ends_at_unix_ms s.config.anti_snipe_extend_ms;
            extend_count = add32 s.extend_count (pos 1);
            status = extended;
          },
          none,
        ))
    else ok (s, none)

unfoldable pub settle_or_extend : RuntimeState → PlaceBid → Outcome
settle_or_extend s c =
    if reaches_cap s.config.cap_price_fen c.amount_fen
    then (reject_if (is_blank c.order_id) (runtime_reject invalid_argument)
        >> (let next =
              settle_runtime_state s c.user_id c.nickname c.amount_fen c.order_id c.now_unix_ms in
            ok (
              next,
              some (
                  runtime_order_draft next c.order_id c.user_id c.nickname c.amount_fen
                    c.now_unix_ms),
            )))
    else extend_or_keep s c

unfoldable pub accepted_bid : PlaceBid → AcceptedBid
accepted_bid c = record {
  bid_id = c.bid_id;
  user_id = c.user_id;
  nickname = c.nickname;
  avatar_url = c.avatar_url;
  amount_fen = c.amount_fen;
  accepted_at_unix_ms = c.now_unix_ms;
}

unfoldable pub record_bid : Externals → RuntimeState → PlaceBid → Decision
record_bid x s c = settle_or_extend (raised_state s c) c >>= λ r.
    new_runtime_decision x c.meta place_bid s.version r.0 (some (accepted_bid c)) r.1 c.now_unix_ms

unfoldable pub decide_place_bid : Externals → RuntimeState → PlaceBid → Decision
decide_place_bid x s c = do
  validate_runtime_state s
  reject_if
      (any (
        not (is_redis_exact_positive c.now_unix_ms)
        ∷ not (is_redis_exact_non_negative c.amount_fen)
        ∷ is_blank c.bid_id
        ∷ is_blank c.user_id
        ∷ is_blank c.nickname
        ∷ is_blank c.meta.idempotency_key
        ∷ eqb_ℤ s.version max_redis_exact_integer
        ∷ eqb_ℤ s.bid_count max_redis_exact_integer
        ∷ []))
      (runtime_reject invalid_argument)
  reject_if (leb_ℤ c.ranking_limit (pos 0) || ltb_ℤ (pos max_runtime_ranking_limit) c.ranking_limit)
      (runtime_reject invalid_argument)
  accepts_bids s.status
  reject_if (ltb_ℤ (sub64 max_redis_exact_integer s.config.min_increment_fen) s.current_price_fen)
      (runtime_reject invalid_argument)
  let minimum_bid = add64 s.current_price_fen s.config.min_increment_fen
  reject_if (ltb_ℤ (pos 0) s.ends_at_unix_ms && leb_ℤ s.ends_at_unix_ms c.now_unix_ms)
      (bid_rejection bid_ended s minimum_bid)
  reject_if (not (str_eq c.currency s.config.currency)) (runtime_reject bid_currency_mismatch)
  reject_if (str_eq s.leading_user_id c.user_id) (runtime_reject bid_already_leading)
  reject_if (ltb_ℤ c.amount_fen minimum_bid) (bid_rejection bid_too_low s minimum_bid)
  record_bid x s c
