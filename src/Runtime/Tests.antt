-- ===== src/Runtime/Tests.antt =====
-- One auction, from its start to its sale: tests of the decisions, and the theorems at its states.
use byte_danceliveauctioni.Base.{
  inl, ℕ, ◌+◌, ◌*◌, ◌≤◌, ◌≡◌, refl, Bool, true, String, List, [], ◌∷◌, none, some, ◌≢◌, ◌↔◌, ok,
  err, arith,
}
use byte_danceliveauctioni.Base.Int.{pos, pos_part, add64, sub64, add32}
use byte_danceliveauctioni.Base.Text.{str_eq, is_empty, is_blank, trim_space}
use byte_danceliveauctioni.Proto.{extended, settled, failed, queued, start_lot}
use byte_danceliveauctioni.Contract.Checks.{Externals}
use byte_danceliveauctioni.Contract.Fact.{validate_runtime_fact}
use byte_danceliveauctioni.Runtime.Types.{
  RuntimeState, RuntimeConfig, RankingEntry, CommandMeta, StartLot, PlaceBid, CancelLot,
  CloseIfExpired, RuntimeDecision, Decision, rejected, runtime_reject, bid_too_low,
  bid_already_leading,
}
use byte_danceliveauctioni.Runtime.Ranking.{bid_entry, update_runtime_ranking}
use byte_danceliveauctioni.Runtime.Ranking.Update.{IsLedBy, update_runtime_ranking-IsLedBy}
use byte_danceliveauctioni.Runtime.Validate.{
  validate_runtime_state, validate_runtime_config, is_runtime_terminal, is_redis_exact_positive,
  is_redis_exact_non_negative,
}
use byte_danceliveauctioni.Runtime.Fact.{
  new_runtime_decision, runtime_fact, runtime_order_draft, runtime_state_proto,
}
use byte_danceliveauctioni.Runtime.Settle.{settle_runtime_state}
use byte_danceliveauctioni.Runtime.Start.{decide_start_lot, started_state}
use byte_danceliveauctioni.Runtime.Bid.{
  decide_place_bid, accepts_bids, contains, add_participant, raised_state, settle_or_extend,
  extend_or_keep, is_sniped, reaches_cap, record_bid, accepted_bid,
}
use byte_danceliveauctioni.Runtime.Close.{
  decide_cancel_lot, cancelled_state, decide_close_if_expired, fail_or_settle, failed_state,
}
use byte_danceliveauctioni.Runtime.Sync.{decide_sync_lot_config, synced_state, cap_is_reached}
use byte_danceliveauctioni.Runtime.Machine.{Command, place, close, decide, run}
use byte_danceliveauctioni.Runtime.Machine.Invariant.{
  IsWellFormed, step-IsWellFormed, run-IsWellFormed,
}
use byte_danceliveauctioni.Base.Text.{len}
use byte_danceliveauctioni.Base.Text.Order.{str_lt}
use byte_danceliveauctioni.Base.Int.{wrap32}
use byte_danceliveauctioni.Runtime.Start.{may_start}
use byte_danceliveauctioni.Runtime.Ranking.{limit_entries, replace_or_append, mask_buyer_nickname}
use byte_danceliveauctioni.Runtime.Validate.{
  valid_entry, valid_cap, valid_runtime_currency, valid_runtime_status,
}
use byte_danceliveauctioni.Runtime.Fact.{ranking_proto_from, ranking_item}
use byte_danceliveauctioni.Contract.Fact.{validate_state_after, validate_size, valid_optional}
use byte_danceliveauctioni.Contract.State.{
  validate_fact_state, validate_status_fields, valid_cap_price, valid_ranking_from,
}
use byte_danceliveauctioni.Contract.Command.{
  validate_fact_command, validate_command_result, validate_accepted_bid, validate_order_draft,
  validate_draft_fields,
}
use byte_danceliveauctioni.Contract.Checks.{
  valid_required_text, valid_redis_positive, valid_redis_non_negative, valid_currency,
  validate_event_id,
}
use byte_danceliveauctioni.Runtime.Ranking.Best.{
  IsBestOf, of_others, update_runtime_ranking-IsBestOf,
}
use byte_danceliveauctioni.Runtime.Ranking.{sort_entries, ranks_before, insert_entry}
use byte_danceliveauctioni.Runtime.Bid.Effects.{RaisedBy, decide_place_bid-RaisedBy}
use byte_danceliveauctioni.Runtime.Machine.Invariant.{decide_start_lot-IsWellFormed}
use byte_danceliveauctioni.Runtime.Machine.Terminal.{terminal_absorbs}
use byte_danceliveauctioni.Runtime.Machine.Forward.{Progress, accepted-Progress, run-Progress}
use byte_danceliveauctioni.Runtime.Machine.Sale.{
  SaleOrNot, accepted-SaleOrNot, decide_close_if_expired-status,
}
use byte_danceliveauctioni.Runtime.Bid.Cap.{CapOutcome, decide_place_bid-CapOutcome}
use byte_danceliveauctioni.Runtime.Machine.Deadline.{deadline}
use byte_danceliveauctioni.Runtime.Close.Accepts.{decide_cancel_lot-accepts, cancel_fact}

-- A parser that takes every text for a UUID of version 7, and an encoder of 100 bytes.
abbrev lenient : Externals
lenient = record {
  parse_uuid = λ s. some (record { version = 7; text = s });
  encoded_size = λ f. some 100;
}

abbrev vase : RuntimeConfig
vase = record {
  lot_id = "lot-1";
  room_id = "room-1";
  main_account_id = "acc-1";
  title = "vase";
  image_url = "";
  config_version = pos 1;
  currency = "CNY";
  start_price_fen = pos 1000;
  min_increment_fen = pos 100;
  cap_price_fen = some (pos 5000);
  duration_ms = pos 60000;
  anti_snipe_window_ms = pos 10000;
  anti_snipe_extend_ms = pos 15000;
  max_extend_count = pos 3;
}

abbrev meta : String → CommandMeta
meta id = record { event_id = id; trace_id = ""; idempotency_key = id }

abbrev opening : StartLot
opening = record {
  meta = meta "e0";
  config = vase;
  previous_status = queued;
  previous_lot_version = pos 4;
  now_unix_ms = pos 1000000;
}

abbrev bid : String → ℕ → ℕ → PlaceBid
bid user amount now = record {
  meta = meta "e1";
  bid_id = "b1";
  user_id = user;
  nickname = user;
  avatar_url = "";
  amount_fen = pos amount;
  currency = "CNY";
  order_id = "order-1";
  ranking_limit = pos 10;
  now_unix_ms = pos now;
}

abbrev fresh : RuntimeState
fresh = started_state opening

-- A test that unfolds this runs all that the decisions call.
machine : Bool
unfolding decide_start_lot started_state may_start decide_place_bid accepts_bids raised_state
    add_participant contains settle_or_extend reaches_cap extend_or_keep is_sniped record_bid
    accepted_bid decide_cancel_lot cancelled_state decide_close_if_expired fail_or_settle
    failed_state decide_sync_lot_config synced_state cap_is_reached settle_runtime_state
    update_runtime_ranking bid_entry limit_entries replace_or_append sort_entries insert_entry
    ranks_before mask_buyer_nickname str_lt validate_runtime_config validate_runtime_state
    valid_entry valid_cap valid_runtime_currency valid_runtime_status is_runtime_terminal
    is_redis_exact_positive is_redis_exact_non_negative new_runtime_decision runtime_fact
    runtime_order_draft runtime_state_proto ranking_proto_from ranking_item validate_runtime_fact
    validate_state_after validate_size valid_optional validate_fact_state validate_status_fields
    valid_cap_price valid_ranking_from validate_fact_command validate_command_result
    validate_accepted_bid validate_order_draft validate_draft_fields valid_required_text
    valid_redis_positive valid_redis_non_negative valid_currency validate_event_id add64 sub64 add32
    wrap32 str_eq len is_empty is_blank trim_space decide
machine = true

abbrev state_of : Decision → RuntimeState
state_of (ok d) = d.state
state_of (err e) = fresh

opens : state_of (decide_start_lot lenient opening) ≡ fresh
unfolding machine
opens = refl

abbrev decision_of : (r : Decision) → (d : RuntimeDecision) → RuntimeDecision
decision_of (ok d) _ = d
decision_of (err e) d = d

abbrev opened : RuntimeDecision
unfolding machine
opened = record {
  state = fresh;
  fact = runtime_fact opening.meta start_lot (pos 4) fresh none none opening.now_unix_ms;
}

opens_with : decide_start_lot lenient opening ≡ ok opened
unfolding machine
opens_with = refl

fresh-IsWellFormed : IsWellFormed fresh
unfolding machine
fresh-IsWellFormed = decide_start_lot-IsWellFormed lenient opening opens_with

-- Ann bids, Bob bids late and moves the end, and Ann reaches the cap.
abbrev ann_bids : PlaceBid
ann_bids = bid "ann" 1100 1001000

abbrev bob_bids : PlaceBid
bob_bids = bid "bob" 1300 1055000

abbrev ann_wins : PlaceBid
ann_wins = bid "ann" 5000 1060000

abbrev first : RuntimeDecision
first = decision_of (decide_place_bid lenient fresh ann_bids) opened

first_ok : decide_place_bid lenient fresh ann_bids ≡ ok first
unfolding machine
first_ok = refl

abbrev second : RuntimeDecision
second = decision_of (decide_place_bid lenient first.state bob_bids) opened

second_ok : decide_place_bid lenient first.state bob_bids ≡ ok second
unfolding machine
second_ok = refl

abbrev third : RuntimeDecision
third = decision_of (decide_place_bid lenient second.state ann_wins) opened

third_ok : decide_place_bid lenient second.state ann_wins ≡ ok third
unfolding machine
third_ok = refl

late_bid_extends :
    (second.state.ends_at_unix_ms ≡ pos 1075000)
    × (second.state.status ≡ extended)
    × (third.state.status ≡ settled)
    × (third.state.final_price_fen ≡ pos 5000)
unfolding machine
late_bid_extends = (refl, refl, refl, refl)

-- A bid at the current price is too low, the leader cannot bid again, and after the end nobody can.
too_low :
    decide_place_bid lenient first.state (bid "bob" 1150 1002000)
    ≡ err (
        rejected (record {
          code = bid_too_low;
          ends_at_unix_ms = pos 1060000;
          current_price = pos 1100;
          min_increment = pos 0;
          minimum_bid = pos 1200;
          lot_version = pos 0;
        }))
unfolding machine
too_low = refl

leader_again :
    decide_place_bid lenient first.state (bid "ann" 1500 1002000)
    ≡ err (runtime_reject bid_already_leading)
unfolding machine
leader_again = refl

abbrev expiry : CloseIfExpired
expiry = record { meta = meta "e9"; order_id = "order-9"; now_unix_ms = pos 1080000 }

abbrev sold : RuntimeDecision
sold = decision_of (decide_close_if_expired lenient second.state expiry) opened

sold_ok : decide_close_if_expired lenient second.state expiry ≡ ok sold
unfolding machine
sold_ok = refl

abbrev story : List Command
story = place ann_bids ∷ place bob_bids ∷ close expiry ∷ []

abbrev withdrawal : CancelLot
withdrawal = record {
  meta = meta "e8";
  reason = "damaged";
  operator_id = "op";
  now_unix_ms = pos 1002000;
}

decide_place_bid-RaisedBy_example : RaisedBy first.state bob_bids second.state
decide_place_bid-RaisedBy_example = decide_place_bid-RaisedBy lenient first.state bob_bids second_ok

first-IsWellFormed : IsWellFormed first.state
unfolding machine
first-IsWellFormed = step-IsWellFormed lenient fresh (place ann_bids) fresh-IsWellFormed

run-IsWellFormed_example : IsWellFormed (run lenient fresh story)
run-IsWellFormed_example = run-IsWellFormed lenient fresh story fresh-IsWellFormed

terminal_absorbs_example : run lenient third.state story ≡ third.state
unfolding machine
terminal_absorbs_example = terminal_absorbs lenient third.state story (inl refl)

accepted-Progress_example :
    Progress first.state second.state
    × (pos_part second.state.version ≡ pos_part first.state.version + 1)
unfolding machine
accepted-Progress_example = accepted-Progress lenient first.state (place bob_bids) refl

run-Progress_example : Progress fresh (run lenient fresh story)
run-Progress_example = run-Progress lenient fresh story

accepted-SaleOrNot_example : SaleOrNot third.state third.fact.order_draft
unfolding machine
accepted-SaleOrNot_example =
    accepted-SaleOrNot lenient second.state (place ann_wins) {d = third} refl

decide_place_bid-CapOutcome_example :
    CapOutcome second.state ann_wins third.state third.fact.order_draft
unfolding machine
decide_place_bid-CapOutcome_example =
    decide_place_bid-CapOutcome lenient second.state ann_wins {d = third} refl

second-IsWellFormed : IsWellFormed second.state
unfolding machine
second-IsWellFormed = step-IsWellFormed lenient first.state (place bob_bids) first-IsWellFormed

decide_close_if_expired-status_example :
    (pos_part second.state.ends_at_unix_ms ≤ 1080000)
    × (second.state.bid_count ≡ pos 0 → sold.state.status ≡ failed)
    × (second.state.bid_count ≢ pos 0 → sold.state.status ≡ settled)
decide_close_if_expired-status_example =
    decide_close_if_expired-status lenient second.state expiry second-IsWellFormed sold_ok

deadline_example : pos_part (run lenient fresh story).ends_at_unix_ms ≤ 1000000 + 60000 + 3 * 15000
unfolding started_state opened
deadline_example =
    deadline lenient opening {d = opened} story (omega arith) opens_with
      ((λ h. h), ((λ h. h), ((λ h. h), tt)))

decide_cancel_lot-accepts_example :
    decide_cancel_lot lenient first.state withdrawal
    ≡ ok (record {
      state = cancelled_state first.state withdrawal;
      fact = cancel_fact first.state withdrawal;
    })
unfolding machine
decide_cancel_lot-accepts_example =
    decide_cancel_lot-accepts lenient first.state withdrawal refl refl (omega arith) (omega arith)
      refl refl (record { event = refl; trace = refl; lot = refl; room = refl; state = refl }) refl

abbrev ann_entry : RankingEntry
ann_entry = record {
  user_id = "ann";
  masked_nickname = "a***";
  avatar_url = "";
  amount_fen = pos 1100;
  bid_at_unix_ms = pos 5;
}

abbrev bob_entry : RankingEntry
bob_entry = record {
  user_id = "bob";
  masked_nickname = "b***";
  avatar_url = "";
  amount_fen = pos 1300;
  bid_at_unix_ms = pos 7;
}

update_runtime_ranking-IsBestOf_example :
    (bid_entry bob_bids ∷ ann_entry ∷ []
      ≡ update_runtime_ranking (ann_entry ∷ []) bob_bids (pos 10))
    ↔ IsBestOf 10
        (bid_entry bob_bids ∷ of_others bob_bids.user_id (ann_entry ∷ []))
        (bid_entry bob_bids ∷ ann_entry ∷ [])
update_runtime_ranking-IsBestOf_example =
    update_runtime_ranking-IsBestOf (ann_entry ∷ []) (bid_entry bob_bids ∷ ann_entry ∷ []) bob_bids
      10 (tt, tt)

update_runtime_ranking-IsLedBy_example :
    IsLedBy (bid_entry bob_bids) 10 (update_runtime_ranking (ann_entry ∷ []) bob_bids (pos 10))
update_runtime_ranking-IsLedBy_example =
    update_runtime_ranking-IsLedBy (ann_entry ∷ []) bob_bids (tt, tt) (omega arith, tt)
      (omega arith)
