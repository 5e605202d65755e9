-- ===== src/Runtime/Machine/Forward.antt =====
-- An auction only moves forward: the version, the price and the number of bids never fall.
use byte_danceliveauctioni.Base.{◌+◌, ◌≤◌, ◌≡◌, refl, ◌∙◌, List, [], ◌∷◌, Option, ok, err, arith}
use byte_danceliveauctioni.Base.Int.{pos, pos_part, add64, add64_pos}
use byte_danceliveauctioni.Proto.{OrderDraft}
use byte_danceliveauctioni.Contract.Checks.{Externals}
use byte_danceliveauctioni.Runtime.Types.{RuntimeState, CloseIfExpired, RuntimeDecision, Decision}
use byte_danceliveauctioni.Runtime.Settle.{settle_runtime_state}
use byte_danceliveauctioni.Runtime.Close.{cancelled_state, fail_or_settle, failed_state}
use byte_danceliveauctioni.Runtime.Sync.{synced_state}
use byte_danceliveauctioni.Runtime.Machine.{Command, place, cancel, close, sync, decide, after, run}
use byte_danceliveauctioni.Runtime.Bid.Effects.{decide_place_bid-RaisedBy}
use byte_danceliveauctioni.Runtime.Close.Passed.{
  decide_cancel_lot-PassedCancel, decide_close_if_expired-PassedClose,
}
use byte_danceliveauctioni.Runtime.Sync.Passed.{decide_sync_lot_config-PassedSync}

-- From one state to a later one: an auction of the same lot and account moves forward, and the
-- version moves with every change.
pub record Progress (s t : RuntimeState) : Type 0 where
  pub version : pos_part s.version ≤ pos_part t.version
  pub price : pos_part s.current_price_fen ≤ pos_part t.current_price_fen
  pub bids : pos_part s.bid_count ≤ pos_part t.bid_count
  pub unchanged : pos_part s.version ≡ pos_part t.version → t ≡ s
  pub lot : t.config.lot_id ≡ s.config.lot_id
  pub room : t.config.room_id ≡ s.config.room_id
  pub account : t.config.main_account_id ≡ s.config.main_account_id
  pub currency : t.config.currency ≡ s.config.currency
  pub started : t.started_at_unix_ms ≡ s.started_at_unix_ms

Progress-refl : (s : RuntimeState) → Progress s s
Progress-refl s = record {
  version = omega arith;
  price = omega arith;
  bids = omega arith;
  unchanged = λ _. refl;
  lot = refl;
  room = refl;
  account = refl;
  currency = refl;
  started = refl;
}

Progress-trans : (s t u : RuntimeState) → Progress s t → Progress t u → Progress s u
Progress-trans s t u p q = record {
  version = omega arith;
  price = omega arith;
  bids = omega arith;
  unchanged = λ e. q.unchanged (omega arith) ∙ p.unchanged (omega arith);
  lot = q.lot ∙ p.lot;
  room = q.room ∙ p.room;
  account = q.account ∙ p.account;
  currency = q.currency ∙ p.currency;
  started = q.started ∙ p.started;
}

-- A step that changes neither the price, the bids, the configuration nor the start.
one_version_later :
    (s t : RuntimeState)
    → pos_part t.version ≡ pos_part s.version + 1
    → t.current_price_fen ≡ s.current_price_fen
    → t.bid_count ≡ s.bid_count
    → t.config ≡ s.config
    → t.started_at_unix_ms ≡ s.started_at_unix_ms
    → Progress s t × (pos_part t.version ≡ pos_part s.version + 1)
one_version_later s t v p b c e = (
  record {
    version = omega arith;
    price = rw p (omega arith);
    bids = rw b (omega arith);
    unchanged = λ same. absurd (omega (arith, v));
    lot = rw c refl;
    room = rw c refl;
    account = rw c refl;
    currency = rw c refl;
    started = e;
  },
  v,
)

fail_or_settle-fields :
    (s : RuntimeState) (c : CloseIfExpired) {r : RuntimeState × Option OrderDraft}
    → fail_or_settle s c ≡ ok r
    → (r.0.version ≡ add64 s.version (pos 1))
      × (r.0.current_price_fen ≡ s.current_price_fen)
      × (r.0.bid_count ≡ s.bid_count)
      × (r.0.config ≡ s.config)
      × (r.0.started_at_unix_ms ≡ s.started_at_unix_ms)
unfolding fail_or_settle failed_state settle_runtime_state
fail_or_settle-fields s c h = ground arith

-- One accepted decision raises the version by exactly one.
pub accepted-Progress :
    (x : Externals) (s : RuntimeState) (c : Command) {d : RuntimeDecision}
    → decide x s c ≡ ok d
    → Progress s d.state × (pos_part d.state.version ≡ pos_part s.version + 1)
unfolding decide
accepted-Progress x s (place c) {d} h =
    let r = decide_place_bid-RaisedBy x s c h in
    (
      record {
        version = omega arith;
        price = omega arith;
        bids = omega arith;
        unchanged = λ e. absurd (omega (arith, r.version));
        lot = rw r.config refl;
        room = rw r.config refl;
        account = rw r.config refl;
        currency = rw r.config refl;
        started = r.started;
      },
      r.version,
    )
accepted-Progress x s (cancel c) {d} h =
    let p = decide_cancel_lot-PassedCancel x s c h in
    let v = add64_pos s.version (pos 1) p.valid.version.not_negative refl (omega arith) in
    rw p.state (unfold cancelled_state in one_version_later s _ v.1 refl refl refl refl)
accepted-Progress x s (close c) {d} h =
    let p = decide_close_if_expired-PassedClose x s c h in
    let v = add64_pos s.version (pos 1) p.valid.version.not_negative refl (omega arith) in
    let f = fail_or_settle-fields s c p.outcome_of in
    rw p.state (one_version_later s p.outcome.0 (rw f.0 v.1) f.1 f.2 f.3 f.4)
accepted-Progress x s (sync c) {d} h =
    let p = decide_sync_lot_config-PassedSync x s c h in
    let v = add64_pos s.version (pos 1) p.valid.version.not_negative refl (omega arith) in
    rw p.state (
      record {
        version = unfold synced_state in omega arith;
        price = unfold synced_state in omega arith;
        bids = unfold synced_state in omega arith;
        unchanged = λ e. absurd (unfold synced_state in omega (arith, v.1));
        lot = unfold synced_state in p.same_lot;
        room = unfold synced_state in p.same_room;
        account = unfold synced_state in p.same_account;
        currency = unfold synced_state in p.same_currency;
        started = unfold synced_state in refl;
      },
      unfold synced_state in v.1,
    )

step-Progress :
    (x : Externals) (s : RuntimeState) (c : Command) (r : Decision)
    → decide x s c ≡ r
    → Progress s (after s r)
step-Progress x s c (ok d) h = (accepted-Progress x s c h).0
step-Progress x s c (err e) h = Progress-refl s

-- Along any commands the version, the price and the number of bids never fall, the lot, the room,
-- the account, the currency and the start stay, and a state with the same version is the same state.
pub run-Progress : (x : Externals) (s : RuntimeState) (cs : List Command) → Progress s (run x s cs)
unfolding run
run-Progress x s [] = Progress-refl s
run-Progress x s (c ∷ cs) =
    Progress-trans s (after s (decide x s c)) (run x (after s (decide x s c)) cs)
      (step-Progress x s c (decide x s c) refl) (run-Progress x (after s (decide x s c)) cs)
