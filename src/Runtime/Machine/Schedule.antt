-- ===== src/Runtime/Machine/Schedule.antt =====
-- The end of an auction as its start, its duration and its extensions, and how one decision moves it.
use byte_danceliveauctioni.Base.{
  ◌+◌, ◌*◌, ◌^◌, ◌≤◌, ◌<◌, ◌≡◌, refl, true, false, Option, ◌⊎◌, inl, inr, ok, Bool-cases, arith,
}
use byte_danceliveauctioni.Base.Int.{
  ℤ, pos, pos_part, neg_part, ltb_ℤ, add64, sub64, add32, add64_pos, add32_pos,
}
use byte_danceliveauctioni.Proto.{OrderDraft}
use byte_danceliveauctioni.Contract.Checks.{Externals, max_redis_exact_integer}
use byte_danceliveauctioni.Runtime.Types.{
  RuntimeState, StartLot, PlaceBid, CloseIfExpired, RuntimeDecision,
}
use byte_danceliveauctioni.Runtime.Validate.Facts.{
  IsExact, IsExactPositive, IsValidConfig, validate_runtime_config-IsValidConfig,
  IsExactPositive-of_test,
}
use byte_danceliveauctioni.Runtime.Fact.{new_runtime_decision}
use byte_danceliveauctioni.Runtime.Settle.{settle_runtime_state}
use byte_danceliveauctioni.Runtime.Start.{decide_start_lot, started_state}
use byte_danceliveauctioni.Runtime.Bid.{settle_or_extend, extend_or_keep, is_sniped, reaches_cap}
use byte_danceliveauctioni.Runtime.Close.{fail_or_settle, failed_state}

-- The end is the start, the duration and one extension for each late bid, within the limit.
pub record IsScheduled (s : RuntimeState) : Type 0 where
  pub end :
      pos_part s.ends_at_unix_ms
      ≡ pos_part s.started_at_unix_ms
        + pos_part s.config.duration_ms
        + pos_part s.extend_count * pos_part s.config.anti_snipe_extend_ms
  pub capped : pos_part s.extend_count ≤ pos_part s.config.max_extend_count
  pub counted : neg_part s.extend_count ≡ 0
  pub limit : pos_part s.config.max_extend_count < 2 ^ 31

pub decide_start_lot-IsScheduled :
    (x : Externals) (c : StartLot) {d : RuntimeDecision}
    → pos_part c.config.max_extend_count < 2 ^ 31
    → decide_start_lot x c ≡ ok d
    → IsScheduled d.state
unfolding decide_start_lot new_runtime_decision started_state
decide_start_lot-IsScheduled x c {d} l h =
    let e : d.state ≡ started_state c = ground arith in
    let v : IsValidConfig c.config =
      validate_runtime_config-IsValidConfig c.config (ground arith) in
    let now : IsExactPositive c.now_unix_ms = IsExactPositive-of_test _ (ground arith) in
    rw e (record {
      end = omega (
        arith,
        add64_pos c.now_unix_ms c.config.duration_ms now.not_negative v.duration.not_negative
            (omega arith),
      );
      capped = omega arith;
      counted = refl;
      limit = l;
    })

is_sniped-room :
    (s : RuntimeState) (now : ℤ)
    → is_sniped s now ≡ true
    → ltb_ℤ s.extend_count s.config.max_extend_count ≡ true
unfolding is_sniped
is_sniped-room s now h = ground arith

-- Either the end stays, or it moves by one extension.
extend_or_keep-cases :
    (s : RuntimeState) (c : PlaceBid) {r : RuntimeState × Option OrderDraft}
    → extend_or_keep s c ≡ ok r
    → (r.0 ≡ s)
      ⊎ ((is_sniped s c.now_unix_ms ≡ true)
          × (ltb_ℤ (sub64 max_redis_exact_integer s.config.anti_snipe_extend_ms) s.ends_at_unix_ms
              ≡ false)
          × (r.0.ends_at_unix_ms ≡ add64 s.ends_at_unix_ms s.config.anti_snipe_extend_ms)
          × (r.0.extend_count ≡ add32 s.extend_count (pos 1))
          × (r.0.config ≡ s.config)
          × (r.0.started_at_unix_ms ≡ s.started_at_unix_ms))
unfolding extend_or_keep
extend_or_keep-cases s c h = elim (Bool-cases (is_sniped s c.now_unix_ms)) [
  | inl late ↦ inr (late, ground arith, ground arith, ground arith, ground arith, ground arith)
  | inr soon ↦ inl (ground arith)
]

module _ (s : RuntimeState) (v : IsValidConfig s.config) (ends : IsExact s.ends_at_unix_ms)
    (w : IsScheduled s) where
  extended-IsScheduled :
      (t : RuntimeState)
      → ltb_ℤ s.extend_count s.config.max_extend_count ≡ true
      → ltb_ℤ (sub64 max_redis_exact_integer s.config.anti_snipe_extend_ms) s.ends_at_unix_ms
        ≡ false
      → t.ends_at_unix_ms ≡ add64 s.ends_at_unix_ms s.config.anti_snipe_extend_ms
      → t.extend_count ≡ add32 s.extend_count (pos 1)
      → t.config ≡ s.config
      → t.started_at_unix_ms ≡ s.started_at_unix_ms
      → IsScheduled t
  extended-IsScheduled t room fits e n c b =
      let left : pos_part s.extend_count < pos_part s.config.max_extend_count =
        ground (arith, w.counted, v.max_extend) in
      let count = add32_pos s.extend_count (pos 1) w.counted refl (omega (arith, w.limit)) in
      let moved =
        add64_pos s.ends_at_unix_ms s.config.anti_snipe_extend_ms ends.not_negative
          v.extend.not_negative (omega (arith, ends.in_range, v.extend.in_range)) in
      record {
        end = rw (e, c, b, n) (rw (moved.1, count.1) (omega (arith, w.end)));
        capped = rw (c, n) (rw count.1 (omega arith));
        counted = rw n count.0;
        limit = rw c w.limit;
      }

pub same_schedule :
    (s t : RuntimeState)
    → t.ends_at_unix_ms ≡ s.ends_at_unix_ms
    → t.started_at_unix_ms ≡ s.started_at_unix_ms
    → t.extend_count ≡ s.extend_count
    → t.config ≡ s.config
    → IsScheduled s
    → IsScheduled t
same_schedule s t e b n c w = record {
  end = rw (e, c, b, n) w.end;
  capped = rw (c, n) w.capped;
  counted = rw n w.counted;
  limit = rw c w.limit;
}

-- The end, the start, the extensions and the configuration stay.
abbrev pub SameSchedule : RuntimeState → RuntimeState → Type 0
SameSchedule s t =
    (t.ends_at_unix_ms ≡ s.ends_at_unix_ms)
    × (t.started_at_unix_ms ≡ s.started_at_unix_ms)
    × (t.extend_count ≡ s.extend_count)
    × (t.config ≡ s.config)

settle_or_extend-cases :
    (s : RuntimeState) (c : PlaceBid) {r : RuntimeState × Option OrderDraft}
    → settle_or_extend s c ≡ ok r
    → SameSchedule s r.0 ⊎ (extend_or_keep s c ≡ ok r)
unfolding settle_or_extend settle_runtime_state
settle_or_extend-cases s c h = elim (Bool-cases (reaches_cap s.config.cap_price_fen c.amount_fen)) [
  | inl sold ↦ inl (ground arith, ground arith, ground arith, ground arith)
  | inr unsold ↦ inr (ground arith)
]

pub fail_or_settle-SameSchedule :
    (s : RuntimeState) (c : CloseIfExpired) {r : RuntimeState × Option OrderDraft}
    → fail_or_settle s c ≡ ok r
    → SameSchedule s r.0
unfolding fail_or_settle failed_state settle_runtime_state
fail_or_settle-SameSchedule s c h = ground arith

pub settle_or_extend-IsScheduled :
    (s : RuntimeState) (c : PlaceBid) {r : RuntimeState × Option OrderDraft}
    → IsValidConfig s.config
    → IsExact s.ends_at_unix_ms
    → IsScheduled s
    → settle_or_extend s c ≡ ok r
    → IsScheduled r.0
settle_or_extend-IsScheduled s c {r} v e w h = elim (settle_or_extend-cases s c h) [
  | inl k ↦ same_schedule s r.0 k.0 k.1 k.2 k.3 w
  | inr k ↦ elim (extend_or_keep-cases s c k) [
    | inl same ↦ rw same w
    | inr m ↦
        extended-IsScheduled s v e w r.0 (is_sniped-room s c.now_unix_ms m.0) m.1 m.2 m.3 m.4 m.5
  ]
]
