-- ===== src/Gate/Guard.antt =====
-- projectiongate/guard.go: publish, freeze, effective, Status, Check and Refresh of the gate.
pub mod Opening
use byte_danceliveauctioni.Base.{
  ℕ, zero, suc, ◌+◌, ◌-◌, ◌*◌, ◌/◌, Bool, true, false, not, ◌&&◌, ◌||◌, List, [], ◌∷◌, ltb, ◌==◌,
  if◌then◌else◌, Result, ok, err, String, Option, none, some,
}
use byte_danceliveauctioni.Base.Int.{pos}
use byte_danceliveauctioni.Gate.Snapshot.{
  Reason, kafka_unavailable, mysql_unavailable, uninitialized, healthy, recovering, snapshot_stale,
  Config, Snapshot, is_healthy, is_recovering, is_stale, millisecond, unix_milli,
}
use byte_danceliveauctioni.Gate.Evaluate.{
  PartitionBounds, ProjectionOffset, PartitionMap, RecordSource, evaluate,
}

pub record Guard : Type 0 where
  pub snapshot : Snapshot
  pub consecutive_healthy : ℕ

abbrev pub empty_snapshot : Snapshot
empty_snapshot = record {
  ready = false;
  reason = uninitialized;
  checked_at_ms = 0;
  last_successful_check_at_ms = 0;
  partition_count = 0;
  total_lag_records = pos 0;
  max_partition_lag_records = pos 0;
  oldest_age_ms = 0;
  retention_headroom_ms = 0;
  snapshot_age_ms = 0;
  consecutive_healthy_polls = 0;
  partitions = [];
}

abbrev pub new_guard : Guard
new_guard = record { snapshot = empty_snapshot; consecutive_healthy = 0 }

-- The age of the last successful check, which is 0 where the clock runs behind.
unfoldable pub snapshot_age : Snapshot → ℕ → ℕ
snapshot_age s now = now - s.last_successful_check_at_ms * millisecond

unfoldable pub effective : Config → Snapshot → ℕ → Snapshot
effective c s now =
    let aged : Snapshot = record s { snapshot_age_ms = snapshot_age s now / millisecond } in
    if s.last_successful_check_at_ms == 0
    then record s { ready = false }
    else if ltb c.max_staleness (snapshot_age s now) && (s.ready || is_recovering s.reason)
    then record aged { ready = false; reason = snapshot_stale }
    else aged

-- The count of healthy polls before the candidate: none after the snapshot went stale.
unfoldable pub polls_before : Guard → Snapshot → ℕ
polls_before g previous = if is_stale previous.reason then 0 else g.consecutive_healthy

unfoldable pub polls_after : Config → Guard → Snapshot → ℕ
polls_after c g previous =
    if previous.ready then c.healthy_polls_to_open else polls_before g previous + 1

unfoldable pub published : Config → Snapshot → ℕ → ℕ → Snapshot
published c candidate polls now = record candidate {
  checked_at_ms = unix_milli now;
  last_successful_check_at_ms = unix_milli now;
  ready = is_healthy candidate.reason && not (ltb polls c.healthy_polls_to_open);
  reason =
      if is_healthy candidate.reason && ltb polls c.healthy_polls_to_open
      then recovering
      else candidate.reason;
  consecutive_healthy_polls = polls;
}

unfoldable pub publish : Config → Guard → Snapshot → ℕ → Guard
publish c g candidate now =
    let previous = effective c g.snapshot now in
    let polls = if is_healthy candidate.reason then polls_after c g previous else 0 in
    record { snapshot = published c candidate polls now; consecutive_healthy = polls }

unfoldable pub freeze : Guard → Reason → ℕ → Guard
freeze g reason now = record {
  snapshot = record (g.snapshot) {
    ready = false;
    reason = reason;
    checked_at_ms = unix_milli now;
    consecutive_healthy_polls = 0;
    snapshot_age_ms =
        if g.snapshot.last_successful_check_at_ms == 0
        then g.snapshot.snapshot_age_ms
        else snapshot_age g.snapshot now / millisecond;
  };
  consecutive_healthy = 0;
}

-- Status gives the effective snapshot, and remembers that it went stale.
unfoldable pub status : Config → Guard → ℕ → Guard × Snapshot
status c g now =
    let seen = effective c g.snapshot now in
    let stale : Snapshot = record seen { consecutive_healthy_polls = 0 } in
    if is_stale seen.reason && not (is_stale g.snapshot.reason)
    then (record { snapshot = stale; consecutive_healthy = 0 }, stale)
    else (g, seen)

-- `closed reason` is the error that the commands get.
pub data Closed : Type 0 where
  closed : Reason → Closed

unfoldable pub check : Config → Guard → ℕ → Result Closed (Unit {0})
check c g now =
    let seen = (status c g now).1 in if seen.ready then ok tt else err (closed seen.reason)

-- What a refresh reads; the times are those of the evaluation and of the publication.
pub record Readings : Type 0 where
  pub cancelled : Bool
  pub bounds : Result String (PartitionMap PartitionBounds)
  pub offsets : Result String (PartitionMap ProjectionOffset)
  pub source : RecordSource
  pub evaluated_at : ℕ
  pub published_at : ℕ

-- The judgement of a refresh: a candidate, or the reason for which the gate freezes.
unfoldable pub evaluated : Result String Snapshot → Result Reason Snapshot
evaluated (err why) = err kafka_unavailable
evaluated (ok candidate) = ok candidate

unfoldable pub judge_offsets :
    Config
    → Readings
    → PartitionMap PartitionBounds
    → Result String (PartitionMap ProjectionOffset)
    → Result Reason Snapshot
judge_offsets c r bounds (err why) = err mysql_unavailable
judge_offsets c r bounds (ok offsets) =
    evaluated (evaluate c r.evaluated_at r.source bounds offsets)

unfoldable pub judge_bounds :
    Config → Readings → Result String (PartitionMap PartitionBounds) → Result Reason Snapshot
judge_bounds c r (err why) = err kafka_unavailable
judge_bounds c r (ok bounds) = judge_offsets c r bounds r.offsets

unfoldable pub judge : Config → Readings → Result Reason Snapshot
unfolding judge_bounds judge_offsets evaluated
judge c r = judge_bounds c r r.bounds

unfoldable pub conclude :
    Config → Guard → ℕ → Result Reason Snapshot → Guard × Result Closed (Unit {0})
conclude c g now (err reason) = (freeze g reason now, err (closed reason))
conclude c g now (ok candidate) =
    let next = publish c g candidate now in
    (next, if next.snapshot.ready then ok tt else err (closed next.snapshot.reason))

-- A cancelled context changes nothing, and `none` is its error.
abbrev pub unless_cancelled :
    Bool → Guard → Guard × Result Closed (Unit {0}) → Guard × Option (Result Closed (Unit {0}))
unless_cancelled true g next = (g, none)
unless_cancelled false g next = (next.0, some next.1)

unfoldable pub refresh : Config → Readings → Guard → Guard × Option (Result Closed (Unit {0}))
refresh c r g = unless_cancelled r.cancelled g (conclude c g r.published_at (judge c r))
