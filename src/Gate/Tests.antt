-- ===== src/Gate/Tests.antt =====
-- A topic of two partitions, and a gate over it: tests, and the theorems at them.
use byte_danceliveauctioni.Base.{
  ℕ, ◌+◌, ◌*◌, ◌^◌, ◌≤◌, ◌≡◌, refl, true, false, List, [], ◌∷◌, some, ok, err,
}
use byte_danceliveauctioni.Base.Int.{ℤ, pos, sub64, add64, wrap64}
use byte_danceliveauctioni.Gate.Snapshot.{Config, Snapshot, retention_cliff, validate}
use byte_danceliveauctioni.Gate.Evaluate.{
  PartitionBounds, ProjectionOffset, PartitionMap, RecordSource, evaluate, lookup,
  offsets_are_known, check_offset, measured, measure, measure_offset, add_lag, max_ℤ, starts,
  with_ages, age_partitions, age_item, age_record, check_record, check_timestamp, aged,
  with_headroom, judged, first_snapshot,
}
use byte_danceliveauctioni.Gate.Evaluate.Healthy.{AllWithin, evaluate-AllWithin}
use byte_danceliveauctioni.Gate.Guard.{
  new_guard, Readings, refresh, judge, conclude, publish, published, polls_before, polls_after,
  effective, snapshot_age, status,
}
use byte_danceliveauctioni.Gate.Guard.Opening.{
  Event, refreshed, asked, run, step, healthy_streak, run-status-ready,
}

abbrev config : Config
config = record {
  refresh_interval = 2 * 10 ^ 9;
  refresh_timeout = 10 ^ 9;
  max_staleness = 6 * 10 ^ 9;
  max_lag_records = pos 1000;
  max_oldest_age = 30 * 10 ^ 9;
  runtime_topic_retention = 100 * 10 ^ 9;
  min_retention_headroom = 10 * 10 ^ 9;
  healthy_polls_to_open = 2;
}

config_is_valid : validate config ≡ ok tt
unfolding validate
config_is_valid = refl

abbrev bounds : PartitionMap PartitionBounds
bounds =
    (pos 0, record { earliest = pos 0; latest = pos 5 })
    ∷ (pos 1, record { earliest = pos 2; latest = pos 9 })
    ∷ []

abbrev at : ℤ → ProjectionOffset
at n = record { next_offset = n; updated_at_ms = pos 1 }

abbrev offsets : PartitionMap ProjectionOffset
offsets = (pos 0, at (pos 5)) ∷ (pos 1, at (pos 7)) ∷ []

abbrev source : RecordSource
source wanted = ok ((pos 1, record { offset = pos 7; timestamp = some (pos (99 * 10 ^ 9)) }) ∷ [])

abbrev now : ℕ
now = 100 * 10 ^ 9

abbrev seen : Snapshot
seen = record (first_snapshot config now bounds) {
  total_lag_records = pos 2;
  max_partition_lag_records = pos 2;
  oldest_age_ms = 1000;
  retention_headroom_ms = 99000;
  partitions =
      record {
        partition = pos 0;
        earliest = pos 0;
        database_next = pos 5;
        latest = pos 5;
        lag_records = pos 0;
        oldest_age_ms = 0;
        oldest_timestamp = pos 0;
      }
      ∷ record {
        partition = pos 1;
        earliest = pos 2;
        database_next = pos 7;
        latest = pos 9;
        lag_records = pos 2;
        oldest_age_ms = 1000;
        oldest_timestamp = pos 99000;
      }
      ∷ [];
}

evaluate-seen : evaluate config now source bounds offsets ≡ ok seen
unfolding evaluate lookup offsets_are_known check_offset measured measure measure_offset add_lag
    max_ℤ starts with_ages age_partitions age_item age_record check_record check_timestamp aged
    with_headroom judged first_snapshot sub64 add64 wrap64
evaluate-seen = refl

evaluate-AllWithin_example :
    (offsets_are_known bounds offsets ≡ true) × AllWithin (pos 1000) offsets bounds
unfolding first_snapshot
evaluate-AllWithin_example =
    evaluate-AllWithin config now source bounds offsets seen evaluate-seen refl

behind_retention :
    check_offset (record { earliest = pos 8; latest = pos 9 }) (some (at (pos 7)))
    ≡ err retention_cliff
unfolding check_offset
behind_retention = refl

abbrev readings : Readings
readings = record {
  cancelled = false;
  bounds = ok bounds;
  offsets = ok offsets;
  source = source;
  evaluated_at = now;
  published_at = now;
}

abbrev events : List Event
events = refreshed readings ∷ asked now ∷ refreshed readings ∷ []

run-status-ready_example :
    (2 ≤ healthy_streak config events 0)
    × (snapshot_age (run config events new_guard).snapshot (now + 5) ≤ 6 * 10 ^ 9)
unfolding run step refresh conclude publish published polls_before polls_after judge status
    effective snapshot_age evaluate lookup offsets_are_known check_offset measured measure
    measure_offset add_lag max_ℤ starts with_ages age_partitions age_item age_record check_record
    check_timestamp aged with_headroom judged first_snapshot sub64 add64 wrap64
run-status-ready_example = run-status-ready config events (now + 5) refl
