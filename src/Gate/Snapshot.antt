-- ===== src/Gate/Snapshot.antt =====
-- projectiongate/types.go: reasons, configuration, and what the gate publishes. Durations and times are
-- nanoseconds; the fields that end in _ms are milliseconds.
use byte_danceliveauctioni.Base.{
  ℕ, ◌-◌, ◌/◌, Bool, true, false, ◌||◌, List, leb, ltb, ◌==◌, any, [], ◌∷◌, Result, reject_if, ◌>>◌,
}
use byte_danceliveauctioni.Base.Int.{ℤ, pos, leb_ℤ}

pub data Reason : Type 0 where
  uninitialized healthy recovering kafka_unavailable mysql_unavailable : Reason
  partition_mismatch offset_missing retention_cliff offset_ahead record_missing : Reason
  record_timestamp_invalid lag_limit oldest_age_limit retention_headroom snapshot_stale : Reason

pub record Config : Type 0 where
  pub refresh_interval : ℕ
  pub refresh_timeout : ℕ
  pub max_staleness : ℕ
  pub max_lag_records : ℤ
  pub max_oldest_age : ℕ
  pub runtime_topic_retention : ℕ
  pub min_retention_headroom : ℕ
  pub healthy_polls_to_open : ℕ

pub data ConfigError : Type 0 where
  interval_invalid staleness_invalid limit_invalid retention_invalid polls_invalid : ConfigError

pub record PartitionSnapshot : Type 0 where
  pub partition : ℤ
  pub earliest : ℤ
  pub database_next : ℤ
  pub latest : ℤ
  pub lag_records : ℤ
  pub oldest_age_ms : ℕ
  pub oldest_timestamp : ℤ

pub record Snapshot : Type 0 where
  pub ready : Bool
  pub reason : Reason
  pub checked_at_ms : ℕ
  pub last_successful_check_at_ms : ℕ
  pub partition_count : ℕ
  pub total_lag_records : ℤ
  pub max_partition_lag_records : ℤ
  pub oldest_age_ms : ℕ
  pub retention_headroom_ms : ℕ
  pub snapshot_age_ms : ℕ
  pub consecutive_healthy_polls : ℕ
  pub partitions : List PartitionSnapshot

abbrev pub is_healthy : Reason → Bool
is_healthy healthy = true
is_healthy _ = false

abbrev pub is_recovering : Reason → Bool
is_recovering recovering = true
is_recovering _ = false

abbrev pub is_stale : Reason → Bool
is_stale snapshot_stale = true
is_stale _ = false

abbrev pub millisecond : ℕ
millisecond = 1000000

-- `t.UnixMilli()`.
abbrev pub unix_milli : ℕ → ℕ
unix_milli t = t / millisecond

-- The guards of Config.Validate, in order.
unfoldable pub validate : Config → Result ConfigError (Unit {0})
validate c = do
  reject_if
      (any (
        (c.refresh_interval == 0)
        ∷ (c.refresh_timeout == 0)
        ∷ leb c.refresh_interval c.refresh_timeout
        ∷ []))
      interval_invalid
  reject_if
      (ltb c.max_staleness c.refresh_interval
        || ltb (c.max_staleness - c.refresh_interval) c.refresh_interval)
      staleness_invalid
  reject_if (leb_ℤ c.max_lag_records (pos 0) || c.max_oldest_age == 0) limit_invalid
  reject_if
      (any (
        (c.runtime_topic_retention == 0)
        ∷ (c.min_retention_headroom == 0)
        ∷ leb c.runtime_topic_retention c.min_retention_headroom
        ∷ []))
      retention_invalid
  reject_if (c.healthy_polls_to_open == 0 || ltb 100 c.healthy_polls_to_open) polls_invalid
