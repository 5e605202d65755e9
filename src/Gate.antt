-- ===== src/Gate.antt =====
-- projectiongate: the gate that refuses commands while the projection into MySQL lags behind Kafka.
-- Evaluate judges the partitions' offsets, Guard opens and closes the gate.
pub mod Snapshot
pub mod Evaluate
pub mod Guard
pub mod Tests
