-- ===== src/Generation.antt =====
-- runtimegeneration/guard.go: the guard that freezes every runtime writer until the current Redis
-- primary has been reconciled. Refresh has the guard, Run its events one after the other.
pub mod Refresh
pub mod Trusted
pub mod Frozen
pub mod Interrupted
pub mod Tests
