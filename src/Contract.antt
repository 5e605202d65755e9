-- ===== src/Contract.antt =====
-- app/auction/service/internal/eventcontract/contract.go: the checks that every runtime fact passes
-- before it is written to the outbox.
pub mod Checks
pub mod State
pub mod Command
pub mod Fact
pub mod Message
