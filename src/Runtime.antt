-- ===== src/Runtime.antt =====
-- app/auction/service/internal/biz/auction/runtime_state_machine.go: the decisions on a running
-- auction, each a function of the state and a command.
pub mod Types
pub mod Ranking
pub mod Validate
pub mod Fact
pub mod Settle
pub mod Start
pub mod Bid
pub mod Close
pub mod Sync
pub mod Machine
mod Tests
