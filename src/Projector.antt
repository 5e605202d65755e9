-- ===== src/Projector.antt =====
-- worker/projector: the facts that the runtime writes, applied one after the other to the database, each
-- in one transaction with the offset it comes from.
pub mod Tables
pub mod Errors
pub mod Build
pub mod Payload
pub mod Write
pub mod Sales
pub mod Apply
pub mod Store
pub mod Finding
pub mod Offsets
pub mod Decode
pub mod Consumer
pub mod Tests
