-- ===== src/Lot.antt =====
-- biz/auction/lot.go: a lot before its auction (Ready, Draft, Queue) and the host's actions while it
-- runs (Trust, Duel). Messages is what the children share.
pub mod Messages
pub mod Ready
pub mod Draft
pub mod Queue
pub mod Trust
pub mod Duel
pub mod Tests
