-- ===== src/Privacy.antt =====
-- biz/auction/privacy.go and the viewer of order.go: what a viewer of an auction may see.
pub mod Viewer
pub mod Redact
pub mod Hidden
pub mod Ranking
pub mod Tests
