-- ===== src/Proto.antt =====
-- The wire protocol (crates/muxtop-proto).
pub mod Frame
pub mod Wire
pub mod Remote
