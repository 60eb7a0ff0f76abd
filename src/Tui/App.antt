-- ===== src/Tui/App.antt =====
-- The application state and what keys do to it (crates/muxtop-tui/src/app.rs).
pub mod Commands
pub mod Host
pub mod View
pub mod History
pub mod Edit
pub mod Palette
pub mod State
pub mod Requests
pub mod Overlays
pub mod Dispatch
pub mod Invoke
pub mod Input
pub mod Loop
pub mod Safety
pub mod Examples
