-- ===== src/Tui.antt =====
-- The terminal interface (crates/muxtop-tui).
pub mod Tabs
pub mod Keymap
pub mod Sanitize
pub mod Notify
pub mod Sorts
pub mod Theme
pub mod App
pub mod KubeView
pub mod Clipboard
pub mod Examples
