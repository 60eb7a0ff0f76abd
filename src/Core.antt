-- ===== src/Core.antt =====
-- Data collection and its projections (crates/muxtop-core).
pub mod Actions
pub mod Process
pub mod Network
pub mod Containers
pub mod Kube
pub mod Gpu
pub mod Engines
pub mod Collector
pub mod System
pub mod Std
