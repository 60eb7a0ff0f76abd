-- ===== src/Server.antt =====
-- The server (crates/muxtop-server).
pub mod Floats
pub mod RateLimit
pub mod Tokens
pub mod Client
pub mod Accept
pub mod Relay
