-- ===== src/Server.antt =====
-- crates/devsite-server: the control plane.
pub mod Policy
pub mod Auth
pub mod RateLimits
pub mod Db
pub mod Env
pub mod Issuer
pub mod Api
pub mod Relay
pub mod Theme
