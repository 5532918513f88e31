-- ===== src/Proto.antt =====
-- crates/devsite-proto: the types that the client, the daemon and the control plane share.
pub mod Crypto
pub mod Capability
pub mod Wire
pub mod Message
pub mod Id
pub mod AccessPlan
