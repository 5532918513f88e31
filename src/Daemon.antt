-- ===== src/Daemon.antt =====
-- crates/devsite-daemon: the host that forwards authorized streams to fixed local services.
pub mod Verify
pub mod Config
pub mod Streams
