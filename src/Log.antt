-- ===== src/Log.antt =====
-- crates/combctl/src/log.rs: the log, a sequence of events in chunks behind a manifest.
pub mod Model
pub mod Payloads
pub mod Chunks
pub mod Domain
pub mod Events
pub mod Prepare
pub mod Plans
pub mod Compact
pub mod Operations
pub mod Reads
pub mod Group
