-- ===== src/Publish.antt =====
-- crates/combctl/src/publish.rs: the publication engine, which every write of a ref goes through.
pub mod View
pub mod Head
pub mod Seek
pub mod Plan
pub mod Intent
pub mod Attempt
pub mod Engine
pub mod Renew
