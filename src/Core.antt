-- ===== src/Core.antt =====
-- crates/comb-core: content identity, object envelope, operation identity and the ref model.
pub mod Error
pub mod Crates
pub mod Digest
pub mod Operation
pub mod Envelope
pub mod Refs
pub mod Commit
