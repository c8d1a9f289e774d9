-- ===== src/Store.antt =====
-- crates/combctl/src/store.rs: the store over an object backend, with its disk cache.
pub mod Host
pub mod Keys
pub mod Blobs
pub mod Plans
pub mod Mutations
pub mod Operations
