-- ===== src/Index.antt =====
-- crates/combctl/src/hamt.rs: the stable index, a hash trie of stable keys.
pub mod Node
pub mod Check
pub mod Walk
pub mod Insert
pub mod Stored
