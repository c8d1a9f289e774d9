-- ===== src/Catalog.antt =====
-- crates/combctl/src/catalog.rs: the chunk catalog, a B+tree of blobs that grows at its right end.
pub mod Node
pub mod Objects
pub mod Append
pub mod Seek
pub mod Tree
pub mod Stored
