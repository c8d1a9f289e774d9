-- ===== src/Core/Operation.antt =====
-- crates/comb-core/src/operation.rs: operation ids, stable keys, identities and material hashes.
pub mod Crockford
pub mod Id
pub mod Stable
pub mod Identity
pub mod Material
