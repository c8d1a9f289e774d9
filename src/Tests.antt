-- ===== src/Tests.antt =====
-- Runs of the code and the theorems at concrete inputs.
mod Instances
mod Json
mod Identities
mod Envelopes
mod Backends
mod Indexes
mod Stores
mod Catalogs
mod Logs
