-- ===== src/Object.antt =====
-- crates/comb-object: the object backend interface and its in-memory and fault-injecting forms.
pub mod Backend
pub mod Step
pub mod Memory
pub mod Fault
pub mod Failpoint
