-- ===== src/Limits.antt =====
-- crates/relay/src/limits.rs: the limits of a principal, in memory.
pub mod Memory
pub mod Slots
pub mod Allowance
