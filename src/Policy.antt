-- ===== src/Policy.antt =====
-- crates/core/src/policy.rs: the table of methods.
pub mod Rules
pub mod Types
pub mod Family
pub mod Rows
pub mod Served
pub mod Denied
pub mod Table
pub mod Lookup
pub mod Rulings
pub mod Names
