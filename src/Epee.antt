-- ===== src/Epee.antt =====
-- crates/core/src/epee.rs: the parser of the binary answers of Monero nodes.
pub mod Tree
pub mod Reader
pub mod Parse
pub mod Stable
pub mod Prefix
pub mod Paid
pub mod Sizes
pub mod Names
pub mod Canonical
