-- ===== src/Wire.antt =====
-- crates/core/src/wire.rs: the hashes and the tip that a node's JSON answers hold.
pub mod Hex
pub mod Spelling
pub mod Answers
pub mod Json
