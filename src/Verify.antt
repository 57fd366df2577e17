-- ===== src/Verify.antt =====
-- crates/core/src/verify.rs: the verification rules, and what is proved of them.
pub mod Checks
pub mod Headers
pub mod Blocks
pub mod Quorum
pub mod Votes
pub mod Groups
pub mod Median
pub mod Best
pub mod Winner
