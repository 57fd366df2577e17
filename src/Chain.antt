-- ===== src/Chain.antt =====
-- crates/relay/src/chain.rs: the relay's own chain of header records, in memory and on disk.
pub mod Sync
pub mod Opening
pub mod Appending
pub mod Kept
pub mod Persist
pub mod Epoch
pub mod Reorg
pub mod Parts
pub mod Follow
pub mod Search
pub mod Fetch
pub mod Agree
pub mod Copies
pub mod Copied
pub mod Agreed
pub mod Reopen
