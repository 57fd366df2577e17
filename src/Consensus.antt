-- ===== src/Consensus.antt =====
-- crates/relay/src/consensus.rs: how the answers on consensus state become one.
pub mod Vote
pub mod Majority
pub mod Reduced
pub mod Keys
pub mod Fees
pub mod FeeRange
pub mod Refresh
pub mod Backed
pub mod Trust
pub mod Swr
pub mod Windows
