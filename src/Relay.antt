-- ===== src/Relay.antt =====
-- crates/relay/src/verify.rs: what an answer about block headers says of its upstream.
pub mod Checks
pub mod Marks
pub mod Range
pub mod Single
pub mod Headers
