-- ===== src/Serve.antt =====
-- crates/relay/src: how a request is served.
pub mod Labels
pub mod Exchange
pub mod Attempts
pub mod Tries
pub mod Fair
pub mod Route
pub mod Deep
pub mod Broadcast
pub mod Relayed
pub mod Comparable
pub mod Agreement
pub mod Given
pub mod Once
pub mod Agreed
pub mod Tiers
pub mod Immutable
pub mod Kept
