-- ===== src/Upstream.antt =====
-- crates/relay/src/upstream.rs: the pool of upstreams.
pub mod Health
pub mod Ring
pub mod Faults
pub mod Probe
pub mod Ranking
pub mod Eligible
pub mod Named
pub mod Tip
