-- ===== src/HeaderChain.antt =====
-- crates/core/src/headerchain.rs: the header chain, its byte format, and what is proved of them.
pub mod Store
pub mod Codec
pub mod Linkage
pub mod RoundTrip
pub mod Loading
pub mod Fork
