-- ===== src/Policy/Types.antt =====
-- crates/core/src/policy.rs: the policy of a method.
use Prim.Native.String.{String}
use mnr.Common.{ℕ}

pub data Class : Type 0 where
  immutable immutable_conditional swr passthrough_stream passthrough broadcast composed : Class
  not_daemon deny : Class

pub data Transport : Type 0 where
  json_rpc legacy_path : Transport

pub data Verification : Type 0 where
  authenticated majority : Verification
  -- How many upstreams must agree, for the tiers free and pro.
  agreement : ℕ → ℕ → Verification
  annotated not_daemon not_applicable : Verification

pub record Policy : Type 0 where
  pub method : String
  pub transport : Transport
  pub class : Class
  pub cache : String
  pub quorum : String
  pub verification : Verification
  pub timeout_ms : ℕ
  pub note : String
