-- ===== src/Serve/Exchange.antt =====
-- crates/relay/src/upstream.rs and dispatch.rs: what comes back from an upstream, and what a client is
-- answered. A header is its name and its value as data, not text.
use Prim.Native.String.{String}
use mnr.Common.{ℕ, Option, none, some, List, [], ◌∷◌}
use mnr.Serve.Labels.{Verify, Status, bypass}

pub record Forwarded : Type 0 where
  pub status : ℕ
  pub content_type : Option String
  pub body : List ℕ

pub data ForwardError : Type 0 where
  cap timeout connect : ForwardError
  other : String → ForwardError
  -- `format!("http {}", f.status)`
  http : ℕ → ForwardError

pub data Header : Type 0 where
  mnr_verify : Verify → Header
  -- The same header with the text of a cache entry.
  mnr_cached_verify : String → Header
  mnr_cache : Status → Header
  mnr_upstream : ℕ → Header
  mnr_verified mnr_agreeing mnr_relayed : ℕ → ℕ → Header

-- The body: an upstream's bytes, or the JSON text of an error, with what caused it.
pub data Body : Type 0 where
  bytes : List ℕ → Body
  message : String → Body
  unavailable : ForwardError → Body
  -- `jsonrpc_body`: a cached result, wrapped with the client's id.
  wrapped : List ℕ → Body

pub record Outcome : Type 0 where
  pub status : ℕ
  pub content_type : String
  pub body : Body
  pub headers : List Header
  pub extra_wu : ℕ

-- `unwrap_or_else(|| "application/json".to_owned())`
abbrev pub or_json : Option String → String
or_json none = "application/json"
or_json (some t) = t

-- `Outcome::json_error`
abbrev pub json_error : ℕ → Body → Verify → Outcome
json_error status body verify = record {
  status = status;
  content_type = "application/json";
  body = body;
  headers = mnr_verify verify ∷ mnr_cache bypass ∷ [];
  extra_wu = 0;
}

-- `Outcome::json_ok`
abbrev pub json_ok : Body → List Header → Outcome
json_ok body headers = record {
  status = 200;
  content_type = "application/json";
  body = body;
  headers = headers;
  extra_wu = 0;
}

abbrev pub passthrough : Forwarded → ℕ → ℕ → Outcome
passthrough f upstream extra_wu = record {
  status = f.status;
  content_type = or_json f.content_type;
  body = bytes f.body;
  headers = mnr_verify Verify.unverified ∷ mnr_cache bypass ∷ mnr_upstream upstream ∷ [];
  extra_wu = extra_wu;
}
