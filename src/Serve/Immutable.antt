-- ===== src/Serve/Immutable.antt =====
-- crates/relay/src/dispatch.rs: `immutable`, from the cache or from a verified answer. The check of an
-- answer and the entry under the request's key are arguments.
use Prim.Native.String.{String}
use mathlib.Core.Option
use mnr.Common.{ℕ, Bool, Option, none, some, List, [], ◌∷◌, ◌++◌, if◌then◌else◌, Result, ok, err}
use mnr.Wire.Json.{Json}
use mnr.Verify.Quorum.{QuorumTip}
use mnr.Serve.Labels.{verify_label, Status, hit, miss, Verified, label_of}
use mnr.Serve.Exchange.{
  Forwarded, ForwardError, Outcome, Header, mnr_verify, mnr_cache, mnr_upstream, mnr_verified,
  wrapped, json_ok, passthrough,
}
use mnr.Serve.Attempts.{fetch_verified}
use mnr.Serve.Route.{is_unverified, cacheable}

-- An entry of the cache: the `result` and the label that it earned.
pub record Cached : Type 0 where
  pub body : List ℕ
  pub verify : String

abbrev pub upstream_header : Option ℕ → List Header
upstream_header none = []
upstream_header (some id) = mnr_upstream id ∷ []

abbrev pub counted_header : Option (ℕ × ℕ) → List Header
counted_header none = []
counted_header (some (k, n)) = mnr_verified k n ∷ []

abbrev pub verified_headers : Verified → Option ℕ → Status → List Header
verified_headers v upstream cache =
    mnr_verify v.verify ∷ mnr_cache cache ∷ (upstream_header upstream ++ counted_header v.counted)

-- The outcome, with the faults that are recorded, who is credited, and the new entry.
pub record Immutable : Type 0 where
  pub outcome : Outcome
  pub faults : List (ℕ × String)
  pub verified : List ℕ
  pub put : Option Cached

abbrev pub from_cache : Cached → Immutable
from_cache c = record {
  outcome = json_ok (wrapped c.body) (
      verified_headers (record { verify = label_of c.verify; height = none; counted = none }) none
        hit);
  faults = [];
  verified = [];
  put = none;
}

module _ (j : Json) where
  open j use {Value, result_of, to_vec}

  abbrev pub written : Result String (List ℕ) → Option (List ℕ)
  written (ok b) = some b
  written (err e) = none

  abbrev pub result_written : Option Value → Option (List ℕ)
  result_written none = none
  result_written (some v) = written (to_vec v)

  unfoldable pub result_bytes : List ℕ → Option (List ℕ)
  result_bytes body = result_written (result_of body)

  -- The entry of an answer that may be cached.
  unfoldable pub entry_of : Verified → Forwarded → Option QuorumTip → Option Cached
  unfolding cacheable result_bytes
  entry_of v f q =
      if cacheable v.verify v.height q
      then Option.map (λ b. record { body = b; verify = verify_label v.verify })
          (result_bytes f.body)
      else none

  abbrev pub from_fetched :
      Option QuorumTip → List (ℕ × String) × Result Outcome (Forwarded × ℕ × Verified) → Immutable
  from_fetched q (faults, err o) = record {
    outcome = o;
    faults = faults;
    verified = [];
    put = none;
  }
  from_fetched q (faults, ok (f, id, v)) = record {
    outcome = record (passthrough f id 0) { headers = verified_headers v (some id) miss };
    faults = faults;
    verified = if is_unverified v.verify then [] else id ∷ [];
    put = entry_of v f q;
  }

  module _ (take_light : ℕ → ℕ → Bool) (forward : ℕ → Result ForwardError Forwarded)
      (check : Forwarded → Result String Verified) where
    unfoldable pub immutable : Option Cached → Option QuorumTip → List ℕ → Immutable
    unfolding fetch_verified
    immutable (some c) q ranked = from_cache c
    immutable none q ranked = from_fetched q (fetch_verified take_light forward check ranked)
