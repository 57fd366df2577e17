-- ===== src/Tests/Serving.antt =====
-- What a request is answered from, on small inputs.
use Prim.Native.String.{String}
use mnr.Common.Sort.{Distinct}
use mnr.Common.{
  arith, inl, inr, ℕ, ◌≡◌, ◌↔◌, refl, true, false, none, some, [], ◌∷◌, length, take, Result, ok,
  err, ◌==◌, if◌then◌else◌,
}
use mnr.Wire.Answers.{bytes}
use mnr.Verify.Quorum.{QuorumTip}
use mnr.Policy.Types.{Policy}
use mnr.Policy.Table.{table}
use mnr.Serve.Labels.{Verify, Verified}
use mnr.Serve.Exchange.{Forwarded, ForwardError, timeout}
use mnr.Serve.Attempts.{max_attempts, fetch_verified, try_all, verdict_of}
use mnr.Serve.Fair.{IsConcluded, fetch_verified-IsConcluded}
use mnr.Serve.Route.{is_unverified, cacheable, safety_line}
use mnr.Serve.Deep.{IsDeep, cacheable_iff}
use mnr.Serve.Broadcast.{broadcast_all}
use mnr.Serve.Relayed.{IsRelayed, accepting, rejecting, broadcast_all_lem}
use mnr.Serve.Tiers.{pro, needed, has_key, agreement, IsOutputs, agreement-IsSettled}
use mnr.Policy.Types.{legacy_path}
use mnr.Policy.Family.{outputs_conditional}
use mnr.Policy.Table.{lookup, find_row}
use mnr.Serve.Immutable.{Cached, immutable, entry_of, result_bytes}
use mnr.Serve.Kept.{IsChecked, IsRepeated, immutable-IsChecked}
use mnr.Tests.Values.{json, bytes_of}

abbrev answered : ℕ → String → Forwarded
answered status body = record { status = status; content_type = none; body = bytes body }

-- Upstream 1 does not answer, 2 fails and 3 says OK.
abbrev served : ℕ → Result ForwardError Forwarded
served id =
    if id == 1
    then err timeout
    else if id == 2
    then ok (answered 200 "BAD")
    else ok (answered 200 "OK")

-- Two bytes are right.
abbrev two_bytes : Forwarded → Result String ℕ
two_bytes f = if length f.body == 2 then ok 2 else err "not two bytes"

third_is_right :
    fetch_verified (λ rank id. true) served two_bytes (1 ∷ 2 ∷ 3 ∷ [])
    ≡ ((2, "not two bytes") ∷ [], ok (answered 200 "OK", 3, 2))
unfolding fetch_verified try_all verdict_of
third_is_right = refl

fetch_verified-IsConcluded_example :
    IsConcluded
      (λ rank id. true)
      served
      two_bytes
      (take max_attempts (1 ∷ 2 ∷ 3 ∷ []))
      (fetch_verified (λ rank id. true) served two_bytes (1 ∷ 2 ∷ 3 ∷ []))
fetch_verified-IsConcluded_example =
    fetch_verified-IsConcluded (λ rank id. true) served two_bytes (1 ∷ 2 ∷ 3 ∷ [])

broadcast_all_lem_example :
    IsRelayed 3
      (accepting json served (1 ∷ 2 ∷ 3 ∷ []))
      (rejecting json served (1 ∷ 2 ∷ 3 ∷ []))
      (broadcast_all json served (1 ∷ 2 ∷ 3 ∷ []))
broadcast_all_lem_example = broadcast_all_lem json served 1 (2 ∷ 3 ∷ [])

abbrev outs_row : Policy
outs_row =
    outputs_conditional "/get_outs" legacy_path
      "JSON twin of /get_outs.bin; same per-tier agreement."

outs_found : lookup "/get_outs" ≡ some outs_row
unfolding lookup find_row table
outs_found = refl

three_ids : Distinct (2 ∷ 3 ∷ 4 ∷ [])
three_ids = (
  (λ m. elim m [
    | inl e ↦ omega (arith, e)
    | inr k ↦ elim k [ inl e ↦ omega (arith, e) | inr z ↦ absurd z ]
  ]),
  ((λ m. elim m [ inl e ↦ omega (arith, e) | inr z ↦ absurd z ]), ((λ m. m), tt)),
)

agreement-IsSettled_example :
    IsOutputs json
      (bytes "/get_outs")
      (λ id. true)
      (λ rank id. true)
      served
      2
      (has_key json (bytes "/get_outs") "/get_outs" none none)
      none
      (agreement json
        (bytes "/get_outs")
        (λ id. true)
        (λ rank id. true)
        served
        outs_row
        pro
        "/get_outs"
        none
        none
        none
        (2 ∷ 3 ∷ 4 ∷ []))
unfolding needed
agreement-IsSettled_example =
    agreement-IsSettled json (bytes "/get_outs") (λ id. true) (λ rank id. true) served outs_row pro
      "/get_outs" none none none (2 ∷ 3 ∷ 4 ∷ []) three_ids

abbrev at_tip : QuorumTip
at_tip = record { height = 110; hash = []; agreeing = 1 ∷ 2 ∷ [] }

cacheable_iff_example :
    (cacheable Verify.hash (some 100) (some at_tip) ≡ true)
    ↔ ((is_unverified Verify.hash ≡ false) × IsDeep (some 100) (some at_tip))
cacheable_iff_example = cacheable_iff Verify.hash (some 100) (some at_tip)

-- Two bytes are verified at block 100.
abbrev at_hundred : Forwarded → Result String Verified
at_hundred f =
    if length f.body == 2
    then ok (record { verify = Verify.hash; height = some 100; counted = none })
    else err "not two bytes"

abbrev entry : Cached
entry = record { body = bytes "OK"; verify = "hash" }

entry_put :
    (immutable json (λ rank id. true) served at_hundred none (some at_tip) (2 ∷ 3 ∷ [])).put
    ≡ some entry
unfolding immutable fetch_verified try_all verdict_of entry_of cacheable safety_line result_bytes
    bytes_of
entry_put = refl

immutable-IsChecked_example :
    (v : Verified) × IsChecked json
      (λ rank id. true)
      served
      at_hundred
      (2 ∷ 3 ∷ [])
      (some at_tip)
      entry
      v
    × IsRepeated json
        (λ rank id. true)
        served
        at_hundred
        entry
        v
        (immutable json (λ rank id. true) served at_hundred (some entry) none [])
immutable-IsChecked_example =
    immutable-IsChecked json (λ rank id. true) served at_hundred (2 ∷ 3 ∷ []) (some at_tip) entry
      none [] entry_put
