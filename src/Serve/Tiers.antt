-- ===== src/Serve/Tiers.antt =====
-- crates/relay/src/agreement.rs: how many upstreams must agree for a tier, and the answer.
use Prim.Native.String.{String}
use text.Mathlib.Text.{◌==◌ as str_eq}
use mnr.Common.{
  ℕ, suc, ◌≤◌, ◌≡◌, ◌⊎◌, refl, sym, ap, ◌∙◌, inl, inr, Bool, true, false, ◌&&◌, Option, none, some,
  List, [], ◌∷◌, length, take, In, leb, ltb, if◌then◌else◌, Result, arith, Bool-cases, Result-cases,
}
use mnr.Common.Sort.{Distinct}
use mnr.Verify.Quorum.{QuorumTip}
use mnr.Wire.Answers.{Text, bytes}
use mnr.Wire.Json.{Json}
use mnr.Policy.Types.{Verification, Policy}
use mnr.Serve.Labels.{Verify, verify_label, hit}
use mnr.Serve.Exchange.{
  Forwarded, ForwardError, cap, http, Outcome, Body, mnr_verify, mnr_cached_verify, mnr_cache,
  wrapped, json_ok, passthrough, json_error, unavailable, message,
}
use mnr.Serve.Attempts.{max_attempts, is_cap}
use mnr.Serve.Route.{read_all, read_ranked, safety_line}
use mnr.Serve.Comparable.{same_text}
use mnr.Serve.Immutable.{Cached, result_bytes}
use mnr.Serve.Agreement.{Settled, unsettled, agree}
use mnr.Serve.Agreed.{IsSettled, agree-IsSettled}
use mnr.Relay.Checks.{param_u64}

pub data Tier : Type 0 where
  free pro : Tier

abbrev pub by_tier : ℕ → ℕ → Tier → ℕ
by_tier n m free = n
by_tier n m pro = m

unfoldable pub needed : Verification → Tier → ℕ
needed (Verification.agreement n m) tier = by_tier n m tier
needed _ tier = 1

abbrev IsUnlabelled : Outcome → Type 0
IsUnlabelled o = ¬ In (mnr_verify Verify.agreement) o.headers

passthrough-IsUnlabelled : (f : Forwarded) (id : ℕ) → IsUnlabelled (passthrough f id 0)
passthrough-IsUnlabelled f id (inl e) = cc
passthrough-IsUnlabelled f id (inr (inl e)) = cc
passthrough-IsUnlabelled f id (inr (inr (inl e))) = cc
passthrough-IsUnlabelled f id (inr (inr (inr z))) = absurd z

error-IsUnlabelled :
    (status : ℕ) (body : Body) → IsUnlabelled (json_error status body Verify.unverified)
error-IsUnlabelled status body (inl e) = cc
error-IsUnlabelled status body (inr (inl e)) = cc
error-IsUnlabelled status body (inr (inr z)) = absurd z

module _ (take_light : ℕ → ℕ → Bool) (forward : ℕ → Result ForwardError Forwarded) where
  read_all-IsUnlabelled :
      (rank : ℕ) (ids : List ℕ) (last : ForwardError)
      → IsUnlabelled (read_all take_light forward rank ids last)
  unfolding read_all
  read_all-IsUnlabelled rank [] last =
      error-IsUnlabelled (if is_cap last then 503 else 502) (unavailable last)
  read_all-IsUnlabelled rank (id ∷ ids) last = elim (Bool-cases (take_light rank id)) [
    | inr n ↦ rw (n, read_all) (read_all-IsUnlabelled (suc rank) ids cap)
    | inl y ↦ elim (Result-cases (forward id)) [
      | inr (e, is) ↦ rw (y, is, read_all) (read_all-IsUnlabelled (suc rank) ids e)
      | inl (f, is) ↦ elim (Bool-cases (leb 500 f.status)) [
        | inl bad ↦ rw (y, is, bad, read_all) (read_all-IsUnlabelled (suc rank) ids (http f.status))
        | inr good ↦ rw (y, is, good, read_all) (passthrough-IsUnlabelled f id)
      ]
    ]
  ]

  read-IsUnlabelled : (ranked : List ℕ) → IsUnlabelled (read_ranked take_light forward ranked)
  unfolding read_ranked
  read-IsUnlabelled [] = error-IsUnlabelled 503 (message "no healthy upstream")
  read-IsUnlabelled (id ∷ ranked) = read_all-IsUnlabelled 0 (take max_attempts (id ∷ ranked)) cap

-- What comes of a request: the settled answer, and the new entry of the cache.
pub record Outputs : Type 0 where
  pub settled : Settled
  pub put : Option Cached

abbrev pub unkept : Settled → Outputs
unkept s = record { settled = s; put = none }

-- A hit: the cached answer under the text of its label.
abbrev pub from_hit : Cached → Settled
from_hit c = unsettled (json_ok (wrapped c.body) (mnr_cached_verify c.verify ∷ mnr_cache hit ∷ []))

-- `to > 0 && to <= line`
abbrev pub is_settled_range : Option ℕ → Option ℕ → Bool
is_settled_range none line = false
is_settled_range (some to) none = false
is_settled_range (some to) (some line) = ltb 0 to && leb to line

module _ (j : Json) where
  open j use {Value}

  -- `distribution_key`: whether there is one.
  unfoldable pub has_key : Text → String → Option Value → Option QuorumTip → Bool
  unfolding param_u64 safety_line
  has_key path method params q =
      if same_text path (bytes "/json_rpc") && str_eq method "get_output_distribution"
      then is_settled_range (param_u64 j params "to_height") (safety_line q)
      else false

  abbrev pub kept_entry : Option (List ℕ) → Option Cached
  kept_entry none = none
  kept_entry (some b) = some (record { body = b; verify = verify_label Verify.agreement })

  -- `cache_if_distribution`
  abbrev pub kept_of : Bool → Option (List ℕ) → Option Cached
  kept_of key none = none
  kept_of false (some body) = none
  kept_of true (some body) = kept_entry (result_bytes j body)

  abbrev pub keep_offered : Bool → Settled → Outputs
  keep_offered key s = record { settled = s; put = kept_of key s.offered }

  -- The entry that is held under the key, if there is a key.
  abbrev pub held_under : Bool → Option Cached → Option Cached
  held_under true held = held
  held_under false held = none

  module _ (path : Text) (has_token : ℕ → Bool) (take_light : ℕ → ℕ → Bool)
      (forward : ℕ → Result ForwardError Forwarded) where
    abbrev pub of_many : ℕ → Bool → Option Cached → List ℕ → Outputs
    of_many need key none ranked = keep_offered key (agree j path need has_token forward ranked)
    of_many need key (some c) ranked = unkept (from_hit c)

    unfoldable pub agreement :
        Policy → Tier → String → Option Value → Option QuorumTip → Option Cached → List ℕ → Outputs
    unfolding needed has_key
    agreement p tier method params q held ranked =
        let need = needed p.verification tier in
        let key = has_key path method params q in
        if leb need 1
        then unkept (unsettled (read_ranked take_light forward ranked))
        else of_many need key (held_under key held) ranked

    -- What is put in the cache is the result of the answer that is served as agreed.
    abbrev pub IsKept : Bool → Outputs → Option Cached → Type 0
    IsKept key o none = Unit
    IsKept key o (some c) =
        (key ≡ true)
        × (c.verify ≡ "agreement")
        × (2 ≤ length o.settled.verified)
        × ((body : List ℕ) × (o.settled.outcome.body ≡ Body.bytes body)
            × (result_bytes j body ≡ some c.body))

    -- The entry held under the key is served, nobody is asked, and nothing is put.
    abbrev pub IsHit : Bool → Option Cached → Outputs → Type 0
    IsHit key held o = (c : Cached) × (key ≡ true) × (held ≡ some c) × (o ≡ unkept (from_hit c))

    abbrev pub IsOutputs : ℕ → Bool → Option Cached → Outputs → Type 0
    IsOutputs need key held o =
        IsHit key held o ⊎ (IsSettled j path forward need o.settled × IsKept key o o.put)

    held-IsHit :
        (key : Bool) (held : Option Cached) (c : Cached)
        → held_under key held ≡ some c
        → IsHit key held (unkept (from_hit c))
    held-IsHit true held c h = (c, refl, h, refl)
    held-IsHit false held c h = cc

    kept_of-IsKept :
        (need : ℕ) (key : Bool) (s : Settled) (offered : Option (List ℕ))
        → s.offered ≡ offered
        → IsSettled j path forward need s
        → IsKept key (keep_offered key s) (kept_of key offered)
    kept_of-IsKept need key s none is h = tt
    kept_of-IsKept need false s (some body) is h = tt
    kept_of-IsKept need true s (some body) is (inl open_) = absurd (none_some (sym open_.2 ∙ is))
      where
        none_some : none ≡ some body → ⊥
        none_some e = cc
    kept_of-IsKept need true s (some body) is
          (inr (c, (id, f), tree, out, off, two, once, gave, others, le)) =
        let same_body : f.body ≡ body = cc in
        kept (result_bytes j body) refl (ap (λ (o : Outcome). o.body) out ∙ ap Body.bytes same_body)
      where
        kept :
            (r : Option (List ℕ))
            → result_bytes j body ≡ r
            → s.outcome.body ≡ Body.bytes body
            → IsKept true (keep_offered true s) (kept_entry r)
        kept none e served = tt
        kept (some b) e served = (refl, refl, two, (body, served, e))

    of_many-IsOutputs :
        (need : ℕ) (key : Bool) (held h : Option Cached) (ranked : List ℕ)
        → 2 ≤ need
        → Distinct ranked
        → held_under key held ≡ h
        → IsOutputs need key held (of_many need key h ranked)
    of_many-IsOutputs need key held (some c) ranked two distinct is = inl (held-IsHit key held c is)
    of_many-IsOutputs need key held none ranked two distinct is =
        let s = agree j path need has_token forward ranked in
        let settled = agree-IsSettled j path forward need has_token ranked two distinct in
        inr (settled, kept_of-IsKept need key s s.offered refl settled)

    -- Whatever the policy and the tier, and where the ranking names no upstream twice: the entry that
    -- is held under the request's key is served, nobody is asked, credited or faulted, and nothing is
    -- put in the cache; or no upstream is credited and none is faulted, and the label is another than
    -- `agreement`; or the answer served is what at least two different upstreams gave, just those are
    -- credited, and an upstream is faulted only if its answer was another than theirs. The label counts
    -- the credited out of all whose answers were compared: as many as the tier needs and one spare at
    -- most. An entry is put in the cache only in this last case, if the request has a key: the `result`
    -- of the answer served, under the label `agreement`.
    pub agreement-IsSettled :
        (p : Policy) (tier : Tier) (method : String) (params : Option Value) (q : Option QuorumTip)
        (held : Option Cached) (ranked : List ℕ)
        → Distinct ranked
        → IsOutputs
            (needed p.verification tier)
            (has_key path method params q)
            held
            (agreement p tier method params q held ranked)
    unfolding agreement
    agreement-IsSettled p tier method params q held ranked distinct = settle (leb need 1) refl
      where
        need : ℕ
        need = needed p.verification tier

        key : Bool
        key = has_key path method params q

        settle :
            (b : Bool)
            → leb need 1 ≡ b
            → IsOutputs need key held (
                if b
                then unkept (unsettled (read_ranked take_light forward ranked))
                else of_many need key (held_under key held) ranked)
        settle true y =
            inr (inl (refl, refl, refl, read-IsUnlabelled take_light forward ranked), tt)
        settle false n =
            of_many-IsOutputs need key held (held_under key held) ranked (ground arith) distinct
              refl
