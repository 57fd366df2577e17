-- ===== src/Serve/Route.antt =====
-- crates/relay/src/dispatch.rs: which ranking a request uses, which handler it reaches, and `read`,
-- which passes on the first answer.
use Prim.Native.String.{String}
use text.Mathlib.Text.{◌==◌ as str_eq}
use mathlib.Core.Option
use mnr.Common.{
  ℕ, suc, ◌-◌, Bool, true, false, ◌||◌, ◌&&◌, not, Option, none, some, List, [], ◌∷◌, take, leb,
  max, if◌then◌else◌, Result, ok, err,
}
use mnr.Verify.Quorum.{QuorumTip}
use mnr.Policy.Types.{Class, Policy}
use mnr.Policy.Names.{canonical}
use mnr.Upstream.Ranking.{Work, light, sensitive}
use mnr.Serve.Labels.{Verify}
use mnr.Serve.Exchange.{Forwarded, ForwardError, cap, http, Outcome, passthrough}
use mnr.Serve.Attempts.{max_attempts, gave_up, no_upstream}

abbrev pub sensitive_methods : List String
sensitive_methods =
    "/get_transactions" ∷ "/get_outs" ∷ "/get_outs.bin" ∷ "/get_o_indexes.bin"
    ∷ "/get_output_distribution.bin" ∷ "get_output_distribution" ∷ "get_output_histogram"
    ∷ "/is_key_image_spent" ∷ []

unfoldable pub listed : List String → String → Bool
listed [] method = false
listed (m ∷ ms) method = str_eq m method || listed ms method

unfoldable pub work_for : String → Work
unfolding listed canonical
work_for method = if listed sensitive_methods (canonical method) then sensitive else light

-- The handlers of `dispatch`.
pub data Handler : Type 0 where
  broadcast stream refuse immutable transactions agreement swr compose : Handler
  read : Work → Handler

unfoldable pub handler_of : Class → String → Handler
unfolding work_for canonical
handler_of Class.broadcast method = broadcast
handler_of Class.passthrough_stream method = stream
handler_of Class.deny method = refuse
handler_of Class.not_daemon method = refuse
handler_of Class.immutable method = immutable
handler_of Class.immutable_conditional method =
    if str_eq (canonical method) "/get_transactions" then transactions else agreement
handler_of Class.swr method = swr
handler_of Class.composed method = compose
handler_of Class.passthrough method = read (work_for method)

-- `policy.timeout_ms.max(1000)`
unfoldable pub timeout_of : Policy → ℕ
timeout_of p = max p.timeout_ms 1000

-- The tip safety line of the pool's quorum.
abbrev pub tip_safety_depth : ℕ
tip_safety_depth = 10

unfoldable pub safety_line : Option QuorumTip → Option ℕ
safety_line q = Option.map (λ t. t.height - tip_safety_depth) q

-- `v.verify != Verify::None && matches!((v.height, line), (Some(h), Some(l)) if h <= l)`
abbrev pub is_unverified : Verify → Bool
is_unverified Verify.unverified = true
is_unverified _ = false

abbrev pub is_below : Option ℕ → Option ℕ → Bool
is_below none line = false
is_below (some h) none = false
is_below (some h) (some l) = leb h l

unfoldable pub cacheable : Verify → Option ℕ → Option QuorumTip → Bool
unfolding safety_line
cacheable verify height q = not (is_unverified verify) && is_below height (safety_line q)

module _ (take_light : ℕ → ℕ → Bool) (forward : ℕ → Result ForwardError Forwarded) where
  unfoldable pub read_all : ℕ → List ℕ → ForwardError → Outcome
  read_all rank [] last = gave_up last
  read_all rank (id ∷ ids) last = elim (take_light rank id) [
    | false ↦ read_all (suc rank) ids cap
    | true ↦ elim (forward id) [
      | err e ↦ read_all (suc rank) ids e
      | ok f ↦ elim (leb 500 f.status) [
        | true ↦ read_all (suc rank) ids (http f.status)
        | false ↦ passthrough f id 0
      ]
    ]
  ]

  unfoldable pub read_ranked : List ℕ → Outcome
  unfolding read_all
  read_ranked [] = no_upstream
  read_ranked (id ∷ ranked) = read_all 0 (take max_attempts (id ∷ ranked)) cap
