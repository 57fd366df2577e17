-- ===== src/Upstream/Ranking.antt =====
-- crates/relay/src/upstream.rs: the upstreams that may serve, best first. The scores are `f64`s: their
-- type and what is computed with them are a parameter.
use mnr.Common.{
  ℕ, Bool, true, false, ◌&&◌, ◌||◌, not, Option, none, some, List, [], ◌∷◌, map, if◌then◌else◌,
}
use mathlib.Core.Option
use mnr.Verify.Quorum.{QuorumTip}
use mnr.Upstream.Health.{ejected, on_tip}
use mnr.Upstream.Probe.{Member}

pub data Work : Type 0 where
  light stream sensitive : Work

pub record Floats : Type 1 where
  pub F : Type 0
  -- `f64::MAX / 2.0`
  pub unknown_rtt : F
  -- `score - OWNED_BONUS_MS` and `score - 1e6`
  pub owned_bonus : F → F
  pub owned_first : F → F
  -- `-(h.block_count as f64)`
  pub by_height : ℕ → F
  -- `a.total_cmp(b)` is not `Greater`.
  pub le : F → F → Bool

abbrev pub is_stream : Work → Bool
is_stream stream = true
is_stream _ = false

abbrev pub prefers_owned : Work → Bool
prefers_owned light = false
prefers_owned _ = true

module _ (floats : Floats) where
  open floats use {F, unknown_rtt, owned_bonus, owned_first, by_height, le}

  unfoldable pub score : Work → Member F → F
  score work m =
      let rtt = Option.get_or m.health.rtt_ema_ms unknown_rtt in
      if m.owned
      then if prefers_owned work then owned_first (owned_bonus rtt) else owned_bonus rtt
      else rtt

  -- Not for this work, or not in a state to serve.
  unfoldable pub is_out : Work → ℕ → Member F → Bool
  unfolding ejected
  is_out work now m =
      is_stream work && m.onion
      || (not m.health.up
          || (not m.health.synchronized || (ejected m.health now || m.health.opted_out)))

  unfoldable pub candidate : Work → ℕ → Option QuorumTip → Member F → Option (ℕ × F)
  unfolding is_out score on_tip
  candidate work now none m =
      if is_out work now m
      then none
      else if m.owned
      then some (m.id, by_height m.health.block_count)
      else none
  candidate work now (some q) m =
      if is_out work now m
      then none
      else if not (on_tip m.health (some q))
      then none
      else some (m.id, score work m)

  unfoldable pub candidates : Work → ℕ → Option QuorumTip → List (Member F) → List (ℕ × F)
  unfolding candidate
  candidates work now q [] = []
  candidates work now q (m ∷ members) = elim (candidate work now q m) [
    | none ↦ candidates work now q members
    | some c ↦ c ∷ candidates work now q members
  ]

  -- `sort_by` is stable.
  unfoldable pub insert_by : ℕ × F → List (ℕ × F) → List (ℕ × F)
  insert_by (id, s) [] = (id, s) ∷ []
  insert_by (id, s) ((k, t) ∷ rest) =
      if le s t then (id, s) ∷ (k, t) ∷ rest else (k, t) ∷ insert_by (id, s) rest

  unfoldable pub sort_by : List (ℕ × F) → List (ℕ × F)
  unfolding insert_by
  sort_by [] = []
  sort_by (c ∷ rest) = insert_by c (sort_by rest)

  unfoldable pub ranked : Work → ℕ → Option QuorumTip → List (Member F) → List ℕ
  unfolding candidates sort_by
  ranked work now q members = map (λ c. c.0) (sort_by (candidates work now q members))
