-- ===== src/Consensus/Keys.antt =====
-- crates/relay/src/consensus.rs: the agreement key of an answer.
use Prim.Native.String.{String}
use text.Mathlib.Text.{◌==◌ as str_eq}
use mathlib.Core.Option
use mnr.Common.{
  ℕ, ◌-◌, Bool, true, Option, none, some, List, [], ◌∷◌, leb, ◌==◌, ◌||◌, if◌then◌else◌, min, max,
}
use mnr.Common.Partial.{◌>>=◌}
use mnr.Wire.Json.{Json}

-- `checked_sub(1)`
unfoldable pub checked_pred : ℕ → Option ℕ
checked_pred t = if t == 0 then none else some (t - 1)

-- `quorum.is_none_or(|q| tip.abs_diff(q) <= 1)`
unfoldable pub near_quorum : Option ℕ → ℕ → Bool
near_quorum none tip = true
near_quorum (some q) tip = leb (max tip q - min tip q) 1

module _ (j : Json) where
  open j use {Value, get, as_u64, of_u64, text, null}

  abbrev when : Bool → List Value → Option (List Value)
  when b key = if b then some key else none

  unfoldable pub info_key : Value → Option ℕ → Option (List Value)
  unfolding checked_pred near_quorum
  info_key v quorum = do
    h ← get "height" v
    n ← as_u64 h
    tip ← checked_pred n
    top ← get "top_block_hash" v
    when (near_quorum quorum tip) (of_u64 tip ∷ top ∷ [])

  unfoldable pub height_key : Value → Option ℕ → Option (List Value)
  unfolding checked_pred near_quorum
  height_key v quorum = do
    h ← get "height" v
    n ← as_u64 h
    tip ← checked_pred n
    when (near_quorum quorum tip) (of_u64 tip ∷ Option.get_or (get "hash" v) null ∷ [])

  unfoldable pub count_key : Value → Option ℕ → Option (List Value)
  unfolding checked_pred near_quorum
  count_key v quorum = do
    c ← get "count" v
    n ← as_u64 c
    tip ← checked_pred n
    when (near_quorum quorum tip) (of_u64 tip ∷ [])

  unfoldable pub last_header_key : Value → Option ℕ → Option (List Value)
  unfolding near_quorum
  last_header_key v quorum = do
    h ← get "block_header" v
    height ← get "height" h
    tip ← as_u64 height
    hash ← get "hash" h
    when (near_quorum quorum tip) (of_u64 tip ∷ hash ∷ [])

  unfoldable pub fork_key : Value → Option (List Value)
  fork_key v = do
    version ← get "version" v
    enabled ← get "enabled" v
    state ← get "state" v
    earliest ← get "earliest_height" v
    some (version ∷ enabled ∷ state ∷ earliest ∷ [])

  unfoldable pub version_key : Value → Option (List Value)
  version_key v = do version ← get "version" v; some (version ∷ [])

  -- The methods of `agreement_key`'s match.
  unfoldable pub agreement_key : String → Value → Option ℕ → Option (List Value)
  unfolding info_key height_key count_key last_header_key fork_key version_key
  agreement_key method v quorum =
      if str_eq method "get_info" || str_eq method "/get_info"
      then info_key v quorum
      else if str_eq method "/get_height"
      then height_key v quorum
      else if str_eq method "get_block_count"
      then count_key v quorum
      else if str_eq method "get_last_block_header"
      then last_header_key v quorum
      else if str_eq method "hard_fork_info"
      then fork_key v
      else if str_eq method "get_version"
      then version_key v
      else if str_eq method "get_fee_estimate"
      then some (text "fee" ∷ [])
      else none
