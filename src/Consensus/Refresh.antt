-- ===== src/Consensus/Refresh.antt =====
-- crates/relay/src/consensus.rs: `fetch`, which asks upstreams and makes one entry of their answers.
-- Whether an upstream has a light token, and what it answers, are arguments; a panic is `none`.
use Prim.Native.String.{String}
use text.Mathlib.Text.{◌==◌ as str_eq}
use mathlib.Core.Option
use mnr.Common.{
  ℕ, zero, suc, Bool, true, false, ◌||◌, Option, none, some, List, [], ◌∷◌, map, length, take, leb,
  if◌then◌else◌, Result, ok, err, ◌>>=◌,
}
use mnr.HeaderChain.Store.{HeaderChain}
use mnr.Verify.Checks.{ReportedHeader, VerifyError, unknown_height, verify_header_by_height}
use mnr.Wire.Answers.{BlockHeader, normalise_get_info}
use mnr.Wire.Hex.{WireError, decode_hex32}
use mnr.Wire.Json.{Json}
use mnr.Serve.Labels.{Verify, verify_label}
use mnr.Consensus.Vote.{Answer, Keyed, Reduced, min_agree, reduce_keyed}
use mnr.Consensus.Keys.{agreement_key}
use mnr.Consensus.Fees.{fee_median}

abbrev pub ask_count : ℕ
ask_count = 3

abbrev pub candidates : ℕ
candidates = 6

-- `TryFrom<&BlockHeader> for ReportedHeader`
unfoldable pub reported_header :
    {Value : Type 0} → BlockHeader Value → Result WireError ReportedHeader
unfolding decode_hex32
reported_header h = decode_hex32 h.hash >>= λ hash. decode_hex32 h.prev_hash >>= λ prev_hash.
    ok (record { height = h.height; hash = hash; prev_hash = prev_hash; timestamp = h.timestamp })

pub data ChainCheck : Type 0 where
  confirmed contradicted unknown : ChainCheck

abbrev pub chain_check : Result VerifyError (Unit {0}) → ChainCheck
chain_check (ok _) = confirmed
chain_check (err (unknown_height _)) = unknown
chain_check (err _) = contradicted

-- The answers' upstreams, asked in the order of their rank until enough have a token.
unfoldable pub choose : ℕ → (ℕ → Bool) → List ℕ → List ℕ
choose n has_token [] = []
choose zero has_token (id ∷ ranked) = []
choose (suc n) has_token (id ∷ ranked) = elim (has_token id) [
  | true ↦ id ∷ choose n has_token ranked
  | false ↦ choose (suc n) has_token ranked
]

pub record SwrEntry : Type 0 where
  pub body : List ℕ
  pub verify : String
  pub agreeing : Option (ℕ × ℕ)
  pub fetched : ℕ

abbrev pub is_majority : Option ℕ → Bool
is_majority none = false
is_majority (some k) = leb min_agree k

abbrev pub verdict : ChainCheck → Bool → Verify
verdict confirmed majority = Verify.chain
verdict contradicted majority = Verify.unverified
verdict unknown true = Verify.majority
verdict unknown false = Verify.unverified

-- The upstreams whose answer is counted as verified.
abbrev pub credited : Verify → Bool → List ℕ → ℕ → List ℕ
credited Verify.unverified majority members served = []
credited _ true members served = members
credited _ false members served = served ∷ []

-- `agreeing.filter(|k| *k >= MIN_AGREE).map(|k| (k, asked))`
abbrev pub agreeing_of : ℕ → Option ℕ → Option (ℕ × ℕ)
agreeing_of asked none = none
agreeing_of asked (some k) = if leb min_agree k then some (k, asked) else none

module _ (j : Json) where
  open j use {Value, value_discrete, get, to_vec, to_block_header, to_info, of_info}

  unfoldable pub keys_discrete : Discrete (List Value)
  keys_discrete = hlevel value_discrete

  unfoldable pub keyed_answers : String → Option ℕ → List (Answer Value) → Keyed (List Value) Value
  keyed_answers method quorum = map (λ a. (agreement_key j method a.value quorum, a))

  unfoldable pub reduce : String → List (Answer Value) → Option ℕ → Option (Reduced Value)
  reduce method answers quorum =
      if str_eq method "get_fee_estimate"
      then fee_median j answers
      else reduce_keyed keys_discrete (keyed_answers method quorum answers)

  unfoldable pub finish : String → Value → Value
  unfolding normalise_get_info
  finish method value =
      if str_eq method "get_info" || str_eq method "/get_info"
      then elim (to_info value) [
        | none ↦ value
        | some info ↦ Option.get_or (of_info (normalise_get_info info)) value
      ]
      else value

  unfoldable pub check_last_header : Value → HeaderChain → ChainCheck
  check_last_header value chain = elim (get "block_header" value) [
    | none ↦ unknown
    | some h ↦ elim (to_block_header h) [
      | none ↦ unknown
      | some header ↦ elim (reported_header header) [
        | err e ↦ unknown
        | ok reported ↦ chain_check (verify_header_by_height reported.height reported chain)
      ]
    ]
  ]

  unfoldable pub against_chain : String → Value → HeaderChain → ChainCheck
  against_chain method value chain =
      if str_eq method "get_last_block_header" then check_last_header value chain else unknown

  unfoldable pub entry :
      String → ℕ → HeaderChain → ℕ → Reduced Value → Result String (SwrEntry × List ℕ)
  entry method asked chain now r =
      let value = finish method r.value in
      let majority = is_majority r.agreeing in
      let verify = verdict (against_chain method value chain) majority in
      to_vec value >>= λ body. ok (
        record {
          body = body;
          verify = verify_label verify;
          agreeing = agreeing_of asked r.agreeing;
          fetched = now;
        },
        credited verify majority r.members r.served,
      )

  -- The answers of the chosen upstreams that gave one.
  unfoldable pub answers_of : (ℕ → Option Value) → List ℕ → List (Answer Value)
  answers_of answer [] = []
  answers_of answer (id ∷ chosen) = elim (answer id) [
    | none ↦ answers_of answer chosen
    | some value ↦ record { upstream = id; value = value } ∷ answers_of answer chosen
  ]

  abbrev pub entry_of_answers :
      String
      → ℕ
      → Option ℕ
      → HeaderChain
      → ℕ
      → List (Answer Value)
      → Option (Result String (SwrEntry × List ℕ))
  entry_of_answers method asked quorum chain now [] = some (err "no upstream answered")
  entry_of_answers method asked quorum chain now (a ∷ answers) =
      Option.map (entry method asked chain now) (reduce method (a ∷ answers) quorum)

  abbrev pub fetch_from :
      String
      → Option ℕ
      → HeaderChain
      → ℕ
      → (ℕ → Option Value)
      → List ℕ
      → Option (Result String (SwrEntry × List ℕ))
  fetch_from method quorum chain now answer [] = some (err "no healthy upstream with capacity")
  fetch_from method quorum chain now answer (id ∷ chosen) =
      entry_of_answers method (length (id ∷ chosen)) quorum chain now
        (answers_of answer (id ∷ chosen))

  unfoldable pub fetch :
      String
      → Option ℕ
      → HeaderChain
      → ℕ
      → (ℕ → Bool)
      → (ℕ → Option Value)
      → List ℕ
      → Option (Result String (SwrEntry × List ℕ))
  fetch method quorum chain now has_token answer ranked =
      fetch_from method quorum chain now answer
        (choose ask_count has_token (take candidates ranked))
