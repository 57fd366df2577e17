-- ===== src/Consensus/Fees.antt =====
-- crates/relay/src/consensus.rs: the median of the fee estimates. A panic of the source is `none`.
use mathlib.Core.Option
use mnr.Common.{
  ℕ, zero, suc, ◌+◌, Bool, true, false, ◌&&◌, Option, none, some, List, [], ◌∷◌, map, length,
  get_elem?, ◌==◌, if◌then◌else◌,
}
use mnr.Verify.Median.{median}
use mnr.Wire.Answers.{GetFeeEstimateResult}
use mnr.Common.Partial.{◌>>=◌}
use mnr.Wire.Json.{Json}
use mnr.Consensus.Vote.{Answer, Reduced}

abbrev pub Parsed : Type 0 → Type 0
Parsed Value = List (GetFeeEstimateResult Value × Answer Value)

-- `p.fees.as_ref().is_some_and(|f| f.len() == fees.len())`
abbrev pub has_fees : ℕ → Option (List ℕ) → Bool
has_fees n none = false
has_fees n (some fees) = length fees == n

module _ {Value : Type 0} where
  unfoldable pub aligned : ℕ → Parsed Value → Bool
  aligned n [] = true
  aligned n ((p, a) ∷ parsed) = has_fees n p.fees && aligned n parsed

  -- `p.fees.as_ref().expect("aligned")[i]` of every estimate.
  unfoldable pub fees_at : ℕ → Parsed Value → Option (List ℕ)
  fees_at i [] = some []
  fees_at i ((p, a) ∷ parsed) = do
    fees ← p.fees
    fee ← get_elem? fees i
    others ← fees_at i parsed
    some (fee ∷ others)

  -- The medians of the columns `i`, `i + 1`, …, of which there are `n`.
  unfoldable pub medians : ℕ → ℕ → Parsed Value → Option (List ℕ)
  unfolding fees_at median
  medians i zero parsed = some []
  medians i (suc n) parsed = do
    column ← fees_at i parsed
    m ← median column
    others ← medians (i + 1) n parsed
    some (m ∷ others)

  unfoldable pub median_fees : Option (List ℕ) → Parsed Value → Option (Option (List ℕ))
  unfolding aligned medians
  median_fees none parsed = some none
  median_fees (some fees) parsed =
      if aligned (length fees) parsed
      then Option.map some (medians 0 (length fees) parsed)
      else some (some fees)

  abbrev pub fees_of : Parsed Value → List ℕ
  fees_of = map (λ p. p.0.fee)

  abbrev pub upstreams_of : Parsed Value → List ℕ
  upstreams_of = map (λ p. p.1.upstream)

module _ (j : Json) where
  open j use {Value, null, to_fee_estimate, of_fee_estimate}

  unfoldable pub parse_all : List (Answer Value) → Parsed Value
  parse_all [] = []
  parse_all (a ∷ answers) = elim (to_fee_estimate a.value) [
    | none ↦ parse_all answers
    | some p ↦ (p, a) ∷ parse_all answers
  ]

  abbrev pub unparsed : List (Answer Value) → Reduced Value
  unparsed [] = record { value = null; agreeing = none; members = []; served = 0 }
  unparsed (a ∷ answers) = record {
    value = a.value;
    agreeing = none;
    members = [];
    served = a.upstream;
  }

  abbrev pub composed : GetFeeEstimateResult Value → Answer Value → Parsed Value → Reduced Value
  composed out first parsed = record {
    value = Option.get_or (of_fee_estimate out) first.value;
    agreeing = some (length parsed);
    members = upstreams_of parsed;
    served = first.upstream;
  }

  unfoldable pub compose : List (Answer Value) → Parsed Value → Option (Reduced Value)
  unfolding median_fees median
  compose answers [] = some (unparsed answers)
  compose answers ((p, first) ∷ rest) =
      let parsed = (p, first) ∷ rest in
      do
        fees ← median_fees p.fees parsed
        some (
            composed (record p { fee = Option.get_or (median (fees_of parsed)) p.fee; fees = fees })
              first parsed)

  unfoldable pub fee_median : List (Answer Value) → Option (Reduced Value)
  unfolding compose parse_all
  fee_median answers = compose answers (parse_all answers)
