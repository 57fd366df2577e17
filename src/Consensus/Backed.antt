-- ===== src/Consensus/Backed.antt =====
-- What stands behind a reduced answer: who agrees, and on what.
use Prim.Native.String.{String}
use text.Mathlib.Text.{◌==◌ as str_eq}
use text.Mathlib.TextEquality.{eq_iff}
use mnr.Common.{
  ℕ, ◌≡◌, ◌⊎◌, refl, ap, subst, inl, inr, Bool, true, Option, none, some, List, [], ◌∷◌, map,
  length, take, zero, suc, Bool-cases, Option-cases,
}
use mnr.Common.Sort.{Distinct}
use mnr.Common.Sub.{Sub, done, keep, skip, Sub-nil, Sub-Distinct}
use mnr.Wire.Answers.{GetFeeEstimateResult}
use mnr.Wire.Json.{Json}
use mnr.Verify.Median.{median}
use mnr.Consensus.Vote.{Answer, Reduced}
use mnr.Consensus.Reduced.{IsElected, IsReduced, reduce_keyed-IsReduced}
use mnr.Consensus.Keys.{agreement_key}
use mnr.Consensus.Fees.{Parsed, fee_median, compose, composed, parse_all, upstreams_of, fees_of}
use mnr.Consensus.FeeRange.{compose_lem}
use mnr.Consensus.Refresh.{keyed_answers, keys_discrete, reduce, answers_of, choose}

pub take-Sub : (n : ℕ) (ids : List ℕ) → Sub (take n ids) ids
take-Sub zero ids = Sub-nil ids
take-Sub (suc n) [] = done
take-Sub (suc n) (id ∷ ids) = keep (take-Sub n ids)

pub choose-Sub : (n : ℕ) (has_token : ℕ → Bool) (ids : List ℕ) → Sub (choose n has_token ids) ids
unfolding choose
choose-Sub n has_token [] = done
choose-Sub zero has_token (id ∷ ids) = Sub-nil (id ∷ ids)
choose-Sub (suc n) has_token (id ∷ ids) = elim (Bool-cases (has_token id)) [
  | inl y ↦ rw (y, choose) (keep (choose-Sub n has_token ids))
  | inr m ↦ rw (m, choose) (skip (choose-Sub (suc n) has_token ids))
]

module _ (j : Json) where
  open j use {Value, to_fee_estimate}

  abbrev pub upstreams : List (Answer Value) → List ℕ
  upstreams = map (λ a. a.upstream)

  pub answers_of-Sub :
      (answer : ℕ → Option Value) (chosen : List ℕ)
      → Sub (upstreams (answers_of j answer chosen)) chosen
  unfolding answers_of
  answers_of-Sub answer [] = done
  answers_of-Sub answer (id ∷ chosen) = elim (Option-cases (answer id)) [
    | inl missing ↦ rw (missing, answers_of) (skip (answers_of-Sub answer chosen))
    | inr (v, is) ↦ rw (is, answers_of) (keep (answers_of-Sub answer chosen))
  ]

  parse_all-Sub :
      (answers : List (Answer Value)) → Sub (upstreams_of (parse_all j answers)) (upstreams answers)
  unfolding parse_all
  parse_all-Sub [] = done
  parse_all-Sub (a ∷ answers) = elim (Option-cases (to_fee_estimate a.value)) [
    | inl missing ↦ rw (missing, parse_all) (skip (parse_all-Sub answers))
    | inr (v, is) ↦ rw (is, parse_all) (keep (parse_all-Sub answers))
  ]

  keyed-upstreams :
      (method : String) (quorum : Option ℕ) (answers : List (Answer Value))
      → map (λ x. x.1.upstream) (keyed_answers j method quorum answers) ≡ upstreams answers
  unfolding keyed_answers
  keyed-upstreams method quorum [] = refl
  keyed-upstreams method quorum (a ∷ answers) =
      ap (λ us. a.upstream ∷ us) (keyed-upstreams method quorum answers)

  -- So many estimates can be read, and the answer is the first of them with the median of their fees.
  abbrev pub IsMedian : List (Answer Value) → Reduced Value → ℕ → Type 0
  IsMedian answers r k =
      (p : GetFeeEstimateResult Value) × (a : Answer Value) × (rest : Parsed Value) × (fees : Option
        (List ℕ))
      × (m : ℕ) × (parse_all j answers ≡ (p, a) ∷ rest)
      × (length ((p, a) ∷ rest) ≡ k)
      × (median (fees_of ((p, a) ∷ rest)) ≡ some m)
      × (r ≡ composed j (record p { fee = m; fees = fees }) a ((p, a) ∷ rest))

  -- So many answers have one key, a largest number, and the best ranked of them is served; or it is
  -- the estimate of fees.
  abbrev pub Agrees : String → Option ℕ → List (Answer Value) → Reduced Value → ℕ → Type 0
  Agrees method quorum answers r k =
      IsElected (keys_discrete j) (keyed_answers j method quorum answers) r k
      ⊎ ((method ≡ "get_fee_estimate") × IsMedian answers r k)

  -- Just so many different upstreams are the members.
  abbrev pub IsBacked : String → Option ℕ → List (Answer Value) → Reduced Value → Option ℕ → Type 0
  IsBacked method quorum answers r none = Unit
  IsBacked method quorum answers r (some k) =
      Agrees method quorum answers r k × (length r.members ≡ k) × Distinct r.members

  reduced-IsBacked :
      (method : String) (quorum : Option ℕ) (answers : List (Answer Value)) (r : Reduced Value)
      (o : Option ℕ)
      → Distinct (upstreams answers)
      → IsReduced (keys_discrete j) (keyed_answers j method quorum answers) r o
      → IsBacked method quorum answers r o
  reduced-IsBacked method quorum answers r none d h = tt
  reduced-IsBacked method quorum answers r (some k) d h = (
    inl h,
    h.numbered,
    Sub-Distinct r.members (upstreams answers)
        (subst (λ us. Sub r.members us) (keyed-upstreams method quorum answers) h.once) d,
  )

  length-upstreams_of : (parsed : Parsed Value) → length (upstreams_of parsed) ≡ length parsed
  length-upstreams_of [] = refl
  length-upstreams_of (p ∷ parsed) = ap suc (length-upstreams_of parsed)

  -- A vote on answers of different upstreams, one at least, has a result, with what is behind it.
  pub reduce-IsBacked :
      (method : String) (quorum : Option ℕ) (a : Answer Value) (answers : List (Answer Value))
      → Distinct (upstreams (a ∷ answers))
      → (r : Reduced Value) × (reduce j method (a ∷ answers) quorum ≡ some r)
        × IsBacked method quorum (a ∷ answers) r r.agreeing
  unfolding reduce fee_median compose keyed_answers
  reduce-IsBacked method quorum a answers d = elim (Bool-cases (str_eq method "get_fee_estimate")) [
    | inl y ↦ rw y (fee y (parse_all j (a ∷ answers)) refl)
    | inr n ↦
        let (r, is, settled) =
          reduce_keyed-IsReduced (keys_discrete j) (agreement_key j method a.value quorum, a)
            (keyed_answers j method quorum answers) in
        (r, rw n is, reduced-IsBacked method quorum (a ∷ answers) r r.agreeing d settled)
  ]
    where
      fee :
          str_eq method "get_fee_estimate" ≡ true
          → (parsed : Parsed Value) → parse_all j (a ∷ answers) ≡ parsed
          → (r : Reduced Value) × (compose j (a ∷ answers) parsed ≡ some r)
            × IsBacked method quorum (a ∷ answers) r r.agreeing
      fee y [] is = (_, refl, tt)
      fee y ((p, first) ∷ rest) is =
          let (fees, m, _, mid, made) = compose_lem j (a ∷ answers) p first rest in
          (
            composed j (record p { fee = m; fees = fees }) first ((p, first) ∷ rest),
            made,
            (
              inr (
                (eq_iff method "get_fee_estimate").0 y,
                (p, first, rest, fees, m, is, refl, mid, refl),
              ),
              length-upstreams_of ((p, first) ∷ rest),
              Sub-Distinct (upstreams_of ((p, first) ∷ rest)) (upstreams (a ∷ answers))
                  (subst (λ x. Sub (upstreams_of x) (upstreams (a ∷ answers))) is
                    (parse_all-Sub (a ∷ answers)))
                  d,
            ),
          )
