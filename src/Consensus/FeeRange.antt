-- ===== src/Consensus/FeeRange.antt =====
-- A minority of nodes cannot move the served fees out of the range of the others'.
use mnr.Common.{
  ℕ, zero, suc, ◌+◌, ◌*◌, ◌<◌, ◌≤◌, ◌≡◌, refl, sym, subst, ap, ◌∙◌, inl, inr, true, Option, none,
  some, List, [], ◌∷◌, map, length, get_elem?, get_elem?_lt, arith, Bool-cases, Option-cases,
}
use native.Mathlib.Nat.{add-zero, zero-add}
use mnr.Common.Sort.{count}
use mnr.Verify.Median.{median, median_exists, median-within, within}
use mnr.Wire.Answers.{GetFeeEstimateResult}
use mnr.Wire.Json.{Json}
use mnr.Consensus.Vote.{Answer}
use mnr.Consensus.Fees.{
  Parsed, has_fees, aligned, fees_at, medians, median_fees, fees_of, composed, compose, parse_all,
  fee_median,
}

length-map : {A B : Type 0} (f : A → B) (xs : List A) → length (map f xs) ≡ length xs
length-map f [] = refl
length-map f (x ∷ xs) = ap suc (length-map f xs)

module _ {Value : Type 0} where
  -- An aligned estimate has a fee at each index.
  fees_at_total :
      (n i : ℕ) (parsed : Parsed Value)
      → aligned n parsed ≡ true
      → i < n
      → (column : List ℕ) × (fees_at i parsed ≡ some column) × (length column ≡ length parsed)
  unfolding aligned fees_at
  fees_at_total n i [] h lt = ([], refl, refl)
  fees_at_total n i ((p, a) ∷ parsed) h lt = elim (Option-cases p.fees) [
    | inl missing ↦ absurd (ground arith)
    | inr (fees, is) ↦
        let here : has_fees n (some fees) ≡ true = ground arith in
        let (fee, at) = get_elem?_lt fees i (ground arith) in
        let (column, rest, len) = fees_at_total n i parsed (ground arith) lt in
        (fee ∷ column, rw (is, at, rest) refl, ap suc len)
  ]

  medians_total :
      (n i k : ℕ) (parsed : Parsed Value)
      → 0 < length parsed
      → aligned n parsed ≡ true
      → i + k ≤ n
      → (out : List ℕ) × (medians i k parsed ≡ some out)
  unfolding medians
  medians_total n i zero parsed some_parsed h le = ([], refl)
  medians_total n i (suc k) parsed some_parsed h le =
      let (column, at, len) = fees_at_total n i parsed h (omega arith) in
      let (m, is) = median_exists column (omega arith) in
      let (rest, more) = medians_total n (i + 1) k parsed some_parsed h (omega arith) in
      (m ∷ rest, rw (at, is, more) refl)

  median_fees_total :
      (fees : Option (List ℕ)) (parsed : Parsed Value)
      → 0 < length parsed
      → (out : Option (List ℕ)) × (median_fees fees parsed ≡ some out)
  unfolding median_fees
  median_fees_total none parsed h = (none, refl)
  median_fees_total (some fees) parsed h = elim (Bool-cases (aligned (length fees) parsed)) [
    | inl y ↦
        let (out, is) = medians_total (length fees) 0 (length fees) parsed h y (omega arith) in
        (some out, rw (y, is) refl)
    | inr n ↦ (some fees, rw n refl)
  ]

  median_fees-aligned :
      (given : Option (List ℕ)) (fees : List ℕ) (parsed : Parsed Value) (out : List ℕ)
      → given ≡ some fees
      → aligned (length fees) parsed ≡ true
      → medians 0 (length fees) parsed ≡ some out
      → median_fees given parsed ≡ some (some out)
  unfolding median_fees
  median_fees-aligned given fees parsed out has line all = rw (has, line, all) refl

  medians-suc :
      (i n : ℕ) (parsed : Parsed Value) (out : List ℕ)
      → medians i (suc n) parsed ≡ some out
      → (column : List ℕ) × (m : ℕ) × (rest : List ℕ) × (fees_at i parsed ≡ some column)
        × (median column ≡ some m)
        × (medians (i + 1) n parsed ≡ some rest)
        × (m ∷ rest ≡ out)
  unfolding medians
  medians-suc i n parsed out h = elim (Option-cases (fees_at i parsed)) [
    | inl missing ↦ cc (rw missing at h)
    | inr (c, here) ↦ elim (Option-cases (median c)) [
      | inl missing ↦ cc (rw (here, missing) at h)
      | inr (m, is) ↦ elim (Option-cases (medians (i + 1) n parsed)) [
        | inl missing ↦ cc (rw (here, is, missing) at h)
        | inr (rest, more) ↦ (c, m, rest, here, is, more, cc (rw (here, is, more) at h))
      ]
    ]
  ]

  -- The median at an index is that of its column.
  medians_at :
      (i k n : ℕ) (parsed : Parsed Value) (out column : List ℕ)
      → medians i n parsed ≡ some out
      → k < n
      → fees_at (i + k) parsed ≡ some column
      → get_elem? out k ≡ median column
  unfolding medians
  medians_at i k zero parsed out column h lt at = absurd (omega arith)
  medians_at i zero (suc n) parsed out column h lt at =
      let (c, m, rest, here, is, more, made) = medians-suc i n parsed out h in
      let same : c ≡ column = cc (here, rw add-zero at at) in rw (← made, ← same) (sym is)
  medians_at i (suc k) (suc n) parsed out column h lt at =
      let (c, m, rest, here, is, more, made) = medians-suc i n parsed out h in
      let next : i + 1 + k ≡ i + suc k = omega arith in
      rw (← made) (medians_at (i + 1) k n parsed rest column more (omega arith) (rw next at))

module _ (j : Json) where
  open j use {Value, of_fee_estimate}

  -- What `fee_median` makes of the estimates that parse: never a panic.
  pub compose_lem :
      (answers : List (Answer Value)) (p : GetFeeEstimateResult Value) (a : Answer Value)
      (rest : Parsed Value)
      → (fees : Option (List ℕ)) × (m : ℕ) × (median_fees p.fees ((p, a) ∷ rest) ≡ some fees)
        × (median (fees_of ((p, a) ∷ rest)) ≡ some m)
        × (compose j answers ((p, a) ∷ rest)
            ≡ some (composed j (record p { fee = m; fees = fees }) a ((p, a) ∷ rest)))
  unfolding compose
  compose_lem answers p a rest =
      let (fees, is) = median_fees_total p.fees ((p, a) ∷ rest) (omega arith) in
      let (m, fee) = median_exists (fees_of ((p, a) ∷ rest)) (omega arith) in
      (fees, m, is, fee, rw (is, fee) refl)

  -- Where estimates parse, `fee_median` serves the first of them with another fee and other fees,
  -- counts and credits all of them, and no minority moves the fee: if more than half of the
  -- estimates have a fee between `lo` and `hi`, so has what is served.
  pub fee_median-within :
      (answers : List (Answer Value)) (p : GetFeeEstimateResult Value) (a : Answer Value)
      (rest : Parsed Value) (lo hi : ℕ)
      → parse_all j answers ≡ (p, a) ∷ rest
      → length ((p, a) ∷ rest) < 2 * count (within lo hi) (fees_of ((p, a) ∷ rest))
      → (m : ℕ) × (fees : Option (List ℕ)) × (fee_median j answers
          ≡ some (composed j (record p { fee = m; fees = fees }) a ((p, a) ∷ rest)))
        × (lo ≤ m)
        × (m ≤ hi)
  unfolding fee_median
  fee_median-within answers p a rest lo hi parsed most =
      let (fees, m, _, is, made) = compose_lem answers p a rest in
      let (k, at, low, high) = median-within lo hi (fees_of ((p, a) ∷ rest)) (
        omega
          (arith, length-map (λ (x : GetFeeEstimateResult Value × Answer Value). x.0.fee) rest)) in
      let same : k ≡ m = cc in (m, fees, rw parsed made, rw (← same) low, rw (← same) high)

  -- The same of each entry of the fees: where every estimate has as many as the first, and more than
  -- half of the entries at an index lie between `lo` and `hi`, so does the served one.
  pub fee_median-fees_within :
      (answers : List (Answer Value)) (p : GetFeeEstimateResult Value) (a : Answer Value)
      (rest : Parsed Value) (fees column : List ℕ) (i lo hi : ℕ)
      → parse_all j answers ≡ (p, a) ∷ rest
      → p.fees ≡ some fees
      → aligned (length fees) ((p, a) ∷ rest) ≡ true
      → i < length fees
      → fees_at i ((p, a) ∷ rest) ≡ some column
      → length column < 2 * count (within lo hi) column
      → (m : ℕ) × (out : List ℕ) × (fee : ℕ) × (fee_median j answers
          ≡ some (composed j (record p { fee = m; fees = some out }) a ((p, a) ∷ rest)))
        × (get_elem? out i ≡ some fee)
        × (lo ≤ fee)
        × (fee ≤ hi)
  unfolding fee_median
  fee_median-fees_within answers p a rest fees column i lo hi parsed has line lt at most =
      let (made, m, is, _, served) = compose_lem answers p a rest in
      let (out, all) =
        medians_total (length fees) 0 (length fees) ((p, a) ∷ rest) (omega arith) line
          (omega arith) in
      let found : median_fees p.fees ((p, a) ∷ rest) ≡ some (some out) =
        median_fees-aligned p.fees fees ((p, a) ∷ rest) out has line all in
      let same : made ≡ some out = cc in
      let (fee, mid, low, high) = median-within lo hi column most in
      let entry =
        medians_at 0 i (length fees) ((p, a) ∷ rest) out column all lt
          (subst (λ k. fees_at k ((p, a) ∷ rest) ≡ some column) (sym (zero-add i)) at) in
      (m, out, fee, rw (parsed, ← same) served, entry ∙ mid, low, high)
