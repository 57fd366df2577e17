-- ===== src/Hash/Fees.antt =====
-- The fee of a version 1 transaction, which is computed without overflow or not at all.
use mnr.Common.{
  ℕ, ◌+◌, ◌<◌, ◌^◌, ◌≡◌, ◌↔◌, refl, inl, inr, Bool-cases, Option, none, some, List, [], ◌∷◌, false,
  ltb, arith,
}
use mnr.Hash.{
  Input, v1, checked_sum, input_amounts, output_amounts, v1_fee, version_fee, fee_of, any_gen,
}

abbrev pub total : List ℕ → ℕ
total [] = 0
total (x ∷ xs) = x + total xs

checked_sum_iff :
    (acc s : ℕ) (xs : List ℕ)
    → acc < 2 ^ 64
    → (checked_sum acc xs ≡ some s) ↔ ((s ≡ acc + total xs) × (s < 2 ^ 64))
unfolding checked_sum
checked_sum_iff acc s [] h = ((λ e. ground arith), λ e. ground arith)
checked_sum_iff acc s (x ∷ xs) h = elim (Bool-cases (ltb (acc + x) (2 ^ 64))) [
  | inl y ↦
      let ih = checked_sum_iff (acc + x) s xs (ground arith) in
      rw (y, checked_sum)
        (
          (λ e. let (is, fits) = ih.0 e in (omega arith, fits)),
          λ (is, fits). ih.1 (omega arith, fits),
        )
  | inr n ↦ rw (n, checked_sum) ((λ e. cc), λ e. absurd (ground arith))
]

v1_fee-some :
    (a b : Option ℕ) (fee : ℕ)
    → v1_fee a b ≡ some fee
    → (x : ℕ) × (y : ℕ) × (a ≡ some x) × (b ≡ some y) × (x ≡ y + fee)
unfolding v1_fee
v1_fee-some none b fee h = cc
v1_fee-some (some x) none fee h = cc
v1_fee-some (some x) (some y) fee h = (x, y, refl, refl, ground arith)

v1_fee-paid : (x y fee : ℕ) → x ≡ y + fee → v1_fee (some x) (some y) ≡ some fee
unfolding v1_fee
v1_fee-paid x y fee h = ground arith

-- A version 1 transaction has a fee exactly when it is no miner transaction, neither the sum of its
-- inputs nor that of its outputs overflows a `u64`, and the inputs pay the outputs; the fee is then
-- what is left.
pub fee_of-v1_iff :
    (inputs : List Input) (outputs : List (Option ℕ)) (fee : ℕ)
    → (fee_of v1 inputs outputs ≡ some fee) ↔ (
        (any_gen inputs ≡ false)
        × (total (input_amounts inputs) < 2 ^ 64)
        × (total (output_amounts outputs) < 2 ^ 64)
        × (total (input_amounts inputs) ≡ total (output_amounts outputs) + fee))
unfolding fee_of version_fee
fee_of-v1_iff inputs outputs fee = elim (Bool-cases (any_gen inputs)) [
  | inl y ↦ rw y ((λ e. cc), λ e. cc)
  | inr n ↦
      let i = total (input_amounts inputs) in
      let o = total (output_amounts outputs) in
      let ins = checked_sum_iff 0 i (input_amounts inputs) (omega arith) in
      let outs = checked_sum_iff 0 o (output_amounts outputs) (omega arith) in
      rw n (
        (λ e.
            let (x, y, paid, spent, left) = v1_fee-some _ _ fee e in
            let (is_in, in_fits) =
              (checked_sum_iff 0 x (input_amounts inputs) (omega arith)).0 paid in
            let (is_out, out_fits) =
              (checked_sum_iff 0 y (output_amounts outputs) (omega arith)).0 spent in
            (refl, omega arith, omega arith, omega arith)),
        λ (_, in_fits, out_fits, left).
            rw (ins.1 (omega arith, in_fits), outs.1 (omega arith, out_fits))
              (v1_fee-paid i o fee left),
      )
]
