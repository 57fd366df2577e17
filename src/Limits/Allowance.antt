-- ===== src/Limits/Allowance.antt =====
-- The allowance of work units is not exceeded by what is admitted.
use mnr.Common.{
  ℕ, ◌+◌, ◌%◌, ◌^◌, ◌<◌, ◌≤◌, ◌≡◌, refl, inl, inr, Bool-cases, false, Option, none, some, ltb, ◌==◌,
  arith,
}
use mnr.Limits.Memory.{Counts, count_of, admit, Verdict, allow, rate_limited, quota_exceeded}
use mnr.Limits.Slots.{count_of-store}

-- What an admission has done to the work units used.
abbrev pub Admitted : Counts → ℕ → ℕ → ℕ → Counts → Verdict → Type 0
Admitted used id monthly_wu wu used' allow =
    (count_of used' id ≡ count_of used id + wu) × (count_of used' id ≤ monthly_wu)
Admitted used id monthly_wu wu used' (rate_limited retry) = used' ≡ used
Admitted used id monthly_wu wu used' quota_exceeded =
    (count_of used' id ≡ count_of used id) × (monthly_wu + 1 ≤ count_of used id + wu)

-- A request that is admitted is charged its work units and keeps within the month's allowance; one
-- that exceeds the allowance is not charged, and it would have gone over it; one that comes too
-- fast changes nothing. No other principal's units change. (The sum fits in a `u64`.)
pub admit_charges :
    (used : Counts) (id monthly_wu wu : ℕ) (burst : Option ℕ)
    → count_of used id + wu < 2 ^ 64
    → Admitted used id monthly_wu wu
        (admit used id monthly_wu wu burst).0
        (admit used id monthly_wu wu burst).1
      × ((k : ℕ)
          → (k == id) ≡ false
          → count_of (admit used id monthly_wu wu burst).0 k ≡ count_of used k)
unfolding admit
admit_charges used id monthly_wu wu (some retry) fits = (refl, λ k other. refl)
admit_charges used id monthly_wu wu none fits =
    let next : (count_of used id + wu) % 2 ^ 64 ≡ count_of used id + wu = omega arith in
    rw next (elim (Bool-cases (ltb monthly_wu (count_of used id + wu))) [
      | inl y ↦ rw y (
        (ground (arith, count_of-store used id (count_of used id) id), ground arith),
        λ k other. ground (arith, count_of-store used id (count_of used id) k),
      )
      | inr n ↦ rw n (
        (
          ground (arith, count_of-store used id (count_of used id + wu) id),
          ground (arith, count_of-store used id (count_of used id + wu) id),
        ),
        λ k other. ground (arith, count_of-store used id (count_of used id + wu) k),
      )
    ])
