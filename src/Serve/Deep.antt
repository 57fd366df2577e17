-- ===== src/Serve/Deep.antt =====
-- Which answers are deep enough below the tip to be cached.
use mnr.Common.{
  ℕ, ◌+◌, ◌-◌, ◌≤◌, ◌≡◌, ◌↔◌, ◌⊎◌, refl, inl, inr, true, false, Option, none, some, leb, arith,
  Bool-cases, dec_le,
}
use mnr.Verify.Quorum.{QuorumTip}
use mnr.Serve.Labels.{Verify}
use mnr.Serve.Route.{safety_line, is_unverified, cacheable}

IsDeepBelow : ℕ → ℕ → Type 0
IsDeepBelow h tip = (h + 10 ≤ tip) ⊎ ((h ≡ 0) × (tip ≤ 10))

deep_iff : (h tip : ℕ) → (leb h (tip - 10) ≡ true) ↔ IsDeepBelow h tip
unfolding IsDeepBelow
deep_iff h tip = (
  (λ e. elim (dec_le (h + 10) tip) [
    | yes l ↦ inl l
    | no l ↦ let le : h ≤ tip - 10 = ground arith in inr (omega arith, omega arith)
  ]),
  λ d. elim d [ inl l ↦ ground arith | inr (z, l) ↦ ground arith ],
)

abbrev pub IsDeep : Option ℕ → Option QuorumTip → Type 0
IsDeep none q = ⊥
IsDeep (some h) none = ⊥
IsDeep (some h) (some q) = (h + 10 ≤ q.height) ⊎ ((h ≡ 0) × (q.height ≤ 10))

-- An answer is cached as immutable exactly when it was verified, there is a quorum, and the height on
-- which it depends is at least ten blocks below the tip (or is 0, below a tip of less than ten).
pub cacheable_iff :
    (verify : Verify) (height : Option ℕ) (q : Option QuorumTip)
    → (cacheable verify height q ≡ true) ↔ ((is_unverified verify ≡ false) × IsDeep height q)
unfolding cacheable safety_line IsDeepBelow
cacheable_iff verify none q = ((λ h. ground arith), λ h. absurd h.1)
cacheable_iff verify (some h) none = ((λ e. ground arith), λ e. absurd e.1)
cacheable_iff verify (some h) (some q) =
    let (deep, shallow) = deep_iff h q.height in
    elim (Bool-cases (is_unverified verify)) [
      | inl y ↦ rw y ((λ e. cc), λ e. cc)
      | inr n ↦ rw n ((λ e. (refl, deep e)), λ e. shallow e.1)
    ]
