-- ===== src/Verify/Headers.antt =====
-- A header passes exactly when it is the chain's record at its height.
use mnr.Common.{
  ℕ, ◌≤◌, ◌≡◌, ◌↔◌, inl, inr, refl, sym, ap, Option-cases, none, some, ok, err, length, get_elem?,
  get_elem?_lt, dec_lt, lt_of_get_elem?, arith,
}
use mnr.HeaderChain.Store.{Hash, same_iff, Entry, HeaderChain, get, len}
use mnr.HeaderChain.Linkage.{IsLinked, height-get}
use mnr.Verify.Checks.{
  unknown_height, ReportedHeader, entry_of, match_header, check_header_against_chain,
  verify_header_by_height, verify_header_by_hash,
}

-- The three fields that are compared.
match_header_iff :
    (r : ReportedHeader) (e : Entry)
    → (match_header r e ≡ ok tt)
      ↔ ((r.hash ≡ e.hash) × (r.prev_hash ≡ e.prev_hash) × (r.timestamp ≡ e.timestamp))
unfolding match_header
match_header_iff r e = (
  (λ h. ground (arith, same_iff r.hash e.hash, same_iff r.prev_hash e.prev_hash)),
  λ h. ground (arith, same_iff r.hash e.hash, same_iff r.prev_hash e.prev_hash),
)

entry_eq :
    (e f : Entry)
    → e.height ≡ f.height
    → e.hash ≡ f.hash
    → e.prev_hash ≡ f.prev_hash
    → e.timestamp ≡ f.timestamp
    → e ≡ f
entry_eq e f a b c d = λ i. record { height = a i; hash = b i; prev_hash = c i; timestamp = d i }

check_iff :
    (r : ReportedHeader) (chain : HeaderChain)
    → IsLinked chain
    → (check_header_against_chain r chain ≡ ok tt) ↔ (get chain r.height ≡ some (entry_of r))
unfolding check_header_against_chain
check_iff r chain l = elim (Option-cases (get chain r.height)) [
  | inl absent ↦ rw absent ((λ h. cc), λ h. cc)
  | inr (e, found) ↦ rw found (
    (λ h.
        let (a, b, c) = (match_header_iff r e).0 h in
        ap some
          (entry_eq e (entry_of r) (height-get chain r.height e l found) (sym a) (sym b) (sym c))),
    λ h. (match_header_iff r e).1 (
        let is : e ≡ entry_of r = cc in
        (
          ap (λ (x : Entry). x.hash) (sym is),
          ap (λ (x : Entry). x.prev_hash) (sym is),
          ap (λ (x : Entry). x.timestamp) (sym is),
        )),
  )
]

-- Over a linked chain `verify_header_by_height` passes a header exactly when it bears the requested
-- height and the chain's record there has all its four fields.
pub verify_header_by_height_iff :
    (height : ℕ) (r : ReportedHeader) (chain : HeaderChain)
    → IsLinked chain
    → (verify_header_by_height height r chain ≡ ok tt)
      ↔ ((r.height ≡ height) × (get chain height ≡ some (entry_of r)))
unfolding verify_header_by_height
verify_header_by_height_iff height r chain l =
    let check = check_iff r chain l in (λ h. ground (arith, check.0), λ h. ground (arith, check.1))

-- Over a linked chain `verify_header_by_hash` passes a header exactly when it bears the requested
-- hash and is the chain's record at the height that it claims.
pub verify_header_by_hash_iff :
    (requested : Hash) (r : ReportedHeader) (chain : HeaderChain)
    → IsLinked chain
    → (verify_header_by_hash requested r chain ≡ ok tt)
      ↔ ((r.hash ≡ requested) × (get chain r.height ≡ some (entry_of r)))
unfolding verify_header_by_hash
verify_header_by_hash_iff requested r chain l =
    let check = check_iff r chain l in
    (
      (λ h. ground (arith, check.0, same_iff r.hash requested)),
      λ h. ground (arith, check.1, same_iff r.hash requested),
    )

match_header-known :
    (r : ReportedHeader) (e : Entry) (n : ℕ) → match_header r e ≡ err (unknown_height n) → ⊥
unfolding match_header
match_header-known r e n h = ground arith

absent_above : (c : HeaderChain) (h : ℕ) → get c h ≡ none → length c.entries ≤ h
unfolding get
absent_above c h e = elim (dec_lt h (length c.entries)) [
  | yes p ↦ absurd (some_is_none (get_elem?_lt c.entries h p))
  | no p ↦ omega arith
]
  where
    some_is_none : ((a : Entry) × (get_elem? c.entries h ≡ some a)) → ⊥
    some_is_none (a, q) = cc

-- A header check answers that the height is unknown exactly when the chain ends below it: never
-- for a header that contradicts a record.
pub check_unknown_iff :
    (r : ReportedHeader) (chain : HeaderChain)
    → (check_header_against_chain r chain ≡ err (unknown_height r.height)) ↔ (len chain ≤ r.height)
unfolding check_header_against_chain len get
check_unknown_iff r chain = elim (Option-cases (get chain r.height)) [
  | inl absent ↦ rw absent ((λ h. absent_above chain r.height absent), λ h. refl)
  | inr (e, found) ↦ rw found (
    (λ h. absurd (match_header-known r e r.height h)),
    λ h. absurd (omega (arith, lt_of_get_elem? chain.entries r.height found)),
  )
]
