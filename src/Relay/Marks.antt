-- ===== src/Relay/Marks.antt =====
-- What the mark of a header says, over a linked chain.
use mnr.Common.{
  ℕ, zero, suc, ◌+◌, ◌≡◌, ◌≢◌, ◌↔◌, ◌⊎◌, refl, ap, ◌∙◌, inl, inr, true, false, none, some, List, [],
  ◌∷◌, get_elem?, Result, ok, err, arith, Option-cases, ℕ_discrete, ◌==◌,
}
use mnr.HeaderChain.Store.{Hash, zero_hash, Entry, HeaderChain, get}
use mnr.HeaderChain.Linkage.{LinkedFrom, IsLinked}
use mnr.Verify.Checks.{
  VerifyError, hash, hash_mismatch, height_mismatch, prev_hash_mismatch, unknown_height, above_tip,
  ReportedHeader, entry_of, verify_header_by_height, check_header_against_chain, ok_or,
}
use mnr.Verify.Headers.{verify_header_by_height_iff}
use mnr.Relay.Checks.{Fault, mark}

mark-eq-true :
    (chain : HeaderChain) (height : ℕ) (r : Result VerifyError (Unit {0}))
    → mark chain height r ≡ ok true
    → r ≡ ok tt
unfolding mark
mark-eq-true chain height (ok u) h = refl
mark-eq-true chain height (err (hash e)) h = cc
mark-eq-true chain height (err (hash_mismatch a b)) h = ground arith
mark-eq-true chain height (err (height_mismatch a b)) h = cc
mark-eq-true chain height (err (prev_hash_mismatch a b c)) h = cc
mark-eq-true chain height (err (unknown_height a)) h = cc
mark-eq-true chain height (err (above_tip a b)) h = cc

mark-ok :
    (chain : HeaderChain) (height : ℕ) (v : Result VerifyError (Unit {0}))
    → v ≡ ok tt
    → mark chain height v ≡ ok true
unfolding mark
mark-ok chain height v e = rw e refl

-- A header is marked as on the chain exactly when it is the chain's record at this height.
pub mark_iff :
    (chain : HeaderChain) (height : ℕ) (r : ReportedHeader)
    → IsLinked chain
    → (mark chain height (verify_header_by_height height r chain) ≡ ok true)
      ↔ ((r.height ≡ height) × (get chain height ≡ some (entry_of r)))
mark_iff chain height r linked =
    let (there, back) = verify_header_by_height_iff height r chain linked in
    (
      λ h. there (mark-eq-true chain height (verify_header_by_height height r chain) h),
      λ h. mark-ok chain height (verify_header_by_height height r chain) (back h),
    )

prev-LinkedFrom :
    (h : ℕ) (p : Hash) (es : List Entry) (i : ℕ) (d e : Entry)
    → LinkedFrom h p es
    → get_elem? es i ≡ some d
    → get_elem? es (suc i) ≡ some e
    → e.prev_hash ≡ d.hash
prev-LinkedFrom h p [] i d e l a b = cc
prev-LinkedFrom h p (x ∷ []) zero d e l a b = cc
prev-LinkedFrom h p (x ∷ y ∷ es) zero d e l a b =
    let first : x ≡ d = cc in let second : y ≡ e = cc in rw (← first, ← second) l.2.1
prev-LinkedFrom h p (x ∷ es) (suc i) d e l a b = prev-LinkedFrom (h + 1) x.hash es i d e l.2 a b

-- Two records that follow one another in a linked chain are linked.
pub prev-get :
    (chain : HeaderChain) (height : ℕ) (d e : Entry)
    → IsLinked chain
    → get chain height ≡ some d
    → get chain (suc height) ≡ some e
    → e.prev_hash ≡ d.hash
unfolding get
prev-get chain height d e linked a b =
    prev-LinkedFrom 0 zero_hash chain.entries height d e linked a b

known-none :
    (chain : HeaderChain) (height : ℕ) (r : ReportedHeader)
    → r.height ≡ height
    → get chain height ≡ none
    → mark chain height (verify_header_by_height height r chain) ≡ ok false
unfolding mark verify_header_by_height check_header_against_chain ok_or
known-none chain height r at absent =
    let same_height : (r.height == height) ≡ true = ground arith in
    rw (same_height, at, absent) refl

-- A header is a fault only if it is of another height, or the chain's record there is another.
pub mark-eq-err :
    (chain : HeaderChain) (height : ℕ) (r : ReportedHeader) (f : Fault)
    → IsLinked chain
    → mark chain height (verify_header_by_height height r chain) ≡ err f
    → (r.height ≢ height) ⊎ ((e : Entry) × (get chain height ≡ some e) × (e ≢ entry_of r))
mark-eq-err chain height r f linked h = elim (ℕ_discrete r.height height) [
  | no other ↦ inl other
  | yes at ↦ elim (Option-cases (get chain height)) [
    | inl absent ↦ cc (known-none chain height r at absent)
    | inr (e, found) ↦
        inr (e, found, λ is. cc ((mark_iff chain height r linked).1 (at, found ∙ ap some is)))
  ]
]
