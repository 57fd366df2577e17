-- ===== src/Relay/Range.antt =====
-- When an answer about a range of headers is labelled `chain`.
use mnr.Common.{
  ℕ, ◌%◌, ◌^◌, suc, ◌+◌, ◌-◌, ◌≤◌, ◌≡◌, ◌↔◌, refl, ap, ◌∙◌, inl, inr, Bool, true, false, ◌&&◌,
  Option, none, some, List, [], ◌∷◌, length, Result, ok, arith, Bool-cases, Result-cases, ltb, ◌==◌,
}
use mnr.HeaderChain.Store.{same, same_iff, HeaderChain, get}
use mnr.HeaderChain.Linkage.{IsLinked}
use mnr.Wire.Answers.{BlockHeader}
use mnr.Verify.Checks.{ReportedHeader, entry_of, verify_header_by_height}
use mnr.Consensus.Refresh.{reported_header}
use mnr.Serve.Labels.{Verify, Verified}
use mnr.Relay.Checks.{Fault, at, mark, label_if, unlinked, range_step, range_loop, check_range}
use mnr.Relay.Marks.{mark_iff, prev-get}

abbrev pub IsRecord : HeaderChain → ℕ → ReportedHeader → Type 0
IsRecord chain want r = (r.height ≡ want) × (get chain want ≡ some (entry_of r))

step-eq-true :
    (chain : HeaderChain) (position want : ℕ) (prev : Option ReportedHeader) (r s : ReportedHeader)
    → IsLinked chain
    → range_step chain position want prev r ≡ ok (s, true)
    → (s ≡ r) × IsRecord chain want r
unfolding range_step
step-eq-true chain position want prev r s linked h = elim (Bool-cases (r.height == want)) [
  | inr n ↦ cc (rw n at h)
  | inl y ↦ elim (Bool-cases (unlinked prev r)) [
    | inl broken ↦ cc (rw (y, broken) at h)
    | inr whole ↦ elim (Result-cases (mark chain want (verify_header_by_height want r chain))) [
      | inr (e, is) ↦ cc (rw (y, whole, is) at h)
      | inl (on, is) ↦
          let same_pair : ◌≡◌ {A = Result Fault (ReportedHeader × Bool)} (ok (r, on))
              (ok (s, true)) =
            rw (y, whole, is) at h in
          let marked : on ≡ true = cc in (cc, (mark_iff chain want r linked).0 (is ∙ ap ok marked))
    ]
  ]
]

step-IsRecord :
    (chain : HeaderChain) (position want : ℕ) (prev : Option ReportedHeader) (r : ReportedHeader)
    → IsLinked chain
    → unlinked prev r ≡ false
    → IsRecord chain want r
    → range_step chain position want prev r ≡ ok (r, true)
unfolding range_step
step-IsRecord chain position want prev r linked whole record_is =
    let marked = (mark_iff chain want r linked).1 record_is in
    let height : (r.height == want) ≡ true = ground arith in rw (height, whole, marked) refl

module _ (chain : HeaderChain) where
  abbrev Follows : Option ReportedHeader → ℕ → Type 0
  Follows none want = Unit
  Follows (some p) want = (m : ℕ) × (suc m ≡ want) × (get chain m ≡ some (entry_of p))

  Follows-unlinked :
      (prev : Option ReportedHeader) (want : ℕ) (r : ReportedHeader)
      → IsLinked chain
      → Follows prev want
      → IsRecord chain want r
      → unlinked prev r ≡ false
  Follows-unlinked none want r linked f is = refl
  Follows-unlinked (some p) want r linked (m, next, there) (height, here) =
      let prev_is = prev-get chain m (entry_of p) (entry_of r) linked there (rw next here) in
      let (to, back) = same_iff r.prev_hash p.hash in
      let equal : same r.prev_hash p.hash ≡ true = back prev_is in rw equal refl

module _ {V : Type 0} (chain : HeaderChain) where
  -- The headers are the chain's records at the heights from this position.
  abbrev pub OnChain : ℕ → ℕ → List (BlockHeader V) → Type 0
  OnChain start position [] = Unit
  OnChain start position (h ∷ hs) =
      ((r : ReportedHeader) × (reported_header h ≡ ok r) × IsRecord chain (start + position) r)
      × OnChain start (position + 1) hs

  loop-eq-true :
      (start position : ℕ) (prev : Option ReportedHeader) (b : Bool) (hs : List (BlockHeader V))
      → IsLinked chain
      → range_loop chain start position prev b hs ≡ ok true
      → (b ≡ true) × OnChain start position hs
  unfolding range_loop
  loop-eq-true start position prev b [] linked h = (cc, tt)
  loop-eq-true start position prev b (x ∷ hs) linked h = elim (Result-cases (reported_header x)) [
    | inr (e, is) ↦ cc (rw (is, range_loop) at h)
    | inl (r, is) ↦ elim (Result-cases (range_step chain position (start + position) prev r)) [
      | inr (e, bad) ↦ cc (rw (is, bad, range_loop) at h)
      | inl ((s, on), good) ↦
          let (all, rest) =
            loop-eq-true start (position + 1) (some s) (b && on) hs linked
              (rw (is, good, range_loop) at h) in
          let first : b ≡ true = ground arith in
          let second : on ≡ true = ground arith in
          let (same_r, on_chain) =
            step-eq-true chain position (start + position) prev r s linked
              (good ∙ ap (λ o. ok (s, o)) second) in
          (first, ((r, is, on_chain), rest))
    ]
  ]

  loop-OnChain :
      (start position : ℕ) (prev : Option ReportedHeader) (hs : List (BlockHeader V))
      → IsLinked chain
      → Follows chain prev (start + position)
      → OnChain start position hs
      → range_loop chain start position prev true hs ≡ ok true
  unfolding range_loop
  loop-OnChain start position prev [] linked f all = refl
  loop-OnChain start position prev (x ∷ hs) linked f ((r, is, on_chain), rest) =
      let good =
        step-IsRecord chain position (start + position) prev r linked
          (Follows-unlinked chain prev (start + position) r linked f on_chain) on_chain in
      rw (is, good, range_loop)
        (loop-OnChain start (position + 1) (some r) hs linked
          (start + position, omega arith, on_chain.1) rest)

  -- The range is labelled `chain` exactly when it is whole and every header is the chain's record.
  pub check_range_iff :
      (start end : ℕ) (hs : List (BlockHeader V))
      → IsLinked chain
      → (check_range chain start end hs ≡ ok (at Verify.chain end))
        ↔ ((start ≤ end) × (length hs ≡ (end - start + 1) % 2 ^ 64) × OnChain start 0 hs)
  unfolding check_range
  check_range_iff start end hs linked = elim (Bool-cases (ltb end start)) [
    | inl y ↦ rw y ((λ h. cc), λ h. absurd (ground arith))
    | inr n ↦ elim (Bool-cases (length hs == (end - start + 1) % 2 ^ 64)) [
      | inr other ↦ rw (n, other) ((λ h. cc), λ h. absurd (ground arith))
      | inl count ↦
          rw (n, count)
            (
              (λ h. elim (Result-cases (range_loop chain start 0 none true hs)) [
                | inr (e, bad) ↦ cc (rw bad at h)
                | inl (on, good) ↦
                    let is_on = labelled on end (rw good at h) in
                    (
                      ground arith,
                      ground arith,
                      (loop-eq-true start 0 none true hs linked (good ∙ ap ok is_on)).1,
                    )
              ]),
              λ h. rw (loop-OnChain start 0 none hs linked tt h.2) refl,
            )
    ]
  ]
    where
      labelled :
          (on : Bool) (end : ℕ)
          → ◌≡◌ {A = Result Fault Verified} (ok (at (label_if on) end)) (ok (at Verify.chain end))
          → on ≡ true
      labelled true end h = refl
      labelled false end h = cc
