-- ===== src/Relay/Single.antt =====
-- What the check of one header says, and of which height an answer speaks.
use mnr.Common.{
  ℕ, ◌≡◌, ◌↔◌, refl, ap, ◌∙◌, inl, inr, Bool, true, false, Option, none, some, Result, ok, err,
  Result-cases,
}
use mnr.HeaderChain.Store.{HeaderChain}
use mnr.HeaderChain.Linkage.{IsLinked}
use mnr.Wire.Answers.{BlockHeader}
use mnr.Verify.Checks.{ReportedHeader, verify_header_by_height}
use mnr.Consensus.Refresh.{reported_header}
use mnr.Serve.Labels.{Verify, Verified}
use mnr.Relay.Checks.{Fault, nothing, at, mark, label_if, check_header, enveloped}
use mnr.Relay.Marks.{mark_iff}
use mnr.Relay.Range.{IsRecord}

labelled :
    (on : Bool) (height : ℕ)
    → ◌≡◌ {A = Result Fault Verified} (ok (at (label_if on) height)) (ok (at Verify.chain height))
    → on ≡ true
labelled true height h = refl
labelled false height h = cc

height_of : Result Fault Verified → Option ℕ
height_of (ok w) = w.height
height_of (err e) = none

pub at-inj :
    (v w : Verify) (n m : ℕ) → ◌≡◌ {A = Result Fault Verified} (ok (at v n)) (ok (at w m)) → n ≡ m
unfolding height_of
at-inj v w n m h = let same_height : some n ≡ some m = ap height_of h in cc

pub nothing-at :
    {P : Type 0} (v : Verify) (n : ℕ)
    → ◌≡◌ {A = Result Fault Verified} (ok nothing) (ok (at v n))
    → P
unfolding height_of
nothing-at v n h = let none_some : none ≡ some n = ap height_of h in cc

pub enveloped-at :
    {T : Type 0} (o : Option (Option T)) (check : T → Result Fault Verified) (v : Verify)
    (height : ℕ)
    → enveloped o check ≡ ok (at v height)
    → (x : T) × (o ≡ some (some x)) × (check x ≡ ok (at v height))
enveloped-at none check v height h = cc
enveloped-at (some none) check v height h = nothing-at v height h
enveloped-at (some (some x)) check v height h = (x, refl, h)

module _ {V : Type 0} (chain : HeaderChain) where
  pub check_header_iff :
      (height : ℕ) (h : BlockHeader V)
      → IsLinked chain
      → (check_header chain height h ≡ ok (at Verify.chain height))
        ↔ ((r : ReportedHeader) × (reported_header h ≡ ok r) × IsRecord chain height r)
  unfolding check_header
  check_header_iff height h linked = elim (Result-cases (reported_header h)) [
    | inr (e, is) ↦ rw is ((λ k. cc), λ (r, there, known). cc)
    | inl (r, is) ↦ rw is (
      (λ k. elim (Result-cases (mark chain height (verify_header_by_height height r chain))) [
        | inr (e, bad) ↦ cc (rw bad at k)
        | inl (on, good) ↦ (
          r,
          refl,
          (mark_iff chain height r linked).0 (good ∙ ap ok (labelled on height (rw good at k))),
        )
      ]),
      λ (s, there, known).
          let same_s : s ≡ r = cc in
          rw ((mark_iff chain height r linked).1 (rw same_s at known)) refl,
    )
  ]

  pub check_header-height :
      (n : ℕ) (h : BlockHeader V) (v : Verify) (height : ℕ)
      → check_header chain n h ≡ ok (at v height)
      → n ≡ height
  unfolding check_header
  check_header-height n h v height k = elim (Result-cases (reported_header h)) [
    | inr (e, is) ↦ cc (rw is at k)
    | inl (r, is) ↦ elim (Result-cases (mark chain n (verify_header_by_height n r chain))) [
      | inr (e, bad) ↦ cc (rw (is, bad) at k)
      | inl (on, good) ↦ at-inj (label_if on) v n height (rw (is, good) at k)
    ]
  ]
