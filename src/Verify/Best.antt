-- ===== src/Verify/Best.antt =====
-- The group that is chosen of the enough: none is above it.
use mnr.Common.{
  ℕ, ◌≤◌, ◌<◌, ◌≡◌, ◌↔◌, ◌⊎◌, inl, inr, refl, Bool, true, false, none, some, List, [], ◌∷◌, length,
  In, if◌then◌else◌, arith, Bool-cases, subst,
}
use mnr.HeaderChain.Store.{Hash}
use mnr.Verify.Quorum.{QuorumTip, has_key, is_enough, keep_enough, not_above, max_from, max_group}
use mnr.Verify.Votes.{voters, key_of}

-- At most as high, and where equally high with at most as many votes.
abbrev pub IsBelow : QuorumTip → QuorumTip → Type 0
IsBelow a b =
    (a.height < b.height) ⊎ ((a.height ≡ b.height) × (length a.agreeing ≤ length b.agreeing))

IsBelow-iff : (a b : QuorumTip) → (not_above a b ≡ true) ↔ IsBelow a b
unfolding not_above
IsBelow-iff a b = ((λ h. ground arith), λ h. ground arith)

IsBelow-of_not : (a b : QuorumTip) → not_above a b ≡ false → IsBelow b a
unfolding not_above
IsBelow-of_not a b h = ground arith

IsBelow-trans : (a b c : QuorumTip) → IsBelow a b → IsBelow b c → IsBelow a c
IsBelow-trans a b c p q = ground arith

-- One of the groups, and none is above it.
abbrev pub IsTop : QuorumTip → List QuorumTip → Type 0
IsTop q gs = In q gs × ((g : QuorumTip) → In g gs → IsBelow g q)

IsTop-cons :
    (q best g : QuorumTip) (gs : List QuorumTip)
    → (In q (best ∷ gs) × IsBelow best q)
    → IsBelow g best
    → ((k : QuorumTip) → In k gs → IsBelow k q)
    → IsTop q (best ∷ g ∷ gs) × IsTop q (g ∷ best ∷ gs)
IsTop-cons q best g gs (m, b) below rest = (
  (
    elim m [ inl e ↦ inl e | inr t ↦ inr (inr t) ],
    λ k n. elim n [
      | inl e ↦ rw (← e) b
      | inr (inl e) ↦ rw (← e) (IsBelow-trans g best q below b)
      | inr (inr t) ↦ rest k t
    ],
  ),
  (
    inr m,
    λ k n. elim n [
      | inl e ↦ rw (← e) (IsBelow-trans g best q below b)
      | inr (inl e) ↦ rw (← e) b
      | inr (inr t) ↦ rest k t
    ],
  ),
)

max_from_lem : (best : QuorumTip) (gs : List QuorumTip) → IsTop (max_from best gs) (best ∷ gs)
unfolding max_from
max_from_lem best [] =
    (inl refl, λ k n. elim n [ inl e ↦ rw (← e) (inr (refl, omega arith)) | inr t ↦ absurd t ])
max_from_lem best (g ∷ gs) = step (not_above best g) refl (max_from_lem g gs) (max_from_lem best gs)
  where
    step :
        (b : Bool)
        → not_above best g ≡ b
        → IsTop (max_from g gs) (g ∷ gs)
        → IsTop (max_from best gs) (best ∷ gs)
        → IsTop (max_from (if b then g else best) gs) (best ∷ g ∷ gs)
    step true up (m, all) _ =
        (IsTop-cons (max_from g gs) g best gs (m, all g (inl refl)) ((IsBelow-iff best g).0 up)
          (λ k t. all k (inr t))).1
    step false down _ (m, all) =
        (IsTop-cons (max_from best gs) best g gs (m, all best (inl refl))
          (IsBelow-of_not best g down) (λ k t. all k (inr t))).0

pub max_group_lem : (gs : List QuorumTip) (q : QuorumTip) → max_group gs ≡ some q → IsTop q gs
unfolding max_group
max_group_lem [] q h = cc
max_group_lem (g ∷ gs) q h =
    let is : max_from g gs ≡ q = cc in subst (λ t. IsTop t (g ∷ gs)) is (max_from_lem g gs)

pub max_group-none : (gs : List QuorumTip) (g : QuorumTip) → max_group gs ≡ none → In g gs → ⊥
unfolding max_group
max_group-none [] g h m = m
max_group-none (g' ∷ gs) g h m = cc

pub In-keep_enough :
    (n : ℕ) (gs : List QuorumTip) (g : QuorumTip)
    → In g (keep_enough n gs) ↔ (In g gs × (n ≤ length g.agreeing))
unfolding keep_enough
In-keep_enough n [] g = ((λ m. absurd m), λ m. m.0)
In-keep_enough n (k ∷ gs) g = elim (Bool-cases (is_enough n k)) [
  | inl y ↦ rw y (
    (λ m. elim m [
      | inl e ↦ (inl e, rw (← e) (enough k y))
      | inr t ↦ let r = (In-keep_enough n gs g).0 t in (inr r.0, r.1)
    ]),
    λ (m, l). elim m [ inl e ↦ inl e | inr t ↦ inr ((In-keep_enough n gs g).1 (t, l)) ],
  )
  | inr f ↦ rw f (
    (λ m. let r = (In-keep_enough n gs g).0 m in (inr r.0, r.1)),
    λ (m, l). elim m [
      | inl e ↦ absurd (too_few k f (rw e l))
      | inr t ↦ (In-keep_enough n gs g).1 (t, l)
    ],
  )
]
  where
    enough : (k : QuorumTip) → is_enough n k ≡ true → n ≤ length k.agreeing
    enough k y = ground arith

    too_few : (k : QuorumTip) → is_enough n k ≡ false → n ≤ length k.agreeing → ⊥
    too_few k f l = ground arith

-- The group that holds a tip's voters, where there are any.
pub group_of_voters :
    (gs : List QuorumTip) (height : ℕ) (hash : Hash) (u : ℕ)
    → In u (voters gs height hash)
    → (g : QuorumTip) × In g gs
      × (g.height ≡ height)
      × (g.hash ≡ hash)
      × (voters gs height hash ≡ g.agreeing)
unfolding voters
group_of_voters [] height hash u m = absurd m
group_of_voters (g ∷ gs) height hash u m = elim (Bool-cases (has_key g height hash)) [
  | inl k ↦ let (a, b) = key_of g height hash k in rw k (g, inl refl, a, b, refl)
  | inr k ↦
      let (f, at, a, b, v) = group_of_voters gs height hash u (rw k at m) in
      rw k (f, inr at, a, b, v)
]
