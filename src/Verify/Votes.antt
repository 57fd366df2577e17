-- ===== src/Verify/Votes.antt =====
-- Who voted for which tip, and that no vote is lost.
use mnr.Common.{
  ℕ, ◌≡◌, ◌↔◌, ◌⊎◌, inl, inr, refl, true, false, List, [], ◌∷◌, ◌++◌, In, if◌then◌else◌, arith,
  Bool-cases,
}
use mnr.Common.Sort.{contains, contains→In}
use mnr.HeaderChain.Store.{Hash, same_iff}
use mnr.Verify.Quorum.{TipReport, QuorumTip, has_key, join, add_report}

abbrev pub Reports : TipReport → ℕ → Hash → ℕ → Type 0
Reports r height hash u = (r.height ≡ height) × (r.hash ≡ hash) × (r.upstream ≡ u)

-- The upstream reported this tip.
abbrev pub Voted : List TipReport → ℕ → Hash → ℕ → Type 0
Voted [] height hash u = ⊥
Voted (r ∷ rs) height hash u = Reports r height hash u ⊎ Voted rs height hash u

-- The members of the first group of the key.
unfoldable pub voters : List QuorumTip → ℕ → Hash → List ℕ
voters [] height hash = []
voters (g ∷ gs) height hash = if has_key g height hash then g.agreeing else voters gs height hash

pub In-snoc : (xs : List ℕ) (a b : ℕ) → In b (xs ++ a ∷ []) → In b xs ⊎ (a ≡ b)
In-snoc [] a b (inl e) = inr e
In-snoc [] a b (inr m) = absurd m
In-snoc (x ∷ xs) a b (inl e) = inl (inl e)
In-snoc (x ∷ xs) a b (inr m) = elim (In-snoc xs a b m) [ inl k ↦ inl (inr k) | inr e ↦ inr e ]

snoc-In : (xs : List ℕ) (a b : ℕ) → In b xs ⊎ (a ≡ b) → In b (xs ++ a ∷ [])
snoc-In [] a b (inl m) = absurd m
snoc-In [] a b (inr e) = inl e
snoc-In (x ∷ xs) a b (inl (inl e)) = inl e
snoc-In (x ∷ xs) a b (inl (inr m)) = inr (snoc-In xs a b (inl m))
snoc-In (x ∷ xs) a b (inr e) = inr (snoc-In xs a b (inr e))

pub In-join : (g : QuorumTip) (u w : ℕ) → In w (join g u).agreeing ↔ (In w g.agreeing ⊎ (u ≡ w))
unfolding join
In-join g u w = elim (Bool-cases (contains g.agreeing u)) [
  | inl old ↦
      rw old
        ((λ m. inl m), λ m. elim m [ inl k ↦ k | inr e ↦ rw e at (contains→In g.agreeing u old) ])
  | inr new ↦ rw new (In-snoc g.agreeing u w, snoc-In g.agreeing u w)
]

pub join_key : (g : QuorumTip) (u : ℕ) → ((join g u).height ≡ g.height) × ((join g u).hash ≡ g.hash)
unfolding join
join_key g u = ground arith

pub has_key-join :
    (g : QuorumTip) (u height : ℕ) (hash : Hash)
    → has_key (join g u) height hash ≡ has_key g height hash
unfolding join
has_key-join g u height hash = elim (Bool-cases (contains g.agreeing u)) [
  | inl old ↦ rw old refl
  | inr new ↦ rw new refl
]

pub key_match :
    (g : QuorumTip) (height : ℕ) (hash : Hash)
    → g.height ≡ height
    → g.hash ≡ hash
    → has_key g height hash ≡ true
key_match g height hash a b = ground (arith, same_iff g.hash hash)

pub has_key_self : (g : QuorumTip) → has_key g g.height g.hash ≡ true
has_key_self g = ground (arith, same_iff g.hash g.hash)

pub key_of :
    (g : QuorumTip) (height : ℕ) (hash : Hash)
    → has_key g height hash ≡ true
    → (g.height ≡ height) × (g.hash ≡ hash)
key_of g height hash h = ground (arith, same_iff g.hash hash)

-- A report's upstream is among the voters of its tip from then on, and no voter is lost.
pub In-voters-add_report :
    (gs : List QuorumTip) (r : TipReport) (height : ℕ) (hash : Hash) (u : ℕ)
    → Reports r height hash u ⊎ In u (voters gs height hash)
    → In u (voters (add_report gs r) height hash)
unfolding voters add_report
In-voters-add_report [] r height hash u (inl (a, b, c)) =
    rw
      (key_match (record { height = r.height; hash = r.hash; agreeing = r.upstream ∷ [] }) height
        hash a b)
      (inl c)
In-voters-add_report [] r height hash u (inr m) = absurd m
In-voters-add_report (g ∷ gs) r height hash u m = elim (Bool-cases (has_key g r.height r.hash)) [
  | inl j ↦
      rw (j, has_key-join g r.upstream height hash)
        (elim (Bool-cases (has_key g height hash)) [
          | inl k ↦ rw k (
              (In-join g r.upstream u).1
                (elim m [ inl (a, b, c) ↦ inr c | inr n ↦ inl (rw k at n) ]))
          | inr k ↦
              rw k (elim m [ inl (a, b, c) ↦ absurd (clash (a, b, c) j k) | inr n ↦ rw k at n ])
        ])
  | inr j ↦ rw j (elim (Bool-cases (has_key g height hash)) [
    | inl k ↦ rw k (elim m [ inl (a, b, c) ↦ absurd (clash' (a, b, c) j k) | inr n ↦ rw k at n ])
    | inr k ↦ rw k (
        In-voters-add_report gs r height hash u
          (elim m [ inl e ↦ inl e | inr n ↦ inr (rw k at n) ]))
  ])
]
  where
    clash :
        Reports r height hash u
        → has_key g r.height r.hash ≡ true
        → has_key g height hash ≡ false
        → ⊥
    clash (a, b, c) j k = let j' = (rw (a, b) at j) in cc

    clash' :
        Reports r height hash u
        → has_key g r.height r.hash ≡ false
        → has_key g height hash ≡ true
        → ⊥
    clash' (a, b, c) j k = let j' = (rw (a, b) at j) in cc
