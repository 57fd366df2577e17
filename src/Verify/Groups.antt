-- ===== src/Verify/Groups.antt =====
-- What `quorum_tip` promises, against a description by who voted for what.
use mnr.Common.{
  ℕ, ◌≡◌, ◌⊎◌, inl, inr, refl, sym, ◌∙◌, true, false, List, [], ◌∷◌, ◌++◌, In, All, arith,
  Bool-cases,
}
use mnr.Common.Sort.{Distinct, contains, In→contains}
use mnr.HeaderChain.Store.{Hash, same_iff}
use mnr.Verify.Quorum.{TipReport, QuorumTip, has_key, join, add_report, group}
use mnr.Verify.Votes.{
  Voted, voters, In-snoc, In-join, join_key, has_key-join, key_match, key_of, In-voters-add_report,
}

-- No group of this key.
abbrev pub NoKey : ℕ → Hash → List QuorumTip → Type 0
NoKey height hash = All (λ (g : QuorumTip). has_key g height hash ≡ false)

-- No two groups of one key.
abbrev pub DistinctKeys : List QuorumTip → Type 0
DistinctKeys [] = Unit
DistinctKeys (g ∷ gs) = NoKey g.height g.hash gs × DistinctKeys gs

-- The members of every group voted for its tip, and none is counted twice.
abbrev pub IsCounted : List TipReport → QuorumTip → Type 0
IsCounted reports g =
    Distinct g.agreeing × ((u : ℕ) → In u g.agreeing → Voted reports g.height g.hash u)

NoKey-add_report :
    (gs : List QuorumTip) (r : TipReport) (height : ℕ) (hash : Hash)
    → NoKey height hash gs
    → ¬ ((r.height ≡ height) × (r.hash ≡ hash))
    → NoKey height hash (add_report gs r)
unfolding add_report
NoKey-add_report [] r height hash n d = (ground (arith, same_iff r.hash hash), tt)
NoKey-add_report (g ∷ gs) r height hash n d = elim (Bool-cases (has_key g r.height r.hash)) [
  | inl j ↦ rw j (has_key-join g r.upstream height hash ∙ n.0, n.1)
  | inr j ↦ rw j (n.0, NoKey-add_report gs r height hash n.1 d)
]

add_report-DistinctKeys :
    (gs : List QuorumTip) (r : TipReport) → DistinctKeys gs → DistinctKeys (add_report gs r)
unfolding add_report
add_report-DistinctKeys [] r d = (tt, tt)
add_report-DistinctKeys (g ∷ gs) r d = elim (Bool-cases (has_key g r.height r.hash)) [
  | inl j ↦ rw (j, (join_key g r.upstream).0, (join_key g r.upstream).1) d
  | inr j ↦ rw j (
    NoKey-add_report gs r g.height g.hash d.0
        (λ (a, b). absurd (other_key j (key_match g r.height r.hash (sym a) (sym b)))),
    add_report-DistinctKeys gs r d.1,
  )
]
  where
    other_key : has_key g r.height r.hash ≡ false → has_key g r.height r.hash ≡ true → ⊥
    other_key p q = cc

Distinct-snoc : (xs : List ℕ) (a : ℕ) → Distinct xs → ¬ In a xs → Distinct (xs ++ a ∷ [])
Distinct-snoc [] a d n = ((λ m. m), tt)
Distinct-snoc (x ∷ xs) a d n = (
  (λ m. elim (In-snoc xs a x m) [ inl k ↦ d.0 k | inr e ↦ n (inl (sym e)) ]),
  Distinct-snoc xs a d.1 (λ m. n (inr m)),
)

join-IsCounted :
    (reports : List TipReport) (g : QuorumTip) (u : ℕ)
    → Voted reports g.height g.hash u
    → IsCounted reports g
    → IsCounted reports (join g u)
join-IsCounted reports g u v (d, s) = (distinct (Bool-cases (contains g.agreeing u)), votes)
  where
    distinct :
        (contains g.agreeing u ≡ true) ⊎ (contains g.agreeing u ≡ false)
        → Distinct (join g u).agreeing
    distinct (inl old) = unfold join in rw old d
    distinct (inr new) =
        unfold join in
        rw new (Distinct-snoc g.agreeing u d (λ m. fresh (In→contains g.agreeing u m) new))
      where
        fresh : contains g.agreeing u ≡ true → contains g.agreeing u ≡ false → ⊥
        fresh p q = cc

    votes : (w : ℕ) → In w (join g u).agreeing → Voted reports (join g u).height (join g u).hash w
    votes w m =
        rw ((join_key g u).0, (join_key g u).1)
          (elim ((In-join g u w).0 m) [ inl k ↦ s w k | inr e ↦ rw e at v ])

add_report-IsCounted :
    (reports : List TipReport) (gs : List QuorumTip) (r : TipReport)
    → Voted reports r.height r.hash r.upstream
    → All (IsCounted reports) gs
    → All (IsCounted reports) (add_report gs r)
unfolding add_report
add_report-IsCounted reports [] r v h =
    ((((λ m. m), tt), λ u m. elim m [ inl e ↦ rw e at v | inr n ↦ absurd n ]), tt)
add_report-IsCounted reports (g ∷ gs) r v h = elim (Bool-cases (has_key g r.height r.hash)) [
  | inl j ↦
      rw j (join-IsCounted reports g r.upstream (of_group (key_of g r.height r.hash j)) h.0, h.1)
  | inr j ↦ rw j (h.0, add_report-IsCounted reports gs r v h.1)
]
  where
    of_group : (g.height ≡ r.height) × (g.hash ≡ r.hash) → Voted reports g.height g.hash r.upstream
    of_group (a, b) = rw (a, b) v

-- What the loop has built when it is done with the reports.
pub record IsGrouping (reports : List TipReport) (gs : List QuorumTip) : Type 0 where
  pub counted : All (IsCounted reports) gs
  pub keys : DistinctKeys gs
  pub complete :
      (height : ℕ) (hash : Hash) (u : ℕ)
      → Voted reports height hash u
      → In u (voters gs height hash)

group-IsGrouping :
    (reports : List TipReport) (rs : List TipReport) (gs : List QuorumTip)
    → ((height : ℕ) (hash : Hash) (u : ℕ) → Voted rs height hash u → Voted reports height hash u)
    → All (IsCounted reports) gs
    → DistinctKeys gs
    → ((height : ℕ) (hash : Hash) (u : ℕ)
        → Voted reports height hash u
        → Voted rs height hash u ⊎ In u (voters gs height hash))
    → IsGrouping reports (group gs rs)
unfolding group
group-IsGrouping reports [] gs inside c k all = record {
  counted = c;
  keys = k;
  complete = λ height hash u v. elim (all height hash u v) [ inl n ↦ absurd n | inr m ↦ m ];
}
group-IsGrouping reports (r ∷ rs) gs inside c k all =
    group-IsGrouping reports rs (add_report gs r) (λ height hash u v. inside height hash u (inr v))
      (add_report-IsCounted reports gs r
        (inside r.height r.hash r.upstream (inl (refl, refl, refl))) c)
      (add_report-DistinctKeys gs r k)
      (λ height hash u v. elim (all height hash u v) [
        | inl (inl here) ↦ inr (In-voters-add_report gs r height hash u (inl here))
        | inl (inr later) ↦ inl later
        | inr m ↦ inr (In-voters-add_report gs r height hash u (inr m))
      ])

-- The loop over the reports counts every vote once, for its own tip.
pub group_lem : (reports : List TipReport) → IsGrouping reports (group [] reports)
group_lem reports =
    group-IsGrouping reports reports [] (λ height hash u v. v) tt tt (λ height hash u v. inl v)
