-- ===== src/Verify/Winner.antt =====
-- The group that `quorum_tip` chooses.
use mnr.Common.{
  ℕ, zero, suc, ◌≤◌, ◌<◌, ◌≡◌, ◌⊎◌, inl, inr, refl, sym, ap, ◌∙◌, false, Option, none, some, List,
  [], ◌∷◌, length, In, All-In, ◌==◌, arith, Option-cases, subst, dec_lt,
}
use mnr.Common.Sort.{
  Distinct, length-Distinct-le, sort, length-sort, In-sort_iff, Ascending, sort-Ascending,
  sort-Distinct,
}
use mnr.HeaderChain.Store.{Hash, same_iff}
use mnr.Verify.Quorum.{
  TipReport, QuorumTip, has_key, group, keep_enough, max_group, sorted, quorum_tip,
}
use mnr.Verify.Votes.{Voted, voters, has_key_self}
use mnr.Verify.Groups.{IsCounted, DistinctKeys, group_lem}
use mathlib.Core.Option
use mnr.Verify.Best.{IsBelow, IsTop, max_group_lem, max_group-none, In-keep_enough, group_of_voters}

-- Distinct upstreams that all reported one tip.
abbrev pub IsBloc : List TipReport → ℕ → Hash → List ℕ → Type 0
IsBloc reports height hash us = Distinct us × ((u : ℕ) → In u us → Voted reports height hash u)

-- What a quorum tip claims of the reports, and why it is the best one.
pub record IsQuorum (reports : List TipReport) (min_agree : ℕ) (q : QuorumTip) : Type 0 where
  pub enough : min_agree ≤ length q.agreeing
  pub ascending : Ascending q.agreeing
  pub bloc : IsBloc reports q.height q.hash q.agreeing
  pub everyone : (u : ℕ) → Voted reports q.height q.hash u → In u q.agreeing
  pub best :
      (height : ℕ) (hash : Hash) (us : List ℕ)
      → IsBloc reports height hash us
      → min_agree ≤ length us
      → (height < q.height) ⊎ ((height ≡ q.height) × (length us ≤ length q.agreeing))

-- A group holds all voters of its tip.
voters_of_group :
    (gs : List QuorumTip) (g : QuorumTip)
    → DistinctKeys gs
    → In g gs
    → voters gs g.height g.hash ≡ g.agreeing
unfolding voters
voters_of_group [] g d m = absurd m
voters_of_group (k ∷ gs) g d (inl e) = rw (← e) (rw (has_key_self k) refl)
voters_of_group (k ∷ gs) g d (inr m) =
    rw (other_key (All-In (λ (f : QuorumTip). has_key f k.height k.hash ≡ false) gs d.0 m))
      (voters_of_group gs g d.1 m)
  where
    other_key : has_key g k.height k.hash ≡ false → has_key k g.height g.hash ≡ false
    other_key h = ground (arith, same_iff g.hash k.hash, same_iff k.hash g.hash)

module _ (reports : List TipReport) (min_agree : ℕ) (positive : 0 < min_agree) where
  -- A bloc that is large enough is held by a group that is kept.
  kept_group :
      (height : ℕ) (hash : Hash) (us : List ℕ)
      → IsBloc reports height hash us
      → min_agree ≤ length us
      → (f : QuorumTip) × In f (keep_enough min_agree (group [] reports))
        × (f.height ≡ height)
        × (length us ≤ length f.agreeing)
  kept_group height hash [] b l = absurd (omega arith)
  kept_group height hash (u ∷ us) (d, votes) l =
      let grouping = group_lem reports in
      let inside = λ (w : ℕ) (m : In w (u ∷ us)). grouping.complete height hash w (votes w m) in
      let (f, at, a, b, is) =
        group_of_voters (group [] reports) height hash u (inside u (inl refl)) in
      let fits = length-Distinct-le (u ∷ us) f.agreeing d (λ w m. rw (← is) (inside w m)) in
      (f, (In-keep_enough min_agree (group [] reports) f).1 (at, omega arith), a, fits)

  winner_lem :
      (g : QuorumTip)
      → IsTop g (keep_enough min_agree (group [] reports))
      → IsQuorum reports min_agree (sorted g)
  winner_lem g (m, top) =
      let grouping = group_lem reports in
      let (at, enough) = (In-keep_enough min_agree (group [] reports) g).0 m in
      let (distinct, votes) = All-In (IsCounted reports) (group [] reports) grouping.counted at in
      record {
        enough = omega (arith, length-sort g.agreeing);
        ascending = sort-Ascending g.agreeing;
        bloc = (sort-Distinct g.agreeing distinct, λ u n. votes u ((In-sort_iff u g.agreeing).0 n));
        everyone = λ u v. (In-sort_iff u g.agreeing).1 (
            rw (← voters_of_group (group [] reports) g grouping.keys at)
              (grouping.complete g.height g.hash u v));
        best = λ height hash us b l. best_of g us (kept_group height hash us b l) top;
      }
    where
      best_of :
          (g : QuorumTip) {height : ℕ} (us : List ℕ)
          → ((f : QuorumTip) × In f (keep_enough min_agree (group [] reports))
              × (f.height ≡ height)
              × (length us ≤ length f.agreeing))
          → ((f : QuorumTip) → In f (keep_enough min_agree (group [] reports)) → IsBelow f g)
          → (height < g.height) ⊎ ((height ≡ g.height) × (length us ≤ length (sort g.agreeing)))
      best_of g us (f, at, a, l) top = elim (top f at) [
        | inl lt ↦ inl (omega arith)
        | inr (e, le) ↦ inr (omega arith, omega (arith, length-sort g.agreeing))
      ]

-- The group that is chosen, before its members are sorted.
winner : List TipReport → ℕ → Option QuorumTip
winner reports min_agree = max_group (keep_enough min_agree (group [] reports))

quorum_tip_pos :
    (reports : List TipReport) (min_agree : ℕ)
    → 0 < min_agree
    → quorum_tip reports min_agree ≡ Option.map sorted (winner reports min_agree)
unfolding quorum_tip winner
quorum_tip_pos reports zero p = absurd (omega arith)
quorum_tip_pos reports (suc m) p =
    let is_positive : (suc m == 0) ≡ false = ground arith in rw (is_positive, quorum_tip) refl

quorum_tip-zero : (reports : List TipReport) → quorum_tip reports 0 ≡ none
unfolding quorum_tip
quorum_tip-zero reports = refl

positive_of :
    (reports : List TipReport) (min_agree : ℕ) (q : QuorumTip)
    → quorum_tip reports min_agree ≡ some q
    → 0 < min_agree
positive_of reports zero q h = cc (quorum_tip-zero reports)
positive_of reports (suc m) q h = omega arith

-- `quorum_tip` finds a tip that at least `min_agree` distinct upstreams reported, names all of them
-- in ascending order and no other, and no group of that many upstreams agrees on a higher tip, or
-- on the same height with more votes.
pub quorum_tip-IsQuorum :
    (reports : List TipReport) (min_agree : ℕ) (q : QuorumTip)
    → quorum_tip reports min_agree ≡ some q
    → IsQuorum reports min_agree q
quorum_tip-IsQuorum reports min_agree q h =
    let p = positive_of reports min_agree q h in
    elim (Option-cases (winner reports min_agree)) [
      | inl nothing ↦ cc (quorum_tip_pos reports min_agree p, ap (Option.map sorted) nothing)
      | inr (g, won) ↦
          let is : sorted g ≡ q =
            cc (quorum_tip_pos reports min_agree p, ap (Option.map sorted) won) in
          subst (IsQuorum reports min_agree) is (
            winner_lem reports min_agree p g
              (max_group_lem (keep_enough min_agree (group [] reports)) g (unfold winner in won)))
    ]

-- Where `quorum_tip` finds none (with a threshold of at least 1), no tip was reported by that many distinct
-- upstreams.
pub quorum_tip-none :
    (reports : List TipReport) (min_agree : ℕ)
    → 0 < min_agree
    → quorum_tip reports min_agree ≡ none
    → (height : ℕ) (hash : Hash) (us : List ℕ) → IsBloc reports height hash us
    → length us < min_agree
quorum_tip-none reports min_agree p h height hash us b = elim (dec_lt (length us) min_agree) [
  | yes l ↦ l
  | no l ↦
      let (f, at, _, _) = kept_group reports min_agree p height hash us b (omega arith) in
      let empty =
        (Option.map-eq-none_iff sorted (winner reports min_agree)).0
          (sym (quorum_tip_pos reports min_agree p) ∙ h) in
      absurd
        (max_group-none (keep_enough min_agree (group [] reports)) f (unfold winner in empty) at)
]
