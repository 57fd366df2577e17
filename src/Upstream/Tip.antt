-- ===== src/Upstream/Tip.antt =====
-- The round's quorum is made by upstreams that answered, are synchronized and stand on its tip.
use Prim.Native.String.{String}
use mnr.Common.{
  ℕ, ◌+◌, ◌≤◌, ◌≡◌, ◌↔◌, ◌⊎◌, refl, ap, inl, inr, true, false, ◌&&◌, not, Option, some, List, [],
  ◌∷◌, ◌++◌, map, length, In, ltb, Result, ok, err, arith, Bool-cases,
}
use mnr.HeaderChain.Store.{Hash}
use mnr.Verify.Quorum.{TipReport, QuorumTip, quorum_tip}
use mnr.Verify.Votes.{Voted}
use mnr.Verify.Winner.{quorum_tip-IsQuorum}
use mnr.Upstream.Health.{ejected, note_lapse}
use mnr.Upstream.Probe.{
  Probe, Member, note_probe, note_probes, report_of, reports, note_up, lapse_of, note_lapses,
  probe_all,
}

-- A member of the id that answered, is synchronized, is not ejected and stands on the tip.
abbrev pub IsVoter : {F : Type 0} → ℕ → ℕ → Hash → ℕ → Member F → Type 0
IsVoter now height hash u m =
    (m.id ≡ u)
    × (m.health.up ≡ true)
    × (m.health.synchronized ≡ true)
    × (ejected m.health now ≡ false)
    × (m.health.block_count ≡ height + 1)
    × (m.health.top_hash ≡ some hash)

abbrev pub HasVoter : {F : Type 0} → ℕ → ℕ → Hash → ℕ → List (Member F) → Type 0
HasVoter now height hash u [] = ⊥
HasVoter now height hash u (m ∷ members) =
    IsVoter now height hash u m ⊎ HasVoter now height hash u members

Voted-append :
    (xs ys : List TipReport) (height : ℕ) (hash : Hash) (u : ℕ)
    → Voted (xs ++ ys) height hash u
    → Voted xs height hash u ⊎ Voted ys height hash u
Voted-append [] ys height hash u v = inr v
Voted-append (x ∷ xs) ys height hash u (inl r) = inl (inl r)
Voted-append (x ∷ xs) ys height hash u (inr v) = elim (Voted-append xs ys height hash u v) [
  | inl a ↦ inl (inr a)
  | inr b ↦ inr b
]

Voted-left :
    (xs ys : List TipReport) (height : ℕ) (hash : Hash) (u : ℕ)
    → Voted xs height hash u
    → Voted (xs ++ ys) height hash u
Voted-left [] ys height hash u v = absurd v
Voted-left (x ∷ xs) ys height hash u (inl r) = inl r
Voted-left (x ∷ xs) ys height hash u (inr v) = inr (Voted-left xs ys height hash u v)

Voted-right :
    (xs ys : List TipReport) (height : ℕ) (hash : Hash) (u : ℕ)
    → Voted ys height hash u
    → Voted (xs ++ ys) height hash u
Voted-right [] ys height hash u v = v
Voted-right (x ∷ xs) ys height hash u v = inr (Voted-right xs ys height hash u v)

module _ {F : Type 0} (blend : F → F → F) where
  report-IsVoter :
      (now wall : ℕ) (m : Member F) (r : Result String (Probe F)) (height : ℕ) (hash : Hash) (u : ℕ)
      → Voted (report_of now m r) height hash u
      → IsVoter now height hash u (record m { health = note_probe blend wall m.health r })
  unfolding report_of note_probe ejected
  report-IsVoter now wall m (err e) height hash u v = absurd v
  report-IsVoter now wall m (ok p) height hash u v =
      elim (Bool-cases (p.synchronized && not (ejected m.health now) && ltb 0 p.block_count)) [
        | inr n ↦ absurd (rw n at v)
        | inl y ↦ elim (rw y at v) [
          | inl (a, b, c) ↦ (c, refl, ground arith, ground arith, ground arith, ap some b)
          | inr nothing ↦ absurd nothing
        ]
      ]

  IsVoter-report :
      (now wall : ℕ) (m : Member F) (r : Result String (Probe F)) (height : ℕ) (hash : Hash) (u : ℕ)
      → IsVoter now height hash u (record m { health = note_probe blend wall m.health r })
      → Voted (report_of now m r) height hash u
  unfolding report_of note_probe ejected
  IsVoter-report now wall m (err e) height hash u (id, up, _, _, _, _) = cc
  IsVoter-report now wall m (ok p) height hash u (id, up, synced, not_out, count, top) =
      let passed : (p.synchronized && not (ejected m.health now) && ltb 0 p.block_count) ≡ true =
        ground arith in
      let same : p.top_hash ≡ hash = cc in rw passed (inl (ground arith, same, id))

  reports-Voted :
      (now wall : ℕ) (members : List (Member F)) (results : List (Result String (Probe F)))
      (height : ℕ) (hash : Hash) (u : ℕ)
      → length members ≡ length results
      → Voted (reports now members results) height hash u
        ↔ HasVoter now height hash u (note_probes blend wall members results)
  unfolding reports note_probes
  reports-Voted now wall [] results height hash u e = ((λ v. v), λ v. v)
  reports-Voted now wall (m ∷ members) [] height hash u e = absurd (omega arith)
  reports-Voted now wall (m ∷ members) (r ∷ results) height hash u e =
      let (of, to) = reports-Voted now wall members results height hash u (omega arith) in
      let here = report_of now m r in
      (
        (λ v. elim (Voted-append here (reports now members results) height hash u v) [
          | inl a ↦ inl (report-IsVoter now wall m r height hash u a)
          | inr b ↦ inr (of b)
        ]),
        λ v. elim v [
          | inl a ↦
              Voted-left here (reports now members results) height hash u
                (IsVoter-report now wall m r height hash u a)
          | inr b ↦ Voted-right here (reports now members results) height hash u (to b)
        ],
      )

-- What a round does after the answers leaves the votes as they are.
later_iff :
    {F : Type 0} (now unix height u : ℕ) (hash : Hash) (q : Option QuorumTip)
    (members : List (Member F))
    → HasVoter now height hash u members
      ↔ HasVoter now height hash u (map (note_up q unix) (note_lapses now members))
unfolding note_up note_lapses note_lapse lapse_of ejected
later_iff now unix height u hash q [] = ((λ v. v), λ v. v)
later_iff now unix height u hash q (m ∷ members) =
    let (of, to) = later_iff now unix height u hash q members in
    (
      (λ v. elim v [ inl a ↦ inl a | inr b ↦ inr (of b) ]),
      λ v. elim v [ inl a ↦ inl a | inr b ↦ inr (to b) ],
    )

-- After a round in which each upstream was asked, the upstreams that agree on the quorum tip are
-- exactly those that answered, are synchronized, are not ejected, and stand on the tip with their
-- height and their hash; they are at least `min_agree`.
pub probe_all-voters :
    {F : Type 0} (blend : F → F → F) (min_agree now wall unix : ℕ) (members : List (Member F))
    (results : List (Result String (Probe F))) (q : QuorumTip) (u : ℕ)
    → length members ≡ length results
    → (probe_all blend min_agree now wall unix members results).1 ≡ some q
    → (min_agree ≤ length q.agreeing)
      × (In u q.agreeing
          ↔ HasVoter now q.height q.hash u
              (probe_all blend min_agree now wall unix members results).0)
unfolding probe_all
probe_all-voters blend min_agree now wall unix members results q u e h =
    let won = quorum_tip-IsQuorum (reports now members results) min_agree q h in
    let (of, to) = reports-Voted blend now wall members results q.height q.hash u e in
    let (later, before) =
      later_iff now unix q.height u q.hash (quorum_tip (reports now members results) min_agree)
        (note_probes blend wall members results) in
    (won.enough, ((λ m. later (of (won.bloc.1 u m))), λ v. won.everyone u (to (before v))))
