-- ===== src/Upstream/Eligible.antt =====
-- Which upstreams may serve, and that the ranking holds just those.
use mnr.Common.{
  ℕ, ◌+◌, ◌≡◌, ◌↔◌, ◌⊎◌, refl, sym, subst, inl, inr, Bool, true, false, ◌&&◌, ◌||◌, not, Option,
  none, some, List, [], ◌∷◌, map, In, arith, Bool-cases, Option-cases,
}
use mnr.HeaderChain.Store.{Hash, same_iff}
use mnr.Verify.Quorum.{QuorumTip}
use mnr.Upstream.Health.{Health, ejected, on_tip, hash_is}
use mnr.Upstream.Probe.{Member}
use mnr.Upstream.Ranking.{
  Work, is_stream, Floats, is_out, candidate, candidates, insert_by, sort_by, ranked,
}

-- Exactly on the quorum tip.
abbrev pub OnTip : {F : Type 0} → QuorumTip → Health F → Type 0
OnTip q h = (h.block_count ≡ q.height + 1) × (h.top_hash ≡ some q.hash)

-- On the tip, or our own node where there is no quorum.
abbrev pub Placed : {F : Type 0} → Option QuorumTip → Member F → Type 0
Placed none m = m.owned ≡ true
Placed (some q) m = OnTip q m.health

-- Healthy, synchronized, not ejected, not opted out, in place, and no onion for a stream.
abbrev pub MayServe : {F : Type 0} → Work → ℕ → Option QuorumTip → Member F → Type 0
MayServe work now q m =
    ((is_stream work && m.onion) ≡ false)
    × (m.health.up ≡ true)
    × (m.health.synchronized ≡ true)
    × (ejected m.health now ≡ false)
    × (m.health.opted_out ≡ false)
    × Placed q m

abbrev pub Serves : {F : Type 0} → Work → ℕ → Option QuorumTip → ℕ → List (Member F) → Type 0
Serves work now q id [] = ⊥
Serves work now q id (m ∷ members) =
    ((m.id ≡ id) × MayServe work now q m) ⊎ Serves work now q id members

hash_is_iff : (hash : Hash) (o : Option Hash) → (hash_is hash o ≡ true) ↔ (o ≡ some hash)
hash_is_iff hash none = ((λ h. cc), λ h. cc)
hash_is_iff hash (some h) =
    let (fits, same_as) = same_iff h hash in ((λ e. let is = fits e in cc), λ e. same_as (cc))

pub on_tip_iff :
    {F : Type 0} (h : Health F) (q : QuorumTip) → (on_tip h (some q) ≡ true) ↔ OnTip q h
unfolding on_tip
on_tip_iff h q =
    let (fits, same_as) = hash_is_iff q.hash h.top_hash in
    ((λ e. (ground arith, fits (ground arith))), λ e. let at = same_as e.1 in ground arith)

-- The guards of `ranked`, each passed.
guards_iff :
    (a u s e o : Bool)
    → ((a || (not u || (not s || (e || o)))) ≡ false)
      ↔ ((a ≡ false) × (u ≡ true) × (s ≡ true) × (e ≡ false) × (o ≡ false))
guards_iff a u s e o = ((λ h. ground arith), λ h. ground arith)

module _ (floats : Floats) where
  open floats use {F, le}

  Chosen : Option (ℕ × F) → ℕ → Type 0
  Chosen none id = ⊥
  Chosen (some c) id = c.0 ≡ id

  is_out_iff :
      (work : Work) (now : ℕ) (m : Member F)
      → (is_out floats work now m ≡ false) ↔ (
          ((is_stream work && m.onion) ≡ false)
          × (m.health.up ≡ true)
          × (m.health.synchronized ≡ true)
          × (ejected m.health now ≡ false)
          × (m.health.opted_out ≡ false))
  unfolding is_out
  is_out_iff work now m =
      guards_iff (is_stream work && m.onion) m.health.up m.health.synchronized
        (ejected m.health now) m.health.opted_out

  out_none :
      (work : Work) (now : ℕ) (q : Option QuorumTip) (m : Member F)
      → is_out floats work now m ≡ true
      → MayServe work now q m
      → ⊥
  out_none work now q m y (a, b, c, d, e, p) =
      let n = (is_out_iff work now m).1 (a, b, c, d, e) in cc

  candidate_iff :
      (work : Work) (now : ℕ) (q : Option QuorumTip) (m : Member F) (id : ℕ)
      → Chosen (candidate floats work now q m) id ↔ ((m.id ≡ id) × MayServe work now q m)
  unfolding candidate Chosen
  candidate_iff work now none m id = elim (Bool-cases (is_out floats work now m)) [
    | inl y ↦ rw y ((λ h. absurd h), λ h. absurd (out_none work now none m y h.1))
    | inr n ↦
        let (a, b, c, d, e) = (is_out_iff work now m).0 n in
        elim (Bool-cases m.owned) [
          | inl o ↦ rw (n, o) ((λ h. (h, (a, b, c, d, e, refl))), λ h. h.0)
          | inr o ↦ rw (n, o) ((λ h. absurd h), λ h. cc)
        ]
  ]
  candidate_iff work now (some q) m id = elim (Bool-cases (is_out floats work now m)) [
    | inl y ↦ rw y ((λ h. absurd h), λ h. absurd (out_none work now (some q) m y h.1))
    | inr n ↦
        let (a, b, c, d, e) = (is_out_iff work now m).0 n in
        let (fits, fit) = on_tip_iff m.health q in
        elim (Bool-cases (on_tip m.health (some q))) [
          | inl o ↦ rw (n, o) ((λ h. (h, (a, b, c, d, e, fits o))), λ h. h.0)
          | inr o ↦ rw (n, o) ((λ h. absurd h), λ (k, (_, _, _, _, _, p)). let t = fit p in cc)
        ]
  ]

  -- A candidate's id stands in the list.
  Has : ℕ → List (ℕ × F) → Type 0
  Has id cs = In id (map (λ c. c.0) cs)

  candidates_iff :
      (work : Work) (now : ℕ) (q : Option QuorumTip) (id : ℕ) (members : List (Member F))
      → Has id (candidates floats work now q members) ↔ Serves work now q id members
  unfolding candidates Has Chosen
  candidates_iff work now q id [] = ((λ h. h), λ h. h)
  candidates_iff work now q id (m ∷ members) =
      let (of, to) = candidates_iff work now q id members in
      let (fits, fit) = candidate_iff work now q m id in
      elim (Option-cases (candidate floats work now q m)) [
        | inl missing ↦
            rw (missing, candidates)
              (
                (λ h. inr (of h)),
                λ h. elim h [
                  | inl here ↦ absurd (subst (λ o. Chosen o id) missing (fit here))
                  | inr rest ↦ to rest
                ],
              )
        | inr (c, is) ↦
            rw (is, candidates)
              (
                (λ h. elim h [
                  | inl here ↦ inl (fits (subst (λ o. Chosen o id) (sym is) here))
                  | inr rest ↦ inr (of rest)
                ]),
                λ h. elim h [
                  | inl here ↦ inl (subst (λ o. Chosen o id) is (fit here))
                  | inr rest ↦ inr (to rest)
                ],
              )
      ]

  insert_by_iff :
      (id : ℕ) (c : ℕ × F) (cs : List (ℕ × F))
      → Has id (insert_by floats c cs) ↔ ((c.0 ≡ id) ⊎ Has id cs)
  unfolding insert_by Has
  insert_by_iff id c [] = ((λ h. h), λ h. h)
  insert_by_iff id c ((k, t) ∷ cs) =
      let (of, to) = insert_by_iff id c cs in
      elim (Bool-cases (le c.1 t)) [
        | inl y ↦ rw y ((λ h. h), λ h. h)
        | inr n ↦ rw n (
          (λ h. elim h [
            | inl e ↦ inr (inl e)
            | inr m ↦ elim (of m) [ inl e ↦ inl e | inr r ↦ inr (inr r) ]
          ]),
          λ h. elim h [
            | inl e ↦ inr (to (inl e))
            | inr m ↦ elim m [ inl e ↦ inl e | inr r ↦ inr (to (inr r)) ]
          ],
        )
      ]

  sort_by_iff : (id : ℕ) (cs : List (ℕ × F)) → Has id (sort_by floats cs) ↔ Has id cs
  unfolding sort_by Has
  sort_by_iff id [] = ((λ h. h), λ h. h)
  sort_by_iff id (c ∷ cs) =
      let (of, to) = sort_by_iff id cs in
      let (first, last) = insert_by_iff id c (sort_by floats cs) in
      (
        (λ h. elim (first h) [ inl e ↦ inl e | inr m ↦ inr (of m) ]),
        λ h. last (elim h [ inl e ↦ inl e | inr m ↦ inr (to m) ]),
      )

  -- Ranked are exactly the upstreams that may serve: healthy, synchronized, neither ejected nor
  -- opted out, and on the quorum tip, or our own where there is no quorum; and, for a stream, not
  -- reached by an onion address.
  pub ranked_iff :
      (work : Work) (now : ℕ) (q : Option QuorumTip) (members : List (Member F)) (id : ℕ)
      → In id (ranked floats work now q members) ↔ Serves work now q id members
  unfolding ranked Has
  ranked_iff work now q members id =
      let (of, to) = sort_by_iff id (candidates floats work now q members) in
      let (serves, ranks) = candidates_iff work now q id members in
      ((λ h. serves (of h)), λ h. to (ranks h))
