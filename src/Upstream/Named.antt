-- ===== src/Upstream/Named.antt =====
-- The ranking names no upstream twice.
use mnr.Common.{
  ℕ, ◌≡◌, ◌⊎◌, sym, inl, inr, Option, none, some, List, [], ◌∷◌, map, In, Bool-cases, Option-cases,
}
use mnr.Common.Sort.{Distinct}
use mnr.Common.Sub.{Sub, done, keep, skip, Sub-Distinct}
use mnr.Verify.Quorum.{QuorumTip}
use mnr.Upstream.Health.{on_tip}
use mnr.Upstream.Probe.{Member}
use mnr.Upstream.Ranking.{Work, Floats, is_out, candidate, candidates, insert_by, sort_by, ranked}

module _ (floats : Floats) where
  open floats use {F, le}

  abbrev names : List (ℕ × F) → List ℕ
  names = map (λ c. c.0)

  candidate-id :
      (work : Work) (now : ℕ) (q : Option QuorumTip) (m : Member F) (c : ℕ × F)
      → candidate floats work now q m ≡ some c
      → c.0 ≡ m.id
  unfolding candidate
  candidate-id work now none m c h = elim (Bool-cases (is_out floats work now m)) [
    | inl y ↦ cc (rw y at h)
    | inr n ↦ elim (Bool-cases m.owned) [
      | inl y ↦ let same = rw (n, y) at h in cc
      | inr k ↦ cc (rw (n, k) at h)
    ]
  ]
  candidate-id work now (some q) m c h = elim (Bool-cases (is_out floats work now m)) [
    | inl y ↦ cc (rw y at h)
    | inr n ↦ elim (Bool-cases (on_tip m.health (some q))) [
      | inl y ↦ let same = rw (n, y) at h in cc
      | inr k ↦ cc (rw (n, k) at h)
    ]
  ]

  candidates-Sub :
      (work : Work) (now : ℕ) (q : Option QuorumTip) (members : List (Member F))
      → Sub (names (candidates floats work now q members)) (map (λ m. m.id) members)
  unfolding candidates
  candidates-Sub work now q [] = done
  candidates-Sub work now q (m ∷ members) = elim (Option-cases (candidate floats work now q m)) [
    | inl missing ↦ rw (missing, candidates) (skip (candidates-Sub work now q members))
    | inr (c, is) ↦
        rw (is, candidates, candidate-id work now q m c is)
          (keep (candidates-Sub work now q members))
  ]

  insert_by-In :
      (c : ℕ × F) (cs : List (ℕ × F)) (u : ℕ)
      → In u (names (insert_by floats c cs))
      → (c.0 ≡ u) ⊎ In u (names cs)
  unfolding insert_by
  insert_by-In (id, s) [] u (inl e) = inl e
  insert_by-In (id, s) [] u (inr z) = absurd z
  insert_by-In (id, s) ((k, t) ∷ rest) u m = elim (Bool-cases (le s t)) [
    | inl y ↦ elim (rw (y, insert_by) at m) [ inl e ↦ inl e | inr k ↦ inr k ]
    | inr n ↦ elim (rw (n, insert_by) at m) [
      | inl e ↦ inr (inl e)
      | inr k ↦ elim (insert_by-In (id, s) rest u k) [ inl e ↦ inl e | inr l ↦ inr (inr l) ]
    ]
  ]

  insert_by-Distinct :
      (c : ℕ × F) (cs : List (ℕ × F))
      → ¬ In c.0 (names cs)
      → Distinct (names cs)
      → Distinct (names (insert_by floats c cs))
  unfolding insert_by
  insert_by-Distinct (id, s) [] n d = ((λ m. m), tt)
  insert_by-Distinct (id, s) ((k, t) ∷ rest) n d = elim (Bool-cases (le s t)) [
    | inl y ↦ rw (y, insert_by) (n, d)
    | inr f ↦
        rw (f, insert_by)
          (
            (λ m. elim (insert_by-In (id, s) rest k m) [ inl e ↦ n (inl (sym e)) | inr l ↦ d.0 l ]),
            insert_by-Distinct (id, s) rest (λ m. n (inr m)) d.1,
          )
  ]

  sort_by-In : (cs : List (ℕ × F)) (u : ℕ) → In u (names (sort_by floats cs)) → In u (names cs)
  unfolding sort_by
  sort_by-In [] u m = m
  sort_by-In (c ∷ cs) u m = elim (insert_by-In c (sort_by floats cs) u m) [
    | inl e ↦ inl e
    | inr k ↦ inr (sort_by-In cs u k)
  ]

  sort_by-Distinct :
      (cs : List (ℕ × F)) → Distinct (names cs) → Distinct (names (sort_by floats cs))
  unfolding sort_by
  sort_by-Distinct [] d = tt
  sort_by-Distinct (c ∷ cs) d =
      insert_by-Distinct c (sort_by floats cs) (λ m. d.0 (sort_by-In cs c.0 m))
        (sort_by-Distinct cs d.1)

  -- Where the members of the pool have different numbers, so have those that are ranked.
  pub ranked-Distinct :
      (work : Work) (now : ℕ) (q : Option QuorumTip) (members : List (Member F))
      → Distinct (map (λ m. m.id) members)
      → Distinct (ranked floats work now q members)
  unfolding ranked
  ranked-Distinct work now q members d = sort_by-Distinct (candidates floats work now q members) (
      Sub-Distinct (names (candidates floats work now q members)) (map (λ m. m.id) members)
        (candidates-Sub work now q members) d)
