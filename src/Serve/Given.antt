-- ===== src/Serve/Given.antt =====
-- What the compared answers are: who gave which tree.
use mnr.Common.{
  ℕ, suc, ◌+◌, ◌≤◌, ◌≡◌, ◌≢◌, refl, ap, ◌∙◌, inl, inr, true, false, Option, none, some, List, [],
  ◌∷◌, map, length, All, ◌==◌, is_yes, Result, ok, err, arith, Bool-cases, Option-cases,
}
use mnr.Wire.Answers.{Text}
use mnr.Wire.Json.{Json}
use mnr.Serve.Exchange.{Forwarded, ForwardError}
use mnr.Serve.Comparable.{Comparable, comparable, comparable_discrete}
use mnr.Serve.Agreement.{
  good, ask, Tree, same_tree, with_tree, trees, matching, differing, all_agree,
}

module _ (forward : ℕ → Result ForwardError Forwarded) where
  -- The upstream answered with success.
  abbrev pub Answered : ℕ × Forwarded → Type 0
  Answered (id, f) = (forward id ≡ ok f) × (f.status ≡ 200)

  good-Answered :
      (id : ℕ) (r : Result ForwardError Forwarded) (f : Forwarded)
      → forward id ≡ r
      → good r ≡ some f
      → Answered (id, f)
  good-Answered id (err e) f is h = cc
  good-Answered id (ok g) f is h = elim (Bool-cases (g.status == 200)) [
    | inl y ↦
        let same : g ≡ f = cc (rw y at h) in
        let status : g.status ≡ 200 = ground arith in (is ∙ ap ok same, rw (← same) status)
    | inr n ↦ cc (rw n at h)
  ]

  pub ask-Answered :
      (ids : List ℕ) → All Answered (ask forward ids) × (length (ask forward ids) ≤ length ids)
  unfolding ask
  ask-Answered [] = (tt, omega arith)
  ask-Answered (id ∷ ids) =
      let (ok_rest, fewer) = ask-Answered ids in
      elim (Option-cases (good (forward id))) [
        | inl missing ↦ rw (missing, ask) (ok_rest, omega (arith, fewer))
        | inr (f, is) ↦
            rw (is, ask) ((good-Answered id (forward id) f refl is, ok_rest), omega (arith, fewer))
      ]

module _ (j : Json) (path : Text) (forward : ℕ → Result ForwardError Forwarded) where
  open j use {Value, value_discrete}

  -- The upstream gave an answer with this tree.
  abbrev pub Gave : Comparable Value → ℕ → Type 0
  Gave c id =
      (f : Forwarded) × (forward id ≡ ok f) × (f.status ≡ 200) × (comparable j path f.body ≡ some c)

  -- The upstream gave an answer with another tree.
  abbrev pub GaveOther : Comparable Value → ℕ → Type 0
  GaveOther c id = (d : Comparable Value) × Gave d id × (d ≢ c)

  abbrev pub IsTree : Tree Value → Type 0
  IsTree ((id, f), t) = Answered forward (id, f) × (comparable j path f.body ≡ some t)

  pub with_tree-some :
      (a : ℕ × Forwarded) (o : Option (Comparable Value)) (rest : Option (List (Tree Value)))
      (ts : List (Tree Value))
      → with_tree j path a o rest ≡ some ts
      → (t : Comparable Value) × (us : List (Tree Value)) × (o ≡ some t)
        × (rest ≡ some us)
        × (ts ≡ (a, t) ∷ us)
  with_tree-some a none rest ts h = cc
  with_tree-some a (some t) none ts h = cc
  with_tree-some a (some t) (some us) ts h = (t, us, refl, refl, cc)

  pub trees-IsTree :
      (answers : List (ℕ × Forwarded)) (ts : List (Tree Value))
      → All (Answered forward) answers
      → trees j path answers ≡ some ts
      → All IsTree ts × (length ts ≡ length answers)
  unfolding trees
  trees-IsTree [] ts a h = let same : [] ≡ ts = cc in rw (← same) (tt, refl)
  trees-IsTree ((id, f) ∷ answers) ts a h =
      let (t, us, is, rest, same) =
        with_tree-some (id, f) (comparable j path f.body) (trees j path answers) ts h in
      let (more, len) = trees-IsTree answers us a.1 rest in rw same (((a.0, is), more), ap suc len)

  pub head_tree :
      (first : ℕ × Forwarded) (others : List (ℕ × Forwarded)) (b : ℕ × Forwarded)
      (t : Comparable Value) (rest : List (Tree Value))
      → trees j path (first ∷ others) ≡ some ((b, t) ∷ rest)
      → b ≡ first
  unfolding trees
  head_tree (id, f) others b t rest h =
      let (s, us, is, more, same) =
        with_tree-some (id, f) (comparable j path f.body) (trees j path others) ((b, t) ∷ rest) h in
      cc

  same_tree-eq : (s t : Comparable Value) → same_tree j path s t ≡ true → s ≡ t
  same_tree-eq s t = case (comparable_discrete value_discrete s t)
    where
      case : (d : Dec (s ≡ t)) → is_yes d ≡ true → s ≡ t
      case (yes e) h = e
      case (no n) h = absurd (cc)

  same_tree-ne : (s t : Comparable Value) → same_tree j path s t ≡ false → s ≢ t
  same_tree-ne s t = case (comparable_discrete value_discrete s t)
    where
      case : (d : Dec (s ≡ t)) → is_yes d ≡ false → s ≢ t
      case (yes e) h = absurd (cc)
      case (no n) h = n

  -- The answers with a tree, and those with another.
  pub parts_lem :
      (tie : Comparable Value) (ts : List (Tree Value))
      → All IsTree ts
      → All (λ a. IsTree (a, tie)) (matching j path tie ts)
        × All (GaveOther tie) (differing j path tie ts)
        × (length (matching j path tie ts) + length (differing j path tie ts) ≡ length ts)
  unfolding matching differing
  parts_lem tie [] a = (tt, tt, omega arith)
  parts_lem tie (((id, f), t) ∷ ts) (((is, status), tree), rest) =
      let (here, there, len) = parts_lem tie ts rest in
      elim (Bool-cases (same_tree j path t tie)) [
        | inl y ↦
            rw (y, matching, differing)
              (
                (((is, status), tree ∙ ap some (same_tree-eq t tie y)), here),
                there,
                omega (arith, len),
              )
        | inr n ↦
            rw (n, matching, differing)
              (here, ((t, (f, is, status, tree), same_tree-ne t tie n), there), omega (arith, len))
      ]

  pub Gave-IsTree :
      (c : Comparable Value) (as_ : List (ℕ × Forwarded))
      → All (λ a. IsTree (a, c)) as_
      → All (Gave c) (map (λ a. a.0) as_)
  Gave-IsTree c [] h = tt
  Gave-IsTree c ((id, f) ∷ as_) (((is, status), tree), rest) =
      ((f, is, status, tree), Gave-IsTree c as_ rest)

  pub all_agree-Gave :
      (c : Comparable Value) (ts : List (Tree Value))
      → all_agree j path c ts ≡ true
      → All IsTree ts
      → All (Gave c) (map (λ x. x.0.0) ts)
  unfolding all_agree
  all_agree-Gave c [] h a = tt
  all_agree-Gave c (((id, f), t) ∷ ts) h (((is, status), tree), rest) =
      elim (Bool-cases (same_tree j path t c)) [
        | inl y ↦ (
          (f, is, status, tree ∙ ap some (same_tree-eq t c y)),
          all_agree-Gave c ts (rw y at h) rest,
        )
        | inr n ↦ cc (rw n at h)
      ]
