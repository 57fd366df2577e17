-- ===== src/Serve/Agreed.antt =====
-- What the label `agreement` says, and who is faulted.
use mnr.Common.{
  ℕ, zero, suc, ◌+◌, ◌≤◌, ◌≡◌, ◌⊎◌, refl, sym, ap, subst, ◌∙◌, inl, inr, Bool, Option, none, some,
  List, [], ◌∷◌, map, length, take, All, In, ltb, Result, arith, Bool-cases,
}
use mnr.Wire.Answers.{Text}
use mnr.Wire.Json.{Json}
use mnr.Serve.Labels.{Verify}
use mnr.Serve.Exchange.{Forwarded, ForwardError, Body, message, json_error, mnr_verify}
use mnr.Serve.Comparable.{Comparable, comparable}
use mnr.Serve.Agreement.{
  candidates, choose, find_spare, ask, annotated, Settled, unsettled, disagree, Tree, trees,
  matching, differing, all_agree, decide, break_with, tie_break, break_tie, compare_trees,
  settle_answers, settle_chosen, agree,
}
use mnr.Common.Sort.{Distinct}
use mnr.Common.Sub.{Sub, Sub-In}
use mnr.Serve.Once.{
  Fresh, Fresh-Sub, Fresh-Distinct, choose-Fresh, ask-Sub, ids_of, matching-Sub, trees-ids,
}
use mnr.Serve.Given.{
  Answered, Gave, GaveOther, IsTree, head_tree, trees-IsTree, parts_lem, Gave-IsTree,
  all_agree-Gave, ask-Answered,
}

pair_eq : (a b c d : ℕ) → a ≡ c → b ≡ d → ◌≡◌ {A = ℕ × ℕ} (a, b) (c, d)
pair_eq a b c d p q = cc

length-choose :
    (need : ℕ) (has_token : ℕ → Bool) (ranked : List ℕ)
    → length (choose need has_token ranked).0 ≤ need
unfolding choose
length-choose need has_token [] = omega arith
length-choose zero has_token (id ∷ ranked) = omega arith
length-choose (suc need) has_token (id ∷ ranked) = elim (Bool-cases (has_token id)) [
  | inl y ↦ rw (y, choose) (omega (arith, length-choose need has_token ranked))
  | inr n ↦ rw (n, choose) (length-choose (suc need) has_token ranked)
]

module _ (j : Json) (path : Text) (forward : ℕ → Result ForwardError Forwarded) where
  open j use {Value}

  -- No upstream is credited or faulted, nothing is offered to the cache, and the label is another.
  abbrev pub IsOpen : Settled → Type 0
  IsOpen s =
      (s.verified ≡ [])
      × (s.faulted ≡ [])
      × (s.offered ≡ none)
      × ¬ In (mnr_verify Verify.agreement) s.outcome.headers

  -- The answer served has the tree that at least two different upstreams gave, and just they are credited; who
  -- is faulted gave another; the label counts them, and no more than one spare was asked.
  abbrev pub IsAgreed : ℕ → Settled → Type 0
  IsAgreed need s =
      (c : Comparable Value) × (a : ℕ × Forwarded) × IsTree j path forward (a, c)
      × (s.outcome
          ≡ annotated a Verify.agreement
              (some (length s.verified, length s.verified + length s.faulted)))
      × (s.offered ≡ some a.1.body)
      × (2 ≤ length s.verified)
      × Distinct s.verified
      × All (Gave j path forward c) s.verified
      × All (GaveOther j path forward c) s.faulted
      × (length s.verified + length s.faulted ≤ need + 1)

  abbrev pub IsSettled : ℕ → Settled → Type 0
  IsSettled need s = IsOpen s ⊎ IsAgreed need s

  disagree-IsOpen : IsOpen disagree
  disagree-IsOpen = (
    refl,
    refl,
    refl,
    λ m. elim m [ inl e ↦ cc | inr r ↦ elim r [ inl e ↦ cc | inr z ↦ absurd z ] ],
  )

  error-IsOpen :
      (status : ℕ) (body : Body) → IsOpen (unsettled (json_error status body Verify.unverified))
  error-IsOpen status body = (
    refl,
    refl,
    refl,
    λ m. elim m [ inl e ↦ cc | inr r ↦ elim r [ inl e ↦ cc | inr z ↦ absurd z ] ],
  )

  unverified-IsOpen : (a : ℕ × Forwarded) → IsOpen (unsettled (annotated a Verify.unverified none))
  unverified-IsOpen (id, f) = (
    refl,
    refl,
    refl,
    λ m. elim m [
      | inl e ↦ cc
      | inr r ↦ elim r [ inl e ↦ cc | inr k ↦ elim k [ inl e ↦ cc | inr z ↦ absurd z ] ]
    ],
  )

  length-ids : (as_ : List (ℕ × Forwarded)) → length (map (λ a. a.0) as_) ≡ length as_
  length-ids [] = refl
  length-ids (a ∷ as_) = ap suc (length-ids as_)

  length-tree_ids : (ts : List (Tree Value)) → length (map (λ x. x.0.0) ts) ≡ length ts
  length-tree_ids [] = refl
  length-tree_ids (a ∷ ts) = ap suc (length-tree_ids ts)

  decide-IsSettled :
      (need : ℕ) (third : ℕ) (f : Forwarded) (ts : List (Tree Value)) (tie : Comparable Value)
      (winners : List (ℕ × Forwarded))
      → IsTree j path forward ((third, f), tie)
      → All (IsTree j path forward) ts
      → length ts ≡ need
      → Distinct (third ∷ ids_of j path ts)
      → matching j path tie ts ≡ winners
      → IsSettled need (decide j path need third ts tie winners)
  decide-IsSettled need third f ts tie [] t a len once is = inl disagree-IsOpen
  decide-IsSettled need third f ts tie (w ∷ others) ((at, status), tree) a len once is =
      let (same, other, sum) = parts_lem j path forward tie ts a in
      let winners = subst (All (λ x. (IsTree j path forward) (x, tie))) is same in
      let count : length (w ∷ others) + length (differing j path tie ts) ≡ need =
        subst (λ xs. length xs + length (differing j path tie ts) ≡ need) is (sum ∙ len) in
      let counted = length-ids others in
      let few =
        subst (λ xs. Sub (map (λ a. a.0) xs) (ids_of j path ts)) is (matching-Sub j path tie ts) in
      inr (
        tie,
        w,
        winners.0,
        ap (λ p. annotated w Verify.agreement (some p))
            (pair_eq _ _ _ _ (omega (arith, counted)) (omega (arith, counted, count))),
        refl,
        omega (arith, counted),
        Fresh-Sub (some third) (map (λ a. a.0) (w ∷ others)) (ids_of j path ts) few once,
        ((f, at, status, tree), (Gave-IsTree j path forward) tie (w ∷ others) winners),
        other,
        omega (arith, counted, count),
      )

  break_tie-IsSettled :
      (need : ℕ) (ts : List (Tree Value)) (spare : Option ℕ)
      → All (IsTree j path forward) ts
      → length ts ≡ need
      → Fresh spare (ids_of j path ts)
      → IsSettled need (break_tie j path need ts forward spare)
  break_tie-IsSettled need ts none a len once = inl disagree-IsOpen
  break_tie-IsSettled need ts (some spare) a len once =
      asked (ask forward (spare ∷ [])) (ask-Answered forward (spare ∷ [])).0
        (ask-Sub forward (spare ∷ []))
    where
      answered :
          (third : ℕ) (f : Forwarded) (o : Option (Comparable Value))
          → Answered forward (third, f)
          → comparable j path f.body ≡ o
          → Distinct (third ∷ ids_of j path ts)
          → IsSettled need (break_with j path need ts third o)
      answered third f none ok_third is fresh = inl disagree-IsOpen
      answered third f (some tie) ok_third is fresh =
          decide-IsSettled need third f ts tie (matching j path tie ts) (ok_third, is) a len fresh
            refl

      asked :
          (answers : List (ℕ × Forwarded))
          → All (Answered forward) answers
          → Sub (map (λ a. a.0) answers) (spare ∷ [])
          → IsSettled need (tie_break j path need ts answers)
      asked [] h asked_once =
          inl (error-IsOpen 502 (message "upstreams disagree and the tie-breaker is unavailable"))
      asked ((third, f) ∷ more) h asked_once =
          let one = Sub-In (third ∷ map (λ a. a.0) more) (spare ∷ []) third asked_once (inl refl) in
          answered third f (comparable j path f.body) h.0 refl (elim one [
            | inl e ↦ subst (λ u. Distinct (u ∷ ids_of j path ts)) e once
            | inr z ↦ absurd z
          ])

  compare-IsSettled :
      (need : ℕ) (spare : Option ℕ) (first : ℕ × Forwarded) (others : List (ℕ × Forwarded))
      (o : Option (List (Tree Value)))
      → 2 ≤ need
      → All (Answered forward) (first ∷ others)
      → length (first ∷ others) ≡ need
      → trees j path (first ∷ others) ≡ o
      → Fresh spare (map (λ a. a.0) (first ∷ others))
      → IsSettled need (compare_trees j path need forward spare first o)
  compare-IsSettled need spare first others none two a len is once = inl (unverified-IsOpen first)
  compare-IsSettled need spare first others (some []) two a len is once =
      inl (unverified-IsOpen first)
  compare-IsSettled need spare first others (some ((b, t) ∷ rest)) two a len is once =
      let (all, same_len) = trees-IsTree j path forward (first ∷ others) ((b, t) ∷ rest) a is in
      let fresh =
        subst (Fresh spare) (sym (trees-ids j path forward (first ∷ others) ((b, t) ∷ rest) is))
          once in
      elim (Bool-cases (all_agree j path t ((b, t) ∷ rest))) [
        | inl y ↦
            let counted = length-tree_ids rest in
            rw y (
              inr (
                t,
                first,
                subst (λ x. (IsTree j path forward) (x, t))
                    (head_tree j path forward first others b t rest is) all.0,
                ap (λ p. annotated first Verify.agreement (some p))
                    (pair_eq _ _ _ _ (omega (arith, counted)) (omega (arith, counted))),
                refl,
                omega (arith, counted),
                Fresh-Distinct spare (ids_of j path ((b, t) ∷ rest)) fresh,
                (all_agree-Gave j path forward) t ((b, t) ∷ rest) y all,
                tt,
                omega (arith, counted),
              ))
        | inr n ↦ rw n (break_tie-IsSettled need ((b, t) ∷ rest) spare all (same_len ∙ len) fresh)
      ]

  -- Where two upstreams or more must agree.
  pub agree-IsSettled :
      (need : ℕ) (has_token : ℕ → Bool) (ranked : List ℕ)
      → 2 ≤ need
      → Distinct ranked
      → IsSettled need (agree j path need has_token forward ranked)
  unfolding agree
  agree-IsSettled need has_token ranked two distinct =
      chosen (choose need has_token (take candidates ranked))
        (length-choose need has_token (take candidates ranked))
        (choose-Fresh need candidates has_token ranked distinct)
    where
      answered :
          (spare : Option ℕ) (answers : List (ℕ × Forwarded))
          → All (Answered forward) answers
          → length answers ≤ need
          → Fresh spare (map (λ a. a.0) answers)
          → IsSettled need (settle_answers j path need forward spare answers)
      answered spare [] a le once = inl (error-IsOpen 502 (message "no upstream answered"))
      answered spare (first ∷ others) a le once =
          elim (Bool-cases (ltb (length (first ∷ others)) need)) [
            | inl y ↦ rw y (inl (unverified-IsOpen first))
            | inr n ↦ rw n (
                compare-IsSettled need spare first others (trees j path (first ∷ others)) two a
                  (ground arith) refl once)
          ]

      chosen :
          (c : List ℕ × List ℕ)
          → length c.0 ≤ need
          → Fresh (find_spare has_token c.1) c.0
          → IsSettled need (settle_chosen j path need has_token forward c)
      chosen ([], spares) le once = inl (error-IsOpen 503 (message "no healthy upstream"))
      chosen (id ∷ ids, spares) le once =
          let (ok_all, fewer) = ask-Answered forward (id ∷ ids) in
          answered (find_spare has_token spares) (ask forward (id ∷ ids)) ok_all
            (omega (arith, fewer))
            (Fresh-Sub (find_spare has_token spares) (map (λ a. a.0) (ask forward (id ∷ ids)))
              (id ∷ ids) (ask-Sub forward (id ∷ ids)) once)
