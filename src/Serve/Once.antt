-- ===== src/Serve/Once.antt =====
-- No upstream is asked twice for one answer.
use mnr.Common.{
  ℕ, zero, suc, ◌≡◌, refl, ap, inl, inr, Bool, Option, none, some, List, [], ◌∷◌, ◌++◌, map, take,
  In, Result, Bool-cases, Option-cases,
}
use mnr.Common.Sort.{Distinct}
use mnr.Common.Sub.{Sub, done, keep, skip, Sub-trans, Sub-Distinct}
use mnr.Wire.Answers.{Text}
use mnr.Wire.Json.{Json}
use mnr.Serve.Exchange.{Forwarded, ForwardError}
use mnr.Serve.Comparable.{Comparable, comparable}
use mnr.Serve.Agreement.{choose, find_spare, good, ask, Tree, same_tree, trees, matching}
use mnr.Serve.Given.{with_tree-some}
use mnr.Consensus.Backed.{take-Sub}

Sub-refl : (ids : List ℕ) → Sub ids ids
Sub-refl [] = done
Sub-refl (id ∷ ids) = keep (Sub-refl ids)

choose-Sub :
    (need : ℕ) (has_token : ℕ → Bool) (ranked : List ℕ)
    → Sub ((choose need has_token ranked).0 ++ (choose need has_token ranked).1) ranked
unfolding choose
choose-Sub need has_token [] = done
choose-Sub zero has_token (id ∷ ranked) = Sub-refl (id ∷ ranked)
choose-Sub (suc need) has_token (id ∷ ranked) = elim (Bool-cases (has_token id)) [
  | inl y ↦ rw (y, choose) (keep (choose-Sub need has_token ranked))
  | inr n ↦ rw (n, choose) (skip (choose-Sub (suc need) has_token ranked))
]

-- A spare, if there is one, and these ids are all different.
abbrev pub Fresh : Option ℕ → List ℕ → Type 0
Fresh none ids = Distinct ids
Fresh (some spare) ids = Distinct (spare ∷ ids)

pub Fresh-Sub : (spare : Option ℕ) (xs ys : List ℕ) → Sub xs ys → Fresh spare ys → Fresh spare xs
Fresh-Sub none xs ys s d = Sub-Distinct xs ys s d
Fresh-Sub (some spare) xs ys s d = Sub-Distinct (spare ∷ xs) (spare ∷ ys) (keep s) d

pub Fresh-Distinct : (spare : Option ℕ) (ids : List ℕ) → Fresh spare ids → Distinct ids
Fresh-Distinct none ids d = d
Fresh-Distinct (some spare) ids d = d.1

Distinct-parts :
    (xs ys : List ℕ) → Distinct (xs ++ ys) → Distinct xs × ((u : ℕ) → In u ys → In u xs → ⊥)
Distinct-parts [] ys d = (tt, λ u m n. n)
Distinct-parts (x ∷ xs) ys d =
    let (rest, apart) = Distinct-parts xs ys d.1 in
    (
      ((λ m. d.0 (In-left x xs ys m)), rest),
      λ u m n. elim n [ inl e ↦ d.0 (In-right x xs ys (rw e m)) | inr k ↦ apart u m k ],
    )
  where
    In-left : (u : ℕ) (xs ys : List ℕ) → In u xs → In u (xs ++ ys)
    In-left u [] ys m = absurd m
    In-left u (x ∷ xs) ys (inl e) = inl e
    In-left u (x ∷ xs) ys (inr m) = inr (In-left u xs ys m)

    In-right : (u : ℕ) (xs ys : List ℕ) → In u ys → In u (xs ++ ys)
    In-right u [] ys m = m
    In-right u (x ∷ xs) ys m = inr (In-right u xs ys m)

found-Fresh :
    (has_token : ℕ → Bool) (spares ids : List ℕ)
    → Distinct ids
    → ((u : ℕ) → In u spares → In u ids → ⊥)
    → Fresh (find_spare has_token spares) ids
unfolding find_spare
found-Fresh has_token [] ids d apart = d
found-Fresh has_token (id ∷ spares) ids d apart = elim (Bool-cases (has_token id)) [
  | inl y ↦ rw (y, find_spare) ((λ m. apart id (inl refl) m), d)
  | inr n ↦ rw (n, find_spare) (found-Fresh has_token spares ids d (λ u m k. apart u (inr m) k))
]

-- The chosen and the spare that is found behind them.
pub choose-Fresh :
    (need n : ℕ) (has_token : ℕ → Bool) (ranked : List ℕ)
    → Distinct ranked
    → Fresh
        (find_spare has_token (choose need has_token (take n ranked)).1)
        (choose need has_token (take n ranked)).0
choose-Fresh need n has_token ranked d =
    let c = choose need has_token (take n ranked) in
    let all =
      Sub-Distinct (c.0 ++ c.1) ranked
        (Sub-trans (c.0 ++ c.1) (take n ranked) ranked (choose-Sub need has_token (take n ranked))
          (take-Sub n ranked))
        d in
    let (chosen, apart) = Distinct-parts c.0 c.1 all in found-Fresh has_token c.1 c.0 chosen apart

pub ask-Sub :
    (forward : ℕ → Result ForwardError Forwarded) (ids : List ℕ)
    → Sub (map (λ a. a.0) (ask forward ids)) ids
unfolding ask
ask-Sub forward [] = done
ask-Sub forward (id ∷ ids) = elim (Option-cases (good (forward id))) [
  | inl missing ↦ rw (missing, ask) (skip (ask-Sub forward ids))
  | inr (f, is) ↦ rw (is, ask) (keep (ask-Sub forward ids))
]

module _ (j : Json) (path : Text) where
  open j use {Value}

  abbrev pub ids_of : List (Tree Value) → List ℕ
  ids_of = map (λ x. x.0.0)

  pub matching-Sub :
      (tie : Comparable Value) (ts : List (Tree Value))
      → Sub (map (λ a. a.0) (matching j path tie ts)) (ids_of ts)
  unfolding matching
  matching-Sub tie [] = done
  matching-Sub tie ((a, t) ∷ ts) = elim (Bool-cases (same_tree j path t tie)) [
    | inl y ↦ rw (y, matching) (keep (matching-Sub tie ts))
    | inr n ↦ rw (n, matching) (skip (matching-Sub tie ts))
  ]

  pub trees-ids :
      (forward : ℕ → Result ForwardError Forwarded) (answers : List (ℕ × Forwarded))
      (ts : List (Tree Value))
      → trees j path answers ≡ some ts
      → ids_of ts ≡ map (λ a. a.0) answers
  unfolding trees
  trees-ids forward [] ts h = let same : [] ≡ ts = cc in rw (← same) refl
  trees-ids forward ((id, f) ∷ answers) ts h =
      let (t, us, is, rest, same) =
        with_tree-some j path forward (id, f) (comparable j path f.body) (trees j path answers) ts
          h in
      rw same (ap (λ xs. id ∷ xs) (trees-ids forward answers us rest))
