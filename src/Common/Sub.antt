-- ===== src/Common/Sub.antt =====
-- A list that leaves out some members of another, and lists of distinct members.
use mnr.Common.{ℕ, ◌⊎◌, inl, inr, refl, List, [], ◌∷◌, ◌++◌, In}
use mnr.Common.Sort.{Distinct}

pub data Sub : List ℕ → List ℕ → Type 0 where
  done : Sub [] []
  keep : {x : ℕ} {xs ys : List ℕ} → Sub xs ys → Sub (x ∷ xs) (x ∷ ys)
  skip : {y : ℕ} {xs ys : List ℕ} → Sub xs ys → Sub xs (y ∷ ys)

pub Sub-In : (xs ys : List ℕ) (u : ℕ) → Sub xs ys → In u xs → In u ys
Sub-In _ _ u done m = m
Sub-In _ _ u (keep {x = x} {xs = xs} {ys = ys} s) (inl e) = inl e
Sub-In _ _ u (keep {x = x} {xs = xs} {ys = ys} s) (inr m) = inr (Sub-In xs ys u s m)
Sub-In _ _ u (skip {y = y} {xs = xs} {ys = ys} s) m = inr (Sub-In xs ys u s m)

pub Sub-Distinct : (xs ys : List ℕ) → Sub xs ys → Distinct ys → Distinct xs
Sub-Distinct _ _ done d = tt
Sub-Distinct _ _ (keep {x = x} {xs = xs} {ys = ys} s) d =
    ((λ m. d.0 (Sub-In xs ys x s m)), Sub-Distinct xs ys s d.1)
Sub-Distinct _ _ (skip {y = y} {xs = xs} {ys = ys} s) d = Sub-Distinct xs ys s d.1

pub Sub-nil : (ys : List ℕ) → Sub [] ys
Sub-nil [] = done
Sub-nil (y ∷ ys) = skip (Sub-nil ys)

pub Sub-trans : (xs ys zs : List ℕ) → Sub xs ys → Sub ys zs → Sub xs zs
Sub-trans xs _ _ s done = s
Sub-trans _ _ _ (keep {xs = xs} {ys = ys} s) (keep {ys = zs} t) = keep (Sub-trans xs ys zs s t)
Sub-trans xs _ _ (skip {ys = ys} s) (keep {ys = zs} t) = skip (Sub-trans xs ys zs s t)
Sub-trans xs ys _ s (skip {ys = zs} t) = skip (Sub-trans xs ys zs s t)

In-append : (u : ℕ) (xs ys : List ℕ) → In u (xs ++ ys) → In u xs ⊎ In u ys
In-append u [] ys m = inr m
In-append u (x ∷ xs) ys (inl e) = inl (inl e)
In-append u (x ∷ xs) ys (inr m) = elim (In-append u xs ys m) [ inl k ↦ inl (inr k) | inr k ↦ inr k ]

pub Distinct-append :
    (xs ys : List ℕ)
    → Distinct xs
    → Distinct ys
    → ((u : ℕ) → In u xs → In u ys → ⊥)
    → Distinct (xs ++ ys)
Distinct-append [] ys d e apart = e
Distinct-append (x ∷ xs) ys d e apart = (
  (λ m. elim (In-append x xs ys m) [ inl k ↦ d.0 k | inr k ↦ apart x (inl refl) k ]),
  Distinct-append xs ys d.1 e (λ u k l. apart u (inr k) l),
)
