-- ===== src/Common/Sort.antt =====
-- Lists of numbers: members, lists without repetition, and sorting.
use Prim.Native.Nat.{ℕ, zero, suc, ◌+◌, ◌≤◌, ◌<◌}
use mathlib.Core.Path.{◌≡◌, refl, sym}
use mathlib.Core.Logic.{◌≢◌, ◌↔◌, ◌⊎◌, inl, inr}
use mathlib.Core.Bool.{Bool, true, false, ◌||◌}
use mathlib.Core.Option.{some}
use mathlib.Core.List.{List, [], ◌∷◌}
use native.Mathlib.Omega.{arith}
use mnr.Common.Tests.{ltb, leb, ◌==◌, if◌then◌else◌, Bool-cases}
use mnr.Common.Lists.{length, get_elem?, In, All}

-- No number twice.
abbrev pub Distinct : List ℕ → Type 0
Distinct [] = Unit
Distinct (x ∷ xs) = (¬ In x xs) × Distinct xs

-- `contains`
unfoldable pub contains : List ℕ → ℕ → Bool
contains [] a = false
contains (x ∷ xs) a = x == a || contains xs a

pub contains→In : (xs : List ℕ) (a : ℕ) → contains xs a ≡ true → In a xs
unfolding contains
contains→In [] a h = cc
contains→In (x ∷ xs) a h = elim (Bool-cases (x == a)) [
  | inl e ↦ inl (ground arith)
  | inr e ↦ inr (contains→In xs a (rw e at h))
]

pub In→contains : (xs : List ℕ) (a : ℕ) → In a xs → contains xs a ≡ true
unfolding contains
In→contains [] a h = absurd h
In→contains (x ∷ xs) a (inl e) = ground arith
In→contains (x ∷ xs) a (inr m) = ground (arith, In→contains xs a m)

-- The list without the first `a`.
without : ℕ → List ℕ → List ℕ
without a [] = []
without a (x ∷ xs) = if x == a then xs else x ∷ without a xs

length-without : (a : ℕ) (xs : List ℕ) → In a xs → length xs ≡ suc (length (without a xs))
unfolding without
length-without a [] m = absurd m
length-without a (x ∷ xs) (inl e) = ground arith
length-without a (x ∷ xs) (inr m) = ground (arith, length-without a xs m)

In-without : (a b : ℕ) (xs : List ℕ) → b ≢ a → In b xs → In b (without a xs)
unfolding without
In-without a b [] d m = m
In-without a b (x ∷ xs) d (inl e) = elim (Bool-cases (x == a)) [
  | inl same ↦ absurd (ground arith)
  | inr other ↦ rw other (inl e)
]
In-without a b (x ∷ xs) d (inr m) = elim (Bool-cases (x == a)) [
  | inl same ↦ rw same m
  | inr other ↦ rw other (inr (In-without a b xs d m))
]

-- Distinct members of a list are no more than the list holds.
pub length-Distinct-le :
    (us vs : List ℕ) → Distinct us → ((u : ℕ) → In u us → In u vs) → length us ≤ length vs
length-Distinct-le [] vs d inside = omega arith
length-Distinct-le (u ∷ us) vs d inside =
    let here = inside u (inl refl) in
    omega (
      arith,
      length-without u vs here,
      length-Distinct-le us (without u vs) d.1
          (λ w m. In-without u w vs (λ e. d.0 (rw e at m)) (inside w (inr m))),
    )

-- `sort_unstable` on numbers, by insertion: equal numbers cannot be told apart.
unfoldable pub insert : ℕ → List ℕ → List ℕ
insert a [] = a ∷ []
insert a (x ∷ xs) = if leb a x then a ∷ x ∷ xs else x ∷ insert a xs

unfoldable pub sort : List ℕ → List ℕ
unfolding insert
sort [] = []
sort (x ∷ xs) = insert x (sort xs)

-- Each number is at most all that follow.
abbrev pub Ascending : List ℕ → Type 0
Ascending [] = Unit
Ascending (x ∷ xs) = All (λ y. x ≤ y) xs × Ascending xs

-- How many pass the test.
unfoldable pub count : (ℕ → Bool) → List ℕ → ℕ
count p [] = 0
count p (x ∷ xs) = (if p x then 1 else 0) + count p xs

pub count-insert :
    (p : ℕ → Bool) (a : ℕ) (xs : List ℕ)
    → count p (insert a xs) ≡ (if p a then 1 else 0) + count p xs
unfolding count insert
count-insert p a [] = refl
count-insert p a (x ∷ xs) = elim (Bool-cases (leb a x)) [
  | inl e ↦ rw e refl
  | inr e ↦ rw e (omega (arith, count-insert p a xs))
]

pub count-sort : (p : ℕ → Bool) (xs : List ℕ) → count p (sort xs) ≡ count p xs
unfolding count sort
count-sort p [] = refl
count-sort p (x ∷ xs) = omega (arith, count-insert p x (sort xs), count-sort p xs)

length-insert : (a : ℕ) (xs : List ℕ) → length (insert a xs) ≡ suc (length xs)
unfolding insert
length-insert a [] = refl
length-insert a (x ∷ xs) = ground (arith, length-insert a xs)

pub length-sort : (xs : List ℕ) → length (sort xs) ≡ length xs
unfolding sort
length-sort [] = refl
length-sort (x ∷ xs) = omega (arith, length-insert x (sort xs), length-sort xs)

All-insert : (P : ℕ → Type 0) (a : ℕ) (xs : List ℕ) → P a → All P xs → All P (insert a xs)
unfolding insert
All-insert P a [] h k = (h, tt)
All-insert P a (x ∷ xs) h k = elim (Bool-cases (leb a x)) [
  | inl e ↦ rw e (h, k)
  | inr e ↦ rw e (k.0, All-insert P a xs h k.1)
]

All-le_trans : (a b : ℕ) (xs : List ℕ) → a ≤ b → All (λ y. b ≤ y) xs → All (λ y. a ≤ y) xs
All-le_trans a b [] h k = tt
All-le_trans a b (x ∷ xs) h k = (omega arith, All-le_trans a b xs h k.1)

insert-Ascending : (a : ℕ) (xs : List ℕ) → Ascending xs → Ascending (insert a xs)
unfolding insert
insert-Ascending a [] h = (tt, tt)
insert-Ascending a (x ∷ xs) h = elim (Bool-cases (leb a x)) [
  | inl e ↦ rw e ((ground arith, All-le_trans a x xs (ground arith) h.0), h)
  | inr e ↦ rw e (All-insert (λ y. x ≤ y) a xs (ground arith) h.0, insert-Ascending a xs h.1)
]

pub sort-Ascending : (xs : List ℕ) → Ascending (sort xs)
unfolding sort
sort-Ascending [] = tt
sort-Ascending (x ∷ xs) = insert-Ascending x (sort xs) (sort-Ascending xs)

-- The members of an insertion: the inserted number and the members before.
of_insert : (a b : ℕ) (xs : List ℕ) → In b (insert a xs) → (a ≡ b) ⊎ In b xs
unfolding insert
of_insert a b [] (inl e) = inl e
of_insert a b [] (inr m) = absurd m
of_insert a b (x ∷ xs) m = elim (Bool-cases (leb a x)) [
  | inl e ↦ in_front (rw e at m)
  | inr e ↦ behind (of_insert a b xs) (rw e at m)
]
  where
    in_front : In b (a ∷ x ∷ xs) → (a ≡ b) ⊎ In b (x ∷ xs)
    in_front (inl e) = inl e
    in_front (inr m) = inr m

    behind :
        (In b (insert a xs) → (a ≡ b) ⊎ In b xs) → In b (x ∷ insert a xs) → (a ≡ b) ⊎ In b (x ∷ xs)
    behind ih (inl e) = inr (inl e)
    behind ih (inr m) = elim (ih m) [ inl e ↦ inl e | inr k ↦ inr (inr k) ]

In-insert : (a b : ℕ) (xs : List ℕ) → (a ≡ b) ⊎ In b xs → In b (insert a xs)
unfolding insert
In-insert a b [] (inl e) = inl e
In-insert a b [] (inr m) = absurd m
In-insert a b (x ∷ xs) (inl e) = elim (Bool-cases (leb a x)) [
  | inl le ↦ rw le (inl e)
  | inr gt ↦ rw gt (inr (In-insert a b xs (inl e)))
]
In-insert a b (x ∷ xs) (inr (inl e)) = elim (Bool-cases (leb a x)) [
  | inl le ↦ rw le (inr (inl e))
  | inr gt ↦ rw gt (inl e)
]
In-insert a b (x ∷ xs) (inr (inr m)) = elim (Bool-cases (leb a x)) [
  | inl le ↦ rw le (inr (inr m))
  | inr gt ↦ rw gt (inr (In-insert a b xs (inr m)))
]

pub In-sort_iff : (b : ℕ) (xs : List ℕ) → In b (sort xs) ↔ In b xs
unfolding sort
In-sort_iff b [] = ((λ m. m), λ m. m)
In-sort_iff b (x ∷ xs) =
    let ih = In-sort_iff b xs in
    (
      (λ m. elim (of_insert x b (sort xs) m) [ inl e ↦ inl e | inr k ↦ inr (ih.0 k) ]),
      λ m. In-insert x b (sort xs) (elim m [ inl e ↦ inl e | inr k ↦ inr (ih.1 k) ]),
    )

-- In an ascending list the number at index `i` has at most `i` numbers below it, and at least
-- `i + 1` that are at most it.
count_none : (p : ℕ → Bool) (xs : List ℕ) → All (λ y. p y ≡ false) xs → count p xs ≡ 0
unfolding count
count_none p [] h = refl
count_none p (x ∷ xs) h = rw h.0 (omega (arith, count_none p xs h.1))

none_below : (m : ℕ) (xs : List ℕ) → All (λ y. m ≤ y) xs → All (λ y. ltb y m ≡ false) xs
none_below m [] h = tt
none_below m (x ∷ xs) h = (ground arith, none_below m xs h.1)

All-get_elem? : (P : ℕ → Type 0) (xs : List ℕ) (i m : ℕ) → All P xs → get_elem? xs i ≡ some m → P m
All-get_elem? P [] i m h e = cc
All-get_elem? P (x ∷ xs) zero m h e = let is : x ≡ m = cc in rw (← is) h.0
All-get_elem? P (x ∷ xs) (suc i) m h e = All-get_elem? P xs i m h.1 e

pub rank_of_index :
    (xs : List ℕ) (i m : ℕ)
    → Ascending xs
    → get_elem? xs i ≡ some m
    → (count (λ y. ltb y m) xs ≤ i) × (i < count (λ y. leb y m) xs)
unfolding count
rank_of_index [] i m h e = cc
rank_of_index (x ∷ xs) zero m h e =
    let is : x ≡ m = cc in
    let none_less = count_none (λ y. ltb y m) xs (none_below m xs (rw (← is) h.0)) in
    (ground (arith, none_less), ground arith)
rank_of_index (x ∷ xs) (suc i) m h e =
    let ih = rank_of_index xs i m h.1 e in
    let le = All-get_elem? (λ y. x ≤ y) xs i m h.0 e in (ground (arith, ih.0), ground (arith, ih.1))

insert-Distinct : (a : ℕ) (xs : List ℕ) → ¬ In a xs → Distinct xs → Distinct (insert a xs)
unfolding insert
insert-Distinct a [] n d = ((λ m. m), tt)
insert-Distinct a (x ∷ xs) n d = elim (Bool-cases (leb a x)) [
  | inl e ↦ rw e (n, d)
  | inr e ↦ rw e (
    (λ m. elim (of_insert a x xs m) [ inl p ↦ n (inl (sym p)) | inr k ↦ d.0 k ]),
    insert-Distinct a xs (λ m. n (inr m)) d.1,
  )
]

pub sort-Distinct : (xs : List ℕ) → Distinct xs → Distinct (sort xs)
unfolding sort
sort-Distinct [] d = tt
sort-Distinct (x ∷ xs) d =
    insert-Distinct x (sort xs) (λ m. d.0 ((In-sort_iff x xs).0 m)) (sort-Distinct xs d.1)
