-- ===== src/Epee/Names.antt =====
-- The order of names, and sections as maps.
use mnr.Common.{
  ℕ, ◌<◌, ◌≡◌, ◌≢◌, ◌⊎◌, refl, sym, ap, subst, ◌∙◌, inl, inr, Bool-cases, true, false, none, some,
  List, [], ◌∷◌, arith, if◌then◌else◌,
}
use mnr.HeaderChain.Store.{same, same_iff}
use mnr.Epee.Tree.{Value, Section, no_entries, entry, before, insert, find}

before_irrefl : (a : List ℕ) → before a a ≡ false
unfolding before
before_irrefl [] = refl
before_irrefl (x ∷ xs) = ground (arith, before_irrefl xs)

before_trans : (a b c : List ℕ) → before a b ≡ true → before b c ≡ true → before a c ≡ true
unfolding before
before_trans [] [] c p q = cc
before_trans [] (y ∷ b) [] p q = cc
before_trans [] (y ∷ b) (z ∷ c) p q = refl
before_trans (x ∷ a) [] c p q = cc
before_trans (x ∷ a) (y ∷ b) [] p q = cc
before_trans (x ∷ a) (y ∷ b) (z ∷ c) p q = ground (arith, before_trans a b c)

compare_numbers : (x y : ℕ) → (x < y) ⊎ ((x ≡ y) ⊎ (y < x))
compare_numbers x y = omega arith

-- Of two names one is before the other, or they are the same.
before-total : (a b : List ℕ) → before a b ≡ false → a ≢ b → before b a ≡ true
unfolding before
before-total [] [] p q = absurd (q refl)
before-total [] (y ∷ b) p q = cc
before-total (x ∷ a) [] p q = refl
before-total (x ∷ a) (y ∷ b) p q = elim (compare_numbers x y) [
  | inl less ↦ absurd (ground arith)
  | inr (inl same_byte) ↦ let after = before-total a b (ground arith) (λ e. q (cc)) in ground arith
  | inr (inr more) ↦ ground arith
]

same_refl : (a : List ℕ) → same a a ≡ true
same_refl a = (same_iff a a).1 refl

same-false : (a b : List ℕ) → a ≢ b → same a b ≡ false
same-false a b h = elim (Bool-cases (same a b)) [
  | inl y ↦ absurd (h ((same_iff a b).0 y))
  | inr n ↦ n
]

-- Every name of the section is behind this one.
abbrev pub Above : List ℕ → Section → Type 0
Above n no_entries = Unit
Above n (entry m v s) = (before n m ≡ true) × Above n s

abbrev pub IsSorted : Section → Type 0
IsSorted no_entries = Unit
IsSorted (entry m v s) = Above m s × IsSorted s

Above-trans : (n m : List ℕ) (s : Section) → before n m ≡ true → Above m s → Above n s
Above-trans n m no_entries h a = tt
Above-trans n m (entry k v s) h a = (before_trans n m k h a.0, Above-trans n m s h a.1)

ne_of_before : (a b : List ℕ) → before a b ≡ true → b ≢ a
ne_of_before a b h e = cc (ap (before a) e, before_irrefl a, h)

find-Above : (n : List ℕ) (s : Section) → Above n s → find s n ≡ none
unfolding find
find-Above n no_entries a = refl
find-Above n (entry m v s) a = rw (same-false m n (ne_of_before n m a.0)) (find-Above n s a.1)

insert-Above :
    (n name : List ℕ) (v : Value) (s : Section)
    → before n name ≡ true
    → Above n s
    → Above n (insert name v s)
unfolding insert
insert-Above n name v no_entries h a = (h, tt)
insert-Above n name v (entry m w s) h a = elim (Bool-cases (before name m)) [
  | inl y ↦ rw y (h, a)
  | inr no_ ↦ elim (Bool-cases (same name m)) [
    | inl same_name ↦ rw (no_, same_name) (h, a.1)
    | inr other ↦ rw (no_, other) (a.0, insert-Above n name v s h a.1)
  ]
]

pub insert-IsSorted :
    (name : List ℕ) (v : Value) (s : Section) → IsSorted s → IsSorted (insert name v s)
unfolding insert
insert-IsSorted name v no_entries h = (tt, tt)
insert-IsSorted name v (entry m w s) h = elim (Bool-cases (before name m)) [
  | inl y ↦ rw y ((y, Above-trans name m s y h.0), h)
  | inr no_ ↦ elim (Bool-cases (same name m)) [
    | inl same_name ↦ let is = (same_iff name m).0 same_name in rw (no_, same_name) (rw is h.0, h.1)
    | inr other ↦
        let differ : name ≢ m = λ e. ground (arith, (same_iff name m).1 e) in
        rw (no_, other)
          (
            insert-Above m name v s (before-total name m no_ differ) h.0,
            insert-IsSorted name v s h.1,
          )
  ]
]

-- What is found after an insertion.
pub find-insert :
    (name k : List ℕ) (v : Value) (s : Section)
    → find (insert name v s) k ≡ (if same name k then some v else find s k)
unfolding insert find
find-insert name k v no_entries = refl
find-insert name k v (entry m w s) = elim (Bool-cases (before name m)) [
  | inl y ↦ rw y refl
  | inr no_ ↦ elim (Bool-cases (same name m)) [
    | inl same_name ↦
        let is = (same_iff name m).0 same_name in
        rw (no_, same_name, sym is)
          (elim (Bool-cases (same name k)) [
            | inl found ↦ rw found refl
            | inr passed ↦ rw passed refl
          ])
    | inr other ↦
        rw (no_, other, find-insert name k v s)
          (elim (Bool-cases (same m k)) [
            | inl at_m ↦ elim (Bool-cases (same name k)) [
              | inl at_name ↦
                  let is_m = (same_iff m k).0 at_m in
                  let is_name = (same_iff name k).0 at_name in
                  cc (other, (same_iff name m).1 (is_name ∙ sym is_m))
              | inr off ↦ rw (at_m, off) refl
            ]
            | inr off ↦ rw off refl
          ])
  ]
]

find-first : (m : List ℕ) (v : Value) (s : Section) → find (entry m v s) m ≡ some v
unfolding find
find-first m v s = rw (same_refl m) refl

find-rest :
    (m k : List ℕ) (v : Value) (s : Section) → same m k ≡ false → find (entry m v s) k ≡ find s k
unfolding find
find-rest m k v s h = rw h refl

-- What is found behind the first entries of two sections whose first names are one.
find-tails :
    (m : List ℕ) (v w : Value) (s t : Section)
    → Above m s
    → Above m t
    → ((k : List ℕ) → find (entry m v s) k ≡ find (entry m w t) k)
    → (k : List ℕ) → find s k ≡ find t k
find-tails m v w s t a b h k = elim (Bool-cases (same m k)) [
  | inl y ↦ let is = (same_iff m k).0 y in rw (sym is) (find-Above m s a ∙ sym (find-Above m t b))
  | inr n ↦ sym (find-rest m k v s n) ∙ h k ∙ find-rest m k w t n
]

-- A section that begins before another has what the other has not.
find-before :
    (m n : List ℕ) (v w : Value) (s t : Section)
    → before m n ≡ true
    → Above n t
    → find (entry m v s) m ≡ find (entry n w t) m
    → ⊥
find-before m n v w s t less a h =
    let absent = find-Above m (entry n w t) (less, Above-trans m n t less a) in
    cc (find-first m v s, absent, h)

-- Sorted sections in which the same is found are the same section.
pub find-ext :
    (s t : Section) → IsSorted s → IsSorted t → ((k : List ℕ) → find s k ≡ find t k) → s ≡ t
find-ext no_entries no_entries hs ht h = refl
find-ext no_entries (entry m v t) hs ht h =
    let nothing : find no_entries m ≡ none = unfold find in refl in
    cc (nothing, h m, find-first m v t)
find-ext (entry m v s) no_entries hs ht h =
    let nothing : find no_entries m ≡ none = unfold find in refl in
    cc (nothing, h m, find-first m v s)
find-ext (entry m v s) (entry n w t) hs ht h = elim (Bool-cases (same m n)) [
  | inl y ↦
      let is = (same_iff m n).0 y in
      let above : Above m t = rw is ht.0 in
      let one_name : (k : List ℕ) → find (entry m v s) k ≡ find (entry m w t) k =
        subst (λ x. (k : List ℕ) → find (entry m v s) k ≡ find (entry x w t) k) (sym is) h in
      let one_value : v ≡ w = cc (find-first m v s, find-first m w t, one_name m) in
      let rests = find-ext s t hs.1 ht.1 (find-tails m v w s t hs.0 above one_name) in
      cc (is, one_value, rests)
  | inr differ ↦ elim (Bool-cases (before m n)) [
    | inl less ↦ absurd (find-before m n v w s t less ht.0 (h m))
    | inr no_ ↦
        let apart : m ≢ n = λ e. cc (differ, (same_iff m n).1 e) in
        absurd (find-before n m w v t s (before-total m n no_ apart) hs.0 (sym (h n)))
  ]
]
