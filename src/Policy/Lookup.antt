-- ===== src/Policy/Lookup.antt =====
-- What a look-up finds: a row of the table under its own name.
use Prim.Native.String.{String}
use text.Mathlib.Text.{◌==◌ as str_eq}
use text.Mathlib.TextEquality.{eq_iff}
use mnr.Common.{
  ◌≡◌, ◌↔◌, refl, sym, inl, inr, Bool, true, ◌&&◌, some, List, [], ◌∷◌, In, not, arith, Bool-cases,
}
use mnr.Policy.Types.{Policy}
use mnr.Policy.Table.{table, find_row, lookup}

-- A test on each row, as a computation.
unfoldable pub all_rows : (Policy → Bool) → List Policy → Bool
all_rows test [] = true
all_rows test (p ∷ ps) = test p && all_rows test ps

pub all_rows_sound :
    (test : Policy → Bool) (ps : List Policy) (p : Policy)
    → all_rows test ps ≡ true
    → In p ps
    → test p ≡ true
unfolding all_rows
all_rows_sound test [] p h m = absurd m
all_rows_sound test (q ∷ ps) p h (inl e) = ground arith
all_rows_sound test (q ∷ ps) p h (inr m) = all_rows_sound test ps p (ground arith) m

pub find_row-some :
    (method : String) (ps : List Policy) (p : Policy)
    → find_row method ps ≡ some p
    → In p ps × (p.method ≡ method)
unfolding find_row
find_row-some method [] p h = cc
find_row-some method (q ∷ ps) p h = elim (Bool-cases (str_eq q.method method)) [
  | inl y ↦
      let is : q ≡ p = cc (rw y at h) in
      let named = (eq_iff q.method method).0 y in (inl is, rw (← is) named)
  | inr n ↦ let (m, named) = find_row-some method ps p (rw n at h) in (inr m, named)
]

-- No name stands in the table twice.
pub no_repeat : List Policy → Bool
unfolding all_rows
no_repeat [] = true
no_repeat (p ∷ ps) = all_rows (λ q. not (str_eq q.method p.method)) ps && no_repeat ps

find_row-In :
    (ps : List Policy) (p : Policy) → no_repeat ps ≡ true → In p ps → find_row p.method ps ≡ some p
unfolding find_row no_repeat
find_row-In [] p h m = absurd m
find_row-In (q ∷ ps) p h (inl e) = rw (e, (eq_iff p.method p.method).1 refl) refl
find_row-In (q ∷ ps) p h (inr m) =
    let other : not (str_eq p.method q.method) ≡ true =
      all_rows_sound (λ r. not (str_eq r.method q.method)) ps p (ground arith) m in
    elim (Bool-cases (str_eq q.method p.method)) [
      | inl y ↦ let same = (eq_iff p.method q.method).1 (sym ((eq_iff q.method p.method).0 y)) in cc
      | inr n ↦ rw n (find_row-In ps p (ground arith) m)
    ]

table-no_repeat : no_repeat table ≡ true
unfolding no_repeat table
table-no_repeat = refl

-- The rows of the table are what is found in it: each row under its own name, and under a name
-- nothing but the row that bears it.
pub lookup-eq-some_iff :
    (method : String) (p : Policy) → (lookup method ≡ some p) ↔ (In p table × (p.method ≡ method))
unfolding lookup
lookup-eq-some_iff method p =
    (find_row-some method table p, λ h. rw (← h.1) (find_row-In table p table-no_repeat h.0))
