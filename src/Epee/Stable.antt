-- ===== src/Epee/Stable.antt =====
-- The cursor's readers do not look behind what they read.
use mnr.Common.{
  ℕ, zero, suc, ◌-◌, ◌*◌, ◌^◌, ◌≤◌, ◌≡◌, refl, sym, ap, inl, inr, Bool, Bool-cases, true, false,
  ◌||◌, List, [], ◌∷◌, ◌++◌, length, take, drop, length-append, ltb, Result, ok, Result-cases,
  arith, if◌then◌else◌,
}
use mnr.Epee.Tree.{Error}
use mnr.Epee.Reader.{
  Reader, give, fail, and_then, read_bytes, word, peek, width, varint, enough, count,
}
use mnr.Epee.Parse.{utf8, is_utf8, min_size, size_of}

-- What a chain of two readers that succeeds has done.
pub and_then-ok :
    {A B : Type 0} (r : Reader A) (k : A → Reader B) (input : List ℕ) (b : B) (rest : List ℕ)
    → and_then r k input ≡ ok (b, rest)
    → (a : A) × (mid : List ℕ) × (r input ≡ ok (a, mid)) × (k a mid ≡ ok (b, rest))
unfolding and_then
and_then-ok r k input b rest h = elim (Result-cases (r input)) [
  | inl ((a, mid), is) ↦ (a, mid, is, rw (is, and_then) at h)
  | inr (e, is) ↦ cc (rw (is, and_then) at h)
]

-- A success.
abbrev did : {A : Type 0} → A → List ℕ → Result Error (A × List ℕ)
did a rest = ok (a, rest)

pub ok-eq : {A : Type 0} {a b : A} {r s : List ℕ} → did a r ≡ did b s → (a ≡ b) × (r ≡ s)
ok-eq h = (cc, cc)

-- What is behind the input stays behind what is left of it.
abbrev pub IsStable : {A : Type 0} → Reader A → Type 0
IsStable {A} r =
    (input x : List ℕ) (a : A) (rest : List ℕ)
    → r input ≡ ok (a, rest)
    → r (input ++ x) ≡ ok (a, rest ++ x)

pub and_then-IsStable :
    {A B : Type 0} (r : Reader A) (k : A → Reader B)
    → IsStable r
    → ((a : A) → IsStable (k a))
    → IsStable (and_then r k)
unfolding and_then
and_then-IsStable r k hr hk input x b rest h =
    let (a, mid, first, second) = and_then-ok r k input b rest h in
    rw (hr input x a mid first, and_then) (hk a mid x b rest second)

pub give-IsStable : {A : Type 0} (a : A) → IsStable (give a)
unfolding give
give-IsStable a input x b rest h = let (is, left) = ok-eq h in rw (is, left) refl

pub fail-IsStable : {A : Type 0} (e : Error) → IsStable (fail {A = A} e)
unfolding fail
fail-IsStable e input x b rest h = cc

take-append_left : (n : ℕ) (xs ys : List ℕ) → n ≤ length xs → take n (xs ++ ys) ≡ take n xs
take-append_left zero xs ys h = refl
take-append_left (suc n) [] ys h = absurd (omega arith)
take-append_left (suc n) (x ∷ xs) ys h = ap (λ t. x ∷ t) (take-append_left n xs ys (omega arith))

drop-append_left : (n : ℕ) (xs ys : List ℕ) → n ≤ length xs → drop n (xs ++ ys) ≡ drop n xs ++ ys
drop-append_left zero xs ys h = refl
drop-append_left (suc n) [] ys h = absurd (omega arith)
drop-append_left (suc n) (x ∷ xs) ys h = drop-append_left n xs ys (omega arith)

pub read_bytes-IsStable : (n : ℕ) → IsStable (read_bytes n)
unfolding read_bytes
read_bytes-IsStable n input x a rest h = elim (Bool-cases (ltb (length input) n)) [
  | inl y ↦ absurd (cc (rw y at h))
  | inr fits ↦
      let still : ltb (length (input ++ x)) n ≡ false = ground (arith, length-append input x) in
      let (is, left) = ok-eq (rw fits at h) in
      rw
        (
          still,
          take-append_left n input x (ground arith),
          drop-append_left n input x (ground arith),
          is,
          left,
        )
        refl
]

pub word-IsStable : (n : ℕ) → IsStable (word n)
unfolding word
word-IsStable n = and_then-IsStable (read_bytes n) _ (read_bytes-IsStable n) (λ bs. give-IsStable _)

pub peek-IsStable : IsStable peek
unfolding peek
peek-IsStable [] x a rest h = cc
peek-IsStable (b ∷ bs) x a rest h = let (is, left) = ok-eq h in rw (sym is, sym left) refl

pub varint-IsStable : IsStable varint
unfolding varint
varint-IsStable = and_then-IsStable peek _ peek-IsStable (λ first.
    and_then-IsStable (word (width first)) _ (word-IsStable (width first)) (λ w. give-IsStable _))

pub enough-IsStable : (n least : ℕ) → IsStable (enough n least)
unfolding enough
enough-IsStable n least input x a rest h =
    elim (Bool-cases (ltb (2 ^ 64 - 1) (n * least) || ltb (length input) (n * least))) [
      | inl y ↦ absurd (cc (rw y at h))
      | inr fits ↦
          let (is, left) = ok-eq (rw fits at h) in
          let still : (ltb (2 ^ 64 - 1) (n * least) || ltb (length (input ++ x)) (n * least))
              ≡ false =
            ground (arith, length-append input x) in
          rw (still, is, left) refl
    ]

pub count-IsStable : (least : ℕ) → IsStable (count least)
unfolding count
count-IsStable least = and_then-IsStable varint _ varint-IsStable (λ n. enough-IsStable n least)

pub utf8-IsStable : (name : List ℕ) → IsStable (utf8 name)
unfolding utf8
utf8-IsStable name = elim (Bool-cases (is_utf8 name)) [
  | inl y ↦ rw y (give-IsStable name)
  | inr n ↦ rw n (fail-IsStable _)
]

pub size_of-IsStable : (t : ℕ) → IsStable (size_of t)
unfolding size_of
size_of-IsStable t = elim (Result-cases (min_size t)) [
  | inl (n, is) ↦ rw (is, size_of) (give-IsStable n)
  | inr (e, is) ↦ rw (is, size_of) (fail-IsStable e)
]

pub if-IsStable :
    {A : Type 0} (b : Bool) (r s : Reader A)
    → IsStable r
    → IsStable s
    → IsStable (if b then r else s)
if-IsStable true r s hr hs = hr
if-IsStable false r s hr hs = hs
