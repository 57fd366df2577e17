-- ===== src/Epee/Paid.antt =====
-- The size of what is parsed, and what the cursor's readers take for it.
use mnr.Common.{
  ℕ, ◌+◌, ◌-◌, ◌*◌, ◌^◌, ◌≤◌, ◌≡◌, sym, inl, inr, Bool, Bool-cases, true, false, ◌||◌, List, [],
  ◌∷◌, length, length-take, length-drop, ltb, ok, Result-cases, arith, if◌then◌else◌,
}
use mnr.Epee.Tree.{
  Error, Value, Values, Section, i64, i32, i16, i8, u64, u32, u16, u8, f64, bool, bytes, array,
  section, no_values, value, no_entries, entry, before, insert,
}
use mnr.HeaderChain.Store.{same}
use mnr.Epee.Reader.{
  Reader, give, fail, and_then, read_bytes, word, peek, width, varint, enough, count,
}
use mnr.Epee.Parse.{utf8, is_utf8, min_size, size_of}
use mnr.Epee.Stable.{and_then-ok, ok-eq}

-- How many bytes the strings and names have and how many values there are.
abbrev mutual
  pub value_size : Value → ℕ
  value_size (i64 v) = 1
  value_size (i32 v) = 1
  value_size (i16 v) = 1
  value_size (i8 v) = 1
  value_size (u64 v) = 1
  value_size (u32 v) = 1
  value_size (u16 v) = 1
  value_size (u8 v) = 1
  value_size (f64 v) = 1
  value_size (bool b) = 1
  value_size (bytes b) = 1 + length b
  value_size (array vs) = 1 + values_size vs
  value_size (section s) = 1 + section_size s

  pub values_size : Values → ℕ
  values_size no_values = 0
  values_size (value v vs) = value_size v + values_size vs

  pub section_size : Section → ℕ
  section_size no_entries = 0
  section_size (entry name v s) = length name + value_size v + section_size s

-- A new entry adds at most its own size.
pub section_size-insert :
    (name : List ℕ) (v : Value) (s : Section)
    → section_size (insert name v s) ≤ length name + value_size v + section_size s
unfolding insert
section_size-insert name v no_entries = omega arith
section_size-insert name v (entry other w s) = elim (Bool-cases (before name other)) [
  | inl y ↦ rw y (omega arith)
  | inr n ↦ elim (Bool-cases (same name other)) [
    | inl same_name ↦ rw (n, same_name) (omega arith)
    | inr other_name ↦ rw (n, other_name) (omega (arith, section_size-insert name v s))
  ]
]

-- A reader with `spare` bytes read before it: its result is no larger than what it takes of them and
-- of its input.
pub record IsPaid {A : Type 0} (size : A → ℕ) (spare : ℕ) (r : Reader A) : Type 0 where
  pub pays :
      (input : List ℕ) (a : A) (rest : List ℕ)
      → r input ≡ ok (a, rest)
      → size a + length rest ≤ length input + spare

pub and_then-IsPaid :
    {A B : Type 0} {size : A → ℕ} {size' : B → ℕ} {spare : ℕ} {r : Reader A} {k : A → Reader B}
    → IsPaid size spare r
    → ((a : A) → IsPaid size' (size a) (k a))
    → IsPaid size' spare (and_then r k)
and_then-IsPaid {r = r} {k = k} hr hk = record {
  pays = λ input b rest h.
      let (a, mid, first, second) = and_then-ok r k input b rest h in
      omega (arith, hr.pays input a mid first, (hk a).pays mid b rest second);
}

pub give-IsPaid :
    {A : Type 0} {size : A → ℕ} {spare : ℕ} (a : A) → size a ≤ spare → IsPaid size spare (give a)
unfolding give
give-IsPaid {size = size} a le = record {
  pays = λ input b rest h. let (is, left) = ok-eq h in rw (sym is, sym left) (omega arith);
}

pub fail-IsPaid :
    {A : Type 0} {size : A → ℕ} {spare : ℕ} (e : Error) → IsPaid size spare (fail {A = A} e)
unfolding fail
fail-IsPaid e = record { pays = λ input a rest h. cc }

pub if-IsPaid :
    {A : Type 0} {size : A → ℕ} {spare : ℕ} (b : Bool) {r s : Reader A}
    → IsPaid size spare r
    → IsPaid size spare s
    → IsPaid size spare (if b then r else s)
if-IsPaid true hr hs = hr
if-IsPaid false hr hs = hs

pub read_bytes-IsPaid : {spare : ℕ} (n : ℕ) → IsPaid (λ b. length b + spare) spare (read_bytes n)
unfolding read_bytes
read_bytes-IsPaid n = record {
  pays = λ input a rest h. elim (Bool-cases (ltb (length input) n)) [
    | inl y ↦ absurd (cc (rw y at h))
    | inr fits ↦
        let (is, left) = ok-eq (rw fits at h) in
        rw (sym is, sym left) (omega (arith, length-take n input, length-drop n input))
  ];
}

skip-IsPaid : {spare : ℕ} (n : ℕ) → IsPaid (λ _. n + spare) spare (read_bytes n)
unfolding read_bytes
skip-IsPaid n = record {
  pays = λ input a rest h. elim (Bool-cases (ltb (length input) n)) [
    | inl y ↦ absurd (cc (rw y at h))
    | inr fits ↦
        let (is, left) = ok-eq (rw fits at h) in rw (sym left) (ground (arith, length-drop n input))
  ];
}

-- A word of `n` bytes pays for a result of size `n`.
pub word-IsPaid : {spare : ℕ} (n : ℕ) → IsPaid (λ _. n + spare) spare (word n)
unfolding word
word-IsPaid n = and_then-IsPaid (skip-IsPaid n) (λ bs. give-IsPaid _ (omega arith))

peek-IsPaid : {spare : ℕ} → IsPaid (λ _. spare) spare peek
unfolding peek
peek-IsPaid {spare = spare} = record { pays = peeked spare }
  where
    peeked :
        (spare : ℕ) (input : List ℕ) (a : ℕ) (rest : List ℕ)
        → peek input ≡ ok (a, rest)
        → spare + length rest ≤ length input + spare
    peeked spare [] a rest h = cc
    peeked spare (b ∷ bs) a rest h = let (is, left) = ok-eq h in rw (sym left) (omega arith)

varint-IsPaid : {spare : ℕ} → IsPaid (λ _. 1 + spare) spare varint
unfolding varint
varint-IsPaid =
    and_then-IsPaid peek-IsPaid
      (λ first. and_then-IsPaid (word-IsPaid (width first)) (λ w. give-IsPaid _ (ground arith)))

enough-IsPaid : {spare : ℕ} (n least : ℕ) → IsPaid (λ _. spare) spare (enough n least)
unfolding enough
enough-IsPaid n least = record {
  pays = λ input a rest h.
      elim (Bool-cases (ltb (2 ^ 64 - 1) (n * least) || ltb (length input) (n * least))) [
        | inl y ↦ absurd (cc (rw y at h))
        | inr fits ↦ let (is, left) = ok-eq (rw fits at h) in rw (sym left) (omega arith)
      ];
}

pub count-IsPaid : {spare : ℕ} (least : ℕ) → IsPaid (λ _. 1 + spare) spare (count least)
unfolding count
count-IsPaid least = and_then-IsPaid varint-IsPaid (λ n. enough-IsPaid n least)

-- The spare bytes hold the name that was read.
pub utf8-IsPaid :
    (spare : ℕ) (name : List ℕ) → IsPaid (λ n. length n + spare) (length name + spare) (utf8 name)
unfolding utf8
utf8-IsPaid spare name = if-IsPaid (is_utf8 name) (give-IsPaid name (omega arith)) (fail-IsPaid _)

-- The same claim with other bounds that it gives.
pub weaken :
    {A : Type 0} {size size' : A → ℕ} {spare spare' : ℕ} {r : Reader A}
    → IsPaid size spare r
    → ((a : A) → size' a + spare ≤ size a + spare')
    → IsPaid size' spare' r
weaken h le = record { pays = λ input a rest e. omega (arith, h.pays input a rest e, le a) }

pub size_of-IsPaid : {spare : ℕ} (t : ℕ) → IsPaid (λ _. spare) spare (size_of t)
unfolding size_of
size_of-IsPaid {spare = spare} t = elim (Result-cases (min_size t)) [
  | inl (n, is) ↦ rw (is, size_of) (give-IsPaid n (omega arith))
  | inr (e, is) ↦ rw (is, size_of) (fail-IsPaid e)
]

pub leaf-IsPaid :
    {spare : ℕ} (n : ℕ) (f : ℕ → Value)
    → ((v : ℕ) → value_size (f v) ≤ n)
    → IsPaid (λ v. value_size v + spare) spare (and_then (word n) (λ v. give (f v)))
leaf-IsPaid n f le = and_then-IsPaid (word-IsPaid n) (λ v. give-IsPaid (f v) (omega (arith, le v)))

pub text-IsPaid :
    {spare : ℕ}
    → IsPaid
        (λ v. value_size v + spare)
        spare
        (and_then (count 1) (λ n. and_then (read_bytes n) (λ b. give (Value.bytes b))))
text-IsPaid =
    and_then-IsPaid (count-IsPaid 1)
      (λ n. and_then-IsPaid (read_bytes-IsPaid n) (λ b. give-IsPaid _ (omega arith)))
