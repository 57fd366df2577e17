-- ===== src/Verify/Median.antt =====
-- crates/core/src/verify.rs: the median of the upstreams' values.
use mnr.Common.{
  ℕ, zero, suc, ◌+◌, ◌-◌, ◌*◌, ◌/◌, ◌≤◌, ◌<◌, ◌≡◌, inl, inr, Bool, ◌&&◌, Option, none, some, List,
  [], ◌∷◌, length, get_elem?, get_elem?_lt, In, ltb, leb, arith, Bool-cases,
}
use mnr.Common.Sort.{
  sort, count, count-sort, length-sort, sort-Ascending, In-sort_iff, rank_of_index,
}

unfoldable pub median : List ℕ → Option ℕ
median [] = none
median (x ∷ xs) = get_elem? (sort (x ∷ xs)) ((length (sort (x ∷ xs)) - 1) / 2)

median_index :
    (xs : List ℕ) (m : ℕ) → median xs ≡ some m → get_elem? (sort xs) ((length xs - 1) / 2) ≡ some m
unfolding median
median_index [] m h = cc
median_index (x ∷ xs) m h = rw (← length-sort (x ∷ xs)) h

In-get_elem? : (xs : List ℕ) (i m : ℕ) → get_elem? xs i ≡ some m → In m xs
In-get_elem? [] i m h = cc
In-get_elem? (x ∷ xs) zero m h = inl (cc)
In-get_elem? (x ∷ xs) (suc i) m h = inr (In-get_elem? xs i m h)

-- The median of a non-empty list is one of its values, the lower of the middle ones: at most
-- (n - 1) / 2 values lie below it, and more than (n - 1) / 2 values are at most it.
pub median_rank :
    (xs : List ℕ) (m : ℕ)
    → median xs ≡ some m
    → In m xs
      × (count (λ y. ltb y m) xs ≤ (length xs - 1) / 2)
      × ((length xs - 1) / 2 < count (λ y. leb y m) xs)
median_rank xs m h =
    let at = median_index xs m h in
    let (below, upto) = rank_of_index (sort xs) ((length xs - 1) / 2) m (sort-Ascending xs) at in
    (
      (In-sort_iff m xs).0 (In-get_elem? (sort xs) ((length xs - 1) / 2) m at),
      rw (← count-sort (λ y. ltb y m) xs) below,
      rw (← count-sort (λ y. leb y m) xs) upto,
    )

-- A list has a median unless it is empty.
pub median_exists : (xs : List ℕ) → 0 < length xs → (m : ℕ) × (median xs ≡ some m)
unfolding median
median_exists [] h = absurd (omega arith)
median_exists (x ∷ xs) h =
    get_elem?_lt (sort (x ∷ xs)) ((length (sort (x ∷ xs)) - 1) / 2)
      (omega (arith, length-sort (x ∷ xs)))

-- Whether a value lies in the range.
abbrev pub within : ℕ → ℕ → ℕ → Bool
within lo hi y = leb lo y && leb y hi

-- Numbers below `m` are outside a range that starts at `m` or later, and so on.
count_split_low :
    (lo hi m : ℕ) (xs : List ℕ)
    → m < lo
    → count (within lo hi) xs + count (λ y. leb y m) xs ≤ length xs
unfolding count
count_split_low lo hi m [] h = omega arith
count_split_low lo hi m (x ∷ xs) h = ground (arith, count_split_low lo hi m xs h)

count_split_high :
    (lo hi m : ℕ) (xs : List ℕ) → hi < m → count (within lo hi) xs ≤ count (λ y. ltb y m) xs
unfolding count
count_split_high lo hi m [] h = omega arith
count_split_high lo hi m (x ∷ xs) h = ground (arith, count_split_high lo hi m xs h)

-- No minority moves the median out of a range: where more than half of the values lie between `lo`
-- and `hi`, there is a median and it lies there too.
pub median-within :
    (lo hi : ℕ) (xs : List ℕ)
    → length xs < 2 * count (within lo hi) xs
    → (m : ℕ) × (median xs ≡ some m) × (lo ≤ m) × (m ≤ hi)
median-within lo hi xs h =
    let (m, is) = median_exists xs (nonempty xs h) in
    let (_, below, upto) = median_rank xs m is in (m, is, lower m upto, upper m below)
  where
    nonempty : (xs : List ℕ) → length xs < 2 * count (within lo hi) xs → 0 < length xs
    nonempty [] h = unfold count in absurd (omega arith)
    nonempty (x ∷ xs) h = omega arith

    lower : (m : ℕ) → (length xs - 1) / 2 < count (λ y. leb y m) xs → lo ≤ m
    lower m upto = elim (Bool-cases (ltb m lo)) [
      | inl lt ↦ absurd (omega (arith, count_split_low lo hi m xs (ground arith)))
      | inr ge ↦ ground arith
    ]

    upper : (m : ℕ) → count (λ y. ltb y m) xs ≤ (length xs - 1) / 2 → m ≤ hi
    upper m below = elim (Bool-cases (ltb hi m)) [
      | inl lt ↦ absurd (omega (arith, count_split_high lo hi m xs (ground arith)))
      | inr ge ↦ ground arith
    ]
