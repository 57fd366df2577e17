-- ===== src/Epee/Reader.antt =====
-- The cursor: a reader takes the bytes that remain, and passes on those that it leaves.
use mnr.Common.{
  ℕ, ◌-◌, ◌*◌, ◌/◌, ◌%◌, ◌^◌, ◌||◌, List, [], ◌∷◌, length, take, drop, ltb, ◌==◌, if◌then◌else◌,
  Result, ok, err,
}
use mnr.Common.Bytes.{from_le}
use mnr.Epee.Tree.{Error, truncated}

abbrev pub Reader : Type 0 → Type 0
Reader A = List ℕ → Result Error (A × List ℕ)

unfoldable pub give : {A : Type 0} → A → Reader A
give a input = ok (a, input)

unfoldable pub fail : {A : Type 0} → Error → Reader A
fail e input = err e

-- `?` and what follows it.
unfoldable pub and_then : {A B : Type 0} → Reader A → (A → Reader B) → Reader B
and_then r k input = elim (r input) [ ok (a, rest) ↦ k a rest | err e ↦ err e ]

-- `Cursor::take`
unfoldable pub read_bytes : ℕ → Reader (List ℕ)
read_bytes n input = if ltb (length input) n then err truncated else ok (take n input, drop n input)

-- `from_le_bytes` of so many bytes: `u8`, `u32`, `u64` of the cursor, and its 16-bit words.
unfoldable pub word : ℕ → Reader ℕ
unfolding and_then give from_le
word n = and_then (read_bytes n) (λ bs. give (from_le bs))

-- The byte at the cursor, which stays where it is.
unfoldable pub peek : Reader ℕ
peek [] = err truncated
peek (b ∷ bs) = ok (b, b ∷ bs)

-- How many bytes an integer has whose first byte is given.
abbrev pub width : ℕ → ℕ
width first =
    if first % 4 == 0 then 1 else if first % 4 == 1 then 2 else if first % 4 == 2 then 4 else 8

unfoldable pub varint : Reader ℕ
unfolding and_then word give
varint = and_then peek (λ first. and_then (word (width first)) (λ w. give (w / 4)))

-- The count's test against the bytes that remain; the product is a `checked_mul`.
unfoldable pub enough : ℕ → ℕ → Reader ℕ
enough n min_bytes input =
    if ltb (2 ^ 64 - 1) (n * min_bytes) || ltb (length input) (n * min_bytes)
    then err truncated
    else ok (n, input)

unfoldable pub count : ℕ → Reader ℕ
unfolding and_then varint enough
count min_bytes = and_then varint (λ n. enough n min_bytes)
