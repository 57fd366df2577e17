-- ===== src/Tests/Answers.antt =====
-- The parser of binary answers on a body of one number, and on one that also has a volatile key.
use mnr.Common.{ℕ, ◌+◌, ◌≤◌, ◌≡◌, ◌↔◌, refl, false, List, [], ◌∷◌, ◌++◌, length, ok, err}
use mnr.Common.Bytes.{from_le, bytes_discrete}
use mnr.Epee.Tree.{
  Section, u8, no_entries, entry, truncated, before, insert, find, is_dropped, canonical,
}
use mnr.Epee.Reader.{give, fail, and_then, read_bytes, word, peek, varint, enough, count}
use mnr.Epee.Parse.{
  is_utf8_from, utf8, value_of, entry_of, entries, section_of, readers, root, check_version,
  after_first, body, ended, parse,
}
use mnr.Epee.Paid.{section_size}
use mnr.Epee.Sizes.{parse_size}
use mnr.Epee.Canonical.{canonical-eq_iff}

-- The signature and the version.
abbrev start : List ℕ
start = 1 ∷ 0x11 ∷ 1 ∷ 1 ∷ 1 ∷ 1 ∷ 2 ∷ 1 ∷ 1 ∷ []

-- "a" is a byte of 7.
abbrev one_number : List ℕ
one_number = start ++ 4 ∷ 1 ∷ 97 ∷ 8 ∷ 7 ∷ []

abbrev number_tree : Section
number_tree = entry (97 ∷ []) (u8 7) no_entries

-- "b" is a byte of 9, and it is written before "a".
abbrev two_numbers : List ℕ
two_numbers = start ++ 8 ∷ 1 ∷ 98 ∷ 8 ∷ 9 ∷ 1 ∷ 97 ∷ 8 ∷ 7 ∷ []

abbrev numbers_tree : Section
numbers_tree = entry (97 ∷ []) (u8 7) (entry (98 ∷ []) (u8 9) no_entries)

one_number_parsed : parse one_number ≡ ok number_tree
unfolding parse body after_first check_version root readers section_of entries entry_of value_of
    utf8 is_utf8_from count varint enough peek word read_bytes and_then give fail ended insert
    before from_le bytes_discrete
one_number_parsed = refl

two_numbers_parsed : parse two_numbers ≡ ok numbers_tree
unfolding parse body after_first check_version root readers section_of entries entry_of value_of
    utf8 is_utf8_from count varint enough peek word read_bytes and_then give fail ended insert
    before from_le bytes_discrete
two_numbers_parsed = refl

-- A count of 63 entries in a body of one byte more.
too_many : parse (start ++ 0xfc ∷ 0 ∷ []) ≡ err truncated
unfolding parse body after_first check_version root readers section_of entries entry_of value_of
    utf8 is_utf8_from count varint enough peek word read_bytes and_then give fail ended insert
    before from_le bytes_discrete
too_many = refl

parse_size_example : 10 + section_size number_tree ≤ length one_number
parse_size_example = parse_size one_number number_tree one_number_parsed

-- Without "b" the two answers are the same.
canonical-eq_iff_example :
    (canonical number_tree ((98 ∷ []) ∷ []) ≡ canonical numbers_tree ((98 ∷ []) ∷ [])) ↔ (
      (k : List ℕ)
      → is_dropped ((98 ∷ []) ∷ []) k ≡ false
      → find number_tree k ≡ find numbers_tree k)
canonical-eq_iff_example =
    canonical-eq_iff one_number two_numbers number_tree numbers_tree ((98 ∷ []) ∷ [])
      one_number_parsed two_numbers_parsed
