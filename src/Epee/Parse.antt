-- ===== src/Epee/Parse.antt =====
-- The parser. A section, an array and a value at a depth read deeper ones: `readers` counts the
-- depths that are left down to none, where a section or an array is `TooDeep`.
use mnr.Common.{
  ℕ, zero, suc, ◌+◌, ◌-◌, Bool, true, false, ◌||◌, ◌&&◌, not, Option, none, some, List, [], ◌∷◌,
  ltb, leb, ◌==◌, if◌then◌else◌, Result, ok, err,
}
use mnr.Epee.Tree.{
  Value, i64, i32, i16, i8, u64, u32, u16, u8, f64, bool, bytes, array, section, Values, no_values,
  value, Section, no_entries, insert, Error, signature, version, bad_name, bad_array, too_deep,
  trailing, unknown_type,
}
use mnr.Epee.Reader.{Reader, give, fail, and_then, read_bytes, word, count}

abbrev pub signature_a : ℕ
signature_a = 0x01011101

abbrev pub signature_b : ℕ
signature_b = 0x01020101

abbrev pub max_depth : ℕ
max_depth = 32

-- What a byte of UTF-8 that begins a character says: how many more it has, and the range of the
-- next one.
abbrev pub lead : ℕ → Option (ℕ × ℕ × ℕ)
lead b =
    if ltb b 0x80
    then some (0, 0x80, 0xbf)
    else if ltb b 0xc2
    then none
    else if ltb b 0xe0
    then some (1, 0x80, 0xbf)
    else if b == 0xe0
    then some (2, 0xa0, 0xbf)
    else if b == 0xed
    then some (2, 0x80, 0x9f)
    else if ltb b 0xf0
    then some (2, 0x80, 0xbf)
    else if b == 0xf0
    then some (3, 0x90, 0xbf)
    else if ltb b 0xf4
    then some (3, 0x80, 0xbf)
    else if b == 0xf4
    then some (3, 0x80, 0x8f)
    else none

-- `std::str::from_utf8`, with what is left of a character.
unfoldable pub is_utf8_from : ℕ → ℕ → ℕ → List ℕ → Bool
is_utf8_from zero lo hi [] = true
is_utf8_from (suc n) lo hi [] = false
is_utf8_from zero lo hi (b ∷ bs) = elim (lead b) [
  | none ↦ false
  | some (n, lo', hi') ↦ is_utf8_from n lo' hi' bs
]
is_utf8_from (suc n) lo hi (b ∷ bs) = leb lo b && (leb b hi && is_utf8_from n 0x80 0xbf bs)

abbrev pub is_utf8 : List ℕ → Bool
is_utf8 name = is_utf8_from 0 0x80 0xbf name

unfoldable pub utf8 : List ℕ → Reader (List ℕ)
unfolding is_utf8_from
utf8 name = if is_utf8 name then give name else fail bad_name

-- The smallest encoding of a value of a type.
unfoldable pub min_size : ℕ → Result Error ℕ
min_size t =
    if t == 1 || (t == 5 || t == 9)
    then ok 8
    else if t == 2 || t == 6
    then ok 4
    else if t == 3 || t == 7
    then ok 2
    else if t == 4 || (t == 8 || (t == 11 || (t == 10 || t == 12)))
    then ok 1
    else if t == 13
    then ok 2
    else err (unknown_type t)

unfoldable pub size_of : ℕ → Reader ℕ
unfolding min_size
size_of t = elim (min_size t) [ ok n ↦ give n | err e ↦ fail e ]

-- The readers of one depth.
pub record Readers : Type 1 where
  pub read_section : Reader Section
  pub read_array : ℕ → Reader Value
  pub read_value : ℕ → Reader Value

abbrev pub deeper_array : (ℕ → Reader Value) → ℕ → Reader Value
deeper_array read_array inner = if ltb inner 0x80 then fail bad_array else read_array (inner - 0x80)

-- `value`, where sections and arrays are those of the next depth.
unfoldable pub value_of : Reader Section → (ℕ → Reader Value) → ℕ → Reader Value
unfolding and_then give fail word count read_bytes
value_of read_section read_array t =
    if t == 1
    then and_then (word 8) (λ v. give (i64 v))
    else if t == 2
    then and_then (word 4) (λ v. give (i32 v))
    else if t == 3
    then and_then (word 2) (λ v. give (i16 v))
    else if t == 4
    then and_then (word 1) (λ v. give (i8 v))
    else if t == 5
    then and_then (word 8) (λ v. give (u64 v))
    else if t == 6
    then and_then (word 4) (λ v. give (u32 v))
    else if t == 7
    then and_then (word 2) (λ v. give (u16 v))
    else if t == 8
    then and_then (word 1) (λ v. give (u8 v))
    else if t == 9
    then and_then (word 8) (λ v. give (f64 v))
    else if t == 10
    then and_then (count 1) (λ n. and_then (read_bytes n) (λ b. give (bytes b)))
    else if t == 11
    then and_then (word 1) (λ v. give (bool (not (v == 0))))
    else if t == 12
    then and_then read_section (λ s. give (section s))
    else if t == 13
    then and_then (word 1) (λ inner. deeper_array read_array inner)
    else fail (unknown_type t)

-- The elements of an array, one behind the other.
unfoldable pub elements : Reader Value → ℕ → Reader Values
unfolding and_then give
elements r zero = give no_values
elements r (suc n) = and_then r (λ v. and_then (elements r n) (λ vs. give (value v vs)))

-- `array`, whose elements are values of the next depth.
unfoldable pub array_of : (ℕ → Reader Value) → ℕ → Reader Value
unfolding and_then give size_of count elements
array_of read_value elem = and_then (size_of elem) (λ least.
    and_then (count least) (λ n. and_then (elements (read_value elem) n) (λ vs. give (array vs))))

unfoldable pub entry_of : (ℕ → Reader Value) → (ℕ → Reader Value) → Reader Value
unfolding and_then word
entry_of read_array read_value =
    and_then (word 1) (λ t. if ltb t 0x80 then read_value t else read_array (t - 0x80))

-- The entries of a section, put into what was read before them.
unfoldable pub entries : Reader Value → ℕ → Section → Reader Section
unfolding and_then give word read_bytes utf8 insert
entries read_entry zero out = give out
entries read_entry (suc n) out = and_then (word 1) (λ size. and_then (read_bytes size) (λ name.
    and_then (utf8 name)
      (λ name. and_then read_entry (λ v. entries read_entry n (insert name v out)))))

unfoldable pub section_of : Reader Value → Reader Section
unfolding and_then count entries
section_of read_entry = and_then (count 2) (λ n. entries read_entry n no_entries)

unfoldable pub readers : ℕ → Readers
unfolding value_of array_of entry_of section_of fail
readers zero = record {
  read_section = fail too_deep;
  read_array = λ elem. fail too_deep;
  read_value = value_of (fail too_deep) (λ elem. fail too_deep);
}
readers (suc left) =
    let next = readers left in
    let read_value = value_of next.read_section next.read_array in
    let read_array = array_of next.read_value in
    record {
      read_section = section_of (entry_of read_array read_value);
      read_array = read_array;
      read_value = read_value;
    }

-- `cur.section(0)`: the depths 0 to `MAX_DEPTH` are left.
unfoldable pub root : Reader Section
unfolding readers
root = (readers (max_depth + 1)).read_section

unfoldable pub check_version : ℕ → Reader (Unit {0})
unfolding give fail
check_version v = if not (v == 1) then fail (version v) else give tt

-- The second word of the signature, and what follows it.
unfoldable pub after_first : Reader Section
unfolding and_then word fail check_version root
after_first = and_then (word 4) (λ b.
    if not (b == signature_b)
    then fail signature
    else and_then (word 1) (λ v. and_then (check_version v) (λ _. root)))

-- The body up to the end of its root section. (`||` reads the second word only where the first is
-- right.)
unfoldable pub body : Reader Section
unfolding and_then word fail after_first
body = and_then (word 4) (λ a. if not (a == signature_a) then fail signature else after_first)

unfoldable pub ended : Section × List ℕ → Result Error Section
ended (s, []) = ok s
ended (s, b ∷ bs) = err trailing

unfoldable pub parse : List ℕ → Result Error Section
unfolding body ended
parse input = elim (body input) [ ok r ↦ ended r | err e ↦ err e ]
