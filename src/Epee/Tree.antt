-- ===== src/Epee/Tree.antt =====
-- What is parsed: values, sections ordered by name, and the errors.
use mnr.Common.{
  ℕ, ◌-◌, ◌^◌, Bool, true, false, ◌||◌, ◌&&◌, not, Option, none, some, List, [], ◌∷◌, ltb, ◌==◌,
  if◌then◌else◌,
}
use mnr.HeaderChain.Store.{same}

-- `Value`. A signed integer is held as its two's complement, a float as its bits.
mutual
  pub data Value : Type 0 where
    i64 i32 i16 i8 u64 u32 u16 u8 f64 : ℕ → Value
    bool : Bool → Value
    bytes : List ℕ → Value
    array : Values → Value
    section : Section → Value

  pub data Values : Type 0 where
    no_values : Values
    value : Value → Values → Values

  -- `BTreeMap<String, Value>`, in the order of the names.
  pub data Section : Type 0 where
    no_entries : Section
    entry : List ℕ → Value → Section → Section

pub data Error : Type 0 where
  signature truncated bad_name bad_array too_deep trailing : Error
  version unknown_type : ℕ → Error

-- The order of names: byte by byte.
unfoldable pub before : List ℕ → List ℕ → Bool
before [] [] = false
before [] (b ∷ bs) = true
before (a ∷ as_) [] = false
before (a ∷ as_) (b ∷ bs) = ltb a b || (a == b && before as_ bs)

-- `BTreeMap::insert`: a name that is there gets the new value.
unfoldable pub insert : List ℕ → Value → Section → Section
unfolding before
insert name v no_entries = entry name v no_entries
insert name v (entry other w s) =
    if before name other
    then entry name v (entry other w s)
    else if same name other
    then entry name v s
    else entry other w (insert name v s)

unfoldable pub find : Section → List ℕ → Option Value
find no_entries name = none
find (entry other v s) name = if same other name then some v else find s name

-- `u64::try_from` of a signed number of so many bits.
abbrev pub unsigned : ℕ → ℕ → Option ℕ
unsigned bits v = if ltb v (2 ^ (bits - 1)) then some v else none

unfoldable pub as_u64 : Value → Option ℕ
as_u64 (u64 v) = some v
as_u64 (u32 v) = some v
as_u64 (u16 v) = some v
as_u64 (u8 v) = some v
as_u64 (i64 v) = unsigned 64 v
as_u64 (i32 v) = unsigned 32 v
as_u64 (i16 v) = unsigned 16 v
as_u64 (i8 v) = unsigned 8 v
as_u64 (f64 v) = none
as_u64 (bool b) = none
as_u64 (bytes b) = none
as_u64 (array vs) = none
as_u64 (section s) = none

-- `drop.contains(&k.as_str())`
unfoldable pub is_dropped : List (List ℕ) → List ℕ → Bool
is_dropped [] name = false
is_dropped (d ∷ ds) name = same d name || is_dropped ds name

unfoldable pub canonical : Section → List (List ℕ) → Section
unfolding is_dropped
canonical no_entries drop = no_entries
canonical (entry name v s) drop =
    if not (is_dropped drop name) then entry name v (canonical s drop) else canonical s drop
