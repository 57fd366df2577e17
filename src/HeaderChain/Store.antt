-- ===== src/HeaderChain/Store.antt =====
-- crates/core/src/headerchain.rs: the store of header records, with the errors of its operations.
use mnr.Common.{
  ℕ, ◌-◌, ◌<◌, ◌^◌, ◌≡◌, ◌↔◌, arith, Bool, true, not, Option, none, some, List, [], ◌∷◌, ◌++◌, min,
  length, get_elem?, get_last?, take, replicate, ◌==◌, if◌then◌else◌, is_yes, saturating_add,
  Result, ok, err,
}
use mnr.Common.Bytes.{IsBytes, bytes_discrete}
use mathlib.Core.Option

-- A `[u8; 32]`.
abbrev pub Hash : Type 0
Hash = List ℕ

abbrev pub zero_hash : Hash
zero_hash = replicate 32 0

-- `==` on hashes.
abbrev pub same : Hash → Hash → Bool
same a b = is_yes (bytes_discrete a b)

pub same_iff : (a b : Hash) → (same a b ≡ true) ↔ (a ≡ b)
same_iff a b = (λ h. ground arith, λ h. ground arith)

pub record Entry : Type 0 where
  pub height : ℕ
  pub hash : Hash
  pub prev_hash : Hash
  pub timestamp : ℕ

abbrev pub IsHash : Hash → Type 0
IsHash h = (length h ≡ 32) × IsBytes h

abbrev pub IsU64 : ℕ → Type 0
IsU64 n = n < 2 ^ 64

-- What the field types of `Entry` promise.
pub record IsEntry (e : Entry) : Type 0 where
  pub height_fits : IsU64 e.height
  pub hash_fits : IsHash e.hash
  pub prev_fits : IsHash e.prev_hash
  pub time_fits : IsU64 e.timestamp

-- `ChainError`; the text of a `Corrupt` is its message's kind with the values that it shows.
mutual
  pub data ChainError : Type 0 where
    height_gap : ℕ → ℕ → ChainError
    prev_mismatch : ℕ → ChainError
    bad_genesis : ChainError
    corrupt : Corruption → ChainError

  pub data Corruption : Type 0 where
    short_header bad_magic reserved_bytes : Corruption
    unsupported_version unsupported_network body_length : ℕ → Corruption
    invalid_record : ChainError → Corruption

pub record HeaderChain : Type 0 where
  pub entries : List Entry

-- `new`
abbrev pub empty : HeaderChain
empty = record { entries = [] }

unfoldable pub len : HeaderChain → ℕ
len c = length c.entries

unfoldable pub is_empty : HeaderChain → Bool
is_empty c = len c == 0

unfoldable pub tip : HeaderChain → Option Entry
tip c = get_last? c.entries

unfoldable pub get : HeaderChain → ℕ → Option Entry
get c height = get_elem? c.entries height

unfoldable pub hash_at : HeaderChain → ℕ → Option Hash
unfolding get
hash_at c height = Option.map (λ (e : Entry). e.hash) (get c height)

unfoldable pub push : HeaderChain → Entry → HeaderChain
push c e = record { entries = c.entries ++ e ∷ [] }

-- The checks of `append` against the last record.
unfoldable pub append_after : HeaderChain → Entry → Option Entry → Result ChainError HeaderChain
append_after c e none =
    if not (e.height == 0)
    then err (height_gap 0 e.height)
    else if not (same e.prev_hash zero_hash)
    then err bad_genesis
    else ok (push c e)
append_after c e (some t) =
    let expected = saturating_add t.height 1 in
    if not (e.height == expected)
    then err (height_gap expected e.height)
    else if not (same e.prev_hash t.hash)
    then err (prev_mismatch e.height)
    else ok (push c e)

-- On an error the chain stays as it was.
unfoldable pub append : HeaderChain → Entry → Result ChainError HeaderChain
unfolding append_after push
append c e = append_after c e (get_last? c.entries)

-- The chain, and how many records were dropped.
unfoldable pub truncate : HeaderChain → ℕ → HeaderChain × ℕ
truncate c height =
    let keep = min (saturating_add height 1) (length c.entries) in
    (record { entries = take keep c.entries }, length c.entries - keep)

unfoldable pub fork_update : Entry → Option ℕ → Option Hash → Option ℕ
fork_update e highest none = highest
fork_update e highest (some h) = if same h e.hash then some e.height else highest

-- The loop of `fork_point`.
unfoldable pub fork_scan : HeaderChain → List Entry → Option ℕ → Option ℕ
unfolding fork_update
fork_scan c [] highest = highest
fork_scan c (e ∷ es) highest = fork_scan c es (fork_update e highest (hash_at c e.height))

unfoldable pub fork_point : HeaderChain → List Entry → Option ℕ
unfolding fork_scan
fork_point c candidate = fork_scan c candidate none

unfoldable pub safety_line : HeaderChain → ℕ → Option ℕ
unfolding tip
safety_line c depth = Option.map (λ (t : Entry). t.height - depth) (tip c)
