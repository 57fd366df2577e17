-- ===== src/HeaderChain/Codec.antt =====
-- crates/core/src/headerchain.rs: the byte format of a record and of a whole chain.
use mnr.Common.{
  ℕ, zero, suc, ◌-◌, ◌/◌, ◌%◌, Bool, false, not, ◌||◌, List, [], ◌∷◌, ◌++◌, length, take, drop,
  replicate, ltb, ◌==◌, if◌then◌else◌, Result, ok, err, ◌>>=◌, map_err,
}
use mnr.Common.Bytes.{le_bytes, from_le}
use mnr.HeaderChain.Store.{
  Entry, HeaderChain, ChainError, corrupt, short_header, bad_magic, reserved_bytes,
  unsupported_version, unsupported_network, body_length, invalid_record, empty, same, append,
}

-- The bytes of `xs[from..to]`.
abbrev pub slice : List ℕ → ℕ → ℕ → List ℕ
slice xs from to = take (to - from) (drop from xs)

-- "mnrh"
abbrev pub magic : List ℕ
magic = b'm' ∷ b'n' ∷ b'r' ∷ b'h' ∷ []

abbrev pub format_version : ℕ
format_version = 1

abbrev pub network_id_mainnet : ℕ
network_id_mainnet = 0

abbrev pub header_size : ℕ
header_size = 16

abbrev pub entry_size : ℕ
entry_size = 80

-- `Entry::to_bytes`: the four fields side by side, which fill the 80 bytes.
unfoldable pub entry_to_bytes : Entry → List ℕ
entry_to_bytes e = le_bytes 8 e.height ++ (e.hash ++ (e.prev_hash ++ le_bytes 8 e.timestamp))

-- `Entry::from_bytes`
unfoldable pub entry_from_bytes : List ℕ → Entry
entry_from_bytes raw = record {
  height = from_le (slice raw 0 8);
  hash = slice raw 8 40;
  prev_hash = slice raw 40 72;
  timestamp = from_le (slice raw 72 80);
}

-- The 16 bytes before the records.
unfoldable pub file_header : List ℕ
file_header = magic ++ (le_bytes 4 format_version ++ (network_id_mainnet ∷ replicate 7 0))

unfoldable pub records : List Entry → List ℕ
records [] = []
records (e ∷ es) = entry_to_bytes e ++ records es

unfoldable pub to_bytes : HeaderChain → List ℕ
to_bytes c = file_header ++ records c.entries

-- `iter().any(|&b| b != 0)`
unfoldable pub any_nonzero : List ℕ → Bool
any_nonzero [] = false
any_nonzero (b ∷ bs) = not (b == 0) || any_nonzero bs

-- `data[i]`; `from_bytes` reads it only where the length is checked.
unfoldable pub byte_at : List ℕ → ℕ → ℕ
byte_at [] i = 0
byte_at (b ∷ bs) zero = b
byte_at (b ∷ bs) (suc i) = byte_at bs i

-- The loop over the body's chunks.
unfoldable pub load : ℕ → List ℕ → HeaderChain → Result ChainError HeaderChain
load zero body c = ok c
load (suc n) body c =
    map_err (λ e. corrupt (invalid_record e)) (append c (entry_from_bytes (take entry_size body)))
    >>= λ c'. load n (drop entry_size body) c'

-- What stands behind the header's checks.
unfoldable pub load_body : List ℕ → Result ChainError HeaderChain
load_body body =
    if not (length body % entry_size == 0)
    then err (corrupt (body_length (length body)))
    else load (length body / entry_size) body empty

unfoldable pub from_bytes : List ℕ → Result ChainError HeaderChain
from_bytes bytes =
    let version = from_le (slice bytes 4 8) in
    if ltb (length bytes) header_size
    then err (corrupt short_header)
    else if not (same (slice bytes 0 4) magic)
    then err (corrupt bad_magic)
    else if not (version == format_version)
    then err (corrupt (unsupported_version version))
    else if not (byte_at bytes 8 == network_id_mainnet)
    then err (corrupt (unsupported_network (byte_at bytes 8)))
    else if any_nonzero (slice bytes 9 header_size)
    then err (corrupt reserved_bytes)
    else load_body (drop header_size bytes)
