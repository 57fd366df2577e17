-- ===== src/Chain/Opening.antt =====
-- crates/relay/src/chain.rs: `open`, the store at the start of the relay.
use Prim.Native.String.{String}
use mnr.Common.{
  ℕ, ◌-◌, ◌%◌, Bool, ◌&&◌, not, Option, none, some, List, [], ◌∷◌, length, take, ltb, ◌==◌,
  if◌then◌else◌, Result, ok, err,
}
use mnr.HeaderChain.Store.{HeaderChain, ChainError, empty}
use mnr.HeaderChain.Codec.{header_size, entry_size, to_bytes, from_bytes}
use mnr.Chain.Sync.{Disk, ChainStore, initial_window}

-- Whether the file ends in a part of a record.
unfoldable pub has_partial : List ℕ → Bool
has_partial bytes =
    ltb header_size (length bytes) && not ((length bytes - header_size) % entry_size == 0)

-- `open`: the chain in the file, whose partial last record is cut off first.
unfoldable pub drop_partial : Disk → List ℕ → List ℕ × List ℕ
unfolding has_partial
drop_partial d bytes =
    let keep = length bytes - (length bytes - header_size) % entry_size in
    if has_partial bytes then (take keep bytes, d.set_len bytes keep) else (bytes, bytes)

abbrev pub opened : HeaderChain → ℕ → Option (List ℕ) → ChainStore
opened c epoch file = record {
  chain = c;
  epoch = epoch;
  reorgs = 0;
  window = initial_window;
  file = file;
}

-- Why `open` fails: a call of the file system reports an error, or the file is corrupt.
pub data OpenError : Type 0 where
  io : String → OpenError
  invalid : ChainError → OpenError

-- What the calls report: `set_len` with `sync_data` of a cut, and the write of a new file.
pub record OpenCalls : Type 0 where
  pub cut : Result String (Unit {0})
  pub initialise : Result String (Unit {0})

-- `map_err` and `?`
abbrev pub reported : {A : Type 0} → Result String (Unit {0}) → A → Result OpenError A
reported (ok u) a = ok a
reported (err e) a = err (io e)

unfoldable pub open_bytes : Disk → OpenCalls → ℕ → List ℕ × List ℕ → Result OpenError ChainStore
open_bytes d calls epoch ([], file) =
    reported calls.initialise (opened empty epoch (some (d.write_end file (to_bytes empty))))
open_bytes d calls epoch (b ∷ bs, file) = elim (from_bytes (b ∷ bs)) [
  | ok c ↦ ok (opened c epoch (some file))
  | err e ↦ err (invalid e)
]

unfoldable pub cut_reported : OpenCalls → List ℕ → Result String (Unit {0})
unfolding has_partial
cut_reported calls bytes = if has_partial bytes then calls.cut else ok tt

-- `map_err(…)?` after the cut.
abbrev pub after_cut :
    Disk → OpenCalls → ℕ → List ℕ → Result String (Unit {0}) → Result OpenError ChainStore
after_cut d calls now bytes (ok u) = open_bytes d calls now (drop_partial d bytes)
after_cut d calls now bytes (err e) = err (io e)

-- The time at start is the first epoch; with no path the chain is kept in memory only. The file is
-- what opening and reading it gives.
unfoldable pub open_store :
    Disk → OpenCalls → ℕ → Option (Result String (List ℕ)) → Result OpenError ChainStore
unfolding drop_partial open_bytes cut_reported
open_store d calls now none = ok (opened empty now none)
open_store d calls now (some (err e)) = err (io e)
open_store d calls now (some (ok bytes)) = after_cut d calls now bytes (cut_reported calls bytes)
