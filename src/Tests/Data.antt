-- ===== src/Tests/Data.antt =====
-- A chain of three records, and what the tests say of it.
use mnr.Common.{
  ℕ, zero, suc, ◌<◌, refl, List, [], ◌∷◌, ◌++◌, replicate, All, All-append, arith, some,
}
use mnr.Common.Bytes.{IsByte, IsBytes, le_bytes, le_bytes-IsBytes}
use mnr.HeaderChain.Store.{Hash, IsHash, zero_hash, Entry, IsEntry, HeaderChain}
use mnr.HeaderChain.Linkage.{IsLinked}
use mnr.Verify.Quorum.{QuorumTip}
use mnr.Chain.Sync.{Disk, IsReliable, ChainStore}
use mnr.Chain.Opening.{opened}
use mnr.HeaderChain.Codec.{to_bytes, entry_to_bytes, records, file_header, magic}
use mnr.Chain.Kept.{IsStored}
use mnr.Common.{take}

abbrev pub hash_of : ℕ → Hash
hash_of k = replicate 32 k

abbrev pub genesis : Entry
genesis = record { height = 0; hash = hash_of 1; prev_hash = zero_hash; timestamp = 100 }

abbrev pub first : Entry
first = record { height = 1; hash = hash_of 2; prev_hash = hash_of 1; timestamp = 110 }

abbrev pub second : Entry
second = record { height = 2; hash = hash_of 3; prev_hash = hash_of 2; timestamp = 120 }

-- Another record upon the first one.
abbrev pub other : Entry
other = record { height = 2; hash = hash_of 9; prev_hash = hash_of 2; timestamp = 125 }

abbrev pub three : HeaderChain
three = record { entries = genesis ∷ first ∷ second ∷ [] }

abbrev pub two : HeaderChain
two = record { entries = genesis ∷ first ∷ [] }

pub three-IsLinked : IsLinked three
three-IsLinked = (refl, refl, (refl, refl, (refl, refl, tt)))

pub two-IsLinked : IsLinked two
two-IsLinked = (refl, refl, (refl, refl, tt))

replicate-IsBytes : (n k : ℕ) → k < 256 → IsBytes (replicate n k)
replicate-IsBytes zero k h = tt
replicate-IsBytes (suc n) k h = (h, replicate-IsBytes n k h)

hash_of-IsHash : (k : ℕ) → k < 256 → IsHash (hash_of k)
hash_of-IsHash k h = (refl, replicate-IsBytes 32 k h)

entry_lem :
    (height hash prev time : ℕ)
    → height < 256
    → hash < 256
    → prev < 256
    → time < 256
    → IsEntry (record {
      height = height;
      hash = hash_of hash;
      prev_hash = hash_of prev;
      timestamp = time;
    })
entry_lem height hash prev time a b c d = record {
  height_fits = omega arith;
  hash_fits = hash_of-IsHash hash b;
  prev_fits = hash_of-IsHash prev c;
  time_fits = omega arith;
}

pub three-IsEntry : All IsEntry three.entries
three-IsEntry = (
  entry_lem 0 1 0 100 (omega arith) (omega arith) (omega arith) (omega arith),
  (
    entry_lem 1 2 1 110 (omega arith) (omega arith) (omega arith) (omega arith),
    (entry_lem 2 3 2 120 (omega arith) (omega arith) (omega arith) (omega arith), tt),
  ),
)

pub two-IsEntry : All IsEntry two.entries
two-IsEntry = (three-IsEntry.0, (three-IsEntry.1.0, tt))

entry-IsBytes : (e : Entry) → IsEntry e → IsBytes (entry_to_bytes e)
unfolding entry_to_bytes
entry-IsBytes e v = All-append IsByte (le_bytes 8 e.height) _ (le_bytes-IsBytes 8 e.height) (
    All-append IsByte e.hash _ v.hash_fits.1
      (All-append IsByte e.prev_hash _ v.prev_fits.1 (le_bytes-IsBytes 8 e.timestamp)))

records-IsBytes : (es : List Entry) → All IsEntry es → IsBytes (records es)
unfolding records
records-IsBytes [] v = tt
records-IsBytes (e ∷ es) v =
    All-append IsByte (entry_to_bytes e) _ (entry-IsBytes e v.0) (records-IsBytes es v.1)

file_header-IsBytes : IsBytes file_header
unfolding file_header
file_header-IsBytes =
    All-append IsByte magic _ (omega arith, (omega arith, (omega arith, (omega arith, tt))))
      (All-append IsByte (le_bytes 4 1) _ (le_bytes-IsBytes 4 1)
        (omega arith, replicate-IsBytes 7 0 (omega arith)))

pub to_bytes-IsBytes : (c : HeaderChain) → All IsEntry c.entries → IsBytes (to_bytes c)
unfolding to_bytes
to_bytes-IsBytes c v =
    All-append IsByte file_header _ file_header-IsBytes (records-IsBytes c.entries v)

pub other-IsEntry : All IsEntry (other ∷ [])
other-IsEntry = (entry_lem 2 9 2 125 (omega arith) (omega arith) (omega arith) (omega arith), tt)

-- A disk that does what it is told.
abbrev pub good_disk : Disk
good_disk = record { write_end = λ file bytes. file ++ bytes; set_len = λ file n. take n file }

pub good_disk-IsReliable : IsReliable good_disk
good_disk-IsReliable = record { writes = λ file bytes. refl; cuts = λ file n h. refl }

-- The store of a chain with its file.
abbrev pub stored : HeaderChain → ChainStore
stored c = opened c 7 (some (to_bytes c))

pub stored-IsStored : (c : HeaderChain) → IsLinked c → All IsEntry c.entries → IsStored (stored c)
stored-IsStored c l v = record { linked = l; valid = v; kept = refl }

abbrev pub quorum_at_second : QuorumTip
quorum_at_second = record { height = 2; hash = hash_of 3; agreeing = 4 ∷ 5 ∷ [] }
