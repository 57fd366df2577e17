-- ===== src/Tests/Store.antt =====
-- The chain store's theorems on small chains.
use mnr.Common.{
  ℕ, ◌+◌, ◌-◌, ◌<◌, ◌≤◌, ◌≡◌, refl, min, Option, none, some, [], ◌∷◌, ◌++◌, length, take, arith, ok,
  ap,
}
use mnr.Common.Bytes.{bytes_discrete}
use mnr.HeaderChain.Store.{
  Hash, len, tip, get, hash_at, fork_point, fork_scan, fork_update, append, append_after, push,
}
use mnr.HeaderChain.Codec.{to_bytes}
use mnr.HeaderChain.Fork.{Agrees, LastAgreement}
use mnr.Chain.Opening.{OpenCalls, opened, open_store}
use mnr.Chain.Sync.{
  ChainStore, bump, Fetch, merge, step, no_fork_point, range_start, append_all, from_height,
  merge_fetched, merge_from, merge_at, leave_fork, extend, persist_append,
}
use mnr.Chain.Kept.{IsStored}
use mnr.Chain.Persist.{step-IsStored}
use mnr.Chain.Epoch.{Extends, Run, start, next, epoch-Run, hash_at-Run}
use mnr.Chain.Reorg.{merge_agreed}
use mnr.Chain.Follow.{truthful, step_follows, small_batch_cuts}
use mnr.Chain.Search.{left_to_search, no_fork_point_shrinks}
use mnr.Chain.Reopen.{IsReopened, open_store-to_bytes}
use mnr.Tests.Data.{
  hash_of, first, second, other, two, three, two-IsLinked, three-IsLinked, two-IsEntry,
  three-IsEntry, good_disk, good_disk-IsReliable, stored, stored-IsStored, quorum_at_second,
}

-- Other nodes that always answer with one record.
abbrev answer_second : Fetch
answer_second s e q = some (second ∷ [])

step-IsStored_example :
    IsStored (step good_disk (stored two) (some quorum_at_second) 1000 answer_second).0
step-IsStored_example =
    step-IsStored good_disk good_disk-IsReliable (stored two) (some quorum_at_second) 1000
      answer_second (stored-IsStored two two-IsLinked two-IsEntry)
      (λ s e q. ((three-IsEntry.1.1.0, tt), omega arith))

-- Two steps that reach the quorum tip.
abbrev once : ChainStore
once = (step good_disk (stored two) (some quorum_at_second) 1000 (truthful three.entries)).0

abbrev twice : ChainStore
twice = (step good_disk once (some quorum_at_second) 1000 (truthful three.entries)).0

two_steps : Run good_disk (0 + 1 + 1) (stored two) twice
two_steps =
    next (some quorum_at_second) 1000 (truthful three.entries)
      (next (some quorum_at_second) 1000 (truthful three.entries) start)

epoch-Run_example :
    (7 ≤ twice.epoch)
    × (twice.epoch ≤ 7 + (0 + 1 + 1))
    × (twice.epoch ≡ 7 → Extends two twice.chain)
epoch-Run_example = epoch-Run good_disk (0 + 1 + 1) (stored two) twice two_steps (omega arith)

same_epoch : twice.epoch ≡ 7
unfolding step merge_fetched merge merge_from merge_at no_fork_point leave_fork extend
    persist_append append_all append append_after push from_height fork_point fork_scan fork_update
    hash_at get tip bytes_discrete
same_epoch = refl

hash_at-Run_example : hash_at twice.chain 1 ≡ some (hash_of 2)
hash_at-Run_example =
    hash_at-Run good_disk (0 + 1 + 1) (stored two) twice 1 (hash_of 2) two_steps (omega arith)
      same_epoch (unfold hash_at get in refl)

-- A reorg of the last record.
abbrev first_byte : Option Hash → ℕ
first_byte none = 0
first_byte (some []) = 0
first_byte (some (b ∷ bs)) = b

parted : ¬ Agrees three other
unfolding hash_at get
parted h = omega (arith, ap first_byte h)

abbrev last_agreed :
    LastAgreement three (first ∷ other ∷ []) (fork_point three (first ∷ other ∷ []))
last_agreed = record {
  before = [];
  at = first;
  behind = other ∷ [];
  is_split = refl;
  agrees = unfold hash_at get in refl;
  differ = (parted, tt);
  is_found = unfold fork_point fork_scan fork_update hash_at get bytes_discrete in refl;
}

merge_agreed_example :
    (merge good_disk
      (stored three)
      (first ∷ other ∷ [])
      0
      (tip (stored three).chain)
      quorum_at_second).0.chain
    ≡ record { entries = take (last_agreed.at.height + 1) three.entries ++ other ∷ [] }
merge_agreed_example =
    merge_agreed good_disk (stored three) (first ∷ other ∷ []) 0 quorum_at_second 1 (hash_of 1)
      three-IsLinked (refl, refl, (refl, refl, tt)) (omega arith) last_agreed

step_follows_example :
    (step good_disk (stored two) (some quorum_at_second) 1000 (truthful three.entries)).0.chain
    ≡ record { entries = take (min (2 - 20 + 1000) (length three.entries)) three.entries }
step_follows_example =
    step_follows good_disk (stored two) three.entries 2 1000 quorum_at_second three-IsLinked refl
      (omega arith) (omega arith) (omega arith) (omega arith) (omega arith, omega arith)

small_batch_cuts_example :
    (len (step good_disk (stored two) (some quorum_at_second) 1 (truthful three.entries)).0.chain
      < 2)
    × ((step good_disk (stored two) (some quorum_at_second) 1 (truthful three.entries)).0.epoch
        ≡ bump 7)
    × ((step good_disk (stored two) (some quorum_at_second) 1 (truthful three.entries)).0.reorgs
        ≡ bump 0)
small_batch_cuts_example =
    small_batch_cuts good_disk (stored two) three.entries 2 1 quorum_at_second three-IsLinked refl
      (omega arith) (omega arith) (omega arith) (omega arith) (omega arith)

no_fork_point_shrinks_example :
    let s' =
      no_fork_point good_disk (stored three) (range_start (some second) quorum_at_second 20) in
    (left_to_search s' < left_to_search (stored three)) × (1 ≤ s'.window) × (s'.window ≤ 1000)
no_fork_point_shrinks_example =
    no_fork_point_shrinks good_disk (stored three) second quorum_at_second three-IsLinked
      (unfold tip in refl) (omega arith) (omega arith, omega arith)

-- A cut that succeeds.
abbrev quiet : OpenCalls
quiet = record { cut = ok tt; initialise = ok tt }

open_store-to_bytes_example :
    IsReopened quiet
      (1 ∷ 2 ∷ [])
      (opened two 9 (some (to_bytes two)))
      (open_store good_disk quiet 9 (some (ok (to_bytes two ++ 1 ∷ 2 ∷ []))))
open_store-to_bytes_example =
    open_store-to_bytes good_disk quiet 9 two (1 ∷ 2 ∷ []) good_disk-IsReliable two-IsLinked
      two-IsEntry (omega arith) (omega arith)
