-- ===== src/Chain/Sync.antt =====
-- crates/relay/src/chain.rs: the state of the chain store, and the steps that change it.
use mnr.Common.{
  ℕ, ◌+◌, ◌-◌, ◌*◌, ◌%◌, ◌^◌, ◌≤◌, ◌≡◌, min, Bool, false, ◌&&◌, Option, none, some, List, [], ◌∷◌,
  ◌++◌, length, get_last?, take, ltb, leb, ◌==◌, if◌then◌else◌, saturating_add, ok, err,
}
use mnr.HeaderChain.Store.{
  Hash, same, Entry, HeaderChain, empty, len, tip, hash_at, append, truncate, fork_point,
}
use mnr.HeaderChain.Codec.{header_size, entry_size, records}
use mnr.Verify.Quorum.{QuorumTip}
use mathlib.Core.Option

abbrev pub initial_window : ℕ
initial_window = 20

abbrev pub max_window : ℕ
max_window = 1000

-- The file system: what a file holds after a write at its end, and after `set_len`. A step only logs
-- the error that such a call may report; `open` returns it (`OpenCalls`).
pub record Disk : Type 0 where
  pub write_end : List ℕ → List ℕ → List ℕ
  pub set_len : List ℕ → ℕ → List ℕ

-- A disk that does what it is told, whether or not the call reports an error.
pub record IsReliable (d : Disk) : Type 0 where
  pub writes : (file bytes : List ℕ) → d.write_end file bytes ≡ file ++ bytes
  pub cuts : (file : List ℕ) (n : ℕ) → n ≤ length file → d.set_len file n ≡ take n file

pub record ChainStore : Type 0 where
  pub chain : HeaderChain
  pub epoch : ℕ
  pub reorgs : ℕ
  pub window : ℕ
  pub file : Option (List ℕ)

pub data Step : Type 0 where
  built idle retry : Step

-- `fetch_add(1)` on a u64.
abbrev pub bump : ℕ → ℕ
bump n = (n + 1) % 2 ^ 64

-- What a new cache epoch and reorg count record.
abbrev pub count_reorg : ChainStore → ChainStore
count_reorg s = record s { epoch = bump s.epoch; reorgs = bump s.reorgs }

-- `for e in candidate … if let Err(_) = chain.append(e) { break; } appended.push(e)`
unfoldable pub append_all : HeaderChain → List Entry → HeaderChain × List Entry
append_all c [] = (c, [])
append_all c (e ∷ es) = elim (append c e) [
  | ok c' ↦ let (end, appended) = append_all c' es in (end, e ∷ appended)
  | err _ ↦ (c, [])
]

-- `into_iter().filter(|e| e.height >= from)`
unfoldable pub from_height : ℕ → List Entry → List Entry
from_height from [] = []
from_height from (e ∷ es) =
    if leb from e.height then e ∷ from_height from es else from_height from es

-- `fork.map_or(0, |f| f + 1)`
abbrev pub after_fork : Option ℕ → ℕ
after_fork none = 0
after_fork (some f) = f + 1

module _ (d : Disk) where
  unfoldable pub persist_append : ChainStore → List Entry → ChainStore
  persist_append s [] = s
  persist_append s (e ∷ es) = record s {
    file = Option.map (λ f. d.write_end f (records (e ∷ es))) s.file;
  }

  unfoldable pub persist_truncate : ChainStore → ℕ → ChainStore
  persist_truncate s n = record s {
    file = Option.map (λ f. d.set_len f (header_size + n * entry_size)) s.file;
  }

  -- The chain cut to a height, with its file and a new epoch.
  unfoldable pub cut_back : ChainStore → ℕ → ChainStore
  unfolding persist_truncate
  cut_back s height =
      let c = (truncate s.chain height).0 in
      count_reorg (persist_truncate (record s { chain = c }) (len c))

  -- What is held above the fork point is on a chain that the quorum left.
  unfoldable pub leave_fork : ChainStore → Option ℕ → Option Entry → ChainStore
  unfolding cut_back
  leave_fork s (some f) (some t) = if ltb f t.height then cut_back s f else s
  leave_fork s (some f) none = s
  leave_fork s none t = s

  unfoldable pub no_fork_point : ChainStore → ℕ → ChainStore
  unfolding cut_back persist_truncate
  no_fork_point s start =
      if start == 0
      then record (count_reorg (persist_truncate (record s { chain = empty }) 0)) {
        window = initial_window;
      }
      else if ltb s.window max_window
      then record s { window = min (s.window * 2) max_window }
      else cut_back s
          (Option.get_or (Option.map (λ (t : Entry). t.height) (tip s.chain)) 0 - max_window)

  -- The new records behind the fork point, in memory and on disk.
  unfoldable pub extend : ChainStore → List Entry → ChainStore × List Entry
  unfolding append_all persist_append
  extend s es =
      let (c, appended) = append_all s.chain es in
      (persist_append (record s { chain = c }) appended, appended)

  abbrev pub outcome : ℕ → List Entry → ℕ → ℕ → Step
  outcome last appended from goal =
      if (length appended == 0) && leb last from
      then idle
      else if ltb last goal
      then built
      else idle

  -- `merge` once the fork point is known.
  unfoldable pub merge_at :
      ChainStore → List Entry → Entry → Option ℕ → Option Entry → QuorumTip → ChainStore × Step
  unfolding leave_fork extend from_height
  merge_at s candidate last fork t q =
      let from = after_fork fork in
      let (s', appended) =
        extend (leave_fork (record s { window = initial_window }) fork t)
          (from_height from candidate) in
      (s', outcome last.height appended from q.height)

  unfoldable pub merge_from :
      ChainStore → List Entry → Entry → ℕ → Option Entry → Option ℕ → QuorumTip → ChainStore × Step
  unfolding merge_at no_fork_point
  merge_from s candidate last start none fork q = merge_at s candidate last none none q
  merge_from s candidate last start (some t) none q = (no_fork_point s start, retry)
  merge_from s candidate last start (some t) (some f) q =
      merge_at s candidate last (some f) (some t) q

  unfoldable pub merge : ChainStore → List Entry → ℕ → Option Entry → QuorumTip → ChainStore × Step
  unfolding merge_from
  merge s candidate start t q = elim (get_last? candidate) [
    | none ↦ (s, retry)
    | some last ↦ merge_from s candidate last start t (fork_point s.chain candidate) q
  ]

-- The range that a step asks for: from the search window below the tip, at most `batch` records.
-- (`batch` is at least 1: the configuration refuses 0.)
abbrev pub range_start : Option Entry → QuorumTip → ℕ → ℕ
range_start none q window = 0
range_start (some t) q window = (min t.height q.height + 1) % 2 ^ 64 - window

abbrev pub range_end : ℕ → ℕ → QuorumTip → ℕ
range_end start batch q = min (saturating_add start (batch - 1)) q.height

-- The quorum tip is on our chain.
abbrev pub hash_is : Option Hash → Hash → Bool
hash_is none h = false
hash_is (some g) h = same g h

abbrev pub is_reached : ChainStore → Option Entry → QuorumTip → Bool
is_reached s none q = false
is_reached s (some t) q = leb q.height t.height && hash_is (hash_at s.chain q.height) q.hash

-- What other nodes answer for a range, once they agree (`fetch_agreed`).
abbrev pub Fetch : Type 0
Fetch = ℕ → ℕ → QuorumTip → Option (List Entry)

unfoldable pub merge_fetched :
    Disk → ChainStore → ℕ → QuorumTip → Option (List Entry) → ChainStore × Step
merge_fetched d s start q none = (s, retry)
merge_fetched d s start q (some candidate) = merge d s candidate start (tip s.chain) q

unfoldable pub step : Disk → ChainStore → Option QuorumTip → ℕ → Fetch → ChainStore × Step
unfolding merge_fetched
step d s none batch fetch = (s, retry)
step d s (some q) batch fetch =
    let start = range_start (tip s.chain) q s.window in
    if is_reached s (tip s.chain) q
    then (s, idle)
    else merge_fetched d s start q (fetch start (range_end start batch q) q)
