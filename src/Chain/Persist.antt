-- ===== src/Chain/Persist.antt =====
-- The file always holds the bytes of the chain in memory.
use mnr.Common.{
  ℕ, ◌+◌, ◌≤◌, ◌^◌, inl, inr, min, Option, none, some, List, length, All, Option-cases, arith,
  Bool-cases, length-take, saturating_add, get_last?, ltb,
}
use mnr.HeaderChain.Store.{Entry, IsEntry, truncate, tip, fork_point}
use mnr.Verify.Quorum.{QuorumTip}
use mnr.Chain.Sync.{
  Disk, IsReliable, ChainStore, from_height, after_fork, persist_truncate, cut_back, leave_fork,
  merge_at, merge_from, merge, initial_window, merge_fetched, step, Fetch, range_start, is_reached,
}
use mnr.Chain.Appending.{All-from_height, length-from_height-le}
use mnr.Chain.Kept.{IsStored, cut_back-IsStored, no_fork_point-IsStored, extend-IsStored}

module _ (d : Disk) (r : IsReliable d) where
  leave_fork-IsStored :
      (s : ChainStore) (f : Option ℕ) (t : Option Entry)
      → IsStored s
      → IsStored (leave_fork d s f t)
  unfolding leave_fork
  leave_fork-IsStored s none t i = i
  leave_fork-IsStored s (some f) none i = i
  leave_fork-IsStored s (some f) (some t) i = elim (Bool-cases (ltb f t.height)) [
    | inl y ↦ rw y (cut_back-IsStored d r s f i)
    | inr n ↦ rw n i
  ]

  length-leave_fork-le :
      (s : ChainStore) (f : Option ℕ) (t : Option Entry)
      → length (leave_fork d s f t).chain.entries ≤ length s.chain.entries
  unfolding leave_fork
  length-leave_fork-le s none t = omega arith
  length-leave_fork-le s (some f) none = omega arith
  length-leave_fork-le s (some f) (some t) = elim (Bool-cases (ltb f t.height)) [
    | inl y ↦ rw y (
        unfold cut_back persist_truncate truncate in
        omega
          (arith, length-take (min (saturating_add f 1) (length s.chain.entries)) s.chain.entries))
    | inr n ↦ rw n (omega arith)
  ]

  merge_at-IsStored :
      (s : ChainStore) (es : List Entry) (last : Entry) (f : Option ℕ) (t : Option Entry)
      (q : QuorumTip)
      → IsStored s
      → All IsEntry es
      → length s.chain.entries + length es ≤ 2 ^ 64
      → IsStored (merge_at d s es last f t q).0
  unfolding merge_at
  merge_at-IsStored s es last f t q i v fits =
      let reset : ChainStore = record s { window = initial_window } in
      let i' : IsStored reset = record { linked = i.linked; valid = i.valid; kept = i.kept } in
      extend-IsStored d r (leave_fork d reset f t) (from_height (after_fork f) es)
        (leave_fork-IsStored reset f t i') (All-from_height IsEntry (after_fork f) es v)
        (omega (arith, length-from_height-le (after_fork f) es, length-leave_fork-le reset f t))

  merge_from-IsStored :
      (s : ChainStore) (es : List Entry) (last : Entry) (start : ℕ) (t : Option Entry)
      (f : Option ℕ) (q : QuorumTip)
      → IsStored s
      → All IsEntry es
      → length s.chain.entries + length es ≤ 2 ^ 64
      → IsStored (merge_from d s es last start t f q).0
  unfolding merge_from
  merge_from-IsStored s es last start none f q i v fits =
      merge_at-IsStored s es last none none q i v fits
  merge_from-IsStored s es last start (some t) none q i v fits =
      no_fork_point-IsStored d r s start i
  merge_from-IsStored s es last start (some t) (some f) q i v fits =
      merge_at-IsStored s es last (some f) (some t) q i v fits

  -- Merging a run of records into a stored chain leaves a stored chain: linked, with every field in
  -- range, and the file equal to the bytes of the chain in memory. It holds for any run, whether it
  -- is appended, makes a reorg or has no fork point, on a disk that does what it is told and as
  -- long as the heights fit in a `u64`.
  pub merge-IsStored :
      (s : ChainStore) (es : List Entry) (start : ℕ) (t : Option Entry) (q : QuorumTip)
      → IsStored s
      → All IsEntry es
      → length s.chain.entries + length es ≤ 2 ^ 64
      → IsStored (merge d s es start t q).0
  unfolding merge
  merge-IsStored s es start t q i v fits = elim (Option-cases (get_last? es)) [
    | inl is ↦ rw (is, merge) i
    | inr (last, is) ↦
        rw (is, merge) (merge_from-IsStored s es last start t (fork_point s.chain es) q i v fits)
  ]

  -- What a step's other nodes may answer: records whose fields are in range, as many as a `u64`
  -- can number behind the chain's.
  abbrev pub IsFetched : ChainStore → Option (List Entry) → Type 0
  IsFetched s none = Unit
  IsFetched s (some es) = All IsEntry es × (length s.chain.entries + length es ≤ 2 ^ 64)

  merge_fetched-IsStored :
      (s : ChainStore) (start : ℕ) (q : QuorumTip) (o : Option (List Entry))
      → IsStored s
      → IsFetched s o
      → IsStored (merge_fetched d s start q o).0
  unfolding merge_fetched
  merge_fetched-IsStored s start q none i h = i
  merge_fetched-IsStored s start q (some es) i h =
      merge-IsStored s es start (tip s.chain) q i h.0 h.1

  -- A step keeps the chain linked, its fields in range and its file equal to the bytes of the chain,
  -- whatever the quorum is and whichever records the other nodes answer with, on a disk that does
  -- what it is told and as long as a `u64` can number the records.
  pub step-IsStored :
      (s : ChainStore) (q : Option QuorumTip) (batch : ℕ) (fetch : Fetch)
      → IsStored s
      → ((start end : ℕ) (q : QuorumTip) → IsFetched s (fetch start end q))
      → IsStored (step d s q batch fetch).0
  unfolding step
  step-IsStored s none batch fetch i h = i
  step-IsStored s (some q) batch fetch i h = elim (Bool-cases (is_reached s (tip s.chain) q)) [
    | inl y ↦ rw y i
    | inr n ↦ rw n (merge_fetched-IsStored s (range_start (tip s.chain) q s.window) q _ i (h _ _ q))
  ]
