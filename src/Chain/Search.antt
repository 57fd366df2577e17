-- ===== src/Chain/Search.antt =====
-- The search for a fork point ends: each failure to find one leaves less to search.
use mnr.Common.{
  ℕ, ◌+◌, ◌-◌, ◌*◌, ◌≤◌, ◌<◌, ◌^◌, ◌≡◌, inl, inr, some, length, min, arith, Bool-cases, ltb, ◌==◌,
  saturating_add, length-take,
}
use mnr.HeaderChain.Store.{Entry, tip, truncate, len}
use mnr.HeaderChain.Linkage.{IsLinked, tip_height}
use mnr.Verify.Quorum.{QuorumTip}
use mnr.Chain.Sync.{
  Disk, ChainStore, persist_truncate, cut_back, no_fork_point, max_window, range_start,
}

-- What a search has left: records of the chain, and steps of the window within one.
abbrev pub left_to_search : ChainStore → ℕ
left_to_search s = length s.chain.entries * 1001 + (1000 - s.window)

-- Where a step's range began (`range_start`) and no fork point was found, the search window is
-- wider or the chain is shorter, so that the search cannot go on for ever, and the window stays
-- within its bounds.
pub no_fork_point_shrinks :
    (d : Disk) (s : ChainStore) (t : Entry) (q : QuorumTip)
    → IsLinked s.chain
    → tip s.chain ≡ some t
    → length s.chain.entries < 2 ^ 64
    → (1 ≤ s.window) × (s.window ≤ 1000)
    → let s' = no_fork_point d s (range_start (some t) q s.window) in
      (left_to_search s' < left_to_search s) × (1 ≤ s'.window) × (s'.window ≤ 1000)
unfolding no_fork_point
no_fork_point_shrinks d s t q l top small (low, high) =
    let at : t.height + 1 ≡ length s.chain.entries = unfold len in tip_height s.chain t l top in
    let start = range_start (some t) q s.window in
    elim (Bool-cases (start == 0)) [
      | inl z ↦ rw z (unfold persist_truncate in (omega arith, omega arith, omega arith))
      | inr nz ↦ elim (Bool-cases (ltb s.window max_window)) [
        | inl w ↦
            let narrow : s.window < 1000 = ground arith in
            rw (nz, w) (omega arith, omega arith, omega arith)
        | inr nw ↦
            let wide : 1000 ≤ s.window = ground arith in
            let above : 1 ≤ start = ground arith in
            let keep = min (saturating_add (t.height - 1000) 1) (length s.chain.entries) in
            rw (nz, nw, top)
              (unfold cut_back persist_truncate truncate in
                (omega (arith, length-take keep s.chain.entries), omega arith, omega arith))
      ]
    ]
