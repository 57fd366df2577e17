-- ===== src/Chain/Follow.antt =====
-- A chain that follows the quorum's: what one step makes of it when the other nodes answer truly.
use mnr.Common.{
  ℕ, suc, ◌+◌, ◌-◌, ◌≤◌, ◌<◌, ◌^◌, ◌≡◌, ◌⊎◌, refl, sym, ap, ◌∙◌, inl, inr, Option, none, some, List,
  length, take, drop, min, length-append, arith, false, leb, length-take,
}
use mnr.HeaderChain.Store.{zero_hash, Entry, HeaderChain, empty, tip, len}
use mnr.HeaderChain.Linkage.{LinkedFrom, IsLinked, tip_height, LinkedFrom-take, get_last?-eq-none}
use mnr.Verify.Quorum.{QuorumTip}
use mnr.Chain.Sync.{
  Disk, ChainStore, merge_fetched, step, bump, Fetch, range_start, range_end, is_reached,
}
use mnr.Chain.Epoch.{step-Continues}
use mnr.Chain.Parts.{merge-part, merge_first}

-- What the other nodes answer when all are on one chain: its records of the range.
abbrev pub truthful : List Entry → Fetch
truthful full start end q = some (take (end + 1 - start) (drop start full))

merged :
    (d : Disk) (s : ChainStore) (full : List Entry) (n start end : ℕ) (q : QuorumTip)
    → LinkedFrom 0 zero_hash full
    → s.chain ≡ record { entries = take n full }
    → n ≤ length full
    → length full + length full < 2 ^ 64
    → (start < n) ⊎ ((n ≡ 0) × (start ≡ 0))
    → start ≤ end
    → end < length full
    → (merge_fetched d s start q (truthful full start end q)).0.chain
      ≡ record { entries = take (end + 1) full }
unfolding merge_fetched
merged d s full n start end q l is fits small (inl below) ordered inside =
    let size : end + 1 - start ≡ suc (end - start) = omega arith in
    let total : start + suc (end - start) ≡ end + 1 = omega arith in
    rw (size, sym total) (merge-part d s full n start (end - start) start q l is below fits small)
merged d s full n start end q l is fits small (inr (no_records, first)) ordered inside =
    let size : end + 1 - start ≡ end + 1 = omega arith in
    let nothing : s.chain ≡ empty = is ∙ ap (λ k. record { entries = take k full }) no_records in
    let no_tip : tip s.chain ≡ none = ap tip nothing ∙ unfold tip in refl in
    rw (size, no_tip, first)
      (merge_first d s (take (end + 1) full) 0 q (LinkedFrom-take (end + 1) 0 zero_hash full l)
        nothing (omega (arith, length-take (end + 1) full)))

-- What a step reads off a chain of `n` records that the quorum is ahead of.
is_behind :
    (s : ChainStore) (full : List Entry) (n : ℕ) (q : QuorumTip)
    → LinkedFrom 0 zero_hash full
    → s.chain ≡ record { entries = take n full }
    → n ≤ q.height
    → q.height + 1 ≡ length full
    → length full < 2 ^ 64
    → (is_reached s (tip s.chain) q ≡ false) × (range_start (tip s.chain) q s.window ≡ n - s.window)
is_behind s full n q l is ahead top small =
    let held : s.chain.entries ≡ take n full = ap (λ (c : HeaderChain). c.entries) is in
    let size : length s.chain.entries ≡ n =
      ap (λ (t : List Entry). length t) held ∙ omega (arith, length-take n full) in
    reads (tip s.chain) refl size
  where
    reads :
        (o : Option Entry)
        → tip s.chain ≡ o
        → length s.chain.entries ≡ n
        → (is_reached s o q ≡ false) × (range_start o q s.window ≡ n - s.window)
    reads none e size =
        let nothing = get_last?-eq-none s.chain.entries (unfold tip in e) in
        (refl, omega (arith, size, ap (λ (t : List Entry). length t) nothing))
    reads (some t) e size =
        let linked : IsLinked s.chain = rw is (LinkedFrom-take n 0 zero_hash full l) in
        let at : t.height + 1 ≡ length s.chain.entries =
          unfold len in tip_height s.chain t linked e in
        let above : leb q.height t.height ≡ false = ground arith in
        (rw above refl, omega (arith, at, size))

-- On a chain that is the beginning of the other nodes', with the quorum tip at their end, one step
-- makes it the beginning of theirs that reaches `batch` records above the search window's start, or
-- their whole chain if that ends sooner.
pub step_follows :
    (d : Disk) (s : ChainStore) (full : List Entry) (n batch : ℕ) (q : QuorumTip)
    → LinkedFrom 0 zero_hash full
    → s.chain ≡ record { entries = take n full }
    → n ≤ q.height
    → q.height + 1 ≡ length full
    → length full + length full < 2 ^ 64
    → 1 ≤ s.window
    → (1 ≤ batch) × (batch < 2 ^ 63)
    → (step d s (some q) batch (truthful full)).0.chain
      ≡ record { entries = take (min (n - s.window + batch) (length full)) full }
unfolding step
step_follows d s full n batch q l is ahead top small window (some_batch, small_batch) =
    let (behind, begins) = is_behind s full n q l is ahead top (omega arith) in
    let start = n - s.window in
    let end = range_end start batch q in
    let total : end + 1 ≡ min (n - s.window + batch) (length full) = omega arith in
    let place : (start < n) ⊎ ((n ≡ 0) × (start ≡ 0)) = omega arith in
    rw (behind, begins)
      (merged d s full n start end q l is (omega arith) small place (omega arith) (omega arith)
        ∙ ap (λ k. record { entries = take k full }) total)

-- With a batch smaller than the search window, the same step cuts a longer chain that was right:
-- it ends below where it was, and the epoch and the count of reorgs move on, though there was none.
pub small_batch_cuts :
    (d : Disk) (s : ChainStore) (full : List Entry) (n batch : ℕ) (q : QuorumTip)
    → LinkedFrom 0 zero_hash full
    → s.chain ≡ record { entries = take n full }
    → n ≤ q.height
    → q.height + 1 ≡ length full
    → length full + length full < 2 ^ 64
    → 1 ≤ batch
    → batch < min s.window n
    → (len (step d s (some q) batch (truthful full)).0.chain < n)
      × ((step d s (some q) batch (truthful full)).0.epoch ≡ bump s.epoch)
      × ((step d s (some q) batch (truthful full)).0.reorgs ≡ bump s.reorgs)
unfolding len
small_batch_cuts d s full n batch q l is ahead top small some_batch less =
    let s' = (step d s (some q) batch (truthful full)).0 in
    let follows =
      step_follows d s full n batch q l is ahead top small (omega arith)
        (some_batch, omega arith) in
    let shorter : length s'.chain.entries < n = omega (
      arith,
      ap (λ (c : HeaderChain). length c.entries) follows,
      length-take (min (n - s.window + batch) (length full)) full,
    ) in
    let size : length s.chain.entries ≡ n =
      ap (λ (c : HeaderChain). length c.entries) is ∙ omega (arith, length-take n full) in
    elim (step-Continues d s (some q) batch (truthful full)) [
      | inl (_, _, (rest, grew)) ↦ absurd (
          omega (
            arith,
            ap (λ (t : List Entry). length t) grew,
            length-append s.chain.entries rest,
            shorter,
            size,
          ))
      | inr (epoch, reorgs) ↦ (shorter, epoch, reorgs)
    ]
