-- ===== src/Chain/Epoch.antt =====
-- The cache epoch: what is known of the chain while it stays the same.
use mnr.Common.{
  ℕ, ◌+◌, ◌≤◌, ◌<◌, ◌^◌, ◌≡◌, ◌⊎◌, refl, sym, ap, ◌∙◌, inl, inr, Option, none, some, List, [], ◌∷◌,
  ◌++◌, append-nil, append_assoc, get_elem?, get_elem?-append_left, lt_of_get_elem?, Option-cases,
  arith, Bool-cases, get_last?, ltb, ◌==◌,
}
use mnr.HeaderChain.Store.{Hash, Entry, HeaderChain, tip, fork_point, hash_at, get}
use mnr.Verify.Quorum.{QuorumTip}
use mnr.Chain.Sync.{
  Disk, ChainStore, append_all, from_height, after_fork, persist_append, persist_truncate, cut_back,
  leave_fork, bump, no_fork_point, extend, merge_at, merge_from, merge, initial_window, max_window,
  merge_fetched, step, Fetch, range_start, is_reached,
}
use mnr.Chain.Appending.{append_all_adds}

-- The new chain is the old one with records behind it.
abbrev pub Extends : HeaderChain → HeaderChain → Type 0
Extends old new = (rest : List Entry) × (new.entries ≡ old.entries ++ rest)

Extends-refl : (c : HeaderChain) → Extends c c
Extends-refl c = ([], sym (append-nil c.entries))

Extends-trans : (a b c : HeaderChain) → Extends a b → Extends b c → Extends a c
Extends-trans a b c (r, e) (r', e') =
    (r ++ r', e' ∙ ap (λ t. t ++ r') e ∙ append_assoc a.entries r r')

-- The epoch stays and the chain only grows, or the epoch is the next one and one more reorg counted.
abbrev pub Continues : ChainStore → ChainStore → Type 0
Continues s s' =
    ((s'.epoch ≡ s.epoch) × (s'.reorgs ≡ s.reorgs) × Extends s.chain s'.chain)
    ⊎ ((s'.epoch ≡ bump s.epoch) × (s'.reorgs ≡ bump s.reorgs))

pub persist_append-same :
    (d : Disk) (s : ChainStore) (es : List Entry)
    → ((persist_append d s es).epoch ≡ s.epoch)
      × ((persist_append d s es).reorgs ≡ s.reorgs)
      × ((persist_append d s es).chain ≡ s.chain)
unfolding persist_append
persist_append-same d s [] = (refl, refl, refl)
persist_append-same d s (e ∷ es) = (refl, refl, refl)

extend-Extends :
    (d : Disk) (s : ChainStore) (es : List Entry)
    → ((extend d s es).0.epoch ≡ s.epoch)
      × ((extend d s es).0.reorgs ≡ s.reorgs)
      × Extends s.chain (extend d s es).0.chain
unfolding extend
extend-Extends d s es =
    let c = (append_all s.chain es).0 in
    let appended = (append_all s.chain es).1 in
    let (epoch, reorgs, chain) = persist_append-same d (record s { chain = c }) appended in
    (epoch, reorgs, (appended, rw chain (append_all_adds s.chain es).0))

leave_fork-Continues :
    (d : Disk) (s : ChainStore) (f : Option ℕ) (t : Option Entry) → Continues s (leave_fork d s f t)
unfolding leave_fork
leave_fork-Continues d s none t = inl (refl, refl, Extends-refl s.chain)
leave_fork-Continues d s (some f) none = inl (refl, refl, Extends-refl s.chain)
leave_fork-Continues d s (some f) (some t) = elim (Bool-cases (ltb f t.height)) [
  | inl y ↦ rw y (unfold cut_back persist_truncate in inr (refl, refl))
  | inr n ↦ rw n (inl (refl, refl, Extends-refl s.chain))
]

no_fork_point-Continues :
    (d : Disk) (s : ChainStore) (start : ℕ) → Continues s (no_fork_point d s start)
unfolding no_fork_point
no_fork_point-Continues d s start = elim (Bool-cases (start == 0)) [
  | inl z ↦ rw z (unfold persist_truncate in inr (refl, refl))
  | inr nz ↦ elim (Bool-cases (ltb s.window max_window)) [
    | inl w ↦ rw (nz, w) (inl (refl, refl, Extends-refl s.chain))
    | inr nw ↦ rw (nz, nw) (unfold cut_back persist_truncate in inr (refl, refl))
  ]
]

then_extend :
    (d : Disk) (s s' : ChainStore) (es : List Entry)
    → Continues s s'
    → Continues s (extend d s' es).0
then_extend d s s' es (inl (e, r, x)) =
    let (e', r', x') = extend-Extends d s' es in
    inl (e' ∙ e, r' ∙ r, Extends-trans s.chain s'.chain (extend d s' es).0.chain x x')
then_extend d s s' es (inr (e, r)) =
    let (e', r', x') = extend-Extends d s' es in inr (e' ∙ e, r' ∙ r)

merge_at-Continues :
    (d : Disk) (s : ChainStore) (es : List Entry) (last : Entry) (f : Option ℕ) (t : Option Entry)
    (q : QuorumTip)
    → Continues s (merge_at d s es last f t q).0
unfolding merge_at
merge_at-Continues d s es last f t q =
    then_extend d s (leave_fork d (record s { window = initial_window }) f t)
      (from_height (after_fork f) es)
      (leave_fork-Continues d (record s { window = initial_window }) f t)

merge_from-Continues :
    (d : Disk) (s : ChainStore) (es : List Entry) (last : Entry) (start : ℕ) (t : Option Entry)
    (f : Option ℕ) (q : QuorumTip)
    → Continues s (merge_from d s es last start t f q).0
unfolding merge_from
merge_from-Continues d s es last start none f q = merge_at-Continues d s es last none none q
merge_from-Continues d s es last start (some t) none q = no_fork_point-Continues d s start
merge_from-Continues d s es last start (some t) (some f) q =
    merge_at-Continues d s es last (some f) (some t) q

merge-Continues :
    (d : Disk) (s : ChainStore) (es : List Entry) (start : ℕ) (t : Option Entry) (q : QuorumTip)
    → Continues s (merge d s es start t q).0
unfolding merge
merge-Continues d s es start t q = elim (Option-cases (get_last? es)) [
  | inl is ↦ rw (is, merge) (inl (refl, refl, Extends-refl s.chain))
  | inr (last, is) ↦
      rw (is, merge) (merge_from-Continues d s es last start t (fork_point s.chain es) q)
]

merge_fetched-Continues :
    (d : Disk) (s : ChainStore) (start : ℕ) (q : QuorumTip) (o : Option (List Entry))
    → Continues s (merge_fetched d s start q o).0
unfolding merge_fetched
merge_fetched-Continues d s start q none = inl (refl, refl, Extends-refl s.chain)
merge_fetched-Continues d s start q (some es) = merge-Continues d s es start (tip s.chain) q

-- A step keeps the epoch and the count of reorgs and only adds records behind the chain, or it
-- takes the next epoch and counts one more reorg.
pub step-Continues :
    (d : Disk) (s : ChainStore) (q : Option QuorumTip) (batch : ℕ) (fetch : Fetch)
    → Continues s (step d s q batch fetch).0
unfolding step
step-Continues d s none batch fetch = inl (refl, refl, Extends-refl s.chain)
step-Continues d s (some q) batch fetch = elim (Bool-cases (is_reached s (tip s.chain) q)) [
  | inl y ↦ rw y (inl (refl, refl, Extends-refl s.chain))
  | inr n ↦ rw n (merge_fetched-Continues d s (range_start (tip s.chain) q s.window) q _)
]

-- `run_sync`: so many steps, whatever the quorum and the other nodes say at each.
pub data Run (d : Disk) : ℕ → ChainStore → ChainStore → Type 0 where
  start : {s : ChainStore} → Run d 0 s s
  next :
      {n : ℕ} {s s' : ChainStore} (q : Option QuorumTip) (batch : ℕ) (fetch : Fetch)
      → Run d n s s'
      → Run d (n + 1) s (step d s' q batch fetch).0

grown :
    (a b c : ChainStore) (n : ℕ)
    → a.epoch + (n + 1) < 2 ^ 64
    → (a.epoch ≤ b.epoch) × (b.epoch ≤ a.epoch + n) × (b.epoch ≡ a.epoch → Extends a.chain b.chain)
    → Continues b c
    → (a.epoch ≤ c.epoch)
      × (c.epoch ≤ a.epoch + (n + 1))
      × (c.epoch ≡ a.epoch → Extends a.chain c.chain)
grown a b c n fits (low, high, x) (inl (e, _, y)) =
    (omega arith, omega arith, λ same. Extends-trans a.chain b.chain c.chain (x (omega arith)) y)
grown a b c n fits (low, high, x) (inr (e, _)) =
    (omega arith, omega arith, λ same. absurd (omega arith))

-- In a run of fewer steps than the `u64` has epochs left, the epoch never goes back and moves by at
-- most one a step, and as long as it is the same, the chain has only had records added behind it.
pub epoch-Run :
    (d : Disk) (n : ℕ) (s s' : ChainStore)
    → Run d n s s'
    → s.epoch + n < 2 ^ 64
    → (s.epoch ≤ s'.epoch)
      × (s'.epoch ≤ s.epoch + n)
      × (s'.epoch ≡ s.epoch → Extends s.chain s'.chain)
epoch-Run d _ s _ start fits = (omega arith, omega arith, λ _. Extends-refl s.chain)
epoch-Run d _ s _ (next {n = n} {s' = s'} q batch fetch r) fits =
    grown s s' (step d s' q batch fetch).0 n fits (epoch-Run d n s s' r (omega arith))
      (step-Continues d s' q batch fetch)

-- What is keyed on an epoch stays true in it: in a run that ends in the epoch in which it began, a
-- hash that the chain had at a height is still its hash there.
pub hash_at-Run :
    (d : Disk) (n : ℕ) (s s' : ChainStore) (h : ℕ) (x : Hash)
    → Run d n s s'
    → s.epoch + n < 2 ^ 64
    → s'.epoch ≡ s.epoch
    → hash_at s.chain h ≡ some x
    → hash_at s'.chain h ≡ some x
unfolding hash_at get
hash_at-Run d n s s' h x r fits same at =
    let (low, high, ex) = epoch-Run d n s s' r fits in
    let (rest, is) = ex same in
    elim (Option-cases (get_elem? s.chain.entries h)) [
      | inl missing ↦ cc
      | inr (e, found) ↦
          rw
            (
              is,
              get_elem?-append_left s.chain.entries rest h
                  (lt_of_get_elem? s.chain.entries h found),
            )
            at
    ]
