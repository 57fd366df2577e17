-- ===== src/Chain/Reorg.antt =====
-- What a reorg keeps and what it takes from the agreed run.
use mnr.Common.{
  ℕ, zero, suc, ◌+◌, ◌≤◌, ◌<◌, ◌^◌, ◌≡◌, refl, sym, ap, subst, ◌∙◌, inl, inr, some, List, [], ◌∷◌,
  ◌++◌, length, get_elem?, take, take-all, min, length-append, lt_of_get_elem?, Option-cases, arith,
  true, false, Bool-cases, get_last?, ltb, leb, saturating_add, length-take,
}
use mathlib.Core.Option
use mnr.HeaderChain.Store.{
  Hash, zero_hash, Entry, HeaderChain, tip, fork_point, hash_at, get, truncate, len,
}
use mnr.HeaderChain.Linkage.{
  LinkedFrom, IsLinked, end_hash, tip_height, get_last?-eq-none, LinkedFrom-take,
}
use mnr.HeaderChain.Fork.{Agrees, LastAgreement}
use mnr.Verify.Quorum.{QuorumTip}
use mnr.Chain.Sync.{
  Disk, ChainStore, append_all, from_height, persist_truncate, cut_back, leave_fork, extend,
  merge_at, merge_from, merge, initial_window,
}
use mnr.Chain.Epoch.{persist_append-same}
use mnr.Chain.Appending.{append_all-LinkedFrom}

pub LinkedFrom-append :
    (h : ℕ) (p : Hash) (xs ys : List Entry)
    → LinkedFrom h p xs
    → LinkedFrom (h + length xs) (end_hash p xs) ys
    → LinkedFrom h p (xs ++ ys)
LinkedFrom-append h p [] ys l m = subst (λ k. LinkedFrom k p ys) (omega arith) m
LinkedFrom-append h p (x ∷ xs) ys l m = (
  l.0,
  l.1,
  LinkedFrom-append (h + 1) x.hash xs ys l.2
      (subst (λ k. LinkedFrom k (end_hash x.hash xs) ys) (omega arith) m),
)

-- Of a linked run from `h` on, all is at or above a height up to `h`.
pub from_height-all :
    (h from : ℕ) (p : Hash) (es : List Entry)
    → LinkedFrom h p es
    → from ≤ h
    → from_height from es ≡ es
unfolding from_height
from_height-all h from p [] l le = refl
from_height-all h from p (e ∷ es) l le =
    let at_or_above : leb from e.height ≡ true = ground (arith, l.0) in
    rw at_or_above (ap (λ t. e ∷ t) (from_height-all (h + 1) from e.hash es l.2 (omega arith)))

-- What stands behind a linked run's record is what is above its height, and is linked upon it.
from_height_behind :
    (h : ℕ) (p : Hash) (before : List Entry) (at : Entry) (behind : List Entry)
    → LinkedFrom h p (before ++ at ∷ behind)
    → (h ≤ at.height)
      × (from_height (at.height + 1) (before ++ at ∷ behind) ≡ behind)
      × LinkedFrom (at.height + 1) at.hash behind
unfolding from_height
from_height_behind h p [] at behind l =
    let below : leb (at.height + 1) at.height ≡ false = ground arith in
    let linked = subst (λ k. LinkedFrom k at.hash behind) (omega (arith, l.0)) l.2 in
    let rest : from_height (at.height + 1) behind ≡ behind =
      from_height-all (at.height + 1) (at.height + 1) at.hash behind linked (omega arith) in
    (omega (arith, l.0), rw below rest, linked)
from_height_behind h p (e ∷ before) at behind l =
    let (above, is, linked) = from_height_behind (h + 1) e.hash before at behind l.2 in
    let below : leb (at.height + 1) e.height ≡ false = ground (arith, l.0, above) in
    (omega arith, rw below is, linked)

-- A linked run's first records end in the hash of the last of them.
end_hash-take :
    (p : Hash) (es : List Entry) (i : ℕ) (e : Entry)
    → get_elem? es i ≡ some e
    → end_hash p (take (suc i) es) ≡ e.hash
end_hash-take p [] i e at = cc
end_hash-take p (x ∷ es) zero e at =
    let same_record : x ≡ e = cc in ap (λ (y : Entry). y.hash) same_record
end_hash-take p (x ∷ es) (suc i) e at = end_hash-take x.hash es i e at

-- The chain's record at a height where it agrees with `at`.
pub found_at :
    (c : HeaderChain) (at : Entry)
    → Agrees c at
    → (e : Entry) × (get_elem? c.entries at.height ≡ some e) × (e.hash ≡ at.hash)
unfolding hash_at get
found_at c at a = elim (Option-cases (get_elem? c.entries at.height)) [
  | inl missing ↦ cc
  | inr (e, is) ↦
      let same_hash : some e.hash ≡ some at.hash =
        sym (ap (Option.map (λ (x : Entry). x.hash)) is) ∙ a in
      (e, is, cc)
]

-- The chain after `leave_fork` is what the fork point leaves of it.
chain-leave_fork :
    (d : Disk) (s : ChainStore) (f : ℕ) (t : Entry)
    → t.height + 1 ≡ length s.chain.entries
    → f < length s.chain.entries
    → f + 1 < 2 ^ 64
    → (leave_fork d s (some f) (some t)).chain ≡ record { entries = take (f + 1) s.chain.entries }
unfolding leave_fork
chain-leave_fork d s f t top below fits = elim (Bool-cases (ltb f t.height)) [
  | inl y ↦
      let kept : min (saturating_add f 1) (length s.chain.entries) ≡ f + 1 = omega arith in
      rw y (unfold cut_back persist_truncate truncate in rw kept refl)
  | inr n ↦
      let all : length s.chain.entries ≤ f + 1 = ground arith in
      rw n (rw (take-all (f + 1) s.chain.entries all) refl)
]

chain-merge_at :
    (d : Disk) (s : ChainStore) (es : List Entry) (last : Entry) (f : ℕ) (t : Entry) (q : QuorumTip)
    → t.height + 1 ≡ length s.chain.entries
    → f < length s.chain.entries
    → f + 1 < 2 ^ 64
    → (merge_at d s es last (some f) (some t) q).0.chain
      ≡ (append_all (record { entries = take (f + 1) s.chain.entries }) (from_height (f + 1) es)).0
unfolding merge_at extend
chain-merge_at d s es last f t q top below fits =
    let reset : ChainStore = record s { window = initial_window } in
    let left = leave_fork d reset (some f) (some t) in
    let (c, appended) = append_all left.chain (from_height (f + 1) es) in
    let (_, _, same_chain) = persist_append-same d (record left { chain = c }) appended in
    same_chain
    ∙ ap (λ c. (append_all c (from_height (f + 1) es)).0)
        (chain-leave_fork d reset f t top below fits)

pub has_tip : (c : HeaderChain) → 0 < length c.entries → (t : Entry) × (tip c ≡ some t)
unfolding tip
has_tip c filled = elim (Option-cases (get_last? c.entries)) [
  | inl is ↦
      absurd (omega (arith, ap (λ (t : List Entry). length t) (get_last?-eq-none c.entries is)))
  | inr found ↦ found
]

pub get_last?-is :
    (es : List Entry) (e : Entry) (fs : List Entry)
    → (t : Entry) × (get_last? (es ++ e ∷ fs) ≡ some t)
get_last?-is [] e [] = (e, refl)
get_last?-is [] e (f ∷ fs) = get_last?-is [] f fs
get_last?-is (x ∷ []) e fs = get_last?-is [] e fs
get_last?-is (x ∷ y ∷ es) e fs = get_last?-is (y ∷ es) e fs

-- A run that follows a record of the chain goes onto the chain cut behind it.
onto_cut :
    (c : HeaderChain) (at e : Entry) (behind : List Entry)
    → IsLinked c
    → get_elem? c.entries at.height ≡ some e
    → e.hash ≡ at.hash
    → LinkedFrom (at.height + 1) at.hash behind
    → LinkedFrom 0 zero_hash (take (at.height + 1) c.entries ++ behind)
onto_cut c at e behind linked found same_hash run =
    let n = at.height + 1 in
    let size : length (take n c.entries) ≡ n =
      omega (arith, length-take n c.entries, lt_of_get_elem? c.entries at.height found) in
    let next : suc at.height ≡ n = omega arith in
    let ends : end_hash zero_hash (take n c.entries) ≡ at.hash =
      rw (sym next) (end_hash-take zero_hash c.entries at.height e found) ∙ same_hash in
    LinkedFrom-append 0 zero_hash (take n c.entries) behind
      (LinkedFrom-take n 0 zero_hash c.entries linked)
      (rw ends (subst (λ k. LinkedFrom k at.hash behind) (omega (arith, size)) run))

-- Merging a linked run that agrees with the chain somewhere: the new chain is the old one up to
-- the last agreement, and behind it what the run has there, all of it. With records above the
-- agreement that is a reorg; without, the chain is extended, or stays.
pub merge_agreed :
    (d : Disk) (s : ChainStore) (es : List Entry) (start : ℕ) (q : QuorumTip) (h : ℕ) (p : Hash)
    → IsLinked s.chain
    → LinkedFrom h p es
    → length s.chain.entries + length es < 2 ^ 64
    → (l : LastAgreement s.chain es (fork_point s.chain es))
    → (merge d s es start (tip s.chain) q).0.chain
      ≡ record { entries = take (l.at.height + 1) s.chain.entries ++ l.behind }
unfolding merge merge_from
merge_agreed d s es start q h p linked run fits l =
    let (e, found, same_hash) = found_at s.chain l.at l.agrees in
    let below = lt_of_get_elem? s.chain.entries l.at.height found in
    let (t, tip_is) = has_tip s.chain (omega (arith, below)) in
    let (last, last_is) = get_last?-is l.before l.at l.behind in
    let (_, is_behind, behind_run) =
      from_height_behind h p l.before l.at l.behind (subst (LinkedFrom h p) l.is_split run) in
    let last_is_es : get_last? es ≡ some last = rw l.is_split last_is in
    let behind_es : from_height (l.at.height + 1) es ≡ l.behind = rw l.is_split is_behind in
    let kept : HeaderChain = record { entries = take (l.at.height + 1) s.chain.entries } in
    let onto = onto_cut s.chain l.at e l.behind linked found same_hash behind_run in
    let room : length kept.entries + length l.behind ≤ 2 ^ 64 = omega (
      arith,
      ap (λ (t : List Entry). length t) l.is_split,
      length-append l.before (l.at ∷ l.behind),
      length-take (l.at.height + 1) s.chain.entries,
    ) in
    rw (last_is_es, merge)
      (rw (l.is_found, tip_is)
        (chain-merge_at d s es last l.at.height t q
            (unfold len in tip_height s.chain t linked tip_is) below (omega (arith, below))
          ∙ rw behind_es (ap (λ x. x.0) (append_all-LinkedFrom l.behind kept onto room))))
