-- ===== src/Chain/Parts.antt =====
-- Merging a part of the chain that the other nodes are on.
use mnr.Common.{
  ℕ, zero, suc, ◌+◌, ◌-◌, ◌≤◌, ◌<◌, ◌^◌, ◌≡◌, refl, sym, ap, subst, ◌∙◌, inl, inr, none, some, List,
  [], ◌∷◌, ◌++◌, length, get_elem?, take, drop, length-append, length-drop, lt_of_get_elem?,
  Option-cases, arith, get_last?, length-take, All, take_add, drop-drop, get_elem?-take,
  get_elem?_lt, take-nil,
}
use mathlib.Core.Option
use mnr.HeaderChain.Store.{Hash, zero_hash, Entry, HeaderChain, empty, tip, hash_at, get}
use mnr.HeaderChain.Linkage.{LinkedFrom, height-LinkedFrom, LinkedFrom-take, get_last?-eq-none}
use mnr.HeaderChain.RoundTrip.{LinkedFrom-split}
use mnr.HeaderChain.Fork.{Agrees, fork_point_last}
use mnr.Verify.Quorum.{QuorumTip}
use mnr.Chain.Sync.{
  Disk, ChainStore, append_all, from_height, merge_at, merge_from, leave_fork, extend, merge,
  initial_window,
}
use mnr.Chain.Reorg.{merge_agreed, found_at, from_height-all}
use mnr.Chain.Epoch.{persist_append-same}
use mnr.Chain.Appending.{append_all-LinkedFrom}

module _ {A : Type 0} where
  drop-take : (j k : ℕ) (xs : List A) → drop j (take k xs) ≡ take (k - j) (drop j xs)
  drop-take zero k xs = let same_size : k ≡ k - 0 = omega arith in ap (λ n. take n xs) same_size
  drop-take (suc j) zero xs =
      let nothing : 0 ≡ 0 - suc j = omega arith in ap (λ n. take n (drop (suc j) xs)) nothing
  drop-take (suc j) (suc k) [] = sym (take-nil (suc k - suc j))
  drop-take (suc j) (suc k) (x ∷ xs) =
      let left : k - j ≡ suc k - suc j = omega arith in
      drop-take j k xs ∙ ap (λ n. take n (drop j xs)) left

  take-take : (j k : ℕ) (xs : List A) → j ≤ k → take j (take k xs) ≡ take j xs
  take-take zero k xs h = refl
  take-take (suc j) zero xs h = absurd (omega arith)
  take-take (suc j) (suc k) [] h = refl
  take-take (suc j) (suc k) (x ∷ xs) h = ap (λ t. x ∷ t) (take-take j k xs (omega arith))

  drop-at :
      (m : ℕ) (xs : List A) (a : A) → get_elem? xs m ≡ some a → drop m xs ≡ a ∷ drop (suc m) xs
  drop-at m [] a at = cc
  drop-at zero (x ∷ xs) a at = let is_first : x ≡ a = cc in ap (λ t. t ∷ xs) is_first
  drop-at (suc m) (x ∷ xs) a at = drop-at m xs a at

  drop_behind :
      (before : List A) (a : A) (behind : List A)
      → drop (suc (length before)) (before ++ a ∷ behind) ≡ behind
  drop_behind [] a behind = refl
  drop_behind (x ∷ before) a behind = drop_behind before a behind

  -- What is behind an element of a part of a list is the part's rest.
  behind_part :
      (full before : List A) (a : A) (behind : List A) (m k f : ℕ)
      → take k (drop m full) ≡ before ++ a ∷ behind
      → f ≡ m + length before
      → take (f + 1) full ++ behind ≡ take (m + k) full
  behind_part full before a behind m k f is at =
      let j = suc (length before) in
      let size : j ≤ k = omega (
        arith,
        length-take k (drop m full),
        ap (λ (t : List A). length t) is,
        length-append before (a ∷ behind),
      ) in
      let next : m + j ≡ f + 1 = omega arith in
      let rest : behind ≡ take (k - j) (drop (f + 1) full) =
        sym (drop_behind before a behind)
        ∙ ap (λ t. drop j t) (sym is)
        ∙ drop-take j k (drop m full)
        ∙ ap (λ t. take (k - j) t) (drop-drop m j full)
        ∙ ap (λ n. take (k - j) (drop n full)) next in
      let total : f + 1 + (k - j) ≡ m + k = omega arith in
      ap (λ t. take (f + 1) full ++ t) rest
      ∙ sym (take_add (f + 1) (k - j) full)
      ∙ ap (λ n. take n full) total

LinkedFrom-drop :
    (m h : ℕ) (p : Hash) (es : List Entry)
    → LinkedFrom h p es
    → (p' : Hash) × LinkedFrom (h + m) p' (drop m es)
LinkedFrom-drop zero h p es l = (p, subst (λ k. LinkedFrom k p es) (omega arith) l)
LinkedFrom-drop (suc m) h p [] l = (p, tt)
LinkedFrom-drop (suc m) h p (e ∷ es) l =
    let (p', l') = LinkedFrom-drop m (h + 1) e.hash es l.2 in
    (p', subst (λ k. LinkedFrom k p' (drop m es)) (omega arith) l')

-- The records from `m` on, `k` of them, of the chain that the other nodes are on.
abbrev part : List Entry → ℕ → ℕ → List Entry
part full m k = take k (drop m full)

-- The first record of a part that begins on our chain is on it.
part-Agrees :
    (full : List Entry) (n m k : ℕ)
    → LinkedFrom 0 zero_hash full
    → m < n
    → n ≤ length full
    → (e : Entry) × (rest : List Entry) × (part full m (suc k) ≡ e ∷ rest)
      × Agrees (record { entries = take n full }) e
unfolding hash_at get
part-Agrees full n m k l below fits =
    let (e, at) = get_elem?_lt full m (omega arith) in
    let height : e.height ≡ m = omega (arith, height-LinkedFrom 0 zero_hash full m e l at) in
    let kept : get_elem? (take n full) m ≡ some e = get_elem?-take n full m below ∙ at in
    (
      e,
      take k (drop (suc m) full),
      ap (λ t. take (suc k) t) (drop-at m full e at),
      rw height (ap (Option.map (λ (x : Entry). x.hash)) kept),
    )

-- The other nodes answer with a part of their chain that begins at or below our tip: our chain is
-- then theirs up to the part's end.
pub merge-part :
    (d : Disk) (s : ChainStore) (full : List Entry) (n m k start : ℕ) (q : QuorumTip)
    → LinkedFrom 0 zero_hash full
    → s.chain ≡ record { entries = take n full }
    → m < n
    → n ≤ length full
    → length full + length full < 2 ^ 64
    → (merge d s (part full m (suc k)) start (tip s.chain) q).0.chain
      ≡ record { entries = take (m + suc k) full }
merge-part d s full n m k start q l is below fits small =
    elim (fork_point_last s.chain (part full m (suc k))) [
      | inl (differ, _) ↦
          let (e, rest, cut, agrees) = part-Agrees full n m k l below fits in
          let first_differs : All (λ e. ¬ Agrees s.chain e) (e ∷ rest) =
            subst (All (λ e. ¬ Agrees s.chain e)) cut differ in
          absurd (first_differs.0 (rw is agrees))
      | inr a ↦
          let (p, from_m) = LinkedFrom-drop m 0 zero_hash full l in
          let run = LinkedFrom-take (suc k) (0 + m) p (drop m full) from_m in
          let (_, at, _) =
            LinkedFrom-split (0 + m) p a.before a.at a.behind
              (subst (LinkedFrom (0 + m) p) a.is_split run) in
          let held : s.chain.entries ≡ take n full = ap (λ (c : HeaderChain). c.entries) is in
          let (_, found, _) = found_at s.chain a.at a.agrees in
          let inside = lt_of_get_elem? s.chain.entries a.at.height found in
          let size : length s.chain.entries ≡ n =
            ap (λ (t : List Entry). length t) held ∙ omega (arith, length-take n full) in
          let cut : take (a.at.height + 1) s.chain.entries ≡ take (a.at.height + 1) full =
            ap (λ t. take (a.at.height + 1) t) held
            ∙ take-take (a.at.height + 1) n full (omega (arith, inside)) in
          let f : a.at.height ≡ m + length a.before = omega (arith, at) in
          merge_agreed d s (part full m (suc k)) start q (0 + m) p
            (rw is (LinkedFrom-take n 0 zero_hash full l)) run
            (omega (arith, size, length-take (suc k) (drop m full), length-drop m full)) a
          ∙ ap (λ (t : List Entry). record { entries = t })
              (ap (λ t. t ++ a.behind) cut
                ∙ behind_part full a.before a.at a.behind m (suc k) a.at.height a.is_split f)
    ]

-- On an empty chain the run is taken whole.
pub merge_first :
    (d : Disk) (s : ChainStore) (es : List Entry) (start : ℕ) (q : QuorumTip)
    → LinkedFrom 0 zero_hash es
    → s.chain ≡ empty
    → length es < 2 ^ 64
    → (merge d s es start none q).0.chain ≡ record { entries = es }
unfolding merge_from merge_at leave_fork extend merge
merge_first d s es start q l is fits = elim (Option-cases (get_last? es)) [
  | inl nothing ↦
      rw (nothing, merge)
        (is ∙ ap (λ (t : List Entry). record { entries = t }) (sym (get_last?-eq-none es nothing)))
  | inr (last, last_is) ↦
      let c = (append_all s.chain (from_height 0 es)).0 in
      let added = (append_all s.chain (from_height 0 es)).1 in
      let (_, _, same_chain) =
        persist_append-same d (record s { chain = c; window = initial_window }) added in
      rw (last_is, merge)
        (same_chain
          ∙ rw (is, from_height-all 0 0 zero_hash es l (omega arith))
              (ap (λ x. x.0) (append_all-LinkedFrom es empty l (omega arith))))
]
