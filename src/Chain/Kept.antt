-- ===== src/Chain/Kept.antt =====
-- What is written to the file is what is done to the chain.
use mnr.Common.{
  ℕ, ◌+◌, ◌*◌, ◌≤◌, ◌^◌, ◌≡◌, refl, sym, ap, subst, ◌∙◌, inl, inr, min, Option, none, some, List,
  [], ◌∷◌, ◌++◌, append-nil, append_assoc, length, take, All, All-append, All-left, All-take, arith,
  Bool-cases, length-take, take-append_add, saturating_add, ltb, ◌==◌,
}
use mathlib.Core.Option
use mnr.HeaderChain.Store.{Entry, IsEntry, HeaderChain, len, truncate}
use mnr.HeaderChain.Codec.{records, to_bytes, file_header}
use mnr.HeaderChain.Linkage.{IsLinked, truncate-IsLinked}
use mnr.HeaderChain.RoundTrip.{records-append}
use mnr.HeaderChain.Loading.{length-to_bytes}
use mnr.Common.Bytes.{le_bytes}
use mnr.Chain.Sync.{
  Disk, IsReliable, ChainStore, append_all, persist_append, persist_truncate, cut_back,
  no_fork_point, extend, max_window,
}
use mnr.Chain.Appending.{append_all_adds, append_all-IsLinked, take-records}

-- The chain is linked, its fields are in range, and the file, if there is one, holds its bytes.
pub record IsStored (s : ChainStore) : Type 0 where
  pub linked : IsLinked s.chain
  pub valid : All IsEntry s.chain.entries
  pub kept : s.file ≡ Option.map (λ _. to_bytes s.chain) s.file

-- Cutting the file is cutting the chain.
take-to_bytes :
    (c : HeaderChain) (n : ℕ)
    → All IsEntry c.entries
    → take (16 + n * 80) (to_bytes c) ≡ to_bytes (record { entries = take n c.entries })
unfolding to_bytes
take-to_bytes c n v =
    take-append_add 16 (n * 80) file_header (records c.entries)
      (unfold file_header le_bytes in refl)
    ∙ ap (λ t. file_header ++ t) (take-records n c.entries v)

module _ (d : Disk) (r : IsReliable d) where
  cut_file :
      (c : HeaderChain) (n : ℕ) (file : Option (List ℕ))
      → All IsEntry c.entries
      → n ≤ length c.entries
      → file ≡ Option.map (λ _. to_bytes c) file
      → Option.map (λ f. d.set_len f (16 + n * 80)) file
        ≡ Option.map
            (λ _. to_bytes (record { entries = take n c.entries }))
            (Option.map (λ f. d.set_len f (16 + n * 80)) file)
  cut_file c n none v fits k = refl
  cut_file c n (some f) v fits k =
      let is : f ≡ to_bytes c = cc in
      ap some (
        rw is (
          r.cuts (to_bytes c) (16 + n * 80) (unfold len in omega (arith, length-to_bytes c v))
          ∙ take-to_bytes c n v))

  pub cut_back-IsStored : (s : ChainStore) (h : ℕ) → IsStored s → IsStored (cut_back d s h)
  unfolding cut_back
  cut_back-IsStored s h i = record {
    linked = truncate-IsLinked s.chain h i.linked;
    valid =
        unfold truncate in
        All-take IsEntry (min (saturating_add h 1) (length s.chain.entries)) s.chain.entries
          i.valid;
    kept =
        let n = min (saturating_add h 1) (length s.chain.entries) in
        let is_n : length (take n s.chain.entries) ≡ n =
          omega (arith, length-take n s.chain.entries) in
        unfold persist_truncate truncate len in
        rw is_n (cut_file s.chain n s.file i.valid (omega arith) i.kept);
  }

  pub no_fork_point-IsStored :
      (s : ChainStore) (start : ℕ) → IsStored s → IsStored (no_fork_point d s start)
  unfolding no_fork_point
  no_fork_point-IsStored s start i = elim (Bool-cases (start == 0)) [
    | inl z ↦
        rw (z, no_fork_point)
          (record {
            linked = tt;
            valid = tt;
            kept = cut_file s.chain 0 s.file i.valid (omega arith) i.kept;
          })
    | inr nz ↦ elim (Bool-cases (ltb s.window max_window)) [
      | inl w ↦ rw (nz, w) (record { linked = i.linked; valid = i.valid; kept = i.kept })
      | inr nw ↦ rw (nz, nw) (cut_back-IsStored s _ i)
    ]
  ]

  append_file :
      (c : HeaderChain) (es : List Entry) (file : Option (List ℕ))
      → file ≡ Option.map (λ _. to_bytes c) file
      → Option.map (λ f. d.write_end f (records es)) file
        ≡ Option.map
            (λ _. to_bytes (record { entries = c.entries ++ es }))
            (Option.map (λ f. d.write_end f (records es)) file)
  append_file c es none k = refl
  append_file c es (some f) k =
      let is : f ≡ to_bytes c = cc in
      ap some (
        rw is (
          r.writes (to_bytes c) (records es)
          ∙ unfold to_bytes in
            (append_assoc file_header (records c.entries) (records es)
              ∙ ap (λ t. file_header ++ t) (sym (records-append c.entries es)))))

  persist_append_keeps :
      (s : ChainStore) (c : HeaderChain) (es : List Entry)
      → s.file ≡ Option.map (λ _. to_bytes s.chain) s.file
      → c ≡ record { entries = s.chain.entries ++ es }
      → ((persist_append d (record s { chain = c }) es).chain ≡ c)
        × ((persist_append d (record s { chain = c }) es).file
            ≡ Option.map (λ _. to_bytes c) (persist_append d (record s { chain = c }) es).file)
  unfolding persist_append
  persist_append_keeps s c [] k is =
      let same_chain : c ≡ s.chain =
        is ∙ ap (λ (t : List Entry). record { entries = t }) (append-nil s.chain.entries) in
      (refl, rw same_chain k)
  persist_append_keeps s c (e ∷ es) k is = (refl, rw is (append_file s.chain (e ∷ es) s.file k))

  pub extend-IsStored :
      (s : ChainStore) (es : List Entry)
      → IsStored s
      → All IsEntry es
      → length s.chain.entries + length es ≤ 2 ^ 64
      → IsStored (extend d s es).0
  unfolding extend
  extend-IsStored s es i v fits =
      let c = (append_all s.chain es).0 in
      let appended = (append_all s.chain es).1 in
      let (adds, rest, is) = append_all_adds s.chain es in
      let added = All-left IsEntry appended rest (subst (All IsEntry) is v) in
      let (at, kept) =
        persist_append_keeps s c appended i.kept
          (ap (λ (t : List Entry). record { entries = t }) adds) in
      record {
        linked = rw at (append_all-IsLinked s.chain es i.linked fits);
        valid = rw (at, adds) (All-append IsEntry s.chain.entries appended i.valid added);
        kept = rw at kept;
      }
