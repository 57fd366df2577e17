-- ===== src/Chain/Appending.antt =====
-- `append_all`, `from_height` and what the file holds of the records.
use mnr.Common.{
  ℕ, zero, suc, ◌+◌, ◌*◌, ◌≤◌, ◌^◌, ◌≡◌, refl, sym, ap, ◌∙◌, inl, inr, List, [], ◌∷◌, ◌++◌,
  append-nil, append_assoc, length, length-append, take, All, Result-cases, ok, arith, leb,
  Bool-cases, take-nil, take-append_add,
}
use mnr.HeaderChain.Store.{zero_hash, Entry, IsEntry, HeaderChain, append, push, len}
use mnr.HeaderChain.Codec.{records, entry_to_bytes}
use mnr.HeaderChain.Linkage.{LinkedFrom, IsLinked, append-IsLinked, append-eq-ok_iff}
use mnr.HeaderChain.RoundTrip.{append-eq-push, LinkedFrom-split, length-entry_to_bytes}
use mnr.Chain.Sync.{append_all, from_height}

-- `append_all` adds the records that it returns, in order, and they are the first ones given.
pub append_all_adds :
    (c : HeaderChain) (es : List Entry)
    → ((append_all c es).0.entries ≡ c.entries ++ (append_all c es).1)
      × (rest : List Entry) × (es ≡ (append_all c es).1 ++ rest)
unfolding append_all
append_all_adds c [] = (sym (append-nil c.entries), [], refl)
append_all_adds c (e ∷ es) = elim (Result-cases (append c e)) [
  | inl (c', accepted) ↦
      let (adds, rest, is) = append_all_adds c' es in
      let pushed : c'.entries ≡ c.entries ++ e ∷ [] =
        ap (λ (x : HeaderChain). x.entries) (append-eq-push c e c' accepted)
        ∙ unfold push in refl in
      rw (accepted, append_all) (adds ∙ rw (pushed, append_assoc) refl, rest, ap (λ t. e ∷ t) is)
  | inr (e', refused) ↦ rw (refused, append_all) (sym (append-nil c.entries), e ∷ es, refl)
]

pub append_all-IsLinked :
    (c : HeaderChain) (es : List Entry)
    → IsLinked c
    → length c.entries + length es ≤ 2 ^ 64
    → IsLinked (append_all c es).0
unfolding append_all
append_all-IsLinked c [] l fits = l
append_all-IsLinked c (e ∷ es) l fits = elim (Result-cases (append c e)) [
  | inl (c', accepted) ↦
      let pushed : c'.entries ≡ c.entries ++ e ∷ [] =
        ap (λ (x : HeaderChain). x.entries) (append-eq-push c e c' accepted)
        ∙ unfold push in refl in
      rw (accepted, append_all)
        (append_all-IsLinked c' es (append-IsLinked c e c' l (omega arith) accepted)
          (omega (arith, ap length pushed, length-append c.entries (e ∷ []))))
  | inr (e', refused) ↦ rw (refused, append_all) l
]

-- A run that continues the chain is appended whole.
pub append_all-LinkedFrom :
    (es : List Entry) (c : HeaderChain)
    → LinkedFrom 0 zero_hash (c.entries ++ es)
    → length c.entries + length es ≤ 2 ^ 64
    → append_all c es ≡ (record { entries = c.entries ++ es }, es)
unfolding append_all
append_all-LinkedFrom [] c l fits = rw append-nil refl
append_all-LinkedFrom (e ∷ es) c l fits =
    let (before, at, upon) = LinkedFrom-split 0 zero_hash c.entries e es l in
    let next : HeaderChain = record { entries = c.entries ++ e ∷ [] } in
    let accepted : append c e ≡ ok next =
      (append-eq-ok_iff c e next before (omega arith)).1
        (unfold len in omega (arith, at), upon, refl) in
    let shape : (c.entries ++ e ∷ []) ++ es ≡ c.entries ++ e ∷ es =
      append_assoc c.entries (e ∷ []) es in
    let ih =
      append_all-LinkedFrom es next (rw shape l)
        (omega (arith, length-append c.entries (e ∷ []))) in
    rw (accepted, append_all) (rw ih (rw shape refl))

pub All-from_height :
    (P : Entry → Type 0) (from : ℕ) (es : List Entry) → All P es → All P (from_height from es)
unfolding from_height
All-from_height P from [] h = tt
All-from_height P from (e ∷ es) h = elim (Bool-cases (leb from e.height)) [
  | inl y ↦ rw y (h.0, All-from_height P from es h.1)
  | inr n ↦ rw n (All-from_height P from es h.1)
]

pub length-from_height-le : (from : ℕ) (es : List Entry) → length (from_height from es) ≤ length es
unfolding from_height
length-from_height-le from [] = omega arith
length-from_height-le from (e ∷ es) = ground (arith, length-from_height-le from es)

-- Cutting the records' bytes at a record is cutting the records.
pub take-records :
    (n : ℕ) (es : List Entry) → All IsEntry es → take (n * 80) (records es) ≡ records (take n es)
unfolding records
take-records zero es v = refl
take-records (suc n) [] v = take-nil (suc n * 80)
take-records (suc n) (e ∷ es) v =
    let more : suc n * 80 ≡ 80 + n * 80 = omega arith in
    rw (
      more,
      take-append_add 80 (n * 80) (entry_to_bytes e) (records es) (length-entry_to_bytes e v.0),
      take-records n es v.1,
    )
