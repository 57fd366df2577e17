-- ===== src/HeaderChain/RoundTrip.antt =====
-- A chain is read back from its bytes, and only the bytes of a linked chain are read at all.
use mnr.Common.{
  ℕ, suc, ◌+◌, ◌*◌, ◌≤◌, ◌^◌, ◌≡◌, refl, ◌∙◌, ap, List, [], ◌∷◌, ◌++◌, append-nil, append_assoc,
  length, take, drop, length-append, length-drop, take-append-drop, take-append_length,
  drop-append_length, take-drop_part, take-all, part-append-drop, length_part, All, All-take,
  All-drop, arith, ok,
}
use mnr.Common.Bytes.{
  IsByte, IsBytes, word_bytes, word-lt, le_bytes, length-le_bytes, from_le-le_bytes,
}
use mnr.HeaderChain.Store.{
  Hash, zero_hash, Entry, IsEntry, HeaderChain, append, append_after, push, len,
}
use mnr.HeaderChain.Codec.{slice, entry_to_bytes, entry_from_bytes, records, load}
use mnr.HeaderChain.Linkage.{LinkedFrom, end_hash, append-eq-ok_iff}

pub length-entry_to_bytes : (e : Entry) → IsEntry e → length (entry_to_bytes e) ≡ 80
unfolding entry_to_bytes
length-entry_to_bytes e v = omega (
  arith,
  length-append (le_bytes 8 e.height) (e.hash ++ (e.prev_hash ++ le_bytes 8 e.timestamp)),
  length-append e.hash (e.prev_hash ++ le_bytes 8 e.timestamp),
  length-append e.prev_hash (le_bytes 8 e.timestamp),
  length-le_bytes 8 e.height,
  length-le_bytes 8 e.timestamp,
)

-- The four fields of a record, side by side, are its four slices.
module _ (a b c d : List ℕ) (ha : length a ≡ 8) (hb : length b ≡ 32) (hc : length c ≡ 32) where
  slice_height : slice (a ++ (b ++ (c ++ d))) 0 8 ≡ a
  slice_height = take-append_length 8 a _ ha

  slice_hash : slice (a ++ (b ++ (c ++ d))) 8 40 ≡ b
  slice_hash = take-drop_part a b (c ++ d) 8 32 ha hb

  slice_prev : slice (a ++ (b ++ (c ++ d))) 40 72 ≡ c
  slice_prev =
      rw (← append_assoc a b (c ++ d))
        (take-drop_part (a ++ b) c d 40 32 (omega (arith, length-append a b)) hc)

  slice_time : length d ≡ 8 → slice (a ++ (b ++ (c ++ d))) 72 80 ≡ d
  slice_time hd =
      let front : length (a ++ (b ++ c)) ≡ 72 =
        omega (arith, length-append a (b ++ c), length-append b c) in
      rw
        (
          ← append_assoc b c d,
          ← append_assoc a (b ++ c) d,
          drop-append_length 72 (a ++ (b ++ c)) d front,
        )
        (take-all 8 d (omega arith))

pub entry_from_bytes-entry_to_bytes :
    (e : Entry) → IsEntry e → entry_from_bytes (entry_to_bytes e) ≡ e
unfolding entry_from_bytes entry_to_bytes
entry_from_bytes-entry_to_bytes e v =
    let a = le_bytes 8 e.height in
    let d = le_bytes 8 e.timestamp in
    let la = length-le_bytes 8 e.height in
    let hb = v.hash_fits.0 in
    let hc = v.prev_fits.0 in
    rw (
      slice_height a e.hash e.prev_hash d la hb hc,
      slice_hash a e.hash e.prev_hash d la hb hc,
      slice_prev a e.hash e.prev_hash d la hb hc,
      slice_time a e.hash e.prev_hash d la hb hc (length-le_bytes 8 e.timestamp),
      from_le-le_bytes 8 e.height v.height_fits,
      from_le-le_bytes 8 e.timestamp v.time_fits,
    )

-- 80 bytes are the bytes of the record that they are read as, and its fields are in range.
pub entry_to_bytes-entry_from_bytes :
    (raw : List ℕ) → length raw ≡ 80 → IsBytes raw → entry_to_bytes (entry_from_bytes raw) ≡ raw
unfolding entry_from_bytes entry_to_bytes
entry_to_bytes-entry_from_bytes raw h b =
    let first = take 8 raw in
    let last = take 8 (drop 72 raw) in
    let last_is : last ≡ drop 72 raw =
      take-all 8 (drop 72 raw) (omega (arith, length-drop 72 raw)) in
    rw
      (
        word_bytes 8 first (length_part 0 8 raw (omega arith)) (All-take IsByte 8 raw b),
        word_bytes 8 last (length_part 72 8 raw (omega arith))
            (All-take IsByte 8 (drop 72 raw) (All-drop IsByte 72 raw b)),
        last_is,
        part-append-drop 40 32 raw,
        part-append-drop 8 32 raw,
      )
      (take-append-drop 8 raw)

pub entry_from_bytes-IsEntry :
    (raw : List ℕ) → length raw ≡ 80 → IsBytes raw → IsEntry (entry_from_bytes raw)
unfolding entry_from_bytes
entry_from_bytes-IsEntry raw h b = record {
  height_fits =
      word-lt 8 (take 8 raw) (length_part 0 8 raw (omega arith)) (All-take IsByte 8 raw b);
  hash_fits = (
    length_part 8 32 raw (omega arith),
    All-take IsByte 32 (drop 8 raw) (All-drop IsByte 8 raw b),
  );
  prev_fits = (
    length_part 40 32 raw (omega arith),
    All-take IsByte 32 (drop 40 raw) (All-drop IsByte 40 raw b),
  );
  time_fits =
      word-lt 8 (take 8 (drop 72 raw)) (length_part 72 8 raw (omega arith))
        (All-take IsByte 8 (drop 72 raw) (All-drop IsByte 72 raw b));
}

-- An accepted record stands at the end of the chain, whatever the chain is.
pub append-eq-push :
    (c : HeaderChain) (e : Entry) (c' : HeaderChain) → append c e ≡ ok c' → c' ≡ push c e
unfolding append append_after
append-eq-push c e c' h = ground arith

pub records-append : (es fs : List Entry) → records (es ++ fs) ≡ records es ++ records fs
unfolding records
records-append [] fs = refl
records-append (e ∷ es) fs = rw (records-append es fs, append_assoc)

pub length-records : (es : List Entry) → All IsEntry es → length (records es) ≡ 80 * length es
unfolding records
length-records [] v = refl
length-records (e ∷ es) v = omega (
  arith,
  length-append (entry_to_bytes e) (records es),
  length-entry_to_bytes e v.0,
  length-records es v.1,
)

-- One round of `load`.
pub load_step :
    (n : ℕ) (body : List ℕ) (c c' : HeaderChain)
    → append c (entry_from_bytes (take 80 body)) ≡ ok c'
    → load (suc n) body c ≡ load n (drop 80 body) c'
unfolding load
load_step n body c c' h = rw h

-- A linked run splits at any record.
pub LinkedFrom-split :
    (h : ℕ) (p : Hash) (es : List Entry) (e : Entry) (fs : List Entry)
    → LinkedFrom h p (es ++ e ∷ fs)
    → LinkedFrom h p es × (e.height ≡ h + length es) × (e.prev_hash ≡ end_hash p es)
LinkedFrom-split h p [] e fs l = (tt, omega arith, l.1)
LinkedFrom-split h p (x ∷ es) e fs l =
    let (before, at, upon) = LinkedFrom-split (h + 1) x.hash es e fs l.2 in
    ((l.0, l.1, before), omega (arith, at), upon)

pub load-records :
    (es : List Entry) (c : HeaderChain)
    → LinkedFrom 0 zero_hash (c.entries ++ es)
    → All IsEntry es
    → length c.entries + length es ≤ 2 ^ 64
    → load (length es) (records es) c ≡ ok (record { entries = c.entries ++ es })
load-records [] c l v fits = rw append-nil (unfold load in refl)
load-records (e ∷ es) c l v fits =
    let (before, at, upon) = LinkedFrom-split 0 zero_hash c.entries e es l in
    let next : HeaderChain = record { entries = c.entries ++ e ∷ [] } in
    let size = length-entry_to_bytes e v.0 in
    let accepted : append c e ≡ ok next =
      (append-eq-ok_iff c e next before (omega arith)).1
        (unfold len in omega (arith, at), upon, refl) in
    let this : entry_from_bytes (take 80 (records (e ∷ es))) ≡ e =
      unfold records in
      rw (take-append_length 80 (entry_to_bytes e) (records es) size)
        (entry_from_bytes-entry_to_bytes e v.0) in
    let rest : drop 80 (records (e ∷ es)) ≡ records es =
      unfold records in drop-append_length 80 (entry_to_bytes e) (records es) size in
    let shape : (c.entries ++ e ∷ []) ++ es ≡ c.entries ++ e ∷ es =
      append_assoc c.entries (e ∷ []) es in
    load_step (length es) (records (e ∷ es)) c next (rw this accepted)
    ∙ ap (λ b. load (length es) b next) rest
    ∙ load-records es next (rw shape l) v.1 (omega (arith, length-append c.entries (e ∷ [])))
    ∙ ap (λ (t : List Entry). ok (record { entries = t })) shape
