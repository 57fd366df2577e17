-- ===== src/Chain/Reopen.antt =====
-- What `open` makes of a file that a run of the relay left, a crash inside an append included.
use Prim.Native.String.{String}
use mnr.Common.{
  ℕ, ◌+◌, ◌-◌, ◌*◌, ◌%◌, ◌≤◌, ◌<◌, ◌^◌, ◌≡◌, ◌≢◌, ◌⊎◌, ◌∙◌, refl, ap, inl, inr, some, List, [], ◌∷◌,
  ◌++◌, append-nil, length, take, All, length-append, take-append_length, arith, ltb, ◌==◌, true,
  false, Result, ok, err, Bool-cases, Result-cases,
}
use mnr.HeaderChain.Store.{IsEntry, HeaderChain, len}
use mnr.HeaderChain.Codec.{to_bytes, from_bytes}
use mnr.HeaderChain.Linkage.{IsLinked}
use mnr.HeaderChain.Loading.{length-to_bytes, from_bytes-to_bytes}
use mnr.Chain.Sync.{Disk, IsReliable, ChainStore}
use mnr.Chain.Opening.{
  OpenError, io, OpenCalls, has_partial, cut_reported, drop_partial, open_bytes, after_cut,
  open_store, opened,
}

open_bytes_filled :
    (d : Disk) (calls : OpenCalls) (now : ℕ) (bytes file : List ℕ) (c : HeaderChain)
    → 1 ≤ length bytes
    → from_bytes bytes ≡ ok c
    → open_bytes d calls now (bytes, file) ≡ ok (opened c now (some file))
unfolding open_bytes
open_bytes_filled d calls now [] file c h e = absurd (omega arith)
open_bytes_filled d calls now (b ∷ bytes) file c h e = rw (e, open_bytes) refl

whole-has_partial :
    (whole : List ℕ) (n : ℕ) → length whole ≡ 16 + 80 * n → has_partial (whole ++ []) ≡ false
unfolding has_partial
whole-has_partial whole n size =
    let none_over : ((length whole - 16) % 80 == 0) ≡ true = ground (arith, size) in
    rw (append-nil whole, none_over)
      (elim (Bool-cases (ltb 16 (length whole))) [ inl y ↦ rw y refl | inr n ↦ rw n refl ])

cut-has_partial :
    (whole : List ℕ) (b : ℕ) (bs : List ℕ) (n : ℕ)
    → length whole ≡ 16 + 80 * n
    → length (b ∷ bs) < 80
    → (has_partial (whole ++ b ∷ bs) ≡ true)
      × ((length (whole ++ b ∷ bs) - 16) % 80 ≡ length (b ∷ bs))
unfolding has_partial
cut-has_partial whole b bs n size less =
    let total = length-append whole (b ∷ bs) in
    let long : ltb 16 (length (whole ++ b ∷ bs)) ≡ true = ground (arith, total, size) in
    let over : (length (whole ++ b ∷ bs) - 16) % 80 ≡ length (b ∷ bs) = omega (arith, total) in
    let some_over : (length (b ∷ bs) == 0) ≡ false = ground arith in
    (rw (over, long, some_over) refl, over)

drop_partial_is :
    (d : Disk) (whole partial : List ℕ) (n : ℕ)
    → IsReliable d
    → length whole ≡ 16 + 80 * n
    → length partial < 80
    → drop_partial d (whole ++ partial) ≡ (whole, whole)
unfolding drop_partial
drop_partial_is d whole [] n r size less =
    rw (whole-has_partial whole n size) (rw (append-nil whole) refl)
drop_partial_is d whole (b ∷ bs) n r size less =
    let total = length-append whole (b ∷ bs) in
    let (partial, over) = cut-has_partial whole b bs n size less in
    let keep : length (whole ++ b ∷ bs) - length (b ∷ bs) ≡ length whole = omega (arith, total) in
    let cut : take (length whole) (whole ++ b ∷ bs) ≡ whole =
      take-append_length (length whole) whole (b ∷ bs) refl in
    let file = r.cuts (whole ++ b ∷ bs) (length whole) (omega (arith, total)) in
    rw (partial, over, keep, file, cut) refl

-- Opening succeeds with this store, or the cut of a partial record reports an error, which is returned.
abbrev pub IsReopened : OpenCalls → List ℕ → ChainStore → Result OpenError ChainStore → Type 0
IsReopened calls partial s result =
    (((partial ≡ []) ⊎ (calls.cut ≡ ok tt)) × (result ≡ ok s))
    ⊎ ((partial ≢ []) × ((e : String) × (calls.cut ≡ err e) × (result ≡ err (io e))))

cut_cases :
    (calls : OpenCalls) (whole partial : List ℕ) (n : ℕ)
    → length whole ≡ 16 + 80 * n
    → length partial < 80
    → (((partial ≡ []) ⊎ (calls.cut ≡ ok tt)) × (cut_reported calls (whole ++ partial) ≡ ok tt))
      ⊎ ((partial ≢ [])
          × ((e : String) × (calls.cut ≡ err e) × (cut_reported calls (whole ++ partial) ≡ err e)))
unfolding cut_reported
cut_cases calls whole [] n size less = inl (inl refl, rw (whole-has_partial whole n size) refl)
cut_cases calls whole (b ∷ bs) n size less =
    let (partial, _) = cut-has_partial whole b bs n size less in
    elim (Result-cases calls.cut) [
      | inl (u, is) ↦ inl (inr is, rw partial is)
      | inr (e, is) ↦ inr ((λ h. cc), (e, is, rw partial is))
    ]

-- On a disk that does what it is told, opening the file of a linked chain, behind which a crash left
-- part of a record, gives the chain back, with the file cut to the chain's bytes, a search window of
-- 20, no reorg counted and the time as the epoch; unless there is such a part and the calls that cut
-- it off report an error, which is then returned.
pub open_store-to_bytes :
    (d : Disk) (calls : OpenCalls) (now : ℕ) (c : HeaderChain) (partial : List ℕ)
    → IsReliable d
    → IsLinked c
    → All IsEntry c.entries
    → length c.entries ≤ 2 ^ 64
    → length partial < 80
    → IsReopened calls partial
        (opened c now (some (to_bytes c)))
        (open_store d calls now (some (ok (to_bytes c ++ partial))))
unfolding open_store
open_store-to_bytes d calls now c partial r l v fits less =
    let size : length (to_bytes c) ≡ 16 + 80 * length c.entries =
      unfold len in length-to_bytes c v in
    elim (cut_cases calls (to_bytes c) partial (length c.entries) size less) [
      | inl (fine, is) ↦ inl (
        fine,
        ap (after_cut d calls now (to_bytes c ++ partial)) is
            ∙ ap (open_bytes d calls now)
                (drop_partial_is d (to_bytes c) partial (length c.entries) r size less)
            ∙ open_bytes_filled d calls now (to_bytes c) (to_bytes c) c (omega (arith, size))
                (from_bytes-to_bytes c l v fits),
      )
      | inr (some_part, (e, is, failed)) ↦
          inr (some_part, (e, is, ap (after_cut d calls now (to_bytes c ++ partial)) failed))
    ]
