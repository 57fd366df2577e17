-- ===== src/HeaderChain/Loading.antt =====
-- What `from_bytes` accepts: exactly the bytes of the linked chains.
use mnr.Common.{
  ℕ, zero, suc, ◌+◌, ◌*◌, ◌/◌, ◌%◌, ◌<◌, ◌≤◌, ◌^◌, ◌≡◌, ◌↔◌, inl, inr, refl, sym, ◌∙◌, ap, List, [],
  ◌∷◌, ◌++◌, append-nil, append_assoc, length, take, drop, replicate, length-append, length-drop,
  take-append-drop, take_add, drop-drop, length_part, All, All-append, All-take, All-drop, arith,
  ok, err, Result-cases, true, false, ltb, ◌==◌,
}
use mnr.Common.Bytes.{IsByte, IsBytes, le_bytes, from_le, word_bytes, bytes_discrete}
use mnr.HeaderChain.Store.{IsEntry, HeaderChain, ChainError, append, push, empty, len}
use mnr.HeaderChain.Codec.{
  slice, entry_from_bytes, file_header, records, to_bytes, load, load_body, from_bytes, any_nonzero,
  byte_at, magic,
}
use mnr.HeaderChain.Linkage.{IsLinked, append-IsLinked}
use mnr.HeaderChain.RoundTrip.{
  load_step, load-records, append-eq-push, records-append, length-records,
  entry_to_bytes-entry_from_bytes, entry_from_bytes-IsEntry,
}

-- A loaded chain: linked, its fields in range, and `bytes` are its records.
abbrev Loaded : HeaderChain → List ℕ → Type 0
Loaded c bytes = IsLinked c × All IsEntry c.entries × (records c.entries ≡ bytes)

load_fails :
    (n : ℕ) (body : List ℕ) (c : HeaderChain) (e : ChainError) (c' : HeaderChain)
    → append c (entry_from_bytes (take 80 body)) ≡ err e
    → load (suc n) body c ≡ ok c'
    → ⊥
unfolding load
load_fails n body c e c' h k = ground arith

push-Loaded :
    (c c' : HeaderChain) (raw bytes : List ℕ)
    → length raw ≡ 80
    → IsBytes raw
    → length c.entries < 2 ^ 64
    → append c (entry_from_bytes raw) ≡ ok c'
    → Loaded c bytes
    → Loaded c' (bytes ++ raw) × (length c'.entries ≡ length c.entries + 1)
push-Loaded c c' raw bytes size b fits h (linked, valid, is) =
    let e = entry_from_bytes raw in
    let pushed : c'.entries ≡ c.entries ++ e ∷ [] =
      ap (λ (x : HeaderChain). x.entries) (append-eq-push c e c' h) ∙ unfold push in refl in
    (
      (
        append-IsLinked c e c' linked fits h,
        rw pushed
            (All-append IsEntry c.entries (e ∷ []) valid (entry_from_bytes-IsEntry raw size b, tt)),
        rw (pushed, records-append c.entries (e ∷ []), is)
            (unfold records in rw (append-nil, entry_to_bytes-entry_from_bytes raw size b)),
      ),
      rw pushed (omega (arith, length-append c.entries (e ∷ []))),
    )

eq_nil_of_length : (xs : List ℕ) → length xs ≡ 0 → xs ≡ []
eq_nil_of_length [] h = refl
eq_nil_of_length (x ∷ xs) h = absurd (omega arith)

load_nothing : (body : List ℕ) (c c' : HeaderChain) → load zero body c ≡ ok c' → c ≡ c'
unfolding load
load_nothing body c c' h = cc

load-Loaded :
    (n : ℕ) (body bytes : List ℕ) (c c' : HeaderChain)
    → length body ≡ 80 * n
    → IsBytes body
    → length c.entries + n ≤ 2 ^ 64
    → load n body c ≡ ok c'
    → Loaded c bytes
    → Loaded c' (bytes ++ body)
load-Loaded zero body bytes c c' size b fits h was =
    let none_left = eq_nil_of_length body (omega arith) in
    rw (none_left, append-nil, ← load_nothing body c c' h) was
load-Loaded (suc n) body bytes c c' size b fits h was =
    elim (Result-cases (append c (entry_from_bytes (take 80 body)))) [
      | inl (c1, accepted) ↦
          let (now, more) =
            push-Loaded c c1 (take 80 body) bytes (length_part 0 80 body (omega arith))
              (All-take IsByte 80 body b) (omega arith) accepted was in
          let rest =
            load-Loaded n (drop 80 body) (bytes ++ take 80 body) c1 c'
              (omega (arith, length-drop 80 body)) (All-drop IsByte 80 body b) (omega arith)
              (sym (load_step n body c c1 accepted) ∙ h) now in
          rw (append_assoc, take-append-drop) at rest
      | inr (e, refused) ↦ absurd (load_fails n body c e c' refused h)
    ]

take_one : (i : ℕ) (xs : List ℕ) → i < length xs → take 1 (drop i xs) ≡ byte_at xs i ∷ []
unfolding byte_at
take_one i [] h = absurd (omega arith)
take_one zero (x ∷ xs) h = refl
take_one (suc i) (x ∷ xs) h = take_one i xs (omega arith)

all_zero : (xs : List ℕ) → any_nonzero xs ≡ false → xs ≡ replicate (length xs) 0
unfolding any_nonzero
all_zero [] h = refl
all_zero (x ∷ xs) h = ground (arith, all_zero xs)

-- The header's checks fix its 16 bytes.
header_is :
    (bytes : List ℕ)
    → IsBytes bytes
    → 16 ≤ length bytes
    → slice bytes 0 4 ≡ magic
    → from_le (slice bytes 4 8) ≡ 1
    → byte_at bytes 8 ≡ 0
    → any_nonzero (slice bytes 9 16) ≡ false
    → take 16 bytes ≡ file_header
unfolding file_header
header_is bytes b size m v n r =
    let four_wide = length_part 4 4 bytes (omega arith) in
    let version : take 4 (drop 4 bytes) ≡ le_bytes 4 1 =
      sym (
        word_bytes 4 (take 4 (drop 4 bytes)) four_wide
          (All-take IsByte 4 _ (All-drop IsByte 4 bytes b)))
      ∙ ap (le_bytes 4) v in
    let reserved : take 7 (drop 9 bytes) ≡ replicate 7 0 =
      all_zero (take 7 (drop 9 bytes)) r
      ∙ ap (λ (k : ℕ). replicate k 0) (length_part 9 7 bytes (omega arith)) in
    let network : take 1 (drop 8 bytes) ≡ 0 ∷ [] =
      take_one 8 bytes (omega arith) ∙ ap (λ (t : ℕ). t ∷ []) n in
    rw (
      take_add 4 12 bytes,
      m,
      take_add 4 8 (drop 4 bytes),
      version,
      drop-drop 4 4 bytes,
      take_add 1 7 (drop 8 bytes),
      network,
      drop-drop 8 1 bytes,
      reserved,
    )

-- What an accepted file has passed.
from_bytes_checks :
    (bytes : List ℕ) (c : HeaderChain)
    → from_bytes bytes ≡ ok c
    → (16 ≤ length bytes)
      × (slice bytes 0 4 ≡ magic)
      × (from_le (slice bytes 4 8) ≡ 1)
      × (byte_at bytes 8 ≡ 0)
      × (any_nonzero (slice bytes 9 16) ≡ false)
      × (load_body (drop 16 bytes) ≡ ok c)
unfolding from_bytes
from_bytes_checks bytes c h = ground arith

load_body_checks :
    (body : List ℕ) (c : HeaderChain)
    → load_body body ≡ ok c
    → (length body % 80 ≡ 0) × (load (length body / 80) body empty ≡ ok c)
unfolding load_body
load_body_checks body c h = ground arith

load_body-Loaded :
    (body : List ℕ) (c : HeaderChain)
    → IsBytes body
    → length body < 2 ^ 64
    → load_body body ≡ ok c
    → Loaded c body
load_body-Loaded body c b fits h =
    let (whole, loaded) = load_body_checks body c h in
    load-Loaded (length body / 80) body [] empty c (omega arith) b (omega arith) loaded
      (tt, tt, unfold records in refl)

pub length-to_bytes :
    (c : HeaderChain) → All IsEntry c.entries → length (to_bytes c) ≡ 16 + 80 * len c
unfolding to_bytes len file_header le_bytes
length-to_bytes c v = omega (arith, length-records c.entries v)

from_bytes_sound :
    (bytes : List ℕ) (c : HeaderChain)
    → IsBytes bytes
    → length bytes < 2 ^ 64
    → from_bytes bytes ≡ ok c
    → IsLinked c × All IsEntry c.entries × (bytes ≡ to_bytes c)
unfolding to_bytes
from_bytes_sound bytes c b fits h =
    let (size, m, v, n, r, body) = from_bytes_checks bytes c h in
    let (linked, valid, is) =
      load_body-Loaded (drop 16 bytes) c (All-drop IsByte 16 bytes b)
        (omega (arith, length-drop 16 bytes)) body in
    (linked, valid, rw (is, ← header_is bytes b size m v n r) (sym (take-append-drop 16 bytes)))

load_body-records :
    (c : HeaderChain)
    → IsLinked c
    → All IsEntry c.entries
    → length c.entries ≤ 2 ^ 64
    → load_body (records c.entries) ≡ ok c
unfolding load_body
load_body-records c l v fits =
    let size = length-records c.entries v in
    let whole : (length (records c.entries) % 80 == 0) ≡ true = ground (arith, size) in
    let count : length (records c.entries) / 80 ≡ length c.entries = omega (arith, size) in
    rw (whole, count) (load-records c.entries empty l v (omega arith))

pub from_bytes-to_bytes :
    (c : HeaderChain)
    → IsLinked c
    → All IsEntry c.entries
    → length c.entries ≤ 2 ^ 64
    → from_bytes (to_bytes c) ≡ ok c
unfolding from_bytes to_bytes file_header le_bytes from_le any_nonzero byte_at bytes_discrete
from_bytes-to_bytes c l v fits =
    let long : ltb (length (file_header ++ records c.entries)) 16 ≡ false = ground arith in
    rw long (load_body-records c l v fits)

-- `from_bytes` accepts a byte string exactly when it is the serialisation of the chain that it
-- returns, and that chain is linked from genesis with every field in the range of its type. So a
-- file with a wrong header, a broken link, or a cut record is refused, and a loaded file is written
-- back byte for byte. (The file is of a length that `usize` holds.)
pub from_bytes-eq-ok_iff :
    (bytes : List ℕ) (c : HeaderChain)
    → IsBytes bytes
    → length bytes < 2 ^ 64
    → (from_bytes bytes ≡ ok c) ↔ (IsLinked c × All IsEntry c.entries × (bytes ≡ to_bytes c))
unfolding len
from_bytes-eq-ok_iff bytes c b fits = (
  from_bytes_sound bytes c b fits,
  λ (linked, valid, is).
      let size = ap length is ∙ length-to_bytes c valid in
      rw is (from_bytes-to_bytes c linked valid (omega (arith, size))),
)
