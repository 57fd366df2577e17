-- ===== src/Wire/Spelling.antt =====
-- Text is decoded exactly when it spells the bytes, in small or capital letters.
use mnr.Common.{
  ℕ, ◌+◌, ◌-◌, ◌*◌, ◌/◌, ◌%◌, ◌<◌, ◌≤◌, ◌≡◌, ◌↔◌, refl, sym, ap, subst, ◌∙◌, inl, inr, Bool-cases,
  Option-cases, Result-cases, true, false, ◌&&◌, Option, none, some, List, [], ◌∷◌, length, ltb,
  leb, ◌==◌, ==_iff, if◌then◌else◌, Result, ok, err, arith,
}
use mnr.Common.Bytes.{IsBytes}
use mnr.Verify.Quorum.{TipReport}
use mnr.Wire.Hex.{WireError, hex_nibble, pair, decode_pairs, decode_hex, decode_hex32, tip_report}

-- The digit of a number below 16, and a digit's small letter.
abbrev pub digit : ℕ → ℕ
digit n = if ltb n 10 then 48 + n else 87 + n

abbrev pub small : ℕ → ℕ
small b = if leb 65 b && leb b 70 then b + 32 else b

-- The bytes written out in small digits.
abbrev pub encode_hex : List ℕ → List ℕ
encode_hex [] = []
encode_hex (b ∷ bs) = digit (b / 16) ∷ digit (b % 16) ∷ encode_hex bs

abbrev pub in_small : List ℕ → List ℕ
in_small [] = []
in_small (c ∷ cs) = small c ∷ in_small cs

hex_nibble_iff : (c n : ℕ) → (hex_nibble c ≡ some n) ↔ ((n < 16) × (small c ≡ digit n))
unfolding hex_nibble
hex_nibble_iff c n = ((λ h. ground arith), λ h. ground arith)

pair-both :
    (o p : Option ℕ) (byte : ℕ)
    → pair o p ≡ some byte
    → (hi : ℕ) × (lo : ℕ) × (o ≡ some hi) × (p ≡ some lo) × (byte ≡ hi * 16 + lo)
unfolding pair
pair-both none p byte h = cc
pair-both (some hi) none byte h = cc
pair-both (some hi) (some lo) byte h = (hi, lo, refl, refl, cc)

pair-some :
    (a b byte : ℕ)
    → pair (hex_nibble a) (hex_nibble b) ≡ some byte
    → (byte < 256) × (small a ≡ digit (byte / 16)) × (small b ≡ digit (byte % 16))
pair-some a b byte h =
    let (hi, lo, high, low, is) = pair-both (hex_nibble a) (hex_nibble b) byte h in
    let (hi_fits, hi_is) = (hex_nibble_iff a hi).0 high in
    let (lo_fits, lo_is) = (hex_nibble_iff b lo).0 low in
    let quotient : hi ≡ byte / 16 = omega arith in
    let remainder : lo ≡ byte % 16 = omega arith in
    (omega arith, hi_is ∙ ap digit quotient, lo_is ∙ ap digit remainder)

pair-digits :
    (a b byte : ℕ)
    → byte < 256
    → small a ≡ digit (byte / 16)
    → small b ≡ digit (byte % 16)
    → pair (hex_nibble a) (hex_nibble b) ≡ some byte
unfolding pair
pair-digits a b byte h ha hb =
    let whole : byte / 16 * 16 + byte % 16 ≡ byte = omega arith in
    rw
      (
        (hex_nibble_iff a (byte / 16)).1 (omega arith, ha),
        (hex_nibble_iff b (byte % 16)).1 (omega arith, hb),
      )
      (ap some whole)

decode_pairs-spells :
    (whole s bs : List ℕ)
    → length s % 2 ≡ 0
    → decode_pairs whole s ≡ ok bs
    → IsBytes bs × (in_small s ≡ encode_hex bs)
unfolding decode_pairs
decode_pairs-spells whole [] bs even h =
    let nothing : bs ≡ [] = unfold decode_pairs in cc in rw nothing (tt, refl)
decode_pairs-spells whole (a ∷ []) bs even h = absurd (omega arith)
decode_pairs-spells whole (a ∷ b ∷ s) bs even h =
    elim (Option-cases (pair (hex_nibble a) (hex_nibble b))) [
      | inl bad ↦ cc (rw (bad, decode_pairs) at h)
      | inr (byte, read) ↦ elim (Result-cases (decode_pairs whole s)) [
        | inr (e, failed) ↦ cc (rw (read, failed, decode_pairs) at h)
        | inl (rest, done) ↦
            let is : byte ∷ rest ≡ bs = cc (rw (read, done, decode_pairs) at h) in
            let (fits, first, second) = pair-some a b byte read in
            let (bytes, spelt) = decode_pairs-spells whole s rest (omega arith) done in
            rw (sym is) ((fits, bytes), cc)
      ]
    ]

decode_pairs-encode_hex :
    (whole s bs : List ℕ) → IsBytes bs → in_small s ≡ encode_hex bs → decode_pairs whole s ≡ ok bs
unfolding decode_pairs
decode_pairs-encode_hex whole [] [] h e = refl
decode_pairs-encode_hex whole [] (b ∷ bs) h e = cc
decode_pairs-encode_hex whole (a ∷ []) [] h e = cc
decode_pairs-encode_hex whole (a ∷ []) (b ∷ bs) h e = cc
decode_pairs-encode_hex whole (a ∷ b ∷ s) [] h e = cc
decode_pairs-encode_hex whole (a ∷ b ∷ s) (byte ∷ bs) h e =
    let first : small a ≡ digit (byte / 16) = cc in
    let second : small b ≡ digit (byte % 16) = cc in
    let others : in_small s ≡ encode_hex bs = cc in
    rw
      (
        pair-digits a b byte h.0 first second,
        decode_pairs-encode_hex whole s bs h.1 others,
        decode_pairs,
      )
      refl

length-in_small : (s bs : List ℕ) → in_small s ≡ encode_hex bs → length s % 2 ≡ 0
length-in_small [] bs e = refl
length-in_small (a ∷ []) [] e = cc
length-in_small (a ∷ []) (b ∷ bs) e = cc
length-in_small (a ∷ b ∷ s) [] e = cc
length-in_small (a ∷ b ∷ s) (c ∷ bs) e =
    let others : in_small s ≡ encode_hex bs = cc in omega (arith, length-in_small s bs others)

-- `decode_hex` returns a byte string exactly for the texts that are its hexadecimal digits, in small
-- or capital letters: a text of odd length or with any other character is refused.
pub decode_hex-eq-ok_iff :
    (s bs : List ℕ) → (decode_hex s ≡ ok bs) ↔ (IsBytes bs × (in_small s ≡ encode_hex bs))
unfolding decode_hex
decode_hex-eq-ok_iff s bs = (
  (λ h.
      let even : length s % 2 ≡ 0 = ground arith in
      let pairs : decode_pairs s s ≡ ok bs = ground arith in decode_pairs-spells s s bs even pairs),
  λ (bytes, spelt).
      let even : (length s % 2 == 0) ≡ true = ground (arith, length-in_small s bs spelt) in
      rw even (decode_pairs-encode_hex s s bs bytes spelt),
)

positive : (n : ℕ) → (n == 0) ≡ false → 1 ≤ n
positive n h = ground arith

-- The report of a success.
abbrev report_in : TipReport → Result WireError TipReport → TipReport
report_in other (ok r) = r
report_in other (err e) = other

-- A node's report of its tip is accepted exactly when its chain is not empty and its hash is the
-- spelling of 32 bytes: the height of the tip is then one less than the count of blocks.
pub tip_report-eq-ok_iff :
    (height : ℕ) (text : List ℕ) (upstream : ℕ) (r : TipReport)
    → (tip_report height text upstream ≡ ok r) ↔ (
        (r.upstream ≡ upstream)
        × (height ≡ r.height + 1)
        × (length r.hash ≡ 32)
        × IsBytes r.hash
        × (in_small text ≡ encode_hex r.hash))
unfolding tip_report decode_hex32
tip_report-eq-ok_iff height text upstream r = (
  (λ h. elim (Bool-cases (height == 0)) [
    | inl z ↦ cc (rw z at h)
    | inr nz ↦ elim (Result-cases (decode_hex text)) [
      | inr (e, failed) ↦ cc (rw (nz, failed) at h)
      | inl (bs, done) ↦ elim (Bool-cases (length bs == 32)) [
        | inr other ↦ cc (rw (nz, done, other) at h)
        | inl size ↦
            let is = ap (report_in r) (rw (nz, done, size) at h) in
            let hash : bs ≡ r.hash = ap (λ (x : TipReport). x.hash) is in
            let (bytes, spelt) = (decode_hex-eq-ok_iff text bs).0 done in
            (
              sym (ap (λ (x : TipReport). x.upstream) is),
              omega (arith, ap (λ (x : TipReport). x.height) is, positive height nz),
              rw (sym hash) ((==_iff (length bs) 32).0 size),
              subst IsBytes hash bytes,
              spelt ∙ ap encode_hex hash,
            )
      ]
    ]
  ]),
  λ (from, count, size, bytes, spelt).
      let some_block : (height == 0) ≡ false = ground arith in
      let done = (decode_hex-eq-ok_iff text r.hash).1 (bytes, spelt) in
      let whole : (length r.hash == 32) ≡ true = ground arith in
      let below : height - 1 ≡ r.height = omega arith in
      rw (some_block, done, whole, below, sym from) refl,
)
