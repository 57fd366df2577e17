-- ===== src/Tests/Reports.antt =====
-- A node's report of its tip.
use mnr.Common.{ℕ, ◌≡◌, refl, List, [], ◌∷◌, replicate, ok, err}
use mnr.Verify.Quorum.{TipReport}
use mnr.Wire.Hex.{bad_hex, hex_nibble, pair, decode_pairs, decode_hex, decode_hex32, tip_report}
use mnr.Tests.Data.{hash_of}

-- "aF0c"
abbrev letters : List ℕ
letters = 97 ∷ 70 ∷ 48 ∷ 99 ∷ []

letters_decoded : decode_hex letters ≡ ok (0xaf ∷ 0x0c ∷ [])
unfolding decode_hex decode_pairs pair hex_nibble
letters_decoded = refl

odd_refused : decode_hex (97 ∷ []) ≡ err (bad_hex (97 ∷ []))
unfolding decode_hex decode_pairs pair hex_nibble
odd_refused = refl

abbrev tip_of_three : TipReport
tip_of_three = record { upstream = 5; height = 2; hash = hash_of 0x33 }

reported_tip : tip_report 3 (replicate 64 51) 5 ≡ ok tip_of_three
unfolding tip_report decode_hex32 decode_hex decode_pairs pair hex_nibble
reported_tip = refl
