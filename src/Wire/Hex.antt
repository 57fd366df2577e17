-- ===== src/Wire/Hex.antt =====
-- The decoding of hexadecimal text, and a node's report of its tip. Text is its bytes.
use mnr.Common.{
  ℕ, ◌+◌, ◌-◌, ◌*◌, ◌%◌, ◌&&◌, not, Option, none, some, List, [], ◌∷◌, length, leb, ◌==◌,
  if◌then◌else◌, Result, ok, err, ◌>>=◌,
}
use mnr.HeaderChain.Store.{Hash}
use mnr.Verify.Quorum.{TipReport}

pub data WireError : Type 0 where
  bad_hex : List ℕ → WireError
  no_tip : WireError

unfoldable pub hex_nibble : ℕ → Option ℕ
hex_nibble b =
    if leb 48 b && leb b 57
    then some (b - 48)
    else if leb 97 b && leb b 102
    then some (b - 97 + 10)
    else if leb 65 b && leb b 70
    then some (b - 65 + 10)
    else none

-- One byte of two digits: `(hi << 4) | lo`.
unfoldable pub pair : Option ℕ → Option ℕ → Option ℕ
pair none lo = none
pair (some hi) none = none
pair (some hi) (some lo) = some (hi * 16 + lo)

-- The loop over the pairs; `whole` is the text for the error.
unfoldable pub decode_pairs : List ℕ → List ℕ → Result WireError (List ℕ)
unfolding pair hex_nibble
decode_pairs whole [] = ok []
decode_pairs whole (a ∷ []) = ok []
decode_pairs whole (a ∷ b ∷ s) =
    let rest = decode_pairs whole s in
    elim (pair (hex_nibble a) (hex_nibble b)) [
      | none ↦ err (bad_hex whole)
      | some byte ↦ rest >>= λ bs. ok (byte ∷ bs)
    ]

unfoldable pub decode_hex : List ℕ → Result WireError (List ℕ)
unfolding decode_pairs
decode_hex s = if not (length s % 2 == 0) then err (bad_hex s) else decode_pairs s s

unfoldable pub decode_hex32 : List ℕ → Result WireError Hash
unfolding decode_hex
decode_hex32 s = decode_hex s >>= λ bs. if length bs == 32 then ok bs else err (bad_hex s)

-- `GetInfoResult::tip_report`, of the answer's `height` and `top_block_hash`.
unfoldable pub tip_report : ℕ → List ℕ → ℕ → Result WireError TipReport
unfolding decode_hex32
tip_report height top_block_hash upstream =
    if height == 0
    then err no_tip
    else decode_hex32 top_block_hash >>= λ hash.
        ok (record { upstream = upstream; height = height - 1; hash = hash })
