-- ===== src/Tests/Headers.antt =====
-- The header chain's theorems on a chain of three records.
use mnr.Common.{
  ◌+◌, ◌<◌, ◌^◌, ◌≡◌, ◌↔◌, ◌⊎◌, refl, none, some, List, [], ◌∷◌, All, arith, ok, err, false,
}
use mnr.Common.Bytes.{bytes_discrete}
use mnr.HeaderChain.Store.{
  zero_hash, IsEntry, height_gap, prev_mismatch, len, get, push, append, append_after, truncate,
  fork_point, fork_scan, fork_update, hash_at, safety_line, tip,
}
use mnr.HeaderChain.Codec.{to_bytes, from_bytes}
use mnr.HeaderChain.Linkage.{IsLinked, end_hash, append-eq-ok_iff}
use mnr.HeaderChain.Fork.{Agrees, LastAgreement, fork_point_last}
use mnr.HeaderChain.Loading.{from_bytes-eq-ok_iff, length-to_bytes}
use mnr.Hash.{Input, to_key, v1, fee_of, any_gen, input_amounts, output_amounts}
use mnr.Hash.Fees.{total, fee_of-v1_iff}
use mnr.Tests.Data.{
  hash_of, genesis, first, second, other, two, three, two-IsLinked, three-IsEntry, to_bytes-IsBytes,
}

append-second : append two second ≡ ok three
unfolding append append_after push bytes_discrete
append-second = refl

append_gap : append two genesis ≡ err (height_gap 2 0)
unfolding append append_after push bytes_discrete
append_gap = refl

append_mismatch : append two (record second { prev_hash = zero_hash }) ≡ err (prev_mismatch 2)
unfolding append append_after push bytes_discrete
append_mismatch = refl

truncate_at_first : truncate three 1 ≡ (two, 1)
unfolding truncate
truncate_at_first = refl

fork_at_first : fork_point three (first ∷ other ∷ []) ≡ some 1
unfolding fork_point fork_scan fork_update hash_at get bytes_discrete
fork_at_first = refl

line_below_tip : safety_line three 10 ≡ some 0
unfolding safety_line tip
line_below_tip = refl

append-eq-ok_iff_example :
    (append two second ≡ ok three)
    ↔ ((2 ≡ len two) × (hash_of 2 ≡ end_hash zero_hash two.entries) × (three ≡ three))
append-eq-ok_iff_example = append-eq-ok_iff two second three two-IsLinked (omega arith)

fork_point_last_example :
    (All (λ e. ¬ Agrees three e) (first ∷ other ∷ [])
      × (fork_point three (first ∷ other ∷ []) ≡ none))
    ⊎ LastAgreement three (first ∷ other ∷ []) (fork_point three (first ∷ other ∷ []))
fork_point_last_example = fork_point_last three (first ∷ other ∷ [])

from_bytes-eq-ok_iff_example :
    (from_bytes (to_bytes three) ≡ ok three)
    ↔ (IsLinked three × All IsEntry three.entries × (to_bytes three ≡ to_bytes three))
from_bytes-eq-ok_iff_example =
    from_bytes-eq-ok_iff (to_bytes three) three (to_bytes-IsBytes three three-IsEntry)
      (unfold len in omega (arith, length-to_bytes three three-IsEntry))

-- 9 in, 5 out: a fee of 4.
abbrev paid : List Input
paid = to_key (some 9) (hash_of 1) ∷ []

fee_of-v1_iff_example : (fee_of v1 paid (some 5 ∷ []) ≡ some 4) ↔ (
    (any_gen paid ≡ false)
    × (total (input_amounts paid) < 2 ^ 64)
    × (total (output_amounts (some 5 ∷ [])) < 2 ^ 64)
    × (total (input_amounts paid) ≡ total (output_amounts (some 5 ∷ [])) + 4))
fee_of-v1_iff_example = fee_of-v1_iff paid (some 5 ∷ []) 4
