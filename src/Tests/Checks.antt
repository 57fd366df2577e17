-- ===== src/Tests/Checks.antt =====
-- The checks' theorems on the chain of three records, and with a crate whose blobs are small.
use mnr.Common.{ℕ, ◌+◌, ◌≡◌, ◌↔◌, inl, inr, refl, none, some, List, [], ◌∷◌, In, Result, ok, err}
use Prim.Native.String.{String}
use mnr.Common.Bytes.{bytes_discrete}
use mnr.Common.Sort.{contains, sort, insert}
use mnr.HeaderChain.Store.{get, hash_at}
use mnr.Hash.{trailing_bytes, Oxide, ParsedBlock, gen, v1, parse_block, read_whole, reject_trailing}
use mnr.Verify.Checks.{
  by_height, verify_block, ReportedHeader, entry_of, verify_header_by_height, verify_header_by_hash,
  full, in_block, verified, verify_tx, match_block, match_hash,
}
use mnr.Verify.Headers.{verify_header_by_height_iff, verify_header_by_hash_iff}
use mnr.Verify.Blocks.{IsExpected, verify_block_iff, IsAtOrBelow, HashesTo, verify_tx_iff}
use mnr.Verify.Quorum.{
  TipReport, QuorumTip, quorum_tip, group, add_report, join, keep_enough, max_group, max_from,
  not_above,
}
use mnr.Verify.Votes.{Voted}
use mnr.Verify.Winner.{IsQuorum, IsBloc, quorum_tip-IsQuorum}
use mnr.Verify.Median.{median}
use mnr.Tests.Data.{hash_of, three, three-IsLinked}

-- A crate whose blocks are their height and whose transactions are a byte.
abbrev read_byte : List ℕ → Result String (ℕ × ℕ)
read_byte [] = err "end of blob"
read_byte (b ∷ bs) = ok (b, 1)

abbrev toy : Oxide
toy = record {
  Block = ℕ;
  read_block = read_byte;
  block_number = λ b. b;
  hash_of_block = λ b. hash_of (b + 1);
  previous = λ b. hash_of b;
  timestamp = λ b. 100;
  hardfork_version = λ b. 16;
  hardfork_signal = λ b. 16;
  miner_transaction_hash = λ b. hash_of 50;
  transactions = λ b. [];
  Transaction = ℕ;
  read_transaction = read_byte;
  hash_of_transaction = λ t. hash_of t;
  version = λ t. v1;
  weight = λ t. 1;
  inputs = λ t. gen ∷ [];
  outputs = λ t. [];
  Pruned = ℕ;
  read_pruned = read_byte;
  hash_with_prunable_hash = λ t h. none;
}

abbrev block_two : ParsedBlock
block_two = record {
  hash = hash_of 3;
  height = 2;
  prev_hash = hash_of 2;
  timestamp = 100;
  major_version = 16;
  minor_version = 16;
  miner_tx_hash = hash_of 50;
  tx_hashes = [];
}

block_two_verified : verify_block toy (2 ∷ []) (by_height 2 three) ≡ ok block_two
unfolding verify_block parse_block read_whole reject_trailing match_block match_hash hash_at get
    bytes_discrete
block_two_verified = refl

trailing_refused : parse_block toy (2 ∷ 0 ∷ []) ≡ err (trailing_bytes 1)
unfolding parse_block read_whole reject_trailing
trailing_refused = refl

verify_block_iff_example :
    (verify_block toy (2 ∷ []) (by_height 2 three) ≡ ok block_two)
    ↔ ((parse_block toy (2 ∷ []) ≡ ok block_two) × IsExpected block_two (by_height 2 three))
verify_block_iff_example = verify_block_iff toy (2 ∷ []) (by_height 2 three) block_two

abbrev one_byte : List ℕ
one_byte = 2 ∷ []

verify_tx_iff_example :
    (verify_tx toy (full (6 ∷ [])) (hash_of 6) (in_block 1) 2 ≡ ok verified)
    ↔ (IsAtOrBelow (in_block 1) 2 × HashesTo toy (full (6 ∷ [])) (hash_of 6))
verify_tx_iff_example = verify_tx_iff toy (full (6 ∷ [])) (hash_of 6) (in_block 1) 2

abbrev reported : ReportedHeader
reported = record { height = 2; hash = hash_of 3; prev_hash = hash_of 2; timestamp = 120 }

verify_header_by_height_iff_example :
    (verify_header_by_height 2 reported three ≡ ok tt)
    ↔ ((reported.height ≡ 2) × (get three 2 ≡ some (entry_of reported)))
verify_header_by_height_iff_example = verify_header_by_height_iff 2 reported three three-IsLinked

verify_header_by_hash_iff_example :
    (verify_header_by_hash (hash_of 3) reported three ≡ ok tt)
    ↔ ((hash_of 3 ≡ hash_of 3) × (get three 2 ≡ some (entry_of reported)))
verify_header_by_hash_iff_example =
    verify_header_by_hash_iff (hash_of 3) reported three three-IsLinked

-- Two upstreams see one tip, a third one a higher block.
abbrev reports : List TipReport
reports =
    record { upstream = 5; height = 2; hash = hash_of 3 }
    ∷ record { upstream = 9; height = 3; hash = hash_of 4 }
    ∷ record { upstream = 4; height = 2; hash = hash_of 3 }
    ∷ []

abbrev agreed : QuorumTip
agreed = record { height = 2; hash = hash_of 3; agreeing = 4 ∷ 5 ∷ [] }

two_agree : quorum_tip reports 2 ≡ some agreed
unfolding quorum_tip group add_report join keep_enough max_group max_from not_above contains sort
    insert bytes_discrete
two_agree = refl

three_do_not : quorum_tip reports 3 ≡ none
unfolding quorum_tip group add_report join keep_enough max_group max_from not_above contains sort
    insert bytes_discrete
three_do_not = refl

quorum_tip-IsQuorum_example : IsQuorum reports 2 agreed
quorum_tip-IsQuorum_example = quorum_tip-IsQuorum reports 2 agreed two_agree

abbrev ninth : List ℕ
ninth = 9 ∷ []

ninth-Voted : (u : ℕ) → In u ninth → Voted reports 3 (hash_of 4) u
ninth-Voted u (inl e) = rw (← e) (inr (inl (refl, refl, refl)))
ninth-Voted u (inr m) = absurd m

one_voter : IsBloc reports 3 (hash_of 4) ninth
one_voter = (((λ m. m), tt), ninth-Voted)

abbrev four_values : List ℕ
four_values = 8 ∷ 2 ∷ 9 ∷ 4 ∷ []

median_of_four : median four_values ≡ some 4
unfolding median sort insert
median_of_four = refl
