-- ===== src/Tests/Claimed.antt =====
-- What answers about headers are worth, on the chain of three records.
use mnr.Common.{ℕ, ◌≡◌, ◌↔◌, refl, Option, some, List, [], ◌∷◌, ok, err}
use mnr.Wire.Answers.{BlockHeader}
use mnr.Common.Bytes.{bytes_discrete}
use mnr.HeaderChain.Store.{get}
use mnr.Verify.Checks.{hash_mismatch, verify_header_by_height, check_header_against_chain}
use mnr.Serve.Labels.{Verify}
use mnr.Relay.Checks.{Fault, rule, at, param_u64, answer_by_height, verify_headers_range}
use mnr.Relay.Headers.{
  IsWhole, IsConfirmed, IsWrong, verify_headers_range_iff, answer_by_height_iff,
  answer_by_height-IsWrong,
}
use mnr.Tests.Data.{three, three-IsLinked, hash_of}
use mnr.Tests.Values.{Val, heights, field, number, header_record, hex_of, json}

abbrev asked : Option Val
asked = some (heights 1 2)

abbrev first_told : BlockHeader Val
first_told = header_record 1 (hex_of 32 2) (hex_of 32 1) 110

-- The first header with a time that the chain's record does not have.
abbrev late : BlockHeader Val
late = header_record 1 (hex_of 32 2) (hex_of 32 1) 111

abbrev second_told : BlockHeader Val
second_told = header_record 2 (hex_of 32 3) (hex_of 32 2) 120

abbrev one : List ℕ → Option (Option (BlockHeader Val))
one body = some (some first_told)

abbrev late_one : List ℕ → Option (Option (BlockHeader Val))
late_one body = some (some late)

abbrev both : List ℕ → Option (Option (List (BlockHeader Val)))
both body = some (some (first_told ∷ second_told ∷ []))

verify_headers_range_iff_example :
    (verify_headers_range json one both asked [] three ≡ ok (at Verify.chain 2))
    ↔ IsWhole json one both
        (param_u64 json asked "start_height")
        (param_u64 json asked "end_height")
        []
        three
        2
verify_headers_range_iff_example =
    verify_headers_range_iff json one both asked [] three 2 three-IsLinked

answer_by_height_iff_example :
    (answer_by_height json one both asked [] three ≡ ok (at Verify.chain 1))
    ↔ IsConfirmed json one both (param_u64 json asked "height") [] three 1
answer_by_height_iff_example = answer_by_height_iff json one both asked [] three 1 three-IsLinked

abbrev time_lie : Fault
time_lie = rule (hash_mismatch (hash_of 2) (hash_of 2))

late_faulted : answer_by_height json late_one both asked [] three ≡ err time_lie
unfolding answer_by_height field number verify_header_by_height check_header_against_chain get
    bytes_discrete
late_faulted = refl

answer_by_height-IsWrong_example :
    (height : ℕ) × (param_u64 json asked "height" ≡ some height)
    × IsWrong json late_one both height [] three
answer_by_height-IsWrong_example =
    answer_by_height-IsWrong json late_one both asked [] three time_lie three-IsLinked late_faulted

range_on_chain : verify_headers_range json one both asked [] three ≡ ok (at Verify.chain 2)
unfolding verify_headers_range field number verify_header_by_height check_header_against_chain get
    bytes_discrete
range_on_chain = refl

-- The count of all heights wraps to none.
abbrev all_heights : Option Val
all_heights = some (heights 0 18446744073709551615)

abbrev nothing_told : List ℕ → Option (Option (List (BlockHeader Val)))
nothing_told body = some (some [])

empty_on_chain :
    verify_headers_range json one nothing_told all_heights [] three
    ≡ ok (at Verify.chain 18446744073709551615)
unfolding verify_headers_range field number
empty_on_chain = refl
