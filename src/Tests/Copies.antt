-- ===== src/Tests/Copies.antt =====
-- Copies of a header range from two upstreams, and from three.
use mnr.Common.{
  map, inl, inr, ℕ, ◌+◌, ◌-◌, ◌≡◌, refl, true, false, some, List, [], ◌∷◌, length, arith, ok, ◌==◌,
}
use mnr.Common.Bytes.{bytes_discrete}
use mnr.Common.Sort.{Distinct, contains}
use mnr.HeaderChain.Store.{Entry}
use mnr.Verify.Checks.{ReportedHeader}
use mnr.Chain.Fetch.{
  Answer, answered, headers, fetch_range, check_range, check_copies, check_copy, is_upon,
}
use mnr.Chain.Agree.{
  Upstreams, fetch_agreed, choose, keep, copies_of, agree, agree_groups, group_copies, add_copy,
  same_run, same_entry, largest, judge, ends_on, refusals, blames, with_refusals, chosen, faults_of,
  differs_at, differs,
}
use mnr.Chain.Copies.{IsRun}
use mnr.Chain.Agreed.{IsUnanimous, fetch_agreed-IsRun}
use mnr.Tests.Data.{first, second, other, quorum_at_second}

abbrev as_reported : Entry → ReportedHeader
as_reported e = record {
  height = e.height;
  hash = e.hash;
  prev_hash = e.prev_hash;
  timestamp = e.timestamp;
}

abbrev true_answer : Answer
true_answer = answered 200 (headers (some (as_reported first) ∷ some (as_reported second) ∷ []))

abbrev false_answer : Answer
false_answer = answered 200 (headers (some (as_reported first) ∷ some (as_reported other) ∷ []))

copy_passes : fetch_range true_answer 1 2 ≡ ok (first ∷ second ∷ [])
unfolding fetch_range check_range check_copies check_copy is_upon bytes_discrete
copy_passes = refl

-- The last one is on another branch if it is asked.
abbrev nodes : List ℕ → Upstreams
nodes ranked = record {
  ranked = ranked;
  is_owned = λ id. id == 4;
  has_token = λ id. true;
  answers = λ id. elim (id == 6) [ true ↦ false_answer | false ↦ true_answer ];
}

two_agree_on :
    (fetch_agreed (nodes (5 ∷ 4 ∷ [])) 2 1 2 quorum_at_second).agreed ≡ some (first ∷ second ∷ [])
unfolding fetch_agreed choose keep copies_of agree agree_groups group_copies add_copy same_run
    same_entry largest judge ends_on refusals blames with_refusals fetch_range check_range
    check_copies check_copy is_upon bytes_discrete
two_agree_on = refl

one_differs :
    (fetch_agreed (nodes (5 ∷ 4 ∷ 6 ∷ [])) 2 1 2 quorum_at_second).faults ≡ (6, differs 2) ∷ []
unfolding fetch_agreed choose keep copies_of agree agree_groups group_copies add_copy same_run
    same_entry largest judge ends_on refusals blames with_refusals fetch_range check_range
    check_copies check_copy is_upon faults_of differs_at contains bytes_discrete
one_differs = refl

fetch_agreed-IsRun_example :
    IsRun 1 (first ∷ second ∷ [])
    × (length (first ∷ second ∷ []) ≡ 2 - 1 + 1)
    × Distinct
        (map (λ c. c.upstream) (copies_of (nodes (5 ∷ 4 ∷ [])) 1 2 (chosen (nodes (5 ∷ 4 ∷ [])) 2)))
    × IsUnanimous 2 quorum_at_second
        (copies_of (nodes (5 ∷ 4 ∷ [])) 1 2 (chosen (nodes (5 ∷ 4 ∷ [])) 2))
        (first ∷ second ∷ [])
fetch_agreed-IsRun_example =
    fetch_agreed-IsRun (nodes (5 ∷ 4 ∷ [])) 2 1 2 quorum_at_second (first ∷ second ∷ [])
      (omega arith) ((λ m. elim m [ inl e ↦ omega (arith, e) | inr z ↦ absurd z ]), ((λ m. m), tt))
      two_agree_on
