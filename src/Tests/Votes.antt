-- ===== src/Tests/Votes.antt =====
-- The vote on consensus state, the medians of fees and the tier of answers, on small inputs.
use Prim.Native.String.{String}
use mnr.Common.{
  inl, inr, ℕ, ◌*◌, ◌<◌, ◌≤◌, ◌≡◌, refl, true, false, Option, none, some, List, [], ◌∷◌, length,
  Result, ok, err, arith, ℕ_discrete, take,
}
use mnr.Common.Sort.{count}
use mnr.Verify.Median.{within}
use mnr.Consensus.Vote.{Answer, Keyed, Reduced, reduce_keyed, best_group, vote, tally, members_of}
use mnr.Consensus.Reduced.{IsReduced, reduce_keyed-IsReduced}
use mnr.Consensus.Fees.{Parsed, parse_all, fee_median, composed, fees_of}
use mnr.Consensus.FeeRange.{fee_median-within}
use mnr.Consensus.Refresh.{SwrEntry, fetch, choose, ask_count, candidates}
use mnr.Consensus.Trust.{IsSound, fetch-IsSound}
use mnr.Consensus.Swr.{swr, freshness_at}
use mnr.Consensus.Windows.{IsServed, swr-IsServed, Leaves, swr-Leaves}
use mnr.Serve.Labels.{Status}
use mnr.Tests.Data.{three, three-IsLinked}
use mnr.Tests.Values.{Val, header, fee, estimate, fee_estimate, json, hex_of}

abbrev answer_of : {V : Type 0} → ℕ → V → Answer V
answer_of u v = record { upstream = u; value = v }

abbrev three_votes : Keyed ℕ ℕ
three_votes = (some 5, answer_of 4 50) ∷ (some 7, answer_of 2 70) ∷ (some 7, answer_of 9 71) ∷ []

-- Two against the best ranked.
outvoted :
    reduce_keyed ℕ_discrete three_votes
    ≡ some (record { value = 70; agreeing = some 2; members = 2 ∷ 9 ∷ []; served = 2 })
unfolding reduce_keyed best_group vote tally members_of ℕ_discrete
outvoted = refl

reduce_keyed-IsReduced_example :
    (r : Reduced ℕ) × (reduce_keyed ℕ_discrete three_votes ≡ some r)
    × IsReduced ℕ_discrete three_votes r r.agreeing
reduce_keyed-IsReduced_example =
    reduce_keyed-IsReduced ℕ_discrete (some 5, answer_of 4 50)
      ((some 7, answer_of 2 70) ∷ (some 7, answer_of 9 71) ∷ [])

-- Two of three estimates are near 20: the third does not count.
abbrev estimates : List (Answer Val)
estimates = answer_of 1 (fee 900) ∷ answer_of 2 (fee 20) ∷ answer_of 3 (fee 21) ∷ []

abbrev others : Parsed Val
others = (estimate 20, answer_of 2 (fee 20)) ∷ (estimate 21, answer_of 3 (fee 21)) ∷ []

estimates_parsed : parse_all json estimates ≡ (estimate 900, answer_of 1 (fee 900)) ∷ others
unfolding parse_all fee_estimate
estimates_parsed = refl

two_near :
    length ((estimate 900, answer_of 1 (fee 900)) ∷ others)
    < 2 * count (within 19 22) (fees_of ((estimate 900, answer_of 1 (fee 900)) ∷ others))
unfolding count estimate
two_near = omega arith

fee_median-within_example :
    (m : ℕ) × (fees : Option (List ℕ)) × (fee_median json estimates
      ≡ some (
          composed json
            (record (estimate 900) { fee = m; fees = fees })
            (answer_of 1 (fee 900))
            ((estimate 900, answer_of 1 (fee 900)) ∷ others)))
    × (19 ≤ m)
    × (m ≤ 22)
fee_median-within_example =
    fee_median-within json estimates (estimate 900) (answer_of 1 (fee 900)) others 19 22
      estimates_parsed two_near

-- Every upstream has a token, and tells the last header of the chain of three.
abbrev tell : ℕ → Option Val
tell id = some (header 2 (hex_of 32 3) (hex_of 32 2) 120)

fetch-IsSound_example :
    (result : Result String (SwrEntry × List ℕ)) × (fetch json "get_last_block_header"
        (some 2)
        three
        5
        (λ id. true)
        tell
        (4 ∷ 1 ∷ [])
      ≡ some result)
    × IsSound json "get_last_block_header"
        (some 2)
        three
        tell
        (choose ask_count (λ id. true) (take candidates (4 ∷ 1 ∷ [])))
        result
fetch-IsSound_example =
    fetch-IsSound json "get_last_block_header" (some 2) three 5 (λ id. true) tell (4 ∷ 1 ∷ [])
      three-IsLinked ((λ m. elim m [ inl e ↦ omega (arith, e) | inr z ↦ absurd z ]), ((λ m. m), tt))

-- An entry of four seconds ago.
abbrev old : SwrEntry
old = record { body = []; verify = "majority"; agreeing = some (2, 3); fetched = 1000 }

swr-IsServed_example :
    IsServed 5000
      (some old)
      none
      (err "no upstream answered")
      (swr false false (some old) none (err "no upstream answered") 5000).answer
swr-IsServed_example = swr-IsServed false false (some old) none (err "no upstream answered") 5000

swr-Leaves_example :
    Leaves 9000 true false (some old) (ok old) (swr true false (some old) none (ok old) 9000)
swr-Leaves_example = swr-Leaves true false (some old) none (ok old) 9000

-- Four seconds old: served, and refreshed in the background.
served_stale :
    (swr false false (some old) none (err "no upstream answered") 5000).answer
    ≡ ok (old, Status.stale)
unfolding swr freshness_at
served_stale = refl
