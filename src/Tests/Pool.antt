-- ===== src/Tests/Pool.antt =====
-- Faults, ejections and a round of probes of a small pool.
use Prim.Native.String.{String}
use mnr.Common.{
  ℕ, ◌-◌, ◌≤◌, ◌≡◌, ◌↔◌, refl, Bool, true, false, some, List, [], ◌∷◌, ◌++◌, In, leb, length,
  Result, ok, arith,
}
use mnr.Common.Bytes.{bytes_discrete}
use mnr.Common.Sort.{contains, sort}
use mnr.HeaderChain.Store.{zero_hash}
use mnr.Verify.Quorum.{QuorumTip, quorum_tip, group, keep_enough, max_group}
use mnr.Upstream.Health.{Health, unknown_health, ejected, retain, note_fault, note_lapse, on_tip}
use mnr.Upstream.Ring.{record_up, up_24h}
use mnr.Upstream.Faults.{note_faults, Justified, ejection-Justified, third_fault-ejects}
use mnr.Upstream.Probe.{Probe, Member, probe_all, note_probes}
use mnr.Upstream.Tip.{HasVoter, probe_all-voters}
use mnr.Upstream.Ranking.{
  light, stream, Floats, ranked, candidates, candidate, is_out, sort_by, insert_by, score,
}
use mnr.Upstream.Eligible.{Serves, ranked_iff}

-- Three faults in an hour, and one an hour later.
abbrev fault_times : List ℕ
fault_times = 0 ∷ 1000 ∷ 2000 ∷ 4000000 ∷ []

abbrev clean : Health ℕ
clean = unknown_health

ejected_for_a_day : (note_faults clean fault_times).ejected_until ≡ some 86402000
unfolding note_faults note_fault retain ejected
ejected_for_a_day = refl

ejection-Justified_example : Justified fault_times (note_faults clean fault_times).ejected_until
ejection-Justified_example = ejection-Justified clean fault_times refl refl (omega arith)

three_recent : 3 ≤ length (retain 2000 ((0 ∷ 1000 ∷ []) ++ 2000 ∷ []))
unfolding retain
three_recent = omega arith

third_fault-ejects_example : ejected (note_faults clean ((0 ∷ 1000 ∷ []) ++ 2000 ∷ [])) 2000 ≡ true
third_fault-ejects_example =
    third_fault-ejects clean (0 ∷ 1000 ∷ []) 2000 refl refl (omega arith) three_recent

abbrev member : ℕ → Bool → Bool → Member ℕ
member id owned onion = record {
  id = id;
  owned = owned;
  onion = onion;
  probes = 0;
  up_rounds = 0;
  health = clean;
}

abbrev members : List (Member ℕ)
members = member 0 true false ∷ member 1 false false ∷ member 2 false true ∷ []

abbrev probe : ℕ → ℕ → Result String (Probe ℕ)
probe blocks rtt = ok (record {
  block_count = blocks;
  top_hash = zero_hash;
  synchronized = true;
  restricted = true;
  rtt_ms = rtt;
})

-- The first is a block behind.
abbrev answers : List (Result String (Probe ℕ))
answers = probe 9 5 ∷ probe 10 40 ∷ probe 10 80 ∷ []

abbrev tip : QuorumTip
tip = record { height = 9; hash = zero_hash; agreeing = 1 ∷ 2 ∷ [] }

abbrev mean : ℕ → ℕ → ℕ
mean a b = b

agreed : (probe_all mean 2 50 50 7200 members answers).1 ≡ some tip
unfolding probe_all quorum_tip group keep_enough max_group sort bytes_discrete contains ejected
agreed = refl

probe_all-voters_example :
    (2 ≤ length tip.agreeing)
    × (In 1 tip.agreeing
        ↔ HasVoter 50 9 zero_hash 1 (probe_all mean 2 50 50 7200 members answers).0)
probe_all-voters_example = probe_all-voters mean 2 50 50 7200 members answers tip 1 refl agreed

-- Scores in microseconds, moved up so that the bonuses stay positive.
abbrev floats : Floats
floats = record {
  F = ℕ;
  unknown_rtt = 9000000000;
  owned_bonus = λ s. s - 20000;
  owned_first = λ s. s - 1000000000;
  by_height = λ h. 9000000000 - h;
  le = leb;
}

ranked_iff_example :
    In 2 (ranked floats light 50 (some tip) (probe_all mean 2 50 50 7200 members answers).0)
    ↔ Serves light 50 (some tip) 2 (probe_all mean 2 50 50 7200 members answers).0
ranked_iff_example =
    ranked_iff floats light 50 (some tip) (probe_all mean 2 50 50 7200 members answers).0 2

-- No onion for a stream.
stream_ranking :
    ranked floats stream 50 (some tip) (probe_all mean 2 50 50 7200 members answers).0 ≡ 1 ∷ []
unfolding ranked candidates candidate is_out score sort_by insert_by probe_all bytes_discrete on_tip
    ejected quorum_tip note_probes note_lapse group keep_enough max_group sort contains
stream_ranking = refl

-- Two probes of one hour, one of them on the tip.
two_probes : up_24h (record_up (record_up [] true 7200) false 7300) 7400 ≡ (2, 1)
unfolding up_24h record_up
two_probes = refl
