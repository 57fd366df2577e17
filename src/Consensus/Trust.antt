-- ===== src/Consensus/Trust.antt =====
-- What the label on a consensus answer says.
use Prim.Native.String.{String}
use text.Mathlib.Text.{◌==◌ as str_eq}
use text.Mathlib.TextEquality.{eq_iff}
use mnr.Common.{
  ℕ, ◌≤◌, ◌≡◌, refl, subst, inl, inr, Bool, Option, none, some, List, [], ◌∷◌, length, take, leb,
  Result, ok, err, arith, Bool-cases, Option-cases, Result-cases,
}
use mnr.HeaderChain.Store.{HeaderChain}
use mnr.HeaderChain.Store
use mnr.HeaderChain.Linkage.{IsLinked}
use mnr.Verify.Checks.{ReportedHeader, VerifyError, unknown_height, entry_of}
use mnr.Verify.Headers.{verify_header_by_height_iff}
use mnr.Wire.Answers.{BlockHeader}
use mnr.Wire.Json.{Json}
use mnr.Serve.Labels.{Verify, verify_label}
use mnr.Consensus.Vote.{Answer, Reduced, min_agree}
use mnr.Common.Sort.{Distinct}
use mnr.Common.Sub.{Sub-Distinct, Sub-trans}
use mnr.Consensus.Backed.{
  upstreams, take-Sub, choose-Sub, answers_of-Sub, IsBacked, reduce-IsBacked,
}
use mnr.Consensus.Refresh.{
  ask_count, candidates, reported_header, ChainCheck, confirmed, contradicted, unknown, chain_check,
  choose, SwrEntry, is_majority, verdict, credited, agreeing_of, reduce, finish, check_last_header,
  against_chain, entry, answers_of, entry_of_answers, fetch_from, fetch,
}

module _ (j : Json) where
  open j use {Value, get, to_vec, to_block_header}

  -- The value's header is the one that the chain has at its height.
  abbrev pub OnChain : HeaderChain → Value → Type 0
  OnChain chain value =
      (h : Value) × (header : BlockHeader Value) × (r : ReportedHeader) × (get "block_header" value
        ≡ some h)
      × (to_block_header h ≡ some header)
      × (reported_header header ≡ ok r)
      × (Store.get chain r.height ≡ some (entry_of r))

  chain_check-confirmed :
      (o : Result VerifyError (Unit {0})) → chain_check o ≡ confirmed → o ≡ ok tt
  chain_check-confirmed (ok tt) h = refl
  chain_check-confirmed (err (unknown_height n)) h = cc
  chain_check-confirmed (err e) h = cc

  check_last-OnChain :
      (value : Value) (chain : HeaderChain)
      → IsLinked chain
      → check_last_header j value chain ≡ confirmed
      → OnChain chain value
  unfolding check_last_header
  check_last-OnChain value chain linked h = elim (Option-cases (get "block_header" value)) [
    | inl missing ↦ cc (rw (missing, check_last_header) at h)
    | inr (v, at) ↦ elim (Option-cases (to_block_header v)) [
      | inl missing ↦ cc (rw (at, missing, check_last_header) at h)
      | inr (header, parsed) ↦ elim (Result-cases (reported_header header)) [
        | inr (e, bad) ↦ cc (rw (at, parsed, bad, check_last_header) at h)
        | inl (r, good) ↦
            let passed = chain_check-confirmed _ (rw (at, parsed, good, check_last_header) at h) in
            (
              v,
              header,
              r,
              at,
              parsed,
              good,
              ((verify_header_by_height_iff r.height r chain linked).0 passed).1,
            )
      ]
    ]
  ]

  against-OnChain :
      (method : String) (value : Value) (chain : HeaderChain)
      → IsLinked chain
      → against_chain j method value chain ≡ confirmed
      → (method ≡ "get_last_block_header") × OnChain chain value
  unfolding against_chain
  against-OnChain method value chain linked h =
      elim (Bool-cases (str_eq method "get_last_block_header")) [
        | inl y ↦ (
          (eq_iff method "get_last_block_header").0 y,
          check_last-OnChain value chain linked (rw y at h),
        )
        | inr n ↦ cc (rw n at h)
      ]

  -- What each label of an entry for a reduced answer vouches for.
  abbrev pub Vouches :
      String → ℕ → HeaderChain → Reduced Value → SwrEntry → List ℕ → Verify → Type 0
  Vouches method asked chain r e credits Verify.chain =
      (method ≡ "get_last_block_header") × OnChain chain (finish j method r.value)
  Vouches method asked chain r e credits Verify.majority =
      (k : ℕ) × (r.agreeing ≡ some k)
      × (min_agree ≤ k)
      × (e.agreeing ≡ some (k, asked))
      × (credits ≡ r.members)
  Vouches method asked chain r e credits Verify.unverified = credits ≡ []
  Vouches method asked chain r e credits _ = ⊥

  verdict_cases :
      (method : String) (asked : ℕ) (chain : HeaderChain) (now : ℕ) (r : Reduced Value)
      (body : List ℕ) (c : ChainCheck) (agreeing : Option ℕ)
      → r.agreeing ≡ agreeing
      → (c ≡ confirmed
          → (method ≡ "get_last_block_header") × OnChain chain (finish j method r.value))
      → Vouches method asked chain r
          (record {
            body = body;
            verify = verify_label (verdict c (is_majority agreeing));
            agreeing = agreeing_of asked agreeing;
            fetched = now;
          })
          (credited (verdict c (is_majority agreeing)) (is_majority agreeing) r.members r.served)
          (verdict c (is_majority agreeing))
  verdict_cases method asked chain now r body confirmed agreeing e h = h refl
  verdict_cases method asked chain now r body contradicted agreeing e h = refl
  verdict_cases method asked chain now r body unknown none e h = refl
  verdict_cases method asked chain now r body unknown (some k) e h =
      elim (Bool-cases (leb min_agree k)) [
        | inl y ↦ rw y (k, e, ground arith, refl, refl)
        | inr n ↦ rw n refl
      ]

  abbrev pub IsVouched : String → ℕ → HeaderChain → Reduced Value → SwrEntry × List ℕ → Type 0
  IsVouched method asked chain r (e, credits) =
      (v : Verify) × (e.verify ≡ verify_label v)
      × (to_vec (finish j method r.value) ≡ ok e.body)
      × Vouches method asked chain r e credits v

  ok_inj : {A : Type 0} (x y : A) → ◌≡◌ {A = Result String A} (ok x) (ok y) → x ≡ y
  ok_inj x y h = cc

  entry-IsVouched :
      (method : String) (asked : ℕ) (chain : HeaderChain) (now : ℕ) (r : Reduced Value)
      (x : SwrEntry × List ℕ)
      → IsLinked chain
      → entry j method asked chain now r ≡ ok x
      → IsVouched method asked chain r x
  unfolding entry
  entry-IsVouched method asked chain now r x linked h =
      elim (Result-cases (to_vec (finish j method r.value))) [
        | inr (why, bad) ↦ cc (rw (bad, entry) at h)
        | inl (body, good) ↦
            subst (IsVouched method asked chain r) (ok_inj _ x (rw (good, entry) at h)) (
              verdict (against_chain j method (finish j method r.value) chain)
                  (is_majority r.agreeing),
              refl,
              good,
              verdict_cases method asked chain now r body
                  (against_chain j method (finish j method r.value) chain) r.agreeing refl
                  (against-OnChain method (finish j method r.value) chain linked),
            )
      ]

  -- An entry is that of the answers of the chosen upstreams.
  abbrev pub IsSound :
      String
      → Option ℕ
      → HeaderChain
      → (ℕ → Option Value)
      → List ℕ
      → Result String (SwrEntry × List ℕ)
      → Type 0
  IsSound method quorum chain answer chosen (err why) = Unit
  IsSound method quorum chain answer chosen (ok x) =
      (r : Reduced Value) × (reduce j method (answers_of j answer chosen) quorum ≡ some r)
      × IsBacked j method quorum (answers_of j answer chosen) r r.agreeing
      × IsVouched method (length chosen) chain r x

  answers-IsSound :
      (method : String) (quorum : Option ℕ) (chain : HeaderChain) (now : ℕ)
      (answer : ℕ → Option Value) (chosen : List ℕ) (answers : List (Answer Value))
      → IsLinked chain
      → Distinct chosen
      → answers_of j answer chosen ≡ answers
      → (result : Result String (SwrEntry × List ℕ)) × (entry_of_answers j method
            (length chosen)
            quorum
            chain
            now
            answers
          ≡ some result)
        × IsSound method quorum chain answer chosen result
  answers-IsSound method quorum chain now answer chosen [] linked d is =
      (err "no upstream answered", refl, tt)
  answers-IsSound method quorum chain now answer chosen (a ∷ answers) linked d is =
      let once =
        Sub-Distinct (upstreams j (answers_of j answer chosen)) chosen
          (answers_of-Sub j answer chosen) d in
      let (r, reduced, backed) =
        reduce-IsBacked j method quorum a answers
          (subst (λ xs. Distinct (upstreams j xs)) is once) in
      (
        entry j method (length chosen) chain now r,
        rw reduced refl,
        sound r (rw is reduced) (rw is backed) (entry j method (length chosen) chain now r) refl,
      )
    where
      sound :
          (r : Reduced Value)
          → reduce j method (answers_of j answer chosen) quorum ≡ some r
          → IsBacked j method quorum (answers_of j answer chosen) r r.agreeing
          → (result : Result String (SwrEntry × List ℕ))
          → entry j method (length chosen) chain now r ≡ result
          → IsSound method quorum chain answer chosen result
      sound r reduced backed (err why) e = tt
      sound r reduced backed (ok x) e =
          (r, reduced, backed, entry-IsVouched method (length chosen) chain now r x linked e)

  -- What `fetch` makes of the answers of the chosen upstreams (the ranking names none twice): it does
  -- not panic, and an entry that it makes is the reduced answer, normalised, under a label that it
  -- bears out. `chain`: the answer is the last header, and the header chain (a linked one) holds it.
  -- `majority`: at least two different upstreams agree, just they are credited, and they are counted
  -- out of all that were asked; that is, their answers have one key, no other key has more, and the
  -- best ranked of them is served; but for `get_fee_estimate` their estimates can be read, which need
  -- not be equal, and the median fee is served. `none`: nobody is credited. There is no other label.
  pub fetch-IsSound :
      (method : String) (quorum : Option ℕ) (chain : HeaderChain) (now : ℕ) (has_token : ℕ → Bool)
      (answer : ℕ → Option Value) (ranked : List ℕ)
      → IsLinked chain
      → Distinct ranked
      → (result : Result String (SwrEntry × List ℕ)) × (fetch j method quorum chain now has_token
            answer ranked
          ≡ some result)
        × IsSound method quorum chain answer
            (choose ask_count has_token (take candidates ranked))
            result
  unfolding fetch
  fetch-IsSound method quorum chain now has_token answer ranked linked distinct =
      from (choose ask_count has_token (take candidates ranked)) (
        Sub-Distinct (choose ask_count has_token (take candidates ranked)) ranked
          (Sub-trans (choose ask_count has_token (take candidates ranked)) (take candidates ranked)
            ranked (choose-Sub ask_count has_token (take candidates ranked))
            (take-Sub candidates ranked))
          distinct)
    where
      from :
          (chosen : List ℕ)
          → Distinct chosen
          → (result : Result String (SwrEntry × List ℕ)) × (fetch_from j method quorum chain now
                answer chosen
              ≡ some result)
            × IsSound method quorum chain answer chosen result
      from [] d = (err "no healthy upstream with capacity", refl, tt)
      from (id ∷ chosen) d =
          answers-IsSound method quorum chain now answer (id ∷ chosen)
            (answers_of j answer (id ∷ chosen)) linked d refl
