-- ===== src/Relay/Headers.antt =====
-- When an answer about headers is labelled `chain`, and when it is a fault.
use mnr.Common.{
  ℕ, ◌%◌, ◌^◌, ◌+◌, ◌-◌, ◌≤◌, ◌≡◌, ◌≢◌, ◌↔◌, ◌⊎◌, refl, ap, inl, inr, true, Option, none, some,
  List, length, ok, err, Bool-cases, Result-cases, ltb, ◌==◌,
}
use mnr.HeaderChain.Store.{Entry, HeaderChain, get}
use mnr.HeaderChain.Linkage.{IsLinked}
use mnr.Wire.Answers.{BlockHeader}
use mnr.Wire.Hex.{WireError}
use mnr.Wire.Json.{Json}
use mnr.Verify.Checks.{ReportedHeader, entry_of, verify_header_by_height}
use mnr.Consensus.Refresh.{reported_header}
use mnr.Serve.Labels.{Verify}
use mnr.Relay.Checks.{
  Fault, at, mark, label_if, check_range, check_header, enveloped, at_height, in_range, param_u64,
  answer_by_height, range_loop, verify_headers_range,
}
use mnr.Relay.Marks.{mark-eq-err}
use mnr.Relay.Range.{IsRecord, OnChain, check_range_iff}
use mnr.Relay.Single.{at-inj, nothing-at, enveloped-at, check_header_iff, check_header-height}

module _ (j : Json) (header_of : List ℕ → Option (Option (BlockHeader j.Value)))
    (headers_of : List ℕ → Option (Option (List (BlockHeader j.Value)))) where
  check_range-end :
      (chain : HeaderChain) (start last : ℕ) (hs : List (BlockHeader j.Value)) (v : Verify)
      (end : ℕ)
      → check_range chain start last hs ≡ ok (at v end)
      → last ≡ end
  unfolding check_range
  check_range-end chain start last hs v end h = elim (Bool-cases (ltb last start)) [
    | inl y ↦ nothing-at v end (rw y at h)
    | inr n ↦ elim (Bool-cases (length hs == (last - start + 1) % 2 ^ 64)) [
      | inr other ↦ cc (rw (n, other) at h)
      | inl count ↦ elim (Result-cases (range_loop chain start 0 none true hs)) [
        | inr (e, bad) ↦ cc (rw (n, count, bad) at h)
        | inl (on, good) ↦ at-inj (label_if on) v last end (rw (n, count, good) at h)
      ]
    ]
  ]

  -- The request names a range and the answer holds its headers, each the chain's record.
  abbrev pub IsWhole : Option ℕ → Option ℕ → List ℕ → HeaderChain → ℕ → Type 0
  IsWhole first last body chain end =
      (start : ℕ) × (hs : List (BlockHeader j.Value)) × (first ≡ some start)
      × (last ≡ some end)
      × (headers_of body ≡ some (some hs))
      × (start ≤ end)
      × (length hs ≡ (end - start + 1) % 2 ^ 64)
      × OnChain chain start 0 hs

  in_range-IsWhole :
      (first last : Option ℕ) (body : List ℕ) (chain : HeaderChain) (end : ℕ)
      → IsLinked chain
      → in_range j header_of headers_of first last body chain ≡ ok (at Verify.chain end)
      → IsWhole first last body chain end
  in_range-IsWhole none last body chain end linked h = cc
  in_range-IsWhole (some start) none body chain end linked h = cc
  in_range-IsWhole (some start) (some e) body chain end linked h =
      let (hs, answer, is) =
        enveloped-at (headers_of body) (check_range chain start e) Verify.chain end h in
      let same_end = check_range-end chain start e hs Verify.chain end is in
      let (ordered, count, records) =
        (check_range_iff chain start end hs linked).0 (rw same_end at is) in
      (start, hs, refl, ap some same_end, answer, ordered, count, records)

  -- Over a linked chain, an answer about a range is labelled `chain` exactly when the request names a
  -- start and an end, not before the start, and the answer holds as many headers, modulo 2^64, which
  -- are the chain's records at these heights, each in its place and with all its four fields. (The
  -- count wraps: for the heights 0 to 2^64 - 1 an empty answer is labelled `chain`.)
  pub verify_headers_range_iff :
      (params : Option j.Value) (body : List ℕ) (chain : HeaderChain) (end : ℕ)
      → IsLinked chain
      → (verify_headers_range j header_of headers_of params body chain ≡ ok (at Verify.chain end))
        ↔ IsWhole
            (param_u64 j params "start_height")
            (param_u64 j params "end_height")
            body
            chain
            end
  unfolding verify_headers_range
  verify_headers_range_iff params body chain end linked = (
    in_range-IsWhole (param_u64 j params "start_height") (param_u64 j params "end_height") body
        chain end linked,
    λ (start, hs, from, to, answer, ordered, count, records).
        rw (from, to, answer)
          ((check_range_iff chain start end hs linked).1 (ordered, count, records)),
  )

  -- The answer is the chain's record at the height that the request names.
  abbrev pub IsConfirmed : Option ℕ → List ℕ → HeaderChain → ℕ → Type 0
  IsConfirmed wanted body chain height =
      (h : BlockHeader j.Value) × (r : ReportedHeader) × (wanted ≡ some height)
      × (header_of body ≡ some (some h))
      × (reported_header h ≡ ok r)
      × IsRecord chain height r

  -- The answer is no JSON-RPC response; or its header's hashes are not hexadecimal; or the header is
  -- of another height; or the chain's record there is another.
  abbrev pub IsWrong : ℕ → List ℕ → HeaderChain → Type 0
  IsWrong height body chain =
      (header_of body ≡ none)
      ⊎ ((h : BlockHeader j.Value) × (header_of body ≡ some (some h))
          × (((e : WireError) × (reported_header h ≡ err e))
              ⊎ ((r : ReportedHeader) × (reported_header h ≡ ok r)
                  × ((r.height ≢ height)
                      ⊎ ((e : Entry) × (get chain height ≡ some e) × (e ≢ entry_of r))))))

  at_height-IsWrong :
      (height : ℕ) (body : List ℕ) (chain : HeaderChain) (f : Fault)
      (o : Option (Option (BlockHeader j.Value)))
      → IsLinked chain
      → header_of body ≡ o
      → enveloped o (check_header chain height) ≡ err f
      → IsWrong height body chain
  unfolding check_header
  at_height-IsWrong height body chain f none linked is h = inl is
  at_height-IsWrong height body chain f (some none) linked is h = cc
  at_height-IsWrong height body chain f (some (some x)) linked is h =
      elim (Result-cases (reported_header x)) [
        | inr (e, bad) ↦ inr (x, is, inl (e, bad))
        | inl (r, good) ↦
            elim (Result-cases (mark chain height (verify_header_by_height height r chain))) [
              | inl (on, marked) ↦ cc (rw (good, marked) at h)
              | inr (g, wrong) ↦
                  inr (x, is, inr (r, good, mark-eq-err chain height r g linked wrong))
            ]
      ]

  at_height-IsConfirmed :
      (wanted : Option ℕ) (body : List ℕ) (chain : HeaderChain) (height : ℕ)
      → IsLinked chain
      → at_height j header_of headers_of wanted body chain ≡ ok (at Verify.chain height)
      → IsConfirmed wanted body chain height
  at_height-IsConfirmed none body chain height linked h = cc
  at_height-IsConfirmed (some n) body chain height linked h =
      let (x, answer, is) =
        enveloped-at (header_of body) (check_header chain n) Verify.chain height h in
      let named = check_header-height chain n x Verify.chain height is in
      let (r, good, known) = (check_header_iff chain height x linked).0 (rw named at is) in
      (x, r, ap some named, answer, good, known)

  -- Over a linked chain, an answer by height is labelled `chain` exactly when it is a header whose
  -- hashes are hexadecimal and which is, with all its four fields, the chain's record at the height
  -- that the request names.
  pub answer_by_height_iff :
      (params : Option j.Value) (body : List ℕ) (chain : HeaderChain) (height : ℕ)
      → IsLinked chain
      → (answer_by_height j header_of headers_of params body chain ≡ ok (at Verify.chain height))
        ↔ IsConfirmed (param_u64 j params "height") body chain height
  unfolding answer_by_height
  answer_by_height_iff params body chain height linked = (
    at_height-IsConfirmed (param_u64 j params "height") body chain height linked,
    λ (x, r, wanted, answer, good, known).
        rw (wanted, answer) ((check_header_iff chain height x linked).1 (r, good, known)),
  )

  faulted :
      (wanted : Option ℕ) (body : List ℕ) (chain : HeaderChain) (f : Fault)
      → IsLinked chain
      → at_height j header_of headers_of wanted body chain ≡ err f
      → (height : ℕ) × (wanted ≡ some height) × IsWrong height body chain
  faulted none body chain f linked h = cc
  faulted (some n) body chain f linked h =
      (n, refl, at_height-IsWrong n body chain f (header_of body) linked refl h)

  -- Over a linked chain, an upstream is faulted for an answer by height only if the request names a
  -- height, and the answer is no JSON-RPC response; or its header's hashes are not hexadecimal; or the
  -- header is of another height; or the chain has a record at this height, and another one.
  pub answer_by_height-IsWrong :
      (params : Option j.Value) (body : List ℕ) (chain : HeaderChain) (f : Fault)
      → IsLinked chain
      → answer_by_height j header_of headers_of params body chain ≡ err f
      → (height : ℕ) × (param_u64 j params "height" ≡ some height) × IsWrong height body chain
  unfolding answer_by_height
  answer_by_height-IsWrong params body chain f linked h =
      faulted (param_u64 j params "height") body chain f linked h
