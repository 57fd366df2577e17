-- ===== src/Relay/Checks.antt =====
-- crates/relay/src/verify.rs: the checks of answers about headers and hashes of blocks. Reading a body
-- as a JSON-RPC response is an argument: none for another body, and the `result`, if there is one.
use Prim.Native.String.{String}
use mnr.Common.{
  ℕ, ◌%◌, ◌^◌, ◌+◌, ◌-◌, Bool, true, false, ◌&&◌, not, Option, none, some, List, [], ◌∷◌, length,
  ltb, ◌==◌, if◌then◌else◌, Result, ok, err, ◌>>=◌, map_err, saturating_add,
}
use mnr.HeaderChain.Store.{Hash, same, Entry, HeaderChain, tip}
use mnr.Wire.Answers.{BlockHeader}
use mnr.Wire.Json.{Json}
use mnr.Verify.Checks.{
  VerifyError, hash_mismatch, unknown_height, ReportedHeader, verify_header_by_height,
}
use mnr.Consensus.Refresh.{reported_header}
use mnr.Serve.Labels.{Verify, Verified}
use mnr.Serve.Route.{tip_safety_depth}

-- A wrong answer: its detail, with the values that the text shows.
pub data Fault : Type 0 where
  not_a_response hashes_not_hex hash_not_hex : Fault
  rule : VerifyError → Fault
  header_count : ℕ → ℕ → ℕ → Fault
  header_height : ℕ → ℕ → Fault
  not_linked : ℕ → Fault
  other_hash : ℕ → Hash → Hash → Fault

-- `Verified::none` and `Verified::at`
abbrev pub nothing : Verified
nothing = record { verify = Verify.unverified; height = none; counted = none }

abbrev pub at : Verify → ℕ → Verified
at verify height = record { verify = verify; height = some height; counted = none }

-- Within the top ten records of the chain.
abbrev pub below_tip : ℕ → Option Entry → Bool
below_tip height none = false
below_tip height (some t) = ltb t.height (saturating_add height tip_safety_depth)

unfoldable pub near_tip : HeaderChain → ℕ → Bool
unfolding tip
near_tip chain height = below_tip height (tip chain)

-- What a header's check says: the chain holds it, or it is not known; or it is wrong.
unfoldable pub mark : HeaderChain → ℕ → Result VerifyError (Unit {0}) → Result Fault Bool
unfolding near_tip
mark chain height (ok u) = ok true
mark chain height (err (unknown_height n)) = ok false
mark chain height (err (hash_mismatch expected got)) =
    if not (same expected got) && near_tip chain height
    then ok false
    else err (rule (hash_mismatch expected got))
mark chain height (err e) = err (rule e)

abbrev pub label_if : Bool → Verify
label_if true = Verify.chain
label_if false = Verify.unverified

abbrev pub unlinked : Option ReportedHeader → ReportedHeader → Bool
unlinked none r = false
unlinked (some p) r = not (same r.prev_hash p.hash)

-- One round of the loop over a range.
unfoldable pub range_step :
    HeaderChain
    → ℕ
    → ℕ
    → Option ReportedHeader
    → ReportedHeader
    → Result Fault (ReportedHeader × Bool)
unfolding mark
range_step chain position want prev r =
    if not (r.height == want)
    then err (header_height r.height position)
    else if unlinked prev r
    then err (not_linked want)
    else mark chain want (verify_header_by_height want r chain) >>= λ on. ok (r, on)

-- Whether the chain holds every header.
module _ {V : Type 0} (chain : HeaderChain) where
  unfoldable pub range_loop :
      ℕ → ℕ → Option ReportedHeader → Bool → List (BlockHeader V) → Result Fault Bool
  unfolding range_step reported_header
  range_loop start position prev on_chain [] = ok on_chain
  range_loop start position prev on_chain (h ∷ hs) =
      map_err (λ e. hashes_not_hex) (reported_header h) >>= λ reported.
      range_step chain position (start + position) prev reported >>= λ (r, on).
      range_loop start (position + 1) (some r) (on_chain && on) hs

  -- `end - start + 1` on `u64`, which wraps in a release build.
  unfoldable pub check_range : ℕ → ℕ → List (BlockHeader V) → Result Fault Verified
  unfolding range_loop
  check_range start end headers =
      if ltb end start
      then ok nothing
      else if not (length headers == (end - start + 1) % 2 ^ 64)
      then err (header_count (length headers) start end)
      else range_loop start 0 none true headers >>= λ on_chain. ok (at (label_if on_chain) end)

  unfoldable pub check_header : ℕ → BlockHeader V → Result Fault Verified
  unfolding mark reported_header
  check_header height h = map_err (λ e. hashes_not_hex) (reported_header h) >>= λ reported.
      mark chain height (verify_header_by_height height reported chain) >>= λ on.
      ok (at (label_if on) height)

-- `envelope`, and what a result is checked for.
abbrev pub enveloped :
    {T : Type 0} → Option (Option T) → (T → Result Fault Verified) → Result Fault Verified
enveloped none check = err not_a_response
enveloped (some none) check = ok nothing
enveloped (some (some result)) check = check result

module _ (j : Json) where
  open j use {Value, get, as_u64}

  abbrev pub number_of : Option Value → Option ℕ
  number_of none = none
  number_of (some v) = as_u64 v

  abbrev pub field_of : Option Value → String → Option Value
  field_of none key = none
  field_of (some p) key = get key p

  unfoldable pub param_u64 : Option Value → String → Option ℕ
  param_u64 params key = number_of (field_of params key)

  module _ (header_of : List ℕ → Option (Option (BlockHeader Value)))
      (headers_of : List ℕ → Option (Option (List (BlockHeader Value)))) where
    abbrev pub at_height : Option ℕ → List ℕ → HeaderChain → Result Fault Verified
    at_height none body chain = ok nothing
    at_height (some height) body chain = enveloped (header_of body) (check_header chain height)

    -- `verify_header_by_height` of the relay, upon the one of the core.
    unfoldable pub answer_by_height : Option Value → List ℕ → HeaderChain → Result Fault Verified
    unfolding param_u64 check_header
    answer_by_height params body chain = at_height (param_u64 params "height") body chain

    abbrev pub in_range : Option ℕ → Option ℕ → List ℕ → HeaderChain → Result Fault Verified
    in_range none end body chain = ok nothing
    in_range (some start) none body chain = ok nothing
    in_range (some start) (some end) body chain =
        enveloped (headers_of body) (check_range chain start end)

    unfoldable pub verify_headers_range :
        Option Value → List ℕ → HeaderChain → Result Fault Verified
    unfolding param_u64 check_range
    verify_headers_range params body chain =
        in_range (param_u64 params "start_height") (param_u64 params "end_height") body chain
