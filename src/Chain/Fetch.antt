-- ===== src/Chain/Fetch.antt =====
-- crates/relay/src/chain.rs: what an upstream's copy of a header range must be, and when the copies
-- agree.
use mnr.Common.{
  ℕ, ◌+◌, ◌-◌, ◌&&◌, not, Option, none, some, List, [], ◌∷◌, length, ltb, ◌==◌, if◌then◌else◌,
  Result, ok, err, ◌>>=◌,
}
use mnr.HeaderChain.Store.{zero_hash, same, Entry}
use mnr.Verify.Checks.{ReportedHeader, entry_of}

-- What `forward` gives: no answer, or a status with a body; a header that does not convert is none.
pub data Body : Type 0 where
  unparseable no_result : Body
  headers : List (Option ReportedHeader) → Body

pub data Answer : Type 0 where
  no_answer : Answer
  answered : ℕ → Body → Answer

-- `CopyError`; the text of a fault is its kind with the values that it shows.
pub data CopyError : Type 0 where
  skip : CopyError
  fault_unparseable fault_genesis : CopyError
  fault_count : ℕ → ℕ → CopyError
  fault_header fault_link : ℕ → CopyError
  fault_height : ℕ → ℕ → CopyError

-- A header upon the one before it, or at genesis.
unfoldable pub is_upon : Option Entry → ℕ → ReportedHeader → Result CopyError Entry
is_upon (some prev) want rep =
    if not (same rep.prev_hash prev.hash) then err (fault_link want) else ok (entry_of rep)
is_upon none want rep =
    if (want == 0) && not (same rep.prev_hash zero_hash)
    then err fault_genesis
    else ok (entry_of rep)

unfoldable pub check_copy : Option Entry → ℕ → Option ReportedHeader → Result CopyError Entry
unfolding is_upon
check_copy prev want none = err (fault_header want)
check_copy prev want (some rep) =
    if not (rep.height == want) then err (fault_height want rep.height) else is_upon prev want rep

-- The loop over the headers.
unfoldable pub check_copies :
    Option Entry → ℕ → List (Option ReportedHeader) → Result CopyError (List Entry)
check_copies prev want [] = ok []
check_copies prev want (h ∷ hs) =
    check_copy prev want h >>= λ e. check_copies (some e) (want + 1) hs >>= λ es. ok (e ∷ es)

-- A range is as long as it was asked for: a short one is no fault.
unfoldable pub check_range : ℕ → ℕ → List (Option ReportedHeader) → Result CopyError (List Entry)
unfolding check_copies
check_range start expected hs =
    if ltb (length hs) expected
    then err skip
    else if ltb expected (length hs)
    then err (fault_count (length hs) expected)
    else check_copies none start hs

unfoldable pub fetch_range : Answer → ℕ → ℕ → Result CopyError (List Entry)
unfolding check_range
fetch_range no_answer start end = err skip
fetch_range (answered status unparseable) start end =
    if not (status == 200) then err skip else err fault_unparseable
fetch_range (answered status no_result) start end = err skip
fetch_range (answered status (headers hs)) start end =
    if not (status == 200) then err skip else check_range start (end - start + 1) hs
