-- ===== src/Chain/Copies.antt =====
-- A copy that is not refused is a linked run of the length that was asked for.
use mnr.Common.{
  ℕ, suc, ◌+◌, ◌-◌, ◌≡◌, refl, sym, ap, ◌∙◌, inl, inr, Option, none, some, List, [], ◌∷◌, length,
  Result, Result-cases, ok, err, arith,
}
use mnr.HeaderChain.Store.{Hash, zero_hash, same_iff, Entry}
use mnr.HeaderChain.Linkage.{LinkedFrom}
use mnr.Verify.Checks.{ReportedHeader, entry_of}
use mnr.Chain.Fetch.{
  Answer, answered, headers, no_answer, unparseable, no_result, CopyError, is_upon, check_copy,
  check_copies, check_range, fetch_range,
}

-- The records follow one another from the height on, from genesis if that is where they begin.
abbrev pub IsRun : ℕ → List Entry → Type 0
IsRun start es = (p : Hash) × LinkedFrom start p es × (start ≡ 0 → p ≡ zero_hash)

-- The record of a success.
abbrev entry_in : Entry → Result CopyError Entry → Entry
entry_in other (ok e) = e
entry_in other (err x) = other

-- What one header has passed.
check_copy-upon :
    (prev : Entry) (want : ℕ) (h : Option ReportedHeader) (e : Entry)
    → check_copy (some prev) want h ≡ ok e
    → (e.height ≡ want) × (e.prev_hash ≡ prev.hash)
unfolding check_copy is_upon
check_copy-upon prev want none e h = cc
check_copy-upon prev want (some r) e h =
    let passed : (r.height ≡ want)
        × (r.prev_hash ≡ prev.hash)
        × (check_copy (some prev) want (some r) ≡ ok (entry_of r)) =
      ground (arith, same_iff r.prev_hash prev.hash) in
    let is : entry_of r ≡ e = ap (entry_in e) (sym passed.2 ∙ h) in
    (
      ap (λ (x : Entry). x.height) (sym is) ∙ passed.0,
      ap (λ (x : Entry). x.prev_hash) (sym is) ∙ passed.1,
    )

check_copy-first :
    (want : ℕ) (h : Option ReportedHeader) (e : Entry)
    → check_copy none want h ≡ ok e
    → (e.height ≡ want) × (want ≡ 0 → e.prev_hash ≡ zero_hash)
unfolding check_copy is_upon
check_copy-first want none e h = cc
check_copy-first want (some r) e h =
    let at : r.height ≡ want = ground arith in
    let accepted : check_copy none want (some r) ≡ ok (entry_of r) = ground arith in
    let upon : want ≡ 0 → r.prev_hash ≡ zero_hash =
      λ z. ground (arith, same_iff r.prev_hash zero_hash) in
    let is : entry_of r ≡ e = ap (entry_in e) (sym accepted ∙ h) in
    (
      ap (λ (x : Entry). x.height) (sym is) ∙ at,
      λ z. ap (λ (x : Entry). x.prev_hash) (sym is) ∙ upon z,
    )

-- What a chain of checks that succeeds has done.
checked :
    (prev : Option Entry) (want : ℕ) (h : Option ReportedHeader) (hs : List (Option ReportedHeader))
    (es : List Entry)
    → check_copies prev want (h ∷ hs) ≡ ok es
    → (e : Entry) × (rest : List Entry) × (check_copy prev want h ≡ ok e)
      × (check_copies (some e) (want + 1) hs ≡ ok rest)
      × (es ≡ e ∷ rest)
unfolding check_copies
checked prev want h hs es c = elim (Result-cases (check_copy prev want h)) [
  | inl (e, is) ↦ elim (Result-cases (check_copies (some e) (want + 1) hs)) [
    | inl (rest, are) ↦ (e, rest, is, are, (let done = rw (is, are) at c in cc))
    | inr (x, failed) ↦ cc (rw (is, failed) at c)
  ]
  | inr (x, failed) ↦ cc (rw failed at c)
]

check_copies-LinkedFrom :
    (prev : Entry) (want : ℕ) (hs : List (Option ReportedHeader)) (es : List Entry)
    → check_copies (some prev) want hs ≡ ok es
    → LinkedFrom want prev.hash es × (length es ≡ length hs)
check_copies-LinkedFrom prev want [] es c =
    let nothing : es ≡ [] = unfold check_copies in cc in rw nothing (tt, refl)
check_copies-LinkedFrom prev want (h ∷ hs) es c =
    let (e, rest, one, others, is) = checked (some prev) want h hs es c in
    let (at, upon) = check_copy-upon prev want h e one in
    let (linked, size) = check_copies-LinkedFrom e (want + 1) hs rest others in
    rw is ((at, upon, linked), ap suc size)

check_copies-IsRun :
    (want : ℕ) (hs : List (Option ReportedHeader)) (es : List Entry)
    → check_copies none want hs ≡ ok es
    → IsRun want es × (length es ≡ length hs)
check_copies-IsRun want [] es c =
    let nothing : es ≡ [] = unfold check_copies in cc in
    rw nothing ((zero_hash, tt, λ z. refl), refl)
check_copies-IsRun want (h ∷ hs) es c =
    let (e, rest, one, others, is) = checked none want h hs es c in
    let (at, upon) = check_copy-first want h e one in
    let (linked, size) = check_copies-LinkedFrom e (want + 1) hs rest others in
    rw is ((e.prev_hash, (at, refl, linked), upon), ap suc size)

check_range-IsRun :
    (start expected : ℕ) (hs : List (Option ReportedHeader)) (es : List Entry)
    → check_range start expected hs ≡ ok es
    → IsRun start es × (length es ≡ expected)
unfolding check_range
check_range-IsRun start expected hs es h =
    let size : length hs ≡ expected = ground arith in
    let checks : check_copies none start hs ≡ ok es = ground arith in
    let (run, same_size) = check_copies-IsRun start hs es checks in (run, same_size ∙ size)

-- A copy of a range that is not refused is one record for each height asked for, in order, each
-- upon the hash of the one before it, and upon zeros where the range begins at genesis.
pub fetch_range-IsRun :
    (a : Answer) (start end : ℕ) (es : List Entry)
    → fetch_range a start end ≡ ok es
    → IsRun start es × (length es ≡ end - start + 1)
unfolding fetch_range
fetch_range-IsRun no_answer start end es h = cc
fetch_range-IsRun (answered status unparseable) start end es h = ground arith
fetch_range-IsRun (answered status no_result) start end es h = cc
fetch_range-IsRun (answered status (headers hs)) start end es h =
    check_range-IsRun start (end - start + 1) hs es (ground arith)
