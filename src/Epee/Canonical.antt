-- ===== src/Epee/Canonical.antt =====
-- What it means that two answers are the same but for the keys that are dropped.
use mnr.Common.{
  ℕ, zero, suc, ◌+◌, ◌≡◌, ◌↔◌, refl, sym, ap, ◌∙◌, inl, inr, Bool, Bool-cases, true, false, not,
  none, List, [], ◌==◌, if◌then◌else◌, ok,
}
use mnr.HeaderChain.Store.{same, same_iff}
use mnr.Epee.Tree.{
  Error, signature, Value, Section, no_entries, entry, insert, find, is_dropped, canonical,
}
use mnr.Epee.Names.{Above, IsSorted, insert-IsSorted, find-ext}
use mnr.Epee.Reader.{Reader, give, fail, word, read_bytes, count}
use mnr.Epee.Parse.{
  signature_a, signature_b, max_depth, utf8, entries, section_of, readers, root, check_version,
  after_first, body, parse,
}
use mnr.Epee.Stable.{and_then-ok, ok-eq}
use mnr.Epee.Prefix.{parse-ok}

entries-IsSorted :
    (r : Reader Value) (n : ℕ) (out : Section) (input : List ℕ) (s : Section) (rest : List ℕ)
    → IsSorted out
    → entries r n out input ≡ ok (s, rest)
    → IsSorted s
unfolding entries
entries-IsSorted r zero out input s rest h e =
    let (is, _) = ok-eq (unfold give in e) in rw (sym is) h
entries-IsSorted r (suc n) out input s rest h e =
    let (size, rest1, _, e1) = and_then-ok (word 1) _ input s rest e in
    let (raw, rest2, _, e2) = and_then-ok (read_bytes size) _ rest1 s rest e1 in
    let (name, rest3, _, e3) = and_then-ok (utf8 raw) _ rest2 s rest e2 in
    let (v, rest4, _, e4) = and_then-ok r _ rest3 s rest e3 in
    entries-IsSorted r n (insert name v out) rest4 s rest (insert-IsSorted name v out h) e4

section_of-IsSorted :
    (r : Reader Value) (input : List ℕ) (s : Section) (rest : List ℕ)
    → section_of r input ≡ ok (s, rest)
    → IsSorted s
unfolding section_of
section_of-IsSorted r input s rest e =
    let (n, mid, _, e1) = and_then-ok (count 2) _ input s rest e in
    entries-IsSorted r n no_entries mid s rest tt e1

-- What is read where a test passes.
passed :
    {A : Type 0} (b : Bool) (e : Error) (r : Reader A) (input : List ℕ) (a : A) (rest : List ℕ)
    → (if b then fail e else r) input ≡ ok (a, rest)
    → r input ≡ ok (a, rest)
unfolding fail
passed true e r input a rest h = cc
passed false e r input a rest h = h

-- Past the signature and the version, the root section is left to read.
body-ok :
    (input : List ℕ) (s : Section) (rest : List ℕ)
    → body input ≡ ok (s, rest)
    → (mid : List ℕ) × (root mid ≡ ok (s, rest))
unfolding body after_first
body-ok input s rest e =
    let (a, rest1, _, e1) = and_then-ok (word 4) _ input s rest e in
    let e2 = passed (not (a == signature_a)) signature after_first rest1 s rest e1 in
    let (b, rest2, _, e3) = and_then-ok (word 4) _ rest1 s rest e2 in
    let e4 = passed (not (b == signature_b)) signature _ rest2 s rest e3 in
    let (v, rest3, _, e5) = and_then-ok (word 1) _ rest2 s rest e4 in
    let (_, rest4, _, e6) = and_then-ok (check_version v) _ rest3 s rest e5 in (rest4, e6)

readers-IsSorted :
    (left : ℕ) (input : List ℕ) (s : Section) (rest : List ℕ)
    → (readers left).read_section input ≡ ok (s, rest)
    → IsSorted s
unfolding readers fail
readers-IsSorted zero input s rest e = cc
readers-IsSorted (suc left) input s rest e = section_of-IsSorted _ input s rest e

-- The root section of a body that parses is in the order of its names, each of which it has once.
pub parse-IsSorted : (input : List ℕ) (s : Section) → parse input ≡ ok s → IsSorted s
parse-IsSorted input s h =
    let (mid, e) = body-ok input s [] (parse-ok input s h) in
    unfold root in readers-IsSorted (max_depth + 1) mid s [] e

canonical-Above :
    (n : List ℕ) (s : Section) (drop : List (List ℕ)) → Above n s → Above n (canonical s drop)
unfolding canonical
canonical-Above n no_entries drop a = tt
canonical-Above n (entry m v s) drop a = elim (Bool-cases (is_dropped drop m)) [
  | inl y ↦ rw y (canonical-Above n s drop a.1)
  | inr k ↦ rw k (a.0, canonical-Above n s drop a.1)
]

canonical-IsSorted : (s : Section) (drop : List (List ℕ)) → IsSorted s → IsSorted (canonical s drop)
unfolding canonical
canonical-IsSorted no_entries drop h = tt
canonical-IsSorted (entry m v s) drop h = elim (Bool-cases (is_dropped drop m)) [
  | inl y ↦ rw y (canonical-IsSorted s drop h.1)
  | inr k ↦ rw k (canonical-Above m s drop h.0, canonical-IsSorted s drop h.1)
]

find-canonical :
    (s : Section) (drop : List (List ℕ)) (k : List ℕ)
    → find (canonical s drop) k ≡ (if is_dropped drop k then none else find s k)
unfolding canonical find
find-canonical no_entries drop k = elim (Bool-cases (is_dropped drop k)) [
  | inl y ↦ rw y refl
  | inr n ↦ rw n refl
]
find-canonical (entry m v s) drop k = elim (Bool-cases (is_dropped drop m)) [
  | inl y ↦ rw y (
      find-canonical s drop k ∙ elim (Bool-cases (same m k)) [
        | inl here ↦
            let dropped : is_dropped drop k ≡ true = rw (sym ((same_iff m k).0 here)) y in
            rw dropped refl
        | inr off ↦ rw off refl
      ])
  | inr kept ↦ rw kept (elim (Bool-cases (same m k)) [
    | inl here ↦
        let stays : is_dropped drop k ≡ false = rw (sym ((same_iff m k).0 here)) kept in
        rw (here, stays) refl
    | inr off ↦ rw off (find-canonical s drop k)
  ])
]

find_kept :
    (s t : Section) (drop : List (List ℕ)) (k : List ℕ)
    → ((k : List ℕ) → is_dropped drop k ≡ false → find s k ≡ find t k)
    → (if is_dropped drop k then none else find s k)
      ≡ (if is_dropped drop k then none else find t k)
find_kept s t drop k h = elim (Bool-cases (is_dropped drop k)) [
  | inl y ↦ rw y refl
  | inr kept ↦ rw kept (h k kept)
]

-- Two answers that parse are the same without the keys to drop exactly when the same is found in
-- both under every other key: neither the order in which a node wrote the keys nor a dropped key
-- makes a difference.
pub canonical-eq_iff :
    (a b : List ℕ) (s t : Section) (drop : List (List ℕ))
    → parse a ≡ ok s
    → parse b ≡ ok t
    → (canonical s drop ≡ canonical t drop)
      ↔ ((k : List ℕ) → is_dropped drop k ≡ false → find s k ≡ find t k)
canonical-eq_iff a b s t drop ha hb = (
  (λ e k kept.
      let left : find (canonical s drop) k ≡ find s k = find-canonical s drop k ∙ rw kept refl in
      let right : find (canonical t drop) k ≡ find t k = find-canonical t drop k ∙ rw kept refl in
      sym left ∙ ap (λ x. find x k) e ∙ right),
  λ h.
      find-ext (canonical s drop) (canonical t drop)
        (canonical-IsSorted s drop (parse-IsSorted a s ha))
        (canonical-IsSorted t drop (parse-IsSorted b t hb))
        (λ k. find-canonical s drop k ∙ find_kept s t drop k h ∙ sym (find-canonical t drop k)),
)
