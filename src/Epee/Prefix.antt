-- ===== src/Epee/Prefix.antt =====
-- A body that parses is read to its end, and to no other.
use mnr.Common.{
  ℕ, zero, suc, ◌-◌, ◌≡◌, ◌≢◌, refl, inl, inr, List, [], ◌∷◌, ◌++◌, ltb, ◌==◌, ok, err,
  Result-cases,
}
use mnr.Epee.Tree.{Section, Value, trailing, too_deep, insert, no_entries}
use mnr.Epee.Reader.{Reader, give, and_then, read_bytes, word, count}
use mnr.Epee.Parse.{
  utf8, size_of, Readers, deeper_array, value_of, elements, array_of, entry_of, entries, section_of,
  readers, root, check_version, after_first, body, ended, parse,
}
use mnr.Epee.Stable.{
  IsStable, and_then-IsStable, give-IsStable, fail-IsStable, read_bytes-IsStable, word-IsStable,
  count-IsStable, utf8-IsStable, size_of-IsStable, if-IsStable,
}

-- A word, made into a value.
leaf-IsStable : (n : ℕ) (f : ℕ → Value) → IsStable (and_then (word n) (λ v. give (f v)))
leaf-IsStable n f = and_then-IsStable (word n) _ (word-IsStable n) (λ v. give-IsStable (f v))

module _ (s : Reader Section) (a : ℕ → Reader Value) (hs : IsStable s)
    (ha : (t : ℕ) → IsStable (a t)) where
  deeper-IsStable : (inner : ℕ) → IsStable (deeper_array a inner)
  deeper-IsStable inner = if-IsStable (ltb inner 0x80) _ _ (fail-IsStable _) (ha (inner - 0x80))

  text-IsStable :
      IsStable (and_then (count 1) (λ n. and_then (read_bytes n) (λ b. give (Value.bytes b))))
  text-IsStable =
      and_then-IsStable (count 1) _ (count-IsStable 1)
        (λ n. and_then-IsStable (read_bytes n) _ (read_bytes-IsStable n) (λ b. give-IsStable _))

  pub value_of-IsStable : (t : ℕ) → IsStable (value_of s a t)
  unfolding value_of
  value_of-IsStable t = if-IsStable (t == 1) _ _ (leaf-IsStable 8 _) (
      if-IsStable (t == 2) _ _ (leaf-IsStable 4 _) (
        if-IsStable (t == 3) _ _ (leaf-IsStable 2 _) (
          if-IsStable (t == 4) _ _ (leaf-IsStable 1 _) (
            if-IsStable (t == 5) _ _ (leaf-IsStable 8 _) (
              if-IsStable (t == 6) _ _ (leaf-IsStable 4 _) (
                if-IsStable (t == 7) _ _ (leaf-IsStable 2 _) (
                  if-IsStable (t == 8) _ _ (leaf-IsStable 1 _) (
                    if-IsStable (t == 9) _ _ (leaf-IsStable 8 _) (
                      if-IsStable (t == 10) _ _ text-IsStable (
                        if-IsStable (t == 11) _ _ (leaf-IsStable 1 _) (
                          if-IsStable (t == 12) _ _
                            (and_then-IsStable s _ hs (λ v. give-IsStable _))
                            (if-IsStable (t == 13) _ _
                              (and_then-IsStable (word 1) _ (word-IsStable 1) deeper-IsStable)
                              (fail-IsStable _)))))))))))))

elements-IsStable : (r : Reader Value) (n : ℕ) → IsStable r → IsStable (elements r n)
unfolding elements
elements-IsStable r zero h = give-IsStable _
elements-IsStable r (suc n) h =
    and_then-IsStable r _ h
      (λ v. and_then-IsStable (elements r n) _ (elements-IsStable r n h) (λ vs. give-IsStable _))

array_of-IsStable :
    (r : ℕ → Reader Value) → ((t : ℕ) → IsStable (r t)) → (t : ℕ) → IsStable (array_of r t)
unfolding array_of
array_of-IsStable r h t = and_then-IsStable (size_of t) _ (size_of-IsStable t) (λ least.
    and_then-IsStable (count least) _ (count-IsStable least) (λ n.
      and_then-IsStable (elements (r t) n) _ (elements-IsStable (r t) n (h t))
        (λ vs. give-IsStable _)))

entry_of-IsStable :
    (a v : ℕ → Reader Value)
    → ((t : ℕ) → IsStable (a t))
    → ((t : ℕ) → IsStable (v t))
    → IsStable (entry_of a v)
unfolding entry_of
entry_of-IsStable a v ha hv =
    and_then-IsStable (word 1) _ (word-IsStable 1)
      (λ t. if-IsStable (ltb t 0x80) _ _ (hv t) (ha (t - 0x80)))

entries-IsStable :
    (r : Reader Value) (n : ℕ) (out : Section) → IsStable r → IsStable (entries r n out)
unfolding entries
entries-IsStable r zero out h = give-IsStable out
entries-IsStable r (suc n) out h = and_then-IsStable (word 1) _ (word-IsStable 1) (λ size.
    and_then-IsStable (read_bytes size) _ (read_bytes-IsStable size) (λ name.
      and_then-IsStable (utf8 name) _ (utf8-IsStable name)
        (λ name. and_then-IsStable r _ h (λ v. entries-IsStable r n (insert name v out) h))))

section_of-IsStable : (r : Reader Value) → IsStable r → IsStable (section_of r)
unfolding section_of
section_of-IsStable r h =
    and_then-IsStable (count 2) _ (count-IsStable 2) (λ n. entries-IsStable r n no_entries h)

-- The readers of every depth.
record AreStable (r : Readers) : Type 0 where
  sections : IsStable r.read_section
  arrays : (t : ℕ) → IsStable (r.read_array t)
  values : (t : ℕ) → IsStable (r.read_value t)

readers-AreStable : (left : ℕ) → AreStable (readers left)
unfolding readers
readers-AreStable zero = record {
  sections = fail-IsStable _;
  arrays = λ t. fail-IsStable too_deep;
  values = value_of-IsStable _ _ (fail-IsStable too_deep) (λ t. fail-IsStable too_deep);
}
readers-AreStable (suc left) =
    let next = readers-AreStable left in
    let values = value_of-IsStable _ _ next.sections next.arrays in
    let arrays = array_of-IsStable _ next.values in
    record {
      sections = section_of-IsStable _ (entry_of-IsStable _ _ arrays values);
      arrays = arrays;
      values = values;
    }

body-IsStable : IsStable body
unfolding body after_first check_version root
body-IsStable = and_then-IsStable (word 4) _ (word-IsStable 4) (λ a.
    if-IsStable _ _ _ (fail-IsStable _) (
      and_then-IsStable (word 4) _ (word-IsStable 4) (λ b. if-IsStable _ _ _ (fail-IsStable _) (
        and_then-IsStable (word 1) _ (word-IsStable 1) (λ v.
          and_then-IsStable (check_version v) _
            (if-IsStable _ _ _ (fail-IsStable _) (give-IsStable _))
            (λ u. (readers-AreStable 33).sections))))))

pub ended-ok : (t s : Section) (rest : List ℕ) → ended (t, rest) ≡ ok s → (t ≡ s) × (rest ≡ [])
unfolding ended
ended-ok t s [] h = (cc, refl)
ended-ok t s (b ∷ bs) h = cc

ended-more : (t : Section) (rest : List ℕ) → rest ≢ [] → ended (t, rest) ≡ err trailing
unfolding ended
ended-more t [] h = absurd (h refl)
ended-more t (b ∷ bs) h = refl

-- What a successful parse has read.
pub parse-ok : (input : List ℕ) (s : Section) → parse input ≡ ok s → body input ≡ ok (s, [])
unfolding parse
parse-ok input s h = elim (Result-cases (body input)) [
  | inl ((t, rest), is) ↦
      let (same, none_left) = ended-ok t s rest (rw (is, parse) at h) in
      rw (is, same, none_left) refl
  | inr (e, is) ↦ cc (rw (is, parse) at h)
]

-- A body that parses is the beginning of no other body that does: with any bytes behind it, it is
-- refused for what is trailing.
pub parse_trailing :
    (input x : List ℕ) (s : Section)
    → parse input ≡ ok s
    → x ≢ []
    → parse (input ++ x) ≡ err trailing
unfolding parse
parse_trailing input x s h more =
    rw (body-IsStable input x s [] (parse-ok input s h), parse) (ended-more s x more)
