-- ===== src/Epee/Sizes.antt =====
-- What is parsed is no larger than what it is parsed from.
use mnr.Common.{ℕ, zero, suc, ◌+◌, ◌-◌, ◌≤◌, ◌≡◌, List, [], length, ltb, ◌==◌, ok, arith}
use mnr.Epee.Tree.{Value, Section, no_values, no_entries, insert, too_deep}
use mnr.Epee.Reader.{Reader}
use mnr.Epee.Parse.{
  Readers, deeper_array, value_of, elements, array_of, entry_of, entries, section_of, readers, root,
  check_version, after_first, body, parse,
}
use mnr.Epee.Prefix.{parse-ok}
use mnr.Epee.Paid.{
  value_size, values_size, section_size, section_size-insert, IsPaid, weaken, and_then-IsPaid,
  give-IsPaid, fail-IsPaid, if-IsPaid, read_bytes-IsPaid, word-IsPaid, count-IsPaid, utf8-IsPaid,
  size_of-IsPaid, leaf-IsPaid, text-IsPaid,
}

-- Readers that pay for what they return, whatever was read before them.
abbrev PaySections : Reader Section → Type 0
PaySections r = (spare : ℕ) → IsPaid (λ s. 1 + section_size s + spare) spare r

abbrev PayValues : (ℕ → Reader Value) → Type 0
PayValues r = (spare t : ℕ) → IsPaid (λ v. value_size v + spare) spare (r t)

module _ (s : Reader Section) (a : ℕ → Reader Value) (hs : PaySections s) (ha : PayValues a) where
  deeper-IsPaid :
      (spare inner : ℕ) → IsPaid (λ v. value_size v + spare) (1 + spare) (deeper_array a inner)
  deeper-IsPaid spare inner =
      if-IsPaid (ltb inner 0x80) (fail-IsPaid _)
        (weaken (ha spare (inner - 0x80)) (λ v. omega arith))

  value_of_pays : PayValues (value_of s a)
  unfolding value_of
  value_of_pays spare t = if-IsPaid (t == 1) (leaf-IsPaid 8 _ (λ v. omega arith)) (
      if-IsPaid (t == 2) (leaf-IsPaid 4 _ (λ v. omega arith)) (
        if-IsPaid (t == 3) (leaf-IsPaid 2 _ (λ v. omega arith)) (
          if-IsPaid (t == 4) (leaf-IsPaid 1 _ (λ v. omega arith)) (
            if-IsPaid (t == 5) (leaf-IsPaid 8 _ (λ v. omega arith)) (
              if-IsPaid (t == 6) (leaf-IsPaid 4 _ (λ v. omega arith)) (
                if-IsPaid (t == 7) (leaf-IsPaid 2 _ (λ v. omega arith)) (
                  if-IsPaid (t == 8) (leaf-IsPaid 1 _ (λ v. omega arith)) (
                    if-IsPaid (t == 9) (leaf-IsPaid 8 _ (λ v. omega arith)) (
                      if-IsPaid (t == 10) text-IsPaid (
                        if-IsPaid (t == 11) (leaf-IsPaid 1 _ (λ v. omega arith)) (
                          if-IsPaid (t == 12)
                            (and_then-IsPaid (hs spare) (λ v. give-IsPaid _ (omega arith)))
                            (if-IsPaid (t == 13)
                              (and_then-IsPaid (word-IsPaid 1) (deeper-IsPaid spare))
                              (fail-IsPaid _)))))))))))))

elements_pay :
    (r : Reader Value) (n spare : ℕ)
    → ((spare : ℕ) → IsPaid (λ v. value_size v + spare) spare r)
    → IsPaid (λ vs. values_size vs + spare) spare (elements r n)
unfolding elements
elements_pay r zero spare h = give-IsPaid no_values (omega arith)
elements_pay r (suc n) spare h = and_then-IsPaid (h spare) (λ v.
    and_then-IsPaid (elements_pay r n (value_size v + spare) h) (λ vs. give-IsPaid _ (omega arith)))

array_of_pays : (r : ℕ → Reader Value) → PayValues r → PayValues (array_of r)
unfolding array_of
array_of_pays r h spare t = and_then-IsPaid (size_of-IsPaid {spare = spare} t) (λ least.
    and_then-IsPaid (count-IsPaid least) (λ n.
      and_then-IsPaid (elements_pay (r t) n (1 + spare) (λ more. h more t))
        (λ vs. give-IsPaid _ (omega arith))))

entry_of_pays :
    (a v : ℕ → Reader Value) (spare : ℕ)
    → PayValues a
    → PayValues v
    → IsPaid (λ w. value_size w + spare) spare (entry_of a v)
unfolding entry_of
entry_of_pays a v spare ha hv = and_then-IsPaid (word-IsPaid 1) (λ t.
    if-IsPaid (ltb t 0x80) (weaken (hv spare t) (λ w. omega arith))
      (weaken (ha spare (t - 0x80)) (λ w. omega arith)))

entries_pay :
    (r : Reader Value) (n : ℕ) (out : Section) (spare : ℕ)
    → ((spare : ℕ) → IsPaid (λ v. value_size v + spare) spare r)
    → IsPaid (λ s. section_size s + spare) (section_size out + spare) (entries r n out)
unfolding entries
entries_pay r zero out spare h = give-IsPaid out (omega arith)
entries_pay r (suc n) out spare h =
    let kept = section_size out + spare in
    and_then-IsPaid (word-IsPaid 1) (λ size. and_then-IsPaid (read_bytes-IsPaid size) (λ raw.
      and_then-IsPaid (utf8-IsPaid (1 + kept) raw) (λ name.
        and_then-IsPaid (h (length name + (1 + kept))) (λ v.
          weaken (entries_pay r n (insert name v out) spare h)
            (λ s. omega (arith, section_size-insert name v out))))))

section_of_pays :
    (r : Reader Value)
    → ((spare : ℕ) → IsPaid (λ v. value_size v + spare) spare r)
    → PaySections (section_of r)
unfolding section_of
section_of_pays r h spare =
    and_then-IsPaid (count-IsPaid 2)
      (λ n. weaken (entries_pay r n no_entries (1 + spare) h) (λ s. omega arith))

record ArePaid (r : Readers) : Type 0 where
  sections : PaySections r.read_section
  arrays : PayValues r.read_array
  values : PayValues r.read_value

readers-ArePaid : (left : ℕ) → ArePaid (readers left)
unfolding readers
readers-ArePaid zero = record {
  sections = λ spare. fail-IsPaid too_deep;
  arrays = λ spare t. fail-IsPaid too_deep;
  values = value_of_pays _ _ (λ spare. fail-IsPaid too_deep) (λ spare t. fail-IsPaid too_deep);
}
readers-ArePaid (suc left) =
    let next = readers-ArePaid left in
    let values = value_of_pays _ _ next.sections next.arrays in
    let arrays = array_of_pays _ next.values in
    record {
      sections = section_of_pays _ (λ spare. entry_of_pays _ _ spare arrays values);
      arrays = arrays;
      values = values;
    }

body-IsPaid : IsPaid (λ s. 10 + section_size s) 0 body
unfolding body after_first check_version root
body-IsPaid = and_then-IsPaid (word-IsPaid 4) (λ a. if-IsPaid _ (fail-IsPaid _) (
    and_then-IsPaid (word-IsPaid 4) (λ b. if-IsPaid _ (fail-IsPaid _) (
      and_then-IsPaid (word-IsPaid 1) (λ v.
        and_then-IsPaid {size = λ _. 9} (if-IsPaid _ (fail-IsPaid _) (give-IsPaid tt (omega arith)))
          (λ u. weaken ((readers-ArePaid 33).sections 9) (λ s. omega arith)))))))

-- What a body is parsed into is smaller than the body by at least the ten bytes of its signature,
-- its version and its count: the values in it, the bytes of its strings and those of its names
-- together are no more than the other bytes, whatever counts the body claims.
pub parse_size :
    (input : List ℕ) (s : Section) → parse input ≡ ok s → 10 + section_size s ≤ length input
parse_size input s h = omega (arith, body-IsPaid.pays input s [] (parse-ok input s h))
