-- ===== src/Upstream/Faults.antt =====
-- When an upstream is ejected: the third fault of an hour, and for a day.
use mnr.Common.{
  ℕ, ◌+◌, ◌-◌, ◌≤◌, ◌≡◌, refl, sym, subst, ap, inl, inr, true, false, ◌&&◌, not, Option, none, some,
  List, [], ◌∷◌, ◌++◌, append-nil, append_assoc, length, ltb, leb, arith, Bool-cases,
}
use mnr.Upstream.Health.{
  Health, fault_window, fault_limit, eject_for, is_after, retain, ejected, note_fault,
}

retain-append : (now : ℕ) (xs ys : List ℕ) → retain now (xs ++ ys) ≡ retain now xs ++ retain now ys
unfolding retain
retain-append now [] ys = refl
retain-append now (x ∷ xs) ys = elim (Bool-cases (ltb (now - x) fault_window)) [
  | inl y ↦ rw y (ap (λ t. x ∷ t) (retain-append now xs ys))
  | inr n ↦ rw n (retain-append now xs ys)
]

-- What an earlier look dropped, a later one drops too.
retain-retain :
    (last now : ℕ) (xs : List ℕ) → last ≤ now → retain now (retain last xs) ≡ retain now xs
unfolding retain
retain-retain last now [] h = refl
retain-retain last now (x ∷ xs) h = elim (Bool-cases (ltb (last - x) fault_window)) [
  | inl y ↦ rw y (elim (Bool-cases (ltb (now - x) fault_window)) [
    | inl z ↦ rw z (ap (λ t. x ∷ t) (retain-retain last now xs h))
    | inr n ↦ rw n (retain-retain last now xs h)
  ])
  | inr n ↦
      let gone : ltb (now - x) fault_window ≡ false = ground arith in
      rw (n, gone) (retain-retain last now xs h)
]

retain_self : (now : ℕ) → retain now (now ∷ []) ≡ now ∷ []
unfolding retain
retain_self now = let here : ltb (now - now) fault_window ≡ true = ground arith in rw here refl

module _ {F : Type 0} where
  -- The faults at these times, in turn.
  unfoldable pub note_faults : Health F → List ℕ → Health F
  note_faults h [] = h
  note_faults h (t ∷ times) = note_faults (note_fault h t).0 times

-- The times do not go back, from `last` on.
abbrev pub InOrder : ℕ → List ℕ → Type 0
InOrder last [] = Unit
InOrder last (t ∷ times) = (last ≤ t) × InOrder t times

-- An ejection began with a fault that was at least the third of an hour, and lasts for a day.
abbrev pub Justified : List ℕ → Option ℕ → Type 0
Justified seen none = Unit
Justified seen (some until) =
    (pre : List ℕ) × (t : ℕ) × (post : List ℕ) × (seen ≡ pre ++ t ∷ post)
    × (until ≡ t + eject_for)
    × (fault_limit ≤ length (retain t (pre ++ t ∷ [])))

Justified-snoc :
    (seen : List ℕ) (now : ℕ) (o : Option ℕ) → Justified seen o → Justified (seen ++ now ∷ []) o
Justified-snoc seen now none h = tt
Justified-snoc seen now (some until) (pre, t, post, split, is, three) =
    (pre, t, post ++ now ∷ [], rw (split, append_assoc) refl, is, three)

kept-snoc :
    (faults seen : List ℕ) (last now : ℕ)
    → faults ≡ retain last seen
    → last ≤ now
    → retain now faults ++ now ∷ [] ≡ retain now (seen ++ now ∷ [])
kept-snoc faults seen last now e h =
    rw (e, retain-retain last now seen h, retain-append now seen (now ∷ []), retain_self now) refl

module _ {F : Type 0} where
  record Logged (h : Health F) (seen : List ℕ) (last : ℕ) : Type 0 where
    kept : h.faults ≡ retain last seen
    justified : Justified seen h.ejected_until

  note_fault-Logged :
      (h : Health F) (seen : List ℕ) (last now : ℕ)
      → Logged h seen last
      → last ≤ now
      → Logged (note_fault h now).0 (seen ++ now ∷ []) now
  unfolding note_fault
  note_fault-Logged h seen last now l le =
      let kept = kept-snoc h.faults seen last now l.kept le in
      elim (Bool-cases
        (leb fault_limit (length (retain now h.faults ++ now ∷ [])) && not (ejected h now))) [
          | inl y ↦ rw y (record {
            kept = kept;
            justified = (
              seen,
              now,
              [],
              refl,
              refl,
              subst (λ xs. fault_limit ≤ length xs) kept (ground arith),
            );
          })
          | inr n ↦ rw n (record {
            kept = kept;
            justified = Justified-snoc seen now h.ejected_until l.justified;
          })
        ]

  note_faults-Logged :
      (h : Health F) (seen times : List ℕ) (last : ℕ)
      → Logged h seen last
      → InOrder last times
      → (end : ℕ) × Logged (note_faults h times) (seen ++ times) end
  unfolding note_faults
  note_faults-Logged h seen [] last l o = (last, rw append-nil l)
  note_faults-Logged h seen (t ∷ times) last l o = rw (← append_assoc seen (t ∷ []) times) (
      note_faults-Logged (note_fault h t).0 (seen ++ t ∷ []) times t
        (note_fault-Logged h seen last t l o.0) o.1)

  -- Whatever faults an upstream with a clean record commits: if it is ejected, it is for a day from a
  -- fault that was at least the third of those of the hour that ends with it.
  pub ejection-Justified :
      (h : Health F) (times : List ℕ)
      → h.faults ≡ []
      → h.ejected_until ≡ none
      → InOrder 0 times
      → Justified times (note_faults h times).ejected_until
  unfolding retain
  ejection-Justified h times clean free o =
      (note_faults-Logged h [] times 0
        (record { kept = clean; justified = subst (Justified []) (sym free) tt }) o).1.justified

  third-ejects :
      (h : Health F) (seen times : List ℕ) (last now : ℕ)
      → Logged h seen last
      → InOrder last (times ++ now ∷ [])
      → fault_limit ≤ length (retain now ((seen ++ times) ++ now ∷ []))
      → ejected (note_faults h (times ++ now ∷ [])) now ≡ true
  unfolding note_faults note_fault ejected
  third-ejects h seen [] last now l o three =
      let kept = kept-snoc h.faults seen last now l.kept o.0 in
      let many : fault_limit ≤ length (retain now h.faults ++ now ∷ []) =
        subst (λ xs. fault_limit ≤ length xs) (sym kept) (rw append-nil at three) in
      elim (Bool-cases (is_after now h.ejected_until)) [
        | inl y ↦ ground arith
        | inr n ↦ ground arith
      ]
  third-ejects h seen (t ∷ times) last now l o three =
      third-ejects (note_fault h t).0 (seen ++ t ∷ []) times t now
        (note_fault-Logged h seen last t l o.0) o.1 (rw (append_assoc seen (t ∷ []) times) three)

  -- And whatever they are: where the last is at least the third of its hour, the upstream is ejected
  -- then, from that fault or from one before.
  pub third_fault-ejects :
      (h : Health F) (times : List ℕ) (now : ℕ)
      → h.faults ≡ []
      → h.ejected_until ≡ none
      → InOrder 0 (times ++ now ∷ [])
      → fault_limit ≤ length (retain now (times ++ now ∷ []))
      → ejected (note_faults h (times ++ now ∷ [])) now ≡ true
  unfolding retain
  third_fault-ejects h times now clean free o three =
      third-ejects h [] times 0 now
        (record { kept = clean; justified = subst (Justified []) (sym free) tt }) o three
