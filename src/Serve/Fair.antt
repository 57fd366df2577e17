-- ===== src/Serve/Fair.antt =====
-- What `fetch_verified` returns was checked, and who is faulted gave a wrong answer.
use Prim.Native.String.{String}
use mnr.Common.{
  ℕ, suc, ◌+◌, ◌≤◌, ◌<◌, ◌≡◌, ◌⊎◌, refl, sym, subst, inl, inr, Bool, ◌&&◌, Option, none, some, List,
  [], ◌∷◌, ◌++◌, append-nil, map, take, length, All, In, ltb, ◌==◌, Result, ok, err, arith,
  Bool-cases, dec_lt,
}
use mnr.Serve.Exchange.{Forwarded, ForwardError, cap, Outcome}
use mnr.Serve.Attempts.{
  max_attempts, Tried, untried, all_wrong, no_upstream, gave_up, exhausted, faulted, failed,
  verdict_of, try_all, concluded, fetch_verified,
}
use mnr.Serve.Tries.{
  Verdict-cases, Right, Wrong, judge-Right, judge-Wrong, not-Right, asked, NoneRight, After, skip,
  add_fault, add_failure,
}

module _ {T : Type 0} (take_light : ℕ → ℕ → Bool) (forward : ℕ → Result ForwardError Forwarded)
    (check : Forwarded → Result String T) where
  -- The upstreams that had a token.
  try_all-After :
      (rank : ℕ) (ids : List ℕ) (t : Tried)
      → After take_light forward check t
          (asked take_light forward check rank ids)
          ids
          (try_all take_light forward check rank ids t)
  unfolding try_all asked After
  try_all-After rank [] t = record {
    wrongs = [];
    fair = tt;
    recorded = sym (append-nil t.recorded);
    faults = omega arith;
    attempts = omega arith;
    none_right = tt;
    fewer = omega arith;
    full = λ e. refl;
  }
  try_all-After rank (id ∷ ids) t = elim (Bool-cases (take_light rank id)) [
    | inr no_token ↦
        rw (no_token, try_all)
          (skip take_light forward check t id (asked take_light forward check (suc rank) ids) ids _
            (try_all-After (suc rank) ids (record t { last = cap })))
    | inl token ↦ elim (Verdict-cases (verdict_of forward check id)) [
      | inl (f, x, is) ↦
          rw (token, is, try_all)
            (record {
              wrongs = [];
              fair = tt;
              recorded = sym (append-nil t.recorded);
              right = judge-Right forward check id (forward id) f x refl (unfold verdict_of in is);
              member = inl refl;
            })
      | inr (inl (detail, is)) ↦
          rw (token, is, try_all)
            (add_fault take_light forward check t id detail
              (asked take_light forward check (suc rank) ids) ids _
              (judge-Wrong forward check id (forward id) detail refl (unfold verdict_of in is))
              (λ f x. not-Right forward check id (faulted detail) f x is (λ e. cc))
              (try_all-After (suc rank) ids (record t {
                faults = t.faults + 1;
                attempts = t.attempts + 1;
                recorded = t.recorded ++ (id, detail) ∷ [];
              })))
      | inr (inr (e, is)) ↦
          rw (token, is, try_all)
            (add_failure take_light forward check t id e
              (asked take_light forward check (suc rank) ids) ids _
              (λ f x. not-Right forward check id (failed e) f x is (λ k. cc))
              (try_all-After (suc rank) ids (record t { last = e; attempts = t.attempts + 1 })))
    ]
  ]

  -- Why there is no answer: all that were (asked take_light forward check) were wrong; or not all; or none could be (asked take_light forward check).
  abbrev pub Blames : List (ℕ × String) → List ℕ → Outcome → Type 0
  Blames recorded ids o =
      ((o ≡ all_wrong) × (0 < length ids) × (map (λ w. w.0) recorded ≡ ids))
      ⊎ (((e : ForwardError) × (o ≡ gave_up e)
            × ((length recorded < length ids) ⊎ (length recorded ≡ 0)))
          ⊎ ((o ≡ no_upstream) × (recorded ≡ [])))

  abbrev pub IsConcluded : List ℕ → List (ℕ × String) × Result Outcome (Forwarded × ℕ × T) → Type 0
  IsConcluded ids (recorded, ok (f, id, x)) =
      All (Wrong forward check) recorded × Right forward check id f x × In id ids
  IsConcluded ids (recorded, err o) =
      All (Wrong forward check) recorded
      × NoneRight take_light forward check (asked take_light forward check 0 ids)
      × Blames recorded (asked take_light forward check 0 ids) o

  blame :
      (t : Tried) (wrongs : List (ℕ × String)) (ids : List ℕ)
      → t.faults ≡ length wrongs
      → t.attempts ≡ length ids
      → length wrongs ≤ length ids
      → (length wrongs ≡ length ids → map (λ w. w.0) wrongs ≡ ids)
      → Blames wrongs ids (exhausted t)
  blame t wrongs ids faults attempts fewer full =
      elim (Bool-cases (ltb 0 t.faults && t.faults == t.attempts)) [
        | inl y ↦ rw y (inl (refl, ground arith, full (ground arith)))
        | inr n ↦ rw n (
            inr (
              inl (
                t.last,
                refl,
                elim (dec_lt (length wrongs) (length ids)) [
                  | yes l ↦ inl l
                  | no l ↦ inr (ground arith)
                ],
              )))
      ]

  concluded-IsConcluded :
      (ids : List ℕ) (r : Tried × Option (Forwarded × ℕ × T))
      → After take_light forward check untried (asked take_light forward check 0 ids) ids r
      → IsConcluded ids (concluded r)
  unfolding After
  concluded-IsConcluded ids (t, some (f, id, x)) s =
      (subst (All (Wrong forward check)) (sym s.recorded) s.fair, s.right, s.member)
  concluded-IsConcluded ids (t, none) s = (
    subst (All (Wrong forward check)) (sym s.recorded) s.fair,
    s.none_right,
    subst (λ xs. Blames xs (asked take_light forward check 0 ids) (exhausted t)) (sym s.recorded)
        (blame t s.wrongs (asked take_light forward check 0 ids) (omega (arith, s.faults))
          (omega (arith, s.attempts)) s.fewer s.full),
  )

  -- What `fetch_verified` returns is the answer of one of the first three ranked upstreams, which
  -- passed the check. Who is faulted gave an answer that failed it. If there is no answer, none of
  -- the upstreams that had a token gave one that passes; the label is `failed` if just they were
  -- faulted, at least one of them, and otherwise one of them was not, or nobody was.
  pub fetch_verified-IsConcluded :
      (ranked : List ℕ)
      → IsConcluded (take max_attempts ranked) (fetch_verified take_light forward check ranked)
  unfolding fetch_verified asked
  fetch_verified-IsConcluded [] = (tt, tt, inr (inr (refl, refl)))
  fetch_verified-IsConcluded (id ∷ ranked) =
      concluded-IsConcluded (take max_attempts (id ∷ ranked))
        (try_all take_light forward check 0 (take max_attempts (id ∷ ranked)) untried)
        (try_all-After 0 (take max_attempts (id ∷ ranked)) untried)
