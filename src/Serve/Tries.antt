-- ===== src/Serve/Tries.antt =====
-- What one attempt says of an upstream, and what a run of attempts leaves.
use Prim.Native.String.{String}
use mnr.Common.{
  ℕ, suc, ◌+◌, ◌≤◌, ◌<◌, ◌≡◌, ◌⊎◌, refl, sym, ap, ◌∙◌, inl, inr, Bool, false, Option, none, some,
  List, [], ◌∷◌, ◌++◌, append_assoc, map, length, All, In, leb, if◌then◌else◌, Result, ok, err,
  arith, Bool-cases,
}
use mnr.Serve.Exchange.{Forwarded, ForwardError, cap}
use mnr.Serve.Attempts.{Tried, Verdict, accepted, faulted, failed, checked, judge_of, verdict_of}

pub Verdict-cases :
    {T : Type 0} (v : Verdict T)
    → ((f : Forwarded) × (t : T) × (v ≡ accepted f t))
      ⊎ (((detail : String) × (v ≡ faulted detail)) ⊎ ((e : ForwardError) × (v ≡ failed e)))
Verdict-cases (accepted f t) = inl (f, t, refl)
Verdict-cases (faulted detail) = inr (inl (detail, refl))
Verdict-cases (failed e) = inr (inr (e, refl))

module _ {T : Type 0} (forward : ℕ → Result ForwardError Forwarded)
    (check : Forwarded → Result String T) where
  -- The upstream answered, and the answer passed the check.
  abbrev pub Right : ℕ → Forwarded → T → Type 0
  Right id f t = (forward id ≡ ok f) × (f.status < 500) × (check f ≡ ok t)

  -- The upstream answered, and the answer failed the check.
  abbrev pub Wrong : ℕ × String → Type 0
  Wrong (id, detail) =
      (f : Forwarded) × (forward id ≡ ok f) × (f.status < 500) × (check f ≡ err detail)

  checked-cases :
      (f : Forwarded) (r : Result String T) (v : Verdict T)
      → checked f r ≡ v
      → ((t : T) × (r ≡ ok t) × (v ≡ accepted f t))
        ⊎ ((detail : String) × (r ≡ err detail) × (v ≡ faulted detail))
  checked-cases f (ok t) v h = inl (t, refl, sym h)
  checked-cases f (err detail) v h = inr (detail, refl, sym h)

  pub judge-Right :
      (id : ℕ) (r : Result ForwardError Forwarded) (f : Forwarded) (t : T)
      → forward id ≡ r
      → judge_of forward check r ≡ accepted f t
      → Right id f t
  judge-Right id (err e) f t is h = cc
  judge-Right id (ok g) f t is h = elim (Bool-cases (leb 500 g.status)) [
    | inl y ↦ cc (rw y at h)
    | inr n ↦ elim (checked-cases g (check g) _ (rw n at h)) [
      | inl (u, good, made) ↦
          let same : f ≡ g = cc in
          let value : t ≡ u = cc in rw same (is, ground arith, rw value good)
      | inr (detail, bad, made) ↦ cc
    ]
  ]

  pub judge-Wrong :
      (id : ℕ) (r : Result ForwardError Forwarded) (detail : String)
      → forward id ≡ r
      → judge_of forward check r ≡ faulted detail
      → Wrong (id, detail)
  judge-Wrong id (err e) detail is h = cc
  judge-Wrong id (ok g) detail is h = elim (Bool-cases (leb 500 g.status)) [
    | inl y ↦ cc (rw y at h)
    | inr n ↦ elim (checked-cases g (check g) _ (rw n at h)) [
      | inl (u, good, made) ↦ cc
      | inr (why, bad, made) ↦ let same : detail ≡ why = cc in (g, is, ground arith, rw same bad)
    ]
  ]

  pub Right-verdict :
      (id : ℕ) (f : Forwarded) (t : T) → Right id f t → verdict_of forward check id ≡ accepted f t
  unfolding verdict_of
  Right-verdict id f t (is, low, good) =
      let below : leb 500 f.status ≡ false = ground arith in rw (is, below, good) refl

  pub not-Right :
      (id : ℕ) (v : Verdict T) (f : Forwarded) (t : T)
      → verdict_of forward check id ≡ v
      → (v ≡ accepted f t → ⊥)
      → ¬ Right id f t
  not-Right id v f t is n r = n (sym is ∙ Right-verdict id f t r)

module _ {T : Type 0} (take_light : ℕ → ℕ → Bool) (forward : ℕ → Result ForwardError Forwarded)
    (check : Forwarded → Result String T) where
  -- The upstreams that had a token.
  unfoldable pub asked : ℕ → List ℕ → List ℕ
  asked rank [] = []
  asked rank (id ∷ ids) =
      if take_light rank id then id ∷ asked (suc rank) ids else asked (suc rank) ids

  -- None of them gave an answer that passes.
  abbrev pub NoneRight : List ℕ → Type 0
  NoneRight = All (λ id. (f : Forwarded) (t : T) → ¬ Right forward check id f t)

  -- What the loop adds when it ends with no answer.
  pub record Spent (t0 t : Tried) (ids : List ℕ) : Type 0 where
    pub wrongs : List (ℕ × String)
    pub fair : All (Wrong forward check) wrongs
    pub recorded : t.recorded ≡ t0.recorded ++ wrongs
    pub faults : t.faults ≡ t0.faults + length wrongs
    pub attempts : t.attempts ≡ t0.attempts + length ids
    pub none_right : NoneRight ids
    pub fewer : length wrongs ≤ length ids
    pub full : length wrongs ≡ length ids → map (λ w. w.0) wrongs ≡ ids

  -- What it has done when it ends with an answer.
  pub record Found (t0 t : Tried) (ids : List ℕ) (f : Forwarded) (id : ℕ) (x : T) : Type 0 where
    pub wrongs : List (ℕ × String)
    pub fair : All (Wrong forward check) wrongs
    pub recorded : t.recorded ≡ t0.recorded ++ wrongs
    pub right : Right forward check id f x
    pub member : In id ids

  unfoldable pub After : Tried → List ℕ → List ℕ → Tried × Option (Forwarded × ℕ × T) → Type 0
  After t0 tried ids (t, none) = Spent t0 t tried
  After t0 tried ids (t, some (f, id, x)) = Found t0 t ids f id x

  pub skip :
      (t0 : Tried) (id : ℕ) (tried ids : List ℕ) (r : Tried × Option (Forwarded × ℕ × T))
      → After (record t0 { last = cap }) tried ids r
      → After t0 tried (id ∷ ids) r
  unfolding After
  skip t0 id tried ids (t, none) s = record {
    wrongs = s.wrongs;
    fair = s.fair;
    recorded = s.recorded;
    faults = s.faults;
    attempts = s.attempts;
    none_right = s.none_right;
    fewer = s.fewer;
    full = s.full;
  }
  skip t0 id tried ids (t, some (f, k, x)) s = record {
    wrongs = s.wrongs;
    fair = s.fair;
    recorded = s.recorded;
    right = s.right;
    member = inr s.member;
  }

  pub add_fault :
      (t0 : Tried) (id : ℕ) (detail : String) (tried ids : List ℕ)
      (r : Tried × Option (Forwarded × ℕ × T))
      → Wrong forward check (id, detail)
      → ((f : Forwarded) (t : T) → ¬ Right forward check id f t)
      → After
          (record t0 {
            faults = t0.faults + 1;
            attempts = t0.attempts + 1;
            recorded = t0.recorded ++ (id, detail) ∷ [];
          })
          tried
          ids
          r
      → After t0 (id ∷ tried) (id ∷ ids) r
  unfolding After
  add_fault t0 id detail tried ids (t, none) w n s = record {
    wrongs = (id, detail) ∷ s.wrongs;
    fair = (w, s.fair);
    recorded = s.recorded ∙ append_assoc t0.recorded ((id, detail) ∷ []) s.wrongs;
    faults = omega (arith, s.faults);
    attempts = omega (arith, s.attempts);
    none_right = (n, s.none_right);
    fewer = omega (arith, s.fewer);
    full = λ e. ap (λ xs. id ∷ xs) (s.full (omega arith));
  }
  add_fault t0 id detail tried ids (t, some (f, k, x)) w n s = record {
    wrongs = (id, detail) ∷ s.wrongs;
    fair = (w, s.fair);
    recorded = s.recorded ∙ append_assoc t0.recorded ((id, detail) ∷ []) s.wrongs;
    right = s.right;
    member = inr s.member;
  }

  pub add_failure :
      (t0 : Tried) (id : ℕ) (e : ForwardError) (tried ids : List ℕ)
      (r : Tried × Option (Forwarded × ℕ × T))
      → ((f : Forwarded) (t : T) → ¬ Right forward check id f t)
      → After (record t0 { last = e; attempts = t0.attempts + 1 }) tried ids r
      → After t0 (id ∷ tried) (id ∷ ids) r
  unfolding After
  add_failure t0 id e tried ids (t, none) n s = record {
    wrongs = s.wrongs;
    fair = s.fair;
    recorded = s.recorded;
    faults = s.faults;
    attempts = omega (arith, s.attempts);
    none_right = (n, s.none_right);
    fewer = omega (arith, s.fewer);
    full = λ k. absurd (omega (arith, s.fewer));
  }
  add_failure t0 id e tried ids (t, some (f, k, x)) n s = record {
    wrongs = s.wrongs;
    fair = s.fair;
    recorded = s.recorded;
    right = s.right;
    member = inr s.member;
  }
