-- ===== src/Serve/Relayed.antt =====
-- What `broadcast` answers: who accepted, and whose answer is passed on.
use mnr.Common.{
  ℕ, ◌+◌, ◌≡◌, refl, sym, ◌∙◌, inl, inr, Bool, not, Option, none, some, List, [], ◌∷◌, length,
  arith, Bool-cases, if◌then◌else◌, Result, ok, err, Result-cases,
}
use mnr.Wire.Json.{Json}
use mnr.Serve.Labels.{Verify, bypass}
use mnr.Serve.Exchange.{
  Forwarded, ForwardError, Outcome, bytes, mnr_verify, mnr_cache, mnr_upstream, mnr_relayed,
}
use mnr.Serve.Broadcast.{Sent, or_insert, relayed_answer, accepts, collect, broadcast_all}

-- The answers among the results of these upstreams that pass a test, in order.
pub answers_with :
    (Forwarded → Bool) → (ℕ → Result ForwardError Forwarded) → List ℕ → List (ℕ × Forwarded)
answers_with test send [] = []
answers_with test send (id ∷ ids) = elim (send id) [
  | err e ↦ answers_with test send ids
  | ok f ↦ if test f then (id, f) ∷ answers_with test send ids else answers_with test send ids
]

abbrev pub first {ℓ} : {A : Type ℓ} → List A → Option A
first [] = none
first (x ∷ xs) = some x

-- What `get_or_insert` keeps of a run.
abbrev pub kept : {A : Type 0} → Option A → List A → Option A
kept none xs = first xs
kept (some a) xs = some a

kept-or_insert :
    {A : Type 0} (o : Option A) (x : A) (xs : List A) → kept (or_insert o x) xs ≡ kept o (x ∷ xs)
kept-or_insert none x xs = refl
kept-or_insert (some a) x xs = refl

kept-nil : {A : Type 0} (o : Option A) → kept o [] ≡ o
kept-nil none = refl
kept-nil (some a) = refl

-- An upstream's answer as it is, with how many of how many accepted.
abbrev pub PassesOn : ℕ → ℕ → ℕ × Forwarded → Outcome → Type 0
PassesOn k n (id, f) o =
    (o.status ≡ f.status)
    × (o.body ≡ bytes f.body)
    × (o.headers
        ≡ mnr_verify Verify.unverified ∷ mnr_cache bypass ∷ mnr_upstream id ∷ mnr_relayed k n ∷ [])

-- What a client is answered, by the acceptances and the rejections.
abbrev pub IsRelayed : ℕ → List (ℕ × Forwarded) → List (ℕ × Forwarded) → Outcome → Type 0
IsRelayed n (a ∷ more) rejections o = PassesOn (length (a ∷ more)) n a o
IsRelayed n [] (r ∷ more) o = PassesOn 0 n r o
IsRelayed n [] [] o =
    (o.status ≡ 502)
    × (o.headers ≡ mnr_verify Verify.unverified ∷ mnr_cache bypass ∷ mnr_relayed 0 n ∷ [])

relayed_answer-IsRelayed :
    (n : ℕ) (acceptances rejections : List (ℕ × Forwarded))
    → IsRelayed n acceptances rejections
        (relayed_answer (length acceptances) (first acceptances) (first rejections) n)
relayed_answer-IsRelayed n (a ∷ more) rejections = (refl, refl, refl)
relayed_answer-IsRelayed n [] (r ∷ more) = (refl, refl, refl)
relayed_answer-IsRelayed n [] [] = (refl, refl)

module _ (j : Json) (send : ℕ → Result ForwardError Forwarded) where
  abbrev pub accepting : List ℕ → List (ℕ × Forwarded)
  accepting = answers_with (accepts j) send

  abbrev pub rejecting : List ℕ → List (ℕ × Forwarded)
  rejecting = answers_with (λ f. not (accepts j f)) send

  abbrev Collects : List ℕ → Sent → Sent → Type 0
  Collects ids s t =
      (t.accepted ≡ s.accepted + length (accepting ids))
      × (t.first_ok ≡ kept s.first_ok (accepting ids))
      × (t.first_reject ≡ kept s.first_reject (rejecting ids))

  collect-Collects : (ids : List ℕ) (s : Sent) → Collects ids s (collect j send ids s)
  unfolding collect answers_with
  collect-Collects [] s = (omega arith, sym (kept-nil s.first_ok), sym (kept-nil s.first_reject))
  collect-Collects (id ∷ ids) s = elim (Result-cases (send id)) [
    | inr (e, is) ↦ rw (is, collect, answers_with) (collect-Collects ids s)
    | inl (f, is) ↦ elim (Bool-cases (accepts j f)) [
      | inl y ↦
          let ih =
            collect-Collects ids
              (record s { accepted = s.accepted + 1; first_ok = or_insert s.first_ok (id, f) }) in
          rw (is, y, collect, answers_with)
            (omega (arith, ih.0), ih.1 ∙ kept-or_insert s.first_ok (id, f) (accepting ids), ih.2)
      | inr n ↦
          let ih =
            collect-Collects ids (record s { first_reject = or_insert s.first_reject (id, f) }) in
          rw (is, n, collect, answers_with)
            (ih.0, ih.1, ih.2 ∙ kept-or_insert s.first_reject (id, f) (rejecting ids))
    ]
  ]

  -- A broadcast to the ranked upstreams passes on the status and the body of the first acceptance
  -- (status 200 and a body whose `status` is OK), and says how many accepted out of all that were
  -- asked; if none accepted, those of the first rejection, with 0; and if none answered, it is a 502.
  -- The label is `none`.
  pub broadcast_all_lem :
      (id : ℕ) (ranked : List ℕ)
      → IsRelayed
          (length (id ∷ ranked))
          (accepting (id ∷ ranked))
          (rejecting (id ∷ ranked))
          (broadcast_all j send (id ∷ ranked))
  unfolding broadcast_all
  broadcast_all_lem id ranked =
      let (count, ok_first, reject_first) =
        collect-Collects (id ∷ ranked)
          (record { accepted = 0; first_ok = none; first_reject = none }) in
      let number : (collect j send (id ∷ ranked)
            (record { accepted = 0; first_ok = none; first_reject = none })).accepted
          ≡ length (accepting (id ∷ ranked)) =
        omega (arith, count) in
      rw (number, ok_first, reject_first)
        (relayed_answer-IsRelayed (length (id ∷ ranked)) (accepting (id ∷ ranked))
          (rejecting (id ∷ ranked)))
