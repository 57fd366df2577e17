-- ===== src/Serve/Kept.antt =====
-- What `immutable` caches was checked, and is served with its label.
use Prim.Native.String.{String}
use mathlib.Core.Option
use mnr.Common.{
  ℕ, ◌≡◌, ◌⊎◌, refl, sym, ap, inl, inr, Bool, true, false, Option, none, some, List, [], ◌∷◌, take,
  In, Result, ok, err, Bool-cases,
}
use mnr.Wire.Json.{Json}
use mnr.Verify.Quorum.{QuorumTip}
use mnr.Serve.Labels.{Verify, verify_label, hit, Verified, label_of, label_of-verify_label}
use mnr.Serve.Exchange.{Forwarded, ForwardError, Outcome, mnr_verify, mnr_cache, wrapped, json_ok}
use mnr.Serve.Attempts.{max_attempts, fetch_verified}
use mnr.Serve.Tries.{Right}
use mnr.Serve.Fair.{IsConcluded, fetch_verified-IsConcluded}
use mnr.Serve.Route.{is_unverified, cacheable}
use mnr.Serve.Deep.{IsDeep, cacheable_iff}
use mnr.Serve.Immutable.{Cached, Immutable, result_bytes, entry_of, from_fetched, immutable}

module _ (j : Json) (take_light : ℕ → ℕ → Bool) (forward : ℕ → Result ForwardError Forwarded)
    (check : Forwarded → Result String Verified) where
  -- The entry is the result of an answer that one of the first ranked upstreams gave and that passed
  -- the check, with a label, at a height below the tip safety line.
  abbrev pub IsChecked : List ℕ → Option QuorumTip → Cached → Verified → Type 0
  IsChecked ranked q c v =
      (id : ℕ) × (f : Forwarded) × In id (take max_attempts ranked)
      × Right forward check id f v
      × (is_unverified v.verify ≡ false)
      × IsDeep v.height q
      × (result_bytes j f.body ≡ some c.body)
      × (c.verify ≡ verify_label v.verify)

  -- The entry is served with this label, unless it is `failed`, and nothing else happens.
  abbrev pub IsRepeated : Cached → Verified → Immutable → Type 0
  IsRepeated c v next =
      ((v.verify ≡ Verify.failed)
        ⊎ (next.outcome ≡ json_ok (wrapped c.body) (mnr_verify v.verify ∷ mnr_cache hit ∷ [])))
      × (next.faults ≡ [])
      × (next.verified ≡ [])
      × (next.put ≡ none)

  map-some :
      (label : String) (o : Option (List ℕ)) (c : Cached)
      → ◌≡◌ {A = Option Cached} (Option.map (λ b. record { body = b; verify = label }) o) (some c)
      → (o ≡ some c.body) × (c.verify ≡ label)
  map-some label none c h = cc
  map-some label (some b) c h =
      let same : ◌≡◌ {A = Cached} (record { body = b; verify = label }) c = cc in
      (ap (λ d. some d.body) same, sym (ap (λ d. d.verify) same))

  entry_of-some :
      (v : Verified) (f : Forwarded) (q : Option QuorumTip) (c : Cached)
      → entry_of j v f q ≡ some c
      → (cacheable v.verify v.height q ≡ true)
        × (result_bytes j f.body ≡ some c.body)
        × (c.verify ≡ verify_label v.verify)
  unfolding entry_of
  entry_of-some v f q c h = elim (Bool-cases (cacheable v.verify v.height q)) [
    | inl y ↦
        let (body, label) =
          map-some (verify_label v.verify) (result_bytes j f.body) c (rw y at h) in
        (y, body, label)
    | inr n ↦ cc (rw n at h)
  ]

  fetched-IsChecked :
      (ranked : List ℕ) (q : Option QuorumTip) (c : Cached)
      (r : List (ℕ × String) × Result Outcome (Forwarded × ℕ × Verified))
      → IsConcluded take_light forward check (take max_attempts ranked) r
      → (from_fetched j q r).put ≡ some c
      → (v : Verified) × IsChecked ranked q c v
  fetched-IsChecked ranked q c (faults, err o) s h = cc
  fetched-IsChecked ranked q c (faults, ok (f, id, v)) (fair, right, member) h =
      let (may, body, label) = entry_of-some v f q c h in
      let (labelled, deep) = (cacheable_iff v.verify v.height q).0 may in
      (v, (id, f, member, right, labelled, deep, body, label))

  -- A request that puts an entry in the cache puts the result of an answer that one of the first
  -- three ranked upstreams gave and that passed the check, with a label other than `none`; the highest
  -- block on which it depends is known, and at least ten below the quorum tip (or is block 0, below a
  -- tip of ten or less). A later request under the key gets this result, faults and credits nobody, and
  -- its label is the one that the check gave, unless that was `failed`.
  pub immutable-IsChecked :
      (ranked : List ℕ) (q : Option QuorumTip) (c : Cached) (later : Option QuorumTip)
      (ranked_later : List ℕ)
      → (immutable j take_light forward check none q ranked).put ≡ some c
      → (v : Verified) × IsChecked ranked q c v
        × IsRepeated c v (immutable j take_light forward check (some c) later ranked_later)
  unfolding immutable
  immutable-IsChecked ranked q c later ranked_later h =
      let (v, checked) =
        fetched-IsChecked ranked q c (fetch_verified take_light forward check ranked)
          (fetch_verified-IsConcluded take_light forward check ranked) h in
      let label = checked.7 in
      let shown : (v.verify ≡ Verify.failed) ⊎ (label_of c.verify ≡ v.verify) =
        rw label (label_of-verify_label v.verify) in
      (
        v,
        checked,
        (
          elim shown [
            | inl wrong ↦ inl wrong
            | inr same ↦
                inr (ap (λ l. json_ok (wrapped c.body) (mnr_verify l ∷ mnr_cache hit ∷ [])) same)
          ],
          refl,
          refl,
          refl,
        ),
      )
