-- ===== src/Consensus/Reduced.antt =====
-- What `reduce` settles on.
use mathlib.Core.Option
use mnr.Common.{
  ℕ, ◌<◌, ◌≤◌, ◌≡◌, ◌↔◌, ◌≢◌, ◌⊎◌, refl, sym, ap, subst, inl, inr, true, Option, none, some, [],
  ◌∷◌, ◌++◌, get_elem?, All, All-append, In, arith, leb, is_yes, length, map, ◌∙◌, Bool-cases,
}
use mnr.Common.Sub.{Sub, done, keep, skip}
use mnr.Consensus.Vote.{
  Answer, Keyed, Reduced, min_agree, same_key, tally, members_of, best_group, elected, best_ranked,
  settle, reduce_keyed,
}
use mnr.Consensus.Majority.{
  Fewer, NoMore, IsBest, Best, best_group-Best, get_elem?-append_length, Fewer-NoMore,
}

-- The upstream gave an answer with this key.
abbrev pub Backs : {K Value : Type 0} → K → ℕ → Keyed K Value → Type 0
Backs k u [] = ⊥
Backs k u ((key, a) ∷ keyed) = ((key ≡ some k) × (a.upstream ≡ u)) ⊎ Backs k u keyed

module _ {K : Type 0} (key_discrete : Discrete K) where
  same_key_iff :
      (other : Option K) (k : K) → (same_key key_discrete other (some k) ≡ true) ↔ (other ≡ some k)
  same_key_iff none k = ((λ h. cc), λ h. cc)
  same_key_iff (some other) k = case (key_discrete other k)
    where
      case : (d : Dec (other ≡ k)) → (is_yes d ≡ true) ↔ (some other ≡ some k)
      case (yes e) = ((λ h. cc), λ h. refl)
      case (no n) = ((λ h. absurd (cc)), λ h. absurd (n (cc)))

module _ {K Value : Type 0} (key_discrete : Discrete K) where
  members_of_iff :
      (k : K) (u : ℕ) (keyed : Keyed K Value)
      → In u (members_of key_discrete (some k) keyed) ↔ Backs k u keyed
  unfolding members_of
  members_of_iff k u [] = ((λ m. m), λ m. m)
  members_of_iff k u ((other, a) ∷ keyed) =
      let (of, to) = members_of_iff k u keyed in
      let (fits, same) = same_key_iff key_discrete other k in
      elim (Bool-cases (same_key key_discrete other (some k))) [
        | inl y ↦ rw y (
          (λ m. elim m [ inl e ↦ inl (fits y, e) | inr n ↦ inr (of n) ]),
          λ m. elim m [ inl e ↦ inl e.1 | inr n ↦ inr (to n) ],
        )
        | inr n ↦ rw n (
          (λ m. inr (of m)),
          λ m. elim m [ inl e ↦ absurd (let is = same e.0 in cc) | inr b ↦ to b ],
        )
      ]

  length-members_of :
      (key : Option K) (keyed : Keyed K Value)
      → length (members_of key_discrete key keyed) ≡ tally key_discrete key keyed
  unfolding members_of tally
  length-members_of key [] = refl
  length-members_of key ((other, a) ∷ keyed) =
      let ih = length-members_of key keyed in
      elim (Bool-cases (same_key key_discrete other key)) [
        | inl y ↦ rw y (omega (arith, ih))
        | inr n ↦ rw n (omega (arith, ih))
      ]

  -- Each answer is a member at most once.
  members_of-Sub :
      (key : Option K) (keyed : Keyed K Value)
      → Sub (members_of key_discrete key keyed) (map (λ x. x.1.upstream) keyed)
  unfolding members_of
  members_of-Sub key [] = done
  members_of-Sub key ((other, a) ∷ keyed) = elim (Bool-cases (same_key key_discrete other key)) [
    | inl y ↦ rw y (keep (members_of-Sub key keyed))
    | inr n ↦ rw n (skip (members_of-Sub key keyed))
  ]

  -- No key has more answers than the best group's.
  tally_cases :
      (all xs : Keyed K Value) (c : ℕ) (k : K)
      → All (NoMore key_discrete all c) xs
      → (tally key_discrete (some k) xs ≡ 0) ⊎ (tally key_discrete (some k) all ≤ c)
  unfolding tally
  tally_cases all [] c k h = inl refl
  tally_cases all ((other, a) ∷ xs) c k h =
      elim (Bool-cases (same_key key_discrete other (some k))) [
        | inl y ↦ inr (
            subst (λ o. NoMore key_discrete all c (o, a)) ((same_key_iff key_discrete other k).0 y)
              h.0)
        | inr n ↦
            rw n (elim (tally_cases all xs c k h.1) [ inl e ↦ inl (omega arith) | inr le ↦ inr le ])
      ]

  tally-le :
      (all : Keyed K Value) (c : ℕ) (k : K)
      → All (NoMore key_discrete all c) all
      → tally key_discrete (some k) all ≤ c
  tally-le all c k h = elim (tally_cases all all c k h) [ inl e ↦ omega arith | inr le ↦ le ]

  abbrev OtherKey : K → Option K × Answer Value → Type 0
  OtherKey k (other, a) = other ≢ some k

  before_other :
      (all xs : Keyed K Value) (c : ℕ) (k : K)
      → tally key_discrete (some k) all ≡ c
      → All (Fewer key_discrete all c) xs
      → All (OtherKey k) xs
  before_other all [] c k e h = tt
  before_other all ((other, a) ∷ xs) c k e h = (
    (λ is. let less = subst (λ o. Fewer key_discrete all c (o, a)) is h.0 in absurd (omega arith)),
    before_other all xs c k e h.1,
  )

  -- A group of answers with one key is served by its best ranked answer.
  pub record IsElected (keyed : Keyed K Value) (r : Reduced Value) (count : ℕ) : Type 0 where
    pub key : K
    pub answer : Answer Value
    pub before : Keyed K Value
    pub after : Keyed K Value
    pub split : keyed ≡ before ++ (some key, answer) ∷ after
    pub first : All (OtherKey key) before
    pub serves : (r.value ≡ answer.value) × (r.served ≡ answer.upstream)
    pub counted : tally key_discrete (some key) keyed ≡ count
    pub enough : min_agree ≤ count
    pub largest : (k : K) → tally key_discrete (some k) keyed ≤ count
    pub backed : (u : ℕ) → In u r.members ↔ Backs key u keyed
    pub numbered : length r.members ≡ count
    pub once : Sub r.members (map (λ x. x.1.upstream) keyed)

  -- No two answers have one key, and the best ranked is served.
  pub record IsUnagreed (keyed : Keyed K Value) (r : Reduced Value) : Type 0 where
    pub key : Option K
    pub answer : Answer Value
    pub after : Keyed K Value
    pub split : keyed ≡ (key, answer) ∷ after
    pub serves : (r.value ≡ answer.value) × (r.served ≡ answer.upstream)
    pub no_pair : (k : K) → tally key_discrete (some k) keyed < min_agree
    pub no_members : r.members ≡ []

  abbrev pub IsReduced : Keyed K Value → Reduced Value → Option ℕ → Type 0
  IsReduced keyed r none = IsUnagreed keyed r
  IsReduced keyed r (some count) = IsElected keyed r count

  best-NoMore :
      (keyed : Keyed K Value) (count i : ℕ)
      → IsBest key_discrete keyed keyed count i
      → All (NoMore key_discrete keyed count) keyed
  best-NoMore keyed count i b = subst (All (NoMore key_discrete keyed count)) (sym b.split) (
      All-append (NoMore key_discrete keyed count) b.before ((some b.key, b.answer) ∷ b.after)
        (Fewer-NoMore key_discrete keyed b.before count b.fewer)
        (omega (arith, b.counted), b.no_more))

  elected_lem :
      (keyed : Keyed K Value) (count i : ℕ)
      → IsBest key_discrete keyed keyed count i
      → min_agree ≤ count
      → (r : Reduced Value) × (Option.map (elected key_discrete keyed count) (get_elem? keyed i)
          ≡ some r)
        × (r.agreeing ≡ some count)
        × IsElected keyed r count
  elected_lem keyed count i b h =
      let x : Option K × Answer Value = (some b.key, b.answer) in
      let found : get_elem? keyed i ≡ some x =
        rw (b.split, ← b.index) (get_elem?-append_length b.before b.after x) in
      let all = best-NoMore keyed count i b in
      (
        elected key_discrete keyed count x,
        ap (Option.map (elected key_discrete keyed count)) found,
        refl,
        record {
          key = b.key;
          answer = b.answer;
          before = b.before;
          after = b.after;
          split = b.split;
          first = before_other keyed b.before count b.key b.counted b.fewer;
          serves = (refl, refl);
          counted = b.counted;
          enough = h;
          largest = λ k. tally-le keyed count k all;
          backed = λ u. members_of_iff b.key u keyed;
          numbered = length-members_of (some b.key) keyed ∙ b.counted;
          once = members_of-Sub (some b.key) keyed;
        },
      )

  unagreed_lem :
      (x : Option K × Answer Value) (xs : Keyed K Value) (c : ℕ)
      → c < min_agree
      → All (NoMore key_discrete (x ∷ xs) c) (x ∷ xs)
      → (r : Reduced Value) × (best_ranked key_discrete (x ∷ xs) ≡ some r)
        × (r.agreeing ≡ none)
        × IsUnagreed (x ∷ xs) r
  unagreed_lem (key, a) xs c h all = (
    record { value = a.value; agreeing = none; members = []; served = a.upstream },
    refl,
    refl,
    record {
      key = key;
      answer = a;
      after = xs;
      split = refl;
      serves = (refl, refl);
      no_pair = λ k. let le = tally-le ((key, a) ∷ xs) c k all in omega arith;
      no_members = refl;
    },
  )

  -- Of answers on which a vote is held, one is served: the best ranked of a largest group with one
  -- key, where two or more have the same; its members are the upstreams that gave an answer with
  -- that key, and no key has more. Where no two have one key, the best ranked answer of all is
  -- served, and none agree.
  pub reduce_keyed-IsReduced :
      (x : Option K × Answer Value) (xs : Keyed K Value)
      → (r : Reduced Value) × (reduce_keyed key_discrete (x ∷ xs) ≡ some r)
        × IsReduced (x ∷ xs) r r.agreeing
  unfolding reduce_keyed
  reduce_keyed-IsReduced x xs =
      settled (best_group key_discrete (x ∷ xs) (x ∷ xs) 0 none)
        (best_group-Best key_discrete (x ∷ xs) [] (x ∷ xs) 0 none refl tt)
    where
      settled :
          (best : Option (ℕ × ℕ))
          → Best key_discrete (x ∷ xs) (x ∷ xs) best
          → (r : Reduced Value) × (settle key_discrete (x ∷ xs) best ≡ some r)
            × IsReduced (x ∷ xs) r r.agreeing
      settled none b =
          let (r, is, alone, h) =
            unagreed_lem x xs 0 (omega arith) (Fewer-NoMore key_discrete (x ∷ xs) (x ∷ xs) 0 b) in
          (r, is, subst (IsReduced (x ∷ xs) r) (sym alone) h)
      settled (some (count, i)) b = elim (Bool-cases (leb min_agree count)) [
        | inl y ↦
            let (r, is, agree, h) = elected_lem (x ∷ xs) count i b (ground arith) in
            (r, rw y is, subst (IsReduced (x ∷ xs) r) (sym agree) h)
        | inr n ↦
            let (r, is, alone, h) =
              unagreed_lem x xs count (ground arith) (best-NoMore (x ∷ xs) count i b) in
            (r, rw n is, subst (IsReduced (x ∷ xs) r) (sym alone) h)
      ]
