-- ===== src/Consensus/Majority.antt =====
-- The vote finds a largest group of answers with one key, and serves the best ranked of it.
use mnr.Common.{
  ℕ, ◌+◌, ◌<◌, ◌≤◌, ◌≡◌, refl, inl, inr, Option, none, some, List, [], ◌∷◌, ◌++◌, length,
  length-append, get_elem?, All, All-append, arith, ltb, Bool-cases, append-nil, append_assoc,
}
use mnr.Consensus.Vote.{Answer, Keyed, tally, vote, best_group}

pub get_elem?-append_length {ℓ} :
    {A : Type ℓ} (xs ys : List A) (x : A) → get_elem? (xs ++ x ∷ ys) (length xs) ≡ some x
get_elem?-append_length [] ys x = refl
get_elem?-append_length (y ∷ xs) ys x = get_elem?-append_length xs ys x

module _ {K Value : Type 0} (key_discrete : Discrete K) where
  -- An answer's key has fewer, or no more, answers than `c`; an answer without a key has none.
  abbrev pub Fewer : Keyed K Value → ℕ → Option K × Answer Value → Type 0
  Fewer all c (none, a) = Unit
  Fewer all c (some k, a) = tally key_discrete (some k) all < c

  abbrev pub NoMore : Keyed K Value → ℕ → Option K × Answer Value → Type 0
  NoMore all c (none, a) = Unit
  NoMore all c (some k, a) = tally key_discrete (some k) all ≤ c

  -- The best group among those whose first member stands in the list.
  pub record IsBest (all : Keyed K Value) (seen : Keyed K Value) (count i : ℕ) : Type 0 where
    pub before : Keyed K Value
    pub after : Keyed K Value
    pub key : K
    pub answer : Answer Value
    pub split : seen ≡ before ++ (some key, answer) ∷ after
    pub index : length before ≡ i
    pub counted : tally key_discrete (some key) all ≡ count
    pub fewer : All (Fewer all count) before
    pub no_more : All (NoMore all count) after

  abbrev pub Best : Keyed K Value → Keyed K Value → Option (ℕ × ℕ) → Type 0
  Best all seen none = All (Fewer all 0) seen
  Best all seen (some (count, i)) = IsBest all seen count i

  Fewer-mono :
      (all xs : Keyed K Value) (c d : ℕ) → c ≤ d → All (Fewer all c) xs → All (Fewer all d) xs
  Fewer-mono all [] c d h k = tt
  Fewer-mono all ((none, a) ∷ xs) c d h k = (tt, Fewer-mono all xs c d h k.1)
  Fewer-mono all ((some key, a) ∷ xs) c d h k = (omega arith, Fewer-mono all xs c d h k.1)

  NoMore-Fewer :
      (all xs : Keyed K Value) (c d : ℕ) → c < d → All (NoMore all c) xs → All (Fewer all d) xs
  NoMore-Fewer all [] c d h k = tt
  NoMore-Fewer all ((none, a) ∷ xs) c d h k = (tt, NoMore-Fewer all xs c d h k.1)
  NoMore-Fewer all ((some key, a) ∷ xs) c d h k = (omega arith, NoMore-Fewer all xs c d h k.1)

  pub Fewer-NoMore : (all xs : Keyed K Value) (c : ℕ) → All (Fewer all c) xs → All (NoMore all c) xs
  Fewer-NoMore all [] c k = tt
  Fewer-NoMore all ((none, a) ∷ xs) c k = (tt, Fewer-NoMore all xs c k.1)
  Fewer-NoMore all ((some key, a) ∷ xs) c k = (omega arith, Fewer-NoMore all xs c k.1)

  extend :
      (all seen : Keyed K Value) (count i : ℕ) (x : Option K × Answer Value)
      → IsBest all seen count i
      → NoMore all count x
      → IsBest all (seen ++ x ∷ []) count i
  extend all seen count i x b h = record {
    before = b.before;
    after = b.after ++ x ∷ [];
    key = b.key;
    answer = b.answer;
    split = rw (b.split, append_assoc) refl;
    index = b.index;
    counted = b.counted;
    fewer = b.fewer;
    no_more = All-append (NoMore all count) b.after (x ∷ []) b.no_more (h, tt);
  }

  start :
      (all seen : Keyed K Value) (k : K) (a : Answer Value)
      → All (Fewer all (tally key_discrete (some k) all)) seen
      → IsBest all (seen ++ (some k, a) ∷ []) (tally key_discrete (some k) all) (length seen)
  start all seen k a h = record {
    before = seen;
    after = [];
    key = k;
    answer = a;
    split = refl;
    index = refl;
    counted = refl;
    fewer = h;
    no_more = tt;
  }

  seen-Fewer :
      (all seen : Keyed K Value) (count i d : ℕ)
      → IsBest all seen count i
      → count < d
      → All (Fewer all d) seen
  seen-Fewer all seen count i d b h = rw b.split (
      All-append (Fewer all d) b.before ((some b.key, b.answer) ∷ b.after)
        (Fewer-mono all b.before count d (omega arith) b.fewer)
        (rw b.counted h, NoMore-Fewer all b.after count d h b.no_more))

  vote-Best :
      (all seen : Keyed K Value) (best : Option (ℕ × ℕ)) (key : Option K) (a : Answer Value)
      → Best all seen best
      → Best all (seen ++ (key, a) ∷ []) (vote key_discrete all key (length seen) best)
  unfolding vote
  vote-Best all seen none none a b = All-append (Fewer all 0) seen ((none, a) ∷ []) b (tt, tt)
  vote-Best all seen (some (count, i)) none a b = extend all seen count i (none, a) b tt
  vote-Best all seen none (some k) a b =
      start all seen k a (Fewer-mono all seen 0 (tally key_discrete (some k) all) (omega arith) b)
  vote-Best all seen (some (count, i)) (some k) a b =
      elim (Bool-cases (ltb count (tally key_discrete (some k) all))) [
        | inl y ↦ rw y (start all seen k a (seen-Fewer all seen count i _ b (ground arith)))
        | inr n ↦ rw n (extend all seen count i (some k, a) b (ground arith))
      ]

  pub best_group-Best :
      (all seen rest : Keyed K Value) (i : ℕ) (best : Option (ℕ × ℕ))
      → length seen ≡ i
      → Best all seen best
      → Best all (seen ++ rest) (best_group key_discrete all rest i best)
  unfolding best_group
  best_group-Best all seen [] i best e b = rw append-nil b
  best_group-Best all seen ((key, a) ∷ rest) i best e b =
      rw (← append_assoc seen ((key, a) ∷ []) rest) (
        best_group-Best all (seen ++ (key, a) ∷ []) rest (i + 1) (vote key_discrete all key i best)
          (omega (arith, length-append seen ((key, a) ∷ [])))
          (rw (← e) (vote-Best all seen best key a b)))
