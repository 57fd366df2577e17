-- ===== src/Consensus/Vote.antt =====
-- crates/relay/src/consensus.rs: the vote of `reduce`. A key is what two honest nodes must report
-- alike; an answer without one has no part in the vote. A panic of the source is `none`.
use mathlib.Core.Option
use mnr.Common.{
  ℕ, ◌+◌, Bool, true, false, Option, none, some, List, [], ◌∷◌, get_elem?, ltb, leb, if◌then◌else◌,
  is_yes,
}

-- Answers that must agree for a majority.
abbrev pub min_agree : ℕ
min_agree = 2

module _ (Value : Type 0) where
  pub record Answer : Type 0 where
    pub upstream : ℕ
    pub value : Value

  pub record Reduced : Type 0 where
    pub value : Value
    pub agreeing : Option ℕ
    pub members : List ℕ
    pub served : ℕ

-- The answers with their keys.
abbrev pub Keyed : Type 0 → Type 0 → Type 0
Keyed K Value = List (Option K × Answer Value)

-- `best.is_none_or(|(c, _)| count > c)`
abbrev pub better : ℕ → Option (ℕ × ℕ) → Bool
better count none = true
better count (some (c, _)) = ltb c count

-- Equality of keys.
abbrev pub same_key : {K : Type 0} → Discrete K → Option K → Option K → Bool
same_key key_discrete none none = true
same_key key_discrete (some other) (some k) = is_yes (key_discrete other k)
same_key key_discrete _ _ = false

module _ {K Value : Type 0} (key_discrete : Discrete K) where
  unfoldable pub tally : Option K → Keyed K Value → ℕ
  tally key [] = 0
  tally key ((other, a) ∷ keyed) =
      (if same_key key_discrete other key then 1 else 0) + tally key keyed

  unfoldable pub members_of : Option K → Keyed K Value → List ℕ
  members_of key [] = []
  members_of key ((other, a) ∷ keyed) =
      if same_key key_discrete other key
      then a.upstream ∷ members_of key keyed
      else members_of key keyed

  -- One round of the loop; `i` is the index.
  unfoldable pub vote : Keyed K Value → Option K → ℕ → Option (ℕ × ℕ) → Option (ℕ × ℕ)
  unfolding tally
  vote all none i best = best
  vote all (some k) i best =
      let count = tally (some k) all in if better count best then some (count, i) else best

  unfoldable pub best_group : Keyed K Value → Keyed K Value → ℕ → Option (ℕ × ℕ) → Option (ℕ × ℕ)
  unfolding vote
  best_group all [] i best = best
  best_group all ((key, a) ∷ rest) i best = best_group all rest (i + 1) (vote all key i best)

  abbrev pub elected : Keyed K Value → ℕ → Option K × Answer Value → Reduced Value
  elected keyed count (key, a) = record {
    value = a.value;
    agreeing = some count;
    members = members_of key keyed;
    served = a.upstream;
  }

  abbrev pub best_ranked : Keyed K Value → Option (Reduced Value)
  best_ranked [] = none
  best_ranked ((key, a) ∷ keyed) =
      some (record { value = a.value; agreeing = none; members = []; served = a.upstream })

  abbrev pub settle : Keyed K Value → Option (ℕ × ℕ) → Option (Reduced Value)
  settle keyed none = best_ranked keyed
  settle keyed (some (count, i)) =
      if leb min_agree count
      then Option.map (elected keyed count) (get_elem? keyed i)
      else best_ranked keyed

  -- `reduce` for what is voted on.
  unfoldable pub reduce_keyed : Keyed K Value → Option (Reduced Value)
  unfolding best_group members_of
  reduce_keyed keyed = settle keyed (best_group keyed keyed 0 none)
