-- ===== src/Serve/Agreement.antt =====
-- crates/relay/src/agreement.rs: the answer on which the upstreams of a tier agree. Which upstreams
-- have a token and what they answer are arguments; so is `need`, more than one here (Serve/Tiers chooses it). The cached answers of
-- output distributions are left out.
use mnr.Common.{
  ℕ, zero, suc, ◌+◌, Bool, true, false, ◌&&◌, Option, none, some, List, [], ◌∷◌, map, length, take,
  ltb, ◌==◌, if◌then◌else◌, is_yes, Result, ok, err,
}
use mnr.Wire.Answers.{Text}
use mnr.Wire.Json.{Json}
use mnr.Serve.Labels.{Verify, bypass}
use mnr.Serve.Exchange.{
  Forwarded, ForwardError, Outcome, json_error, or_json, message, bytes, mnr_verify, mnr_cache,
  mnr_upstream, mnr_agreeing,
}
use mnr.Serve.Comparable.{Comparable, comparable, comparable_discrete}

abbrev pub candidates : ℕ
candidates = 6

-- The chosen, and the spares behind them: no token is taken for a spare.
unfoldable pub choose : ℕ → (ℕ → Bool) → List ℕ → List ℕ × List ℕ
choose need has_token [] = ([], [])
choose zero has_token (id ∷ ranked) = ([], id ∷ ranked)
choose (suc need) has_token (id ∷ ranked) = elim (has_token id) [
  | true ↦ let (chosen, spares) = choose need has_token ranked in (id ∷ chosen, spares)
  | false ↦ choose (suc need) has_token ranked
]

-- `spares.into_iter().find(…)`
unfoldable pub find_spare : (ℕ → Bool) → List ℕ → Option ℕ
find_spare has_token [] = none
find_spare has_token (id ∷ spares) = if has_token id then some id else find_spare has_token spares

-- The answers with HTTP status 200.
abbrev pub good : Result ForwardError Forwarded → Option Forwarded
good (err e) = none
good (ok f) = if f.status == 200 then some f else none

unfoldable pub ask : (ℕ → Result ForwardError Forwarded) → List ℕ → List (ℕ × Forwarded)
ask forward [] = []
ask forward (id ∷ ids) = elim (good (forward id)) [
  | none ↦ ask forward ids
  | some f ↦ (id, f) ∷ ask forward ids
]

abbrev pub annotated : ℕ × Forwarded → Verify → Option (ℕ × ℕ) → Outcome
annotated (id, f) verify none = record {
  status = f.status;
  content_type = or_json f.content_type;
  body = bytes f.body;
  headers = mnr_verify verify ∷ mnr_cache bypass ∷ mnr_upstream id ∷ [];
  extra_wu = 0;
}
annotated (id, f) verify (some (k, n)) = record {
  status = f.status;
  content_type = or_json f.content_type;
  body = bytes f.body;
  headers = mnr_verify verify ∷ mnr_cache bypass ∷ mnr_upstream id ∷ mnr_agreeing k n ∷ [];
  extra_wu = 0;
}

-- The outcome, with the upstreams that are credited and those that are faulted, and the body that is
-- offered to the cache.
pub record Settled : Type 0 where
  pub outcome : Outcome
  pub verified : List ℕ
  pub faulted : List ℕ
  pub offered : Option (List ℕ)

abbrev pub unsettled : Outcome → Settled
unsettled o = record { outcome = o; verified = []; faulted = []; offered = none }

abbrev pub disagree : Settled
disagree = unsettled (json_error 502 (message "upstreams disagree") Verify.failed)

-- An answer with its tree.
abbrev pub Tree : Type 0 → Type 0
Tree Value = (ℕ × Forwarded) × Comparable Value

module _ (j : Json) (path : Text) where
  open j use {Value, value_discrete}

  abbrev pub same_tree : Comparable Value → Comparable Value → Bool
  same_tree a b = is_yes (comparable_discrete value_discrete a b)

  -- The answers with their trees; none, if one has no tree.
  abbrev pub with_tree :
      ℕ × Forwarded
      → Option (Comparable Value)
      → Option (List (Tree Value))
      → Option (List (Tree Value))
  with_tree a none rest = none
  with_tree a (some t) none = none
  with_tree a (some t) (some rest) = some ((a, t) ∷ rest)

  unfoldable pub trees : List (ℕ × Forwarded) → Option (List (Tree Value))
  trees [] = some []
  trees ((id, f) ∷ answers) = with_tree (id, f) (comparable j path f.body) (trees answers)

  unfoldable pub matching : Comparable Value → List (Tree Value) → List (ℕ × Forwarded)
  matching tie [] = []
  matching tie ((a, t) ∷ rest) =
      if same_tree t tie then a ∷ matching tie rest else matching tie rest

  unfoldable pub differing : Comparable Value → List (Tree Value) → List ℕ
  differing tie [] = []
  differing tie ((a, t) ∷ rest) =
      if same_tree t tie then differing tie rest else a.0 ∷ differing tie rest

  unfoldable pub all_agree : Comparable Value → List (Tree Value) → Bool
  all_agree first [] = true
  all_agree first ((a, t) ∷ rest) = same_tree t first && all_agree first rest

  -- The tie-breaker's answer decides.
  abbrev pub decide : ℕ → ℕ → List (Tree Value) → Comparable Value → List (ℕ × Forwarded) → Settled
  decide need third answers tie [] = disagree
  decide need third answers tie (winner ∷ others) = record {
    outcome = annotated winner Verify.agreement (some (length (winner ∷ others) + 1, need + 1));
    verified = third ∷ map (λ a. a.0) (winner ∷ others);
    faulted = differing tie answers;
    offered = some winner.1.body;
  }

  abbrev pub break_with : ℕ → List (Tree Value) → ℕ → Option (Comparable Value) → Settled
  break_with need answers third none = disagree
  break_with need answers third (some tie) = decide need third answers tie (matching tie answers)

  abbrev pub tie_break : ℕ → List (Tree Value) → List (ℕ × Forwarded) → Settled
  tie_break need answers [] = unsettled (
      json_error 502 (message "upstreams disagree and the tie-breaker is unavailable")
        Verify.unverified)
  tie_break need answers ((third, f) ∷ more) =
      break_with need answers third (comparable j path f.body)

  abbrev pub break_tie :
      ℕ → List (Tree Value) → (ℕ → Result ForwardError Forwarded) → Option ℕ → Settled
  break_tie need answers forward none = disagree
  break_tie need answers forward (some spare) = tie_break need answers (ask forward (spare ∷ []))

  abbrev pub compare_trees :
      ℕ
      → (ℕ → Result ForwardError Forwarded)
      → Option ℕ
      → ℕ × Forwarded
      → Option (List (Tree Value))
      → Settled
  compare_trees need forward spare first none = unsettled (annotated first Verify.unverified none)
  compare_trees need forward spare first (some []) =
      unsettled (annotated first Verify.unverified none)
  compare_trees need forward spare first (some ((a, t) ∷ rest)) =
      if all_agree t ((a, t) ∷ rest)
      then record {
        outcome = annotated first Verify.agreement (some (need, need));
        verified = map (λ x. x.0.0) ((a, t) ∷ rest);
        faulted = [];
        offered = some first.1.body;
      }
      else break_tie need ((a, t) ∷ rest) forward spare

  abbrev pub settle_answers :
      ℕ → (ℕ → Result ForwardError Forwarded) → Option ℕ → List (ℕ × Forwarded) → Settled
  settle_answers need forward spare [] =
      unsettled (json_error 502 (message "no upstream answered") Verify.unverified)
  settle_answers need forward spare (first ∷ others) =
      if ltb (length (first ∷ others)) need
      then unsettled (annotated first Verify.unverified none)
      else compare_trees need forward spare first (trees (first ∷ others))

  abbrev pub settle_chosen :
      ℕ → (ℕ → Bool) → (ℕ → Result ForwardError Forwarded) → List ℕ × List ℕ → Settled
  settle_chosen need has_token forward ([], spares) =
      unsettled (json_error 503 (message "no healthy upstream") Verify.unverified)
  settle_chosen need has_token forward (id ∷ chosen, spares) =
      settle_answers need forward (find_spare has_token spares) (ask forward (id ∷ chosen))

  unfoldable pub agree : ℕ → (ℕ → Bool) → (ℕ → Result ForwardError Forwarded) → List ℕ → Settled
  unfolding choose find_spare ask trees matching differing all_agree
  agree need has_token forward ranked =
      settle_chosen need has_token forward (choose need has_token (take candidates ranked))
