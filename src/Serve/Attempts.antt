-- ===== src/Serve/Attempts.antt =====
-- crates/relay/src/dispatch.rs: `fetch_verified` and `read`, which try ranked upstreams in turn. Whether
-- the upstream of a rank has a light token, what it answers and what the check says of the answer are
-- arguments.
use Prim.Native.String.{String}
use mnr.Common.{
  ℕ, suc, ◌+◌, Bool, true, false, ◌&&◌, Option, none, some, List, [], ◌∷◌, ◌++◌, take, ltb, leb,
  ◌==◌, if◌then◌else◌, Result, ok, err,
}
use mnr.Serve.Labels.{Verify}
use mnr.Serve.Exchange.{
  Forwarded, ForwardError, cap, http, Outcome, json_error, message, unavailable,
}

abbrev pub max_attempts : ℕ
max_attempts = 3

-- What the loop carries, with the faults that it records in the pool.
pub record Tried : Type 0 where
  pub last : ForwardError
  pub faults : ℕ
  pub attempts : ℕ
  pub recorded : List (ℕ × String)

abbrev pub untried : Tried
untried = record { last = cap; faults = 0; attempts = 0; recorded = [] }

abbrev pub is_cap : ForwardError → Bool
is_cap cap = true
is_cap _ = false

-- The error when no upstream gave an answer.
abbrev pub gave_up : ForwardError → Outcome
gave_up last = json_error (if is_cap last then 503 else 502) (unavailable last) Verify.unverified

abbrev pub all_wrong : Outcome
all_wrong = json_error 502 (message "upstream answers failed verification") Verify.failed

abbrev pub no_upstream : Outcome
no_upstream = json_error 503 (message "no healthy upstream") Verify.unverified

abbrev pub exhausted : Tried → Outcome
exhausted t = if ltb 0 t.faults && t.faults == t.attempts then all_wrong else gave_up t.last

-- What an answer is: accepted, faulted, or no answer.
pub data Verdict (T : Type 0) : Type 0 where
  accepted : Forwarded → T → Verdict T
  faulted : String → Verdict T
  failed : ForwardError → Verdict T

abbrev pub checked : {T : Type 0} → Forwarded → Result String T → Verdict T
checked f (ok t) = accepted f t
checked f (err detail) = faulted detail

module _ {T : Type 0} (forward : ℕ → Result ForwardError Forwarded)
    (check : Forwarded → Result String T) where
  abbrev pub judge_of : Result ForwardError Forwarded → Verdict T
  judge_of (err e) = failed e
  judge_of (ok f) = if leb 500 f.status then failed (http f.status) else checked f (check f)

  unfoldable pub verdict_of : ℕ → Verdict T
  verdict_of id = judge_of (forward id)

abbrev pub concluded :
    {T : Type 0}
    → Tried × Option (Forwarded × ℕ × T)
    → List (ℕ × String) × Result Outcome (Forwarded × ℕ × T)
concluded (t, some found) = (t.recorded, ok found)
concluded (t, none) = (t.recorded, err (exhausted t))

module _ {T : Type 0} (take_light : ℕ → ℕ → Bool) (forward : ℕ → Result ForwardError Forwarded)
    (check : Forwarded → Result String T) where
  unfoldable pub try_all : ℕ → List ℕ → Tried → Tried × Option (Forwarded × ℕ × T)
  unfolding verdict_of
  try_all rank [] t = (t, none)
  try_all rank (id ∷ ids) t = elim (take_light rank id) [
    | false ↦ try_all (suc rank) ids (record t { last = cap })
    | true ↦ elim (verdict_of forward check id) [
      | accepted f answer ↦ (record t { attempts = t.attempts + 1 }, some (f, id, answer))
      | faulted detail ↦ try_all (suc rank) ids (record t {
        faults = t.faults + 1;
        attempts = t.attempts + 1;
        recorded = t.recorded ++ (id, detail) ∷ [];
      })
      | failed e ↦ try_all (suc rank) ids (record t { last = e; attempts = t.attempts + 1 })
    ]
  ]

  -- The faults that are recorded, and the accepted answer or the error.
  unfoldable pub fetch_verified : List ℕ → List (ℕ × String) × Result Outcome (Forwarded × ℕ × T)
  unfolding try_all
  fetch_verified [] = ([], err no_upstream)
  fetch_verified (id ∷ ranked) = concluded (try_all 0 (take max_attempts (id ∷ ranked)) untried)
