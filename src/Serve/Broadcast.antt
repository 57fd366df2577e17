-- ===== src/Serve/Broadcast.antt =====
-- crates/relay/src/dispatch.rs: `broadcast`. What each upstream answers within its budget (`cap` where
-- it had no token in time) is an argument.
use mnr.Common.{
  ℕ, ◌+◌, Bool, true, false, ◌&&◌, Option, none, some, List, [], ◌∷◌, ◌++◌, length, ◌==◌, is_yes,
  Result, ok, err,
}
use mnr.Common.Bytes.{bytes_discrete}
use mnr.Wire.Answers.{Text, bytes}
use mnr.Wire.Json.{Json}
use mnr.Serve.Labels.{Verify}
use mnr.Serve.Exchange.{
  Forwarded, ForwardError, Outcome, json_error, message, passthrough, mnr_relayed,
}
use mnr.Serve.Attempts.{no_upstream}

-- How many accepted, and the first answers of each kind.
pub record Sent : Type 0 where
  pub accepted : ℕ
  pub first_ok : Option (ℕ × Forwarded)
  pub first_reject : Option (ℕ × Forwarded)

-- `get_or_insert`
abbrev pub or_insert : {A : Type 0} → Option A → A → Option A
or_insert none a = some a
or_insert (some b) a = some b

abbrev pub with_relayed : ℕ → ℕ → Outcome → Outcome
with_relayed k n o = record o { headers = o.headers ++ mnr_relayed k n ∷ [] }

-- The first acceptance, or else the first rejection, or else an error.
abbrev pub relayed_answer : ℕ → Option (ℕ × Forwarded) → Option (ℕ × Forwarded) → ℕ → Outcome
relayed_answer k (some (id, f)) reject n = with_relayed k n (passthrough f id 0)
relayed_answer k none (some (id, f)) n = with_relayed k n (passthrough f id 0)
relayed_answer k none none n =
    with_relayed k n (json_error 502 (message "no upstream answered") Verify.unverified)

module _ (j : Json) where
  open j use {Value, get, as_str, from_slice}

  abbrev pub is_ok : Option Text → Bool
  is_ok none = false
  is_ok (some s) = is_yes (bytes_discrete s (bytes "OK"))

  abbrev pub status_text : Option Value → Option Text
  status_text none = none
  status_text (some v) = as_str v

  abbrev pub status_of : Option Value → Option Text
  status_of none = none
  status_of (some v) = status_text (get "status" v)

  unfoldable pub accepted_by_daemon : List ℕ → Bool
  unfolding bytes_discrete
  accepted_by_daemon body = is_ok (status_of (from_slice body))

  unfoldable pub accepts : Forwarded → Bool
  unfolding accepted_by_daemon
  accepts f = f.status == 200 && accepted_by_daemon f.body

  unfoldable pub collect : (ℕ → Result ForwardError Forwarded) → List ℕ → Sent → Sent
  unfolding accepts
  collect send [] s = s
  collect send (id ∷ ids) s = elim (send id) [
    | err e ↦ collect send ids s
    | ok f ↦ elim (accepts f) [
      | true ↦
          collect send ids
            (record s { accepted = s.accepted + 1; first_ok = or_insert s.first_ok (id, f) })
      | false ↦ collect send ids (record s { first_reject = or_insert s.first_reject (id, f) })
    ]
  ]

  unfoldable pub broadcast_all : (ℕ → Result ForwardError Forwarded) → List ℕ → Outcome
  unfolding collect
  broadcast_all send [] = no_upstream
  broadcast_all send (id ∷ ranked) =
      let s =
        collect send (id ∷ ranked)
          (record { accepted = 0; first_ok = none; first_reject = none }) in
      relayed_answer s.accepted s.first_ok s.first_reject (length (id ∷ ranked))
