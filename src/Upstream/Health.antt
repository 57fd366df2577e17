-- ===== src/Upstream/Health.antt =====
-- crates/relay/src/upstream.rs: what the pool knows of an upstream. Times are in milliseconds of one
-- clock. A round trip time is an `f64`: its type is a parameter.
use Prim.Native.String.{String}
use mnr.Common.{
  ℕ, ◌+◌, ◌-◌, Bool, true, false, ◌&&◌, not, Option, none, some, List, [], ◌∷◌, ◌++◌, length, ltb,
  leb, ◌==◌, if◌then◌else◌,
}
use mnr.HeaderChain.Store.{Hash, same}
use mnr.Verify.Quorum.{QuorumTip}

abbrev pub fault_window : ℕ
fault_window = 3600000

abbrev pub fault_limit : ℕ
fault_limit = 3

abbrev pub eject_for : ℕ
eject_for = 86400000

pub record Health (F : Type 0) : Type 0 where
  pub up : Bool
  pub block_count : ℕ
  pub top_hash : Option Hash
  pub synchronized : Bool
  pub rtt_ema_ms : Option F
  pub last_probe : Option ℕ
  pub last_error : Option String
  pub opted_out : Bool
  pub restricted : Option Bool
  pub faults : List ℕ
  pub ejected_until : Option ℕ
  pub was_ejected : Bool
  pub up_ring : List (ℕ × ℕ × ℕ)

-- `Health::default()`
abbrev pub unknown_health : {F : Type 0} → Health F
unknown_health = record {
  up = false;
  block_count = 0;
  top_hash = none;
  synchronized = false;
  rtt_ema_ms = none;
  last_probe = none;
  last_error = none;
  opted_out = false;
  restricted = none;
  faults = [];
  ejected_until = none;
  was_ejected = false;
  up_ring = [];
}

-- `self.ejected_until.is_some_and(|t| t > now)`
abbrev pub is_after : ℕ → Option ℕ → Bool
is_after now none = false
is_after now (some t) = ltb now t

-- `h.faults.retain(|t| now.duration_since(*t) < FAULT_WINDOW)`
unfoldable pub retain : ℕ → List ℕ → List ℕ
retain now [] = []
retain now (t ∷ faults) =
    if ltb (now - t) fault_window then t ∷ retain now faults else retain now faults

-- `h.top_hash == Some(q.hash)`
abbrev pub hash_is : Hash → Option Hash → Bool
hash_is hash none = false
hash_is hash (some h) = same h hash

module _ {F : Type 0} where
  unfoldable pub ejected : Health F → ℕ → Bool
  ejected h now = is_after now h.ejected_until

  -- The part of `record_fault_at` that changes the upstream's health; `true` is an ejection.
  unfoldable pub note_fault : Health F → ℕ → Health F × Bool
  unfolding retain ejected
  note_fault h now =
      let faults = retain now h.faults ++ now ∷ [] in
      if leb fault_limit (length faults) && not (ejected h now)
      then (
        record h { faults = faults; ejected_until = some (now + eject_for); was_ejected = true },
        true,
      )
      else (record h { faults = faults }, false)

  -- One upstream's part of `note_ejection_lapses`.
  unfoldable pub note_lapse : Health F → ℕ → Health F
  unfolding ejected
  note_lapse h now = record h { was_ejected = ejected h now }

  unfoldable pub on_tip : Health F → Option QuorumTip → Bool
  on_tip h none = false
  on_tip h (some q) = h.block_count == q.height + 1 && hash_is q.hash h.top_hash
