-- ===== src/Upstream/Probe.antt =====
-- crates/relay/src/upstream.rs: one round of probes. What the nodes answered is an argument, and so
-- is the blend of two round trip times. The request-rate samples are left out.
use Prim.Native.String.{String}
use mnr.Common.{
  ℕ, ◌+◌, ◌-◌, ◌%◌, ◌^◌, Bool, true, false, ◌&&◌, not, Option, none, some, List, [], ◌∷◌, ◌++◌, map,
  ltb, if◌then◌else◌, Result, ok, err,
}
use mnr.HeaderChain.Store.{Hash}
use mnr.Verify.Quorum.{TipReport, QuorumTip, quorum_tip}
use mnr.Upstream.Health.{Health, ejected, note_lapse, on_tip}
use mnr.Upstream.Ring.{record_up}

pub record Probe (F : Type 0) : Type 0 where
  pub block_count : ℕ
  pub top_hash : Hash
  pub synchronized : Bool
  pub restricted : Bool
  pub rtt_ms : F

-- An upstream with its health: the source keeps it at the upstream's id.
pub record Member (F : Type 0) : Type 0 where
  pub id : ℕ
  pub owned : Bool
  pub onion : Bool
  pub probes : ℕ
  pub up_rounds : ℕ
  pub health : Health F

module _ {F : Type 0} (blend : F → F → F) where
  abbrev blended : Option F → F → F
  blended none rtt = rtt
  blended (some prev) rtt = blend prev rtt

  -- The health after the upstream's answer.
  unfoldable pub note_probe : ℕ → Health F → Result String (Probe F) → Health F
  note_probe wall h (err e) = record h { last_probe = some wall; up = false; last_error = some e }
  note_probe wall h (ok p) = record h {
    last_probe = some wall;
    up = true;
    block_count = p.block_count;
    top_hash = some p.top_hash;
    synchronized = p.synchronized;
    restricted = some p.restricted;
    rtt_ema_ms = some (blended h.rtt_ema_ms p.rtt_ms);
    last_error = none;
  }

  unfoldable pub note_probes :
      ℕ → List (Member F) → List (Result String (Probe F)) → List (Member F)
  unfolding note_probe
  note_probes wall [] results = []
  note_probes wall (m ∷ members) [] = m ∷ members
  note_probes wall (m ∷ members) (r ∷ results) =
      record m { health = note_probe wall m.health r } ∷ note_probes wall members results

module _ {F : Type 0} where
  -- `p.synchronized && !h.ejected(now) && p.block_count > 0`
  unfoldable pub report_of : ℕ → Member F → Result String (Probe F) → List TipReport
  report_of now m (err e) = []
  report_of now m (ok p) =
      if p.synchronized && not (ejected m.health now) && ltb 0 p.block_count
      then record { upstream = m.id; height = p.block_count - 1; hash = p.top_hash } ∷ []
      else []

  unfoldable pub reports : ℕ → List (Member F) → List (Result String (Probe F)) → List TipReport
  unfolding report_of
  reports now [] results = []
  reports now (m ∷ members) [] = []
  reports now (m ∷ members) (r ∷ results) = report_of now m r ++ reports now members results

  -- The round's verdict on uptime.
  unfoldable pub note_up : Option QuorumTip → ℕ → Member F → Member F
  note_up q unix m =
      let up = m.health.up && on_tip m.health q in
      record m {
        health = record m.health { up_ring = record_up m.health.up_ring up unix };
        probes = (m.probes + 1) % 2 ^ 64;
        up_rounds = if up then (m.up_rounds + 1) % 2 ^ 64 else m.up_rounds;
      }

  unfoldable pub lapse_of : ℕ → Member F → Member F
  lapse_of now m = record m { health = note_lapse m.health now }

  -- `note_ejection_lapses`
  unfoldable pub note_lapses : ℕ → List (Member F) → List (Member F)
  unfolding lapse_of
  note_lapses now = map (lapse_of now)

-- The reports are made before the lapses are noted; an ejection counts by its time in both.
unfoldable pub probe_all :
    {F : Type 0}
    → (F → F → F)
    → ℕ
    → ℕ
    → ℕ
    → ℕ
    → List (Member F)
    → List (Result String (Probe F))
    → List (Member F) × Option QuorumTip
unfolding note_probes note_lapses reports note_up
probe_all blend min_agree now wall unix members results =
    let q = quorum_tip (reports now members results) min_agree in
    (map (note_up q unix) (note_lapses now (note_probes blend wall members results)), q)
