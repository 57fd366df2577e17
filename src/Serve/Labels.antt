-- ===== src/Serve/Labels.antt =====
-- crates/relay/src/verify.rs and cache.rs: what the headers of an answer say.
use Prim.Native.String.{String}
use text.Mathlib.Text.{◌==◌ as str_eq}
use mnr.Common.{ℕ, ◌≡◌, ◌⊎◌, inl, inr, refl, Option, if◌then◌else◌}

-- The label of verification, strongest first.
pub data Verify : Type 0 where
  chain hash majority agreement partial unverified failed : Verify

abbrev pub verify_label : Verify → String
verify_label chain = "chain"
verify_label hash = "hash"
verify_label majority = "majority"
verify_label agreement = "agreement"
verify_label partial = "partial"
verify_label unverified = "none"
verify_label failed = "failed"

-- Where an answer came from.
pub data Status : Type 0 where
  hit stale miss bypass : Status

abbrev pub status_label : Status → String
status_label hit = "hit"
status_label stale = "stale"
status_label miss = "miss"
status_label bypass = "bypass"

-- What verification learned about an acceptable answer: the highest block on which it depends, if
-- known, and how many of how many were verified, behind a `partial` label.
pub record Verified : Type 0 where
  pub verify : Verify
  pub height : Option ℕ
  pub counted : Option (ℕ × ℕ)

-- `label_of`: back from the text of a cache entry.
unfoldable pub label_of : String → Verify
label_of label =
    if str_eq label "chain"
    then chain
    else if str_eq label "hash"
    then hash
    else if str_eq label "majority"
    then majority
    else if str_eq label "agreement"
    then agreement
    else if str_eq label "partial"
    then partial
    else unverified

-- A label other than `failed` comes back from the cache.
pub label_of-verify_label : (v : Verify) → (v ≡ failed) ⊎ (label_of (verify_label v) ≡ v)
unfolding label_of
label_of-verify_label chain = inr refl
label_of-verify_label hash = inr refl
label_of-verify_label majority = inr refl
label_of-verify_label agreement = inr refl
label_of-verify_label partial = inr refl
label_of-verify_label unverified = inr refl
label_of-verify_label failed = inl refl
