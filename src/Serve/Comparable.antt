-- ===== src/Serve/Comparable.antt =====
-- crates/relay/src/agreement.rs: an answer reduced to what two honest upstreams must agree on. A path
-- is its bytes.
use mnr.Common.{
  ℕ, Bool, ◌||◌, Option, none, some, List, [], ◌∷◌, if◌then◌else◌, is_yes, ℕ_discrete, Result, ok,
  err,
}
use mathlib.Core.Option
use mnr.Common.Bytes.{bytes_discrete}
use mnr.Epee.Tree.{Section, Error, canonical}
use mnr.Epee.Parse.{parse}
use mnr.Wire.Answers.{Text, bytes}
use mnr.Wire.Json.{Json}

abbrev pub volatile_keys : List Text
volatile_keys = bytes "credits" ∷ bytes "top_hash" ∷ bytes "untrusted" ∷ bytes "status" ∷ []

pub data Comparable (Value : Type 0) : Type 0 where
  epee : Section → Comparable Value
  json : Value → Comparable Value

section_discrete : Discrete Section
section_discrete = hlevel (bytes_discrete, ℕ_discrete)

pub comparable_discrete : {Value : Type 0} → Discrete Value → Discrete (Comparable Value)
comparable_discrete value_discrete = hlevel (section_discrete, value_discrete)

-- `path.ends_with(…)`
unfoldable pub ends_with : Text → Text → Bool
unfolding bytes_discrete
ends_with suffix [] = is_yes (bytes_discrete [] suffix)
ends_with suffix (c ∷ path) = is_yes (bytes_discrete (c ∷ path) suffix) || ends_with suffix path

abbrev pub same_text : Text → Text → Bool
same_text a b = is_yes (bytes_discrete a b)

abbrev pub epee_of : {Value : Type 0} → Result Error Section → Option (Comparable Value)
epee_of (ok root) = some (epee (canonical root volatile_keys))
epee_of (err e) = none

module _ (j : Json) where
  open j use {Value, remove, from_slice, result_of}

  unfoldable pub remove_all : List Text → Value → Value
  remove_all [] v = v
  remove_all (k ∷ ks) v = remove_all ks (remove k v)

  unfoldable pub comparable : Text → List ℕ → Option (Comparable Value)
  unfolding remove_all ends_with
  comparable path body =
      if ends_with (bytes ".bin") path
      then epee_of (parse body)
      else Option.map (λ v. json (remove_all volatile_keys v))
          (if same_text path (bytes "/json_rpc") then result_of body else from_slice body)
