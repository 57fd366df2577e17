-- ===== src/Policy/Names.antt =====
-- crates/relay/src/verify.rs: the canonical name of a method, and that its policy is the same.
use Prim.Native.Char.{code}
use Prim.Native.String.{String}
use text.Mathlib.Text.{◌==◌ as str_eq}
use text.Mathlib.TextEquality.{eq_iff}
use mathlib.Core.Option
use mnr.Common.{
  ℕ, ℕ_discrete, ◌≡◌, refl, inl, inr, Bool, true, false, ◌&&◌, Option, none, some, List, [], ◌∷◌,
  arith, ◌==◌, if◌then◌else◌, is_yes, Option-cases,
}
use mnr.Common.Bytes.{bytes_discrete}
use mnr.Policy.Types.{Class, Transport, Verification, Policy}
use mnr.Policy.Table.{table, lookup, find_row}
use mnr.Policy.Lookup.{all_rows, all_rows_sound, lookup-eq-some_iff}

-- `method.chars().filter(|c| *c != '_')`
unfoldable pub bare : String → List ℕ
bare String.[] = []
bare (String.◌∷◌ c s) = if code c == b'_' then bare s else code c ∷ bare s

abbrev pub canonical_names : List String
canonical_names =
    "get_block" ∷ "get_block_header_by_hash" ∷ "get_block_header_by_height"
    ∷ "get_block_headers_range" ∷ "on_get_block_hash" ∷ "/get_transactions" ∷ "/get_height"
    ∷ "/get_info" ∷ "get_last_block_header" ∷ "get_block_count" ∷ []

-- `CANONICAL.iter().find(…)`
unfoldable pub find_bare : List ℕ → List String → Option String
unfolding bare bytes_discrete
find_bare wanted [] = none
find_bare wanted (c ∷ cs) =
    if is_yes (bytes_discrete (bare c) wanted) then some c else find_bare wanted cs

unfoldable pub canonical : String → String
unfolding find_bare bare
canonical method = Option.get_or (find_bare (bare method) canonical_names) method

-- The second row is the first under another name and with another note.
abbrev pub IsAliasOf : Policy → Policy → Type 0
IsAliasOf p q = record p { method = q.method; note = q.note } ≡ q

class_discrete : Discrete Class
class_discrete = hlevel

transport_discrete : Discrete Transport
transport_discrete = hlevel

verification_discrete : Discrete Verification
verification_discrete = hlevel ℕ_discrete

is_alias_of : Policy → Policy → Bool
unfolding class_discrete transport_discrete verification_discrete ℕ_discrete
is_alias_of p q =
    is_yes (class_discrete p.class q.class)
    && (is_yes (transport_discrete p.transport q.transport)
        && (is_yes (verification_discrete p.verification q.verification)
            && (str_eq p.cache q.cache
                && (str_eq p.quorum q.quorum && p.timeout_ms == q.timeout_ms))))

is_yes_sound : {A : Type 0} (d : Dec A) → is_yes d ≡ true → A
is_yes_sound (yes a) h = a
is_yes_sound (no n) h = absurd (cc)

both : {a b : Bool} → (a && b) ≡ true → (a ≡ true) × (b ≡ true)
both {a = true} {b} h = (refl, h)
both {a = false} {b} h = cc

is_alias_of_sound : (p q : Policy) → is_alias_of p q ≡ true → IsAliasOf p q
unfolding is_alias_of
is_alias_of_sound p q h =
    let (c, h1) = both h in
    let (t, h2) = both h1 in
    let (v, h3) = both h2 in
    let (k, h4) = both h3 in
    let (n, ms) = both h4 in
    let class = is_yes_sound (class_discrete p.class q.class) c in
    let transport = is_yes_sound (transport_discrete p.transport q.transport) t in
    let verification = is_yes_sound (verification_discrete p.verification q.verification) v in
    let cache = (eq_iff p.cache q.cache).0 k in
    let quorum = (eq_iff p.quorum q.quorum).0 n in
    let timeout : p.timeout_ms ≡ q.timeout_ms = ground arith in cc

keeps_policy : Policy → Bool
unfolding is_alias_of lookup canonical
keeps_policy p = elim (lookup (canonical p.method)) [ none ↦ false | some q ↦ is_alias_of p q ]

table-keeps_policy : all_rows keeps_policy table ≡ true
unfolding all_rows keeps_policy table find_row canonical
table-keeps_policy = refl

-- A method that is in the table keeps its policy under its canonical name: that name is in the
-- table too, and its row differs in the name and the note only.
pub lookup-canonical :
    (method : String) (p : Policy)
    → lookup method ≡ some p
    → (q : Policy) × (lookup (canonical method) ≡ some q) × IsAliasOf p q
unfolding keeps_policy
lookup-canonical method p h =
    let (m, named) = (lookup-eq-some_iff method p).0 h in
    let keeps = all_rows_sound keeps_policy table p table-keeps_policy m in
    elim (Option-cases (lookup (canonical p.method))) [
      | inl missing ↦ cc (rw (missing, keeps_policy) at keeps)
      | inr (q, found) ↦
          (q, rw (← named) found, is_alias_of_sound p q (rw (found, keeps_policy) at keeps))
    ]
