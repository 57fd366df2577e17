-- ===== src/Policy/Rulings.antt =====
-- What the rows of the table agree in: which methods are sent to a node, and what is asked of an
-- answer.
use Prim.Native.String.{String}
use mnr.Common.{
  ℕ, ◌≡◌, ◌⊎◌, ◌↔◌, refl, if◌then◌else◌, inl, inr, Bool, true, false, ◌&&◌, In, arith, ltb, ◌==◌,
  Option-cases,
}
use mnr.Policy.Types.{Class, Verification, Policy}
use mnr.Policy.Table.{table, lookup, lookup_or_deny}
use mnr.Policy.Lookup.{all_rows, all_rows_sound, lookup-eq-some_iff}

-- The classes that are answered at the edge: no node is asked.
abbrev pub is_refused : Class → Bool
is_refused Class.deny = true
is_refused Class.not_daemon = true
is_refused _ = false

-- What is asked of the answers of a class.
abbrev pub Asks : Class → Verification → Type 0
Asks Class.immutable v = v ≡ Verification.authenticated
Asks Class.composed v = v ≡ Verification.authenticated
Asks Class.swr v = v ≡ Verification.majority
Asks Class.immutable_conditional v =
    (v ≡ Verification.authenticated) ⊎ (v ≡ Verification.agreement 1 2)
Asks Class.passthrough_stream v = v ≡ Verification.annotated
Asks Class.passthrough v = v ≡ Verification.annotated
Asks Class.broadcast v = v ≡ Verification.annotated
Asks Class.not_daemon v = v ≡ Verification.not_daemon
Asks Class.deny v = v ≡ Verification.not_applicable

asks : Class → Verification → Bool
asks Class.immutable Verification.authenticated = true
asks Class.composed Verification.authenticated = true
asks Class.swr Verification.majority = true
asks Class.immutable_conditional Verification.authenticated = true
asks Class.immutable_conditional (Verification.agreement free pro) = free == 1 && pro == 2
asks Class.passthrough_stream Verification.annotated = true
asks Class.passthrough Verification.annotated = true
asks Class.broadcast Verification.annotated = true
asks Class.not_daemon Verification.not_daemon = true
asks Class.deny Verification.not_applicable = true
asks _ _ = false

asks_sound : (c : Class) (v : Verification) → asks c v ≡ true → Asks c v
unfolding asks
asks_sound Class.immutable Verification.authenticated h = refl
asks_sound Class.composed Verification.authenticated h = refl
asks_sound Class.swr Verification.majority h = refl
asks_sound Class.immutable_conditional Verification.authenticated h = inl refl
asks_sound Class.immutable_conditional (Verification.agreement free pro) h = inr (ground arith)
asks_sound Class.passthrough_stream Verification.annotated h = refl
asks_sound Class.passthrough Verification.annotated h = refl
asks_sound Class.broadcast Verification.annotated h = refl
asks_sound Class.not_daemon Verification.not_daemon h = refl
asks_sound Class.deny Verification.not_applicable h = refl
asks_sound _ _ h = cc

abbrev pub IsRuled : Policy → Type 0
IsRuled p = Asks p.class p.verification × ((p.timeout_ms ≡ 0) ↔ (is_refused p.class ≡ true))

is_ruled : Policy → Bool
is_ruled p =
    asks p.class p.verification
    && (if is_refused p.class then p.timeout_ms == 0 else ltb 0 p.timeout_ms)

timeout_iff :
    (refused : Bool) (t : ℕ)
    → (if refused then t == 0 else ltb 0 t) ≡ true
    → (t ≡ 0) ↔ (refused ≡ true)
timeout_iff true t h = ((λ e. refl), λ e. ground arith)
timeout_iff false t h = ((λ e. absurd (ground arith)), λ e. cc)

is_ruled_sound : (p : Policy) → is_ruled p ≡ true → IsRuled p
unfolding is_ruled
is_ruled_sound p h = (
  asks_sound p.class p.verification (ground arith),
  timeout_iff (is_refused p.class) p.timeout_ms (ground arith),
)

table-is_ruled : all_rows is_ruled table ≡ true
unfolding all_rows is_ruled asks table
table-is_ruled = refl

row-IsRuled : (p : Policy) → In p table → IsRuled p
row-IsRuled p m = is_ruled_sound p (all_rows_sound is_ruled table p table-is_ruled m)

-- Whatever method a client names, the policy it gets has a timeout exactly when its class is sent
-- to nodes, and asks what the class does: hashes for blocks and the composed pool, a majority for
-- consensus state, hashes or the agreement of 1 (free) or 2 (pro) for what may be young, and
-- nothing but a note for streams, the mempool and writes. The policy is a row of the table that
-- bears the name, or denial.
pub lookup_or_deny-IsRuled :
    (method : String)
    → IsRuled (lookup_or_deny method)
      × ((In (lookup_or_deny method) table × ((lookup_or_deny method).method ≡ method))
          ⊎ ((lookup_or_deny method).class ≡ Class.deny))
unfolding lookup_or_deny
lookup_or_deny-IsRuled method = elim (Option-cases (lookup method)) [
  | inl missing ↦ rw missing ((refl, timeout_iff true 0 refl), inr refl)
  | inr (p, found) ↦
      let (m, named) = (lookup-eq-some_iff method p).0 found in
      rw found (row-IsRuled p m, inl (m, named))
]
