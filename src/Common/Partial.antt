-- ===== src/Common/Partial.antt =====
-- The chain of steps that may have no result: Rust's `?` on an `Option`, and its panics.
use mathlib.Core.Option.{Option, none, some}

infixl 5 ◌>>=◌
abbrev pub ◌>>=◌ {ℓ κ} : {A : Type ℓ} {B : Type κ} → Option A → (A → Option B) → Option B
none >>= f = none
some a >>= f = f a
