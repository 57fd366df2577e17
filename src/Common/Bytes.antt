-- ===== src/Common/Bytes.antt =====
-- Byte strings, little-endian words, and equality of byte strings.
use Prim.Native.Nat.{ℕ, zero, suc, ◌+◌, ◌*◌, ◌/◌, ◌%◌, ◌^◌, ◌<◌}
use mathlib.Core.Path.{◌≡◌, refl, ap}
use mathlib.Core.List.{List, [], ◌∷◌}
use native.Mathlib.Omega.{arith}
use native.Mathlib.Nat.{pow-suc}
unfoldable use native.Mathlib.Decide.{ℕ_discrete}
use mnr.Common.Lists.{length, All}

abbrev pub IsByte : ℕ → Type 0
IsByte b = b < 256

-- A byte string holds bytes.
abbrev pub IsBytes : List ℕ → Type 0
IsBytes = All IsByte

-- `to_le_bytes` of a word of `w` bytes.
unfoldable pub le_bytes : ℕ → ℕ → List ℕ
le_bytes zero v = []
le_bytes (suc w) v = v % 256 ∷ le_bytes w (v / 256)

-- `from_le_bytes`.
unfoldable pub from_le : List ℕ → ℕ
from_le [] = 0
from_le (b ∷ bs) = b + 256 * from_le bs

pub length-le_bytes : (w v : ℕ) → length (le_bytes w v) ≡ w
unfolding le_bytes
length-le_bytes zero v = refl
length-le_bytes (suc w) v = ap suc (length-le_bytes w (v / 256))

pub le_bytes-IsBytes : (w v : ℕ) → IsBytes (le_bytes w v)
unfolding le_bytes
le_bytes-IsBytes zero v = tt
le_bytes-IsBytes (suc w) v = (omega arith, le_bytes-IsBytes w (v / 256))

div_fits : (w v : ℕ) → v < 256 ^ suc w → v / 256 < 256 ^ w
div_fits w v h = omega (arith, pow-suc 256 w)

pub from_le-le_bytes : (w v : ℕ) → v < 256 ^ w → from_le (le_bytes w v) ≡ v
unfolding le_bytes from_le
from_le-le_bytes zero v h = omega arith
from_le-le_bytes (suc w) v h = omega (arith, from_le-le_bytes w (v / 256) (div_fits w v h))

pub from_le-lt : (bs : List ℕ) → IsBytes bs → from_le bs < 256 ^ length bs
unfolding from_le
from_le-lt [] h = omega arith
from_le-lt (b ∷ bs) h = omega (arith, pow-suc 256 (length bs), from_le-lt bs h.1)

pub le_bytes-from_le : (bs : List ℕ) → IsBytes bs → le_bytes (length bs) (from_le bs) ≡ bs
unfolding le_bytes from_le
le_bytes-from_le [] h = refl
le_bytes-from_le (b ∷ bs) h =
    let low : (b + 256 * from_le bs) % 256 ≡ b = omega arith in
    let high : (b + 256 * from_le bs) / 256 ≡ from_le bs = omega arith in
    rw (low, high, le_bytes-from_le bs h.1)

nil-ne-cons : (b : ℕ) (ys : List ℕ) → ¬ ([] ≡ b ∷ ys)
nil-ne-cons b ys e = cc

cons-ne-nil : (b : ℕ) (ys : List ℕ) → ¬ (b ∷ ys ≡ [])
cons-ne-nil b ys e = cc

head-eq : {a b : ℕ} {xs ys : List ℕ} → a ∷ xs ≡ b ∷ ys → a ≡ b
head-eq e = cc

tail-eq : {a b : ℕ} {xs ys : List ℕ} → a ∷ xs ≡ b ∷ ys → xs ≡ ys
tail-eq e = cc

cons-eq : {a b : ℕ} {xs ys : List ℕ} → a ≡ b → xs ≡ ys → a ∷ xs ≡ b ∷ ys
cons-eq p q = cc

pub word_bytes : (n : ℕ) (bs : List ℕ) → length bs ≡ n → IsBytes bs → le_bytes n (from_le bs) ≡ bs
word_bytes n bs h b = rw (← h) (le_bytes-from_le bs b)

pub word-lt : (n : ℕ) (bs : List ℕ) → length bs ≡ n → IsBytes bs → from_le bs < 256 ^ n
word-lt n bs h b = rw (← h) (from_le-lt bs b)

-- Equality of byte strings, as a decision.
unfoldable pub bytes_discrete : Discrete (List ℕ)
unfolding ℕ_discrete nil-ne-cons cons-ne-nil head-eq tail-eq cons-eq
bytes_discrete [] [] = yes refl
bytes_discrete [] (b ∷ ys) = no (nil-ne-cons b ys)
bytes_discrete (a ∷ xs) [] = no (cons-ne-nil a xs)
bytes_discrete (a ∷ xs) (b ∷ ys) = both (ℕ_discrete a b) (bytes_discrete xs ys)
  where
    both : Dec (a ≡ b) → Dec (xs ≡ ys) → Dec (a ∷ xs ≡ b ∷ ys)
    both (yes p) (yes q) = yes (cons-eq p q)
    both (yes p) (no q) = no (λ e. q (tail-eq e))
    both (no p) d = no (λ e. p (head-eq e))
