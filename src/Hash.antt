-- ===== src/Hash.antt =====
-- crates/core/src/hash.rs: blobs are parsed and hashed by the crate `monero-oxide`, which is a
-- parameter here, and every blob that is longer than what it encodes is refused.
pub mod Fees
use mnr.Common.{
  ℕ, ◌+◌, ◌-◌, ◌^◌, Bool, true, false, Option, none, some, List, [], ◌∷◌, length, ltb, leb,
  if◌then◌else◌, Result, ok, err, ◌>>=◌, map_err,
}
use mnr.HeaderChain.Store.{Hash}
use Prim.Native.String.{String}
use mathlib.Core.Option

pub data HashError : Type 0 where
  malformed : String → HashError
  trailing_bytes : ℕ → HashError
  not_verifiable : HashError

-- A transaction's input, as the crate has it: `Gen`, or `ToKey` with its amount and key image.
pub data Input : Type 0 where
  gen : Input
  to_key : Option ℕ → Hash → Input

-- A transaction's version: 1, or 2 with the fee of its proofs if it has any.
pub data Version : Type 0 where
  v1 : Version
  v2 : Option ℕ → Version

-- The part of `monero-oxide` that the source calls. A reader returns what it read and how many
-- bytes it consumed.
pub record Oxide : Type 1 where
  pub Block : Type 0
  pub read_block : List ℕ → Result String (Block × ℕ)
  pub block_number : Block → ℕ
  pub hash_of_block : Block → Hash
  pub previous : Block → Hash
  pub timestamp : Block → ℕ
  pub hardfork_version : Block → ℕ
  pub hardfork_signal : Block → ℕ
  pub miner_transaction_hash : Block → Hash
  pub transactions : Block → List Hash
  pub Transaction : Type 0
  pub read_transaction : List ℕ → Result String (Transaction × ℕ)
  pub hash_of_transaction : Transaction → Hash
  pub version : Transaction → Version
  pub weight : Transaction → ℕ
  pub inputs : Transaction → List Input
  -- The amounts of the outputs.
  pub outputs : Transaction → List (Option ℕ)
  pub Pruned : Type 0
  pub read_pruned : List ℕ → Result String (Pruned × ℕ)
  pub hash_with_prunable_hash : Pruned → Hash → Option Hash

pub record ParsedBlock : Type 0 where
  pub hash : Hash
  pub height : ℕ
  pub prev_hash : Hash
  pub timestamp : ℕ
  pub major_version : ℕ
  pub minor_version : ℕ
  pub miner_tx_hash : Hash
  pub tx_hashes : List Hash

pub record ParsedTx : Type 0 where
  pub hash : Hash
  pub version : ℕ
  pub blob_size : ℕ
  pub weight : ℕ
  pub fee : Option ℕ
  pub key_images : List Hash

-- The cursor's position against the length of what it reads.
unfoldable pub reject_trailing : ℕ → ℕ → Result HashError (Unit {0})
reject_trailing consumed total =
    if ltb consumed total then err (trailing_bytes (total - consumed)) else ok tt

-- `read`, with a failure as `Malformed`, and then no bytes behind.
unfoldable pub read_whole :
    {A : Type 0} → (List ℕ → Result String (A × ℕ)) → List ℕ → Result HashError A
unfolding reject_trailing
read_whole read blob = map_err malformed (read blob) >>= λ (a, consumed).
    reject_trailing consumed (length blob) >>= λ _. ok a

unfoldable pub key_images_of : List Input → List Hash
key_images_of [] = []
key_images_of (gen ∷ is) = key_images_of is
key_images_of (to_key amount image ∷ is) = image ∷ key_images_of is

unfoldable pub any_gen : List Input → Bool
any_gen [] = false
any_gen (gen ∷ is) = true
any_gen (to_key amount image ∷ is) = any_gen is

-- `u64::checked_add` and `u64::checked_sub`
abbrev pub checked_add : ℕ → ℕ → Option ℕ
checked_add a b = if ltb (a + b) (2 ^ 64) then some (a + b) else none

abbrev pub checked_sub : ℕ → ℕ → Option ℕ
checked_sub a b = if leb b a then some (a - b) else none

abbrev pub amount_of : Input → ℕ
amount_of gen = 0
amount_of (to_key amount image) = Option.get_or amount 0

-- `try_fold(0u64, u64::checked_add)`
unfoldable pub checked_sum : ℕ → List ℕ → Option ℕ
checked_sum acc [] = some acc
checked_sum acc (x ∷ xs) = elim (checked_add acc x) [ none ↦ none | some s ↦ checked_sum s xs ]

abbrev pub input_amounts : List Input → List ℕ
input_amounts [] = []
input_amounts (i ∷ is) = amount_of i ∷ input_amounts is

abbrev pub output_amounts : List (Option ℕ) → List ℕ
output_amounts [] = []
output_amounts (o ∷ os) = Option.get_or o 0 ∷ output_amounts os

unfoldable pub v1_fee : Option ℕ → Option ℕ → Option ℕ
v1_fee (some i) (some o) = checked_sub i o
v1_fee none o = none
v1_fee (some i) none = none

unfoldable pub version_fee : Version → List Input → List (Option ℕ) → Option ℕ
unfolding v1_fee checked_sum
version_fee (v2 fee) inputs outputs = fee
version_fee v1 inputs outputs =
    v1_fee (checked_sum 0 (input_amounts inputs)) (checked_sum 0 (output_amounts outputs))

unfoldable pub fee_of : Version → List Input → List (Option ℕ) → Option ℕ
unfolding any_gen version_fee
fee_of v inputs outputs = if any_gen inputs then none else version_fee v inputs outputs

abbrev pub version_number : Version → ℕ
version_number v1 = 1
version_number (v2 fee) = 2

abbrev pub u64_of : ℕ → Result HashError ℕ
u64_of n = if ltb n (2 ^ 64) then ok n else err (malformed "block height exceeds u64")

module _ (o : Oxide) where
  unfoldable pub parse_block : List ℕ → Result HashError ParsedBlock
  unfolding read_whole
  parse_block blob = read_whole o.read_block blob >>= λ block.
      u64_of (o.block_number block) >>= λ height. ok (record {
        hash = o.hash_of_block block;
        height = height;
        prev_hash = o.previous block;
        timestamp = o.timestamp block;
        major_version = o.hardfork_version block;
        minor_version = o.hardfork_signal block;
        miner_tx_hash = o.miner_transaction_hash block;
        tx_hashes = o.transactions block;
      })

  unfoldable pub block_hash : List ℕ → Result HashError Hash
  unfolding parse_block
  block_hash blob = parse_block blob >>= λ b. ok b.hash

  unfoldable pub tx_hash : List ℕ → Result HashError Hash
  unfolding read_whole
  tx_hash blob = read_whole o.read_transaction blob >>= λ tx. ok (o.hash_of_transaction tx)

  unfoldable pub parse_tx : List ℕ → Result HashError ParsedTx
  unfolding read_whole fee_of key_images_of
  parse_tx blob = read_whole o.read_transaction blob >>= λ tx. ok (record {
    hash = o.hash_of_transaction tx;
    version = version_number (o.version tx);
    blob_size = length blob;
    weight = o.weight tx;
    fee = fee_of (o.version tx) (o.inputs tx) (o.outputs tx);
    key_images = key_images_of (o.inputs tx);
  })

  unfoldable pub pruned_tx_hash : List ℕ → Hash → Result HashError Hash
  unfolding read_whole
  pruned_tx_hash blob prunable_hash = read_whole o.read_pruned blob >>= λ tx.
      elim (o.hash_with_prunable_hash tx prunable_hash) [
        | none ↦ err not_verifiable
        | some h ↦ ok h
      ]
