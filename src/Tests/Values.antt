-- ===== src/Tests/Values.antt =====
-- A small concrete JSON on which the tests run.
use Prim.Native.String.{String}
use text.Mathlib.Text.{◌==◌ as str_eq}
use mnr.Common.{
  ℕ, zero, suc, ◌+◌, ◌||◌, ◌∷◌, false, Option, none, some, List, [], if◌then◌else◌, Result, ok,
  ℕ_discrete,
}
use mnr.Common.Bytes.{bytes_discrete}
use mnr.Wire.Answers.{BlockHeader, GetFeeEstimateResult, bytes}
use mnr.Wire.Json.{Json}

-- Some values of JSON: a text, the answers on the tip, on fees and with a status alone.
pub data Val : Type 0 where
  null : Val
  num : ℕ → Val
  letters : List ℕ → Val
  info : ℕ → List ℕ → Val
  header : ℕ → List ℕ → List ℕ → ℕ → Val
  fee : ℕ → Val
  status : List ℕ → Val
  heights : ℕ → ℕ → Val

pub val_discrete : Discrete Val
val_discrete = hlevel (ℕ_discrete, bytes_discrete)

unfoldable pub field : String → Val → Option Val
field name (info height top) =
    if str_eq name "height"
    then some (num height)
    else if str_eq name "top_block_hash"
    then some (letters top)
    else none
field name (header height hash prev time) =
    if str_eq name "block_header"
    then some (header height hash prev time)
    else if str_eq name "height"
    then some (num height)
    else if str_eq name "hash"
    then some (letters hash)
    else none
field name (status s) = if str_eq name "status" then some (letters s) else none
field name (heights start end) =
    if str_eq name "start_height" || str_eq name "height"
    then some (num start)
    else if str_eq name "end_height"
    then some (num end)
    else none
field name v = none

unfoldable pub number : Val → Option ℕ
number (num n) = some n
number v = none

unfoldable pub letters_of : Val → Option (List ℕ)
letters_of (letters s) = some s
letters_of v = none

unfoldable pub bytes_of : Val → Result String (List ℕ)
bytes_of (letters s) = ok s
bytes_of v = ok []

abbrev pub header_record : ℕ → List ℕ → List ℕ → ℕ → BlockHeader Val
header_record height hash prev time = record {
  block_size = 0;
  block_weight = 0;
  cumulative_difficulty = 0;
  cumulative_difficulty_top64 = none;
  depth = 0;
  difficulty = 0;
  difficulty_top64 = none;
  hash = hash;
  height = height;
  long_term_weight = none;
  major_version = 0;
  miner_tx_hash = [];
  minor_version = 0;
  nonce = 0;
  num_txes = 0;
  orphan_status = none;
  pow_hash = none;
  prev_hash = prev;
  reward = 0;
  timestamp = time;
  wide_cumulative_difficulty = none;
  wide_difficulty = none;
  extra = [];
}

unfoldable pub block_header : Val → Option (BlockHeader Val)
block_header (header height hash prev time) = some (header_record height hash prev time)
block_header v = none

unfoldable pub estimate : ℕ → GetFeeEstimateResult Val
estimate n = record {
  fee = n;
  fees = none;
  quantization_mask = none;
  status = bytes "OK";
  untrusted = false;
  credits = none;
  top_hash = none;
  extra = [];
}

unfoldable pub fee_estimate : Val → Option (GetFeeEstimateResult Val)
fee_estimate (fee n) = some (estimate n)
fee_estimate v = none

abbrev pub json : Json
json = record {
  Value = Val;
  value_discrete = val_discrete;
  get = field;
  as_u64 = number;
  of_u64 = num;
  text = λ s. letters (bytes s);
  null = null;
  as_str = letters_of;
  remove = λ k v. v;
  from_slice = λ b. some (status b);
  result_of = λ b. some (letters b);
  to_vec = bytes_of;
  to_block_header = block_header;
  to_info = λ v. none;
  of_info = λ i. none;
  to_fee_estimate = fee_estimate;
  of_fee_estimate = λ e. some (fee e.fee);
}

-- The digits of a hash of `n` equal bytes below ten.
abbrev pub hex_of : ℕ → ℕ → List ℕ
hex_of zero k = []
hex_of (suc n) k = b'0' ∷ (b'0' + k) ∷ hex_of n k
