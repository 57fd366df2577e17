-- ===== src/Wire/Json.antt =====
-- What the relay asks of the crate serde_json: its values with their equality, reading a field,
-- building a number, a text and a null, and reading and writing the records of Answers. An array that
-- the relay builds is a list of values, which is equal to another element by element.
use Prim.Native.String.{String}
use mnr.Common.{ℕ, Option, List, Result}
use mnr.Wire.Answers.{Text, BlockHeader, GetInfoResult, GetFeeEstimateResult}

pub record Json : Type 1 where
  pub Value : Type 0
  pub value_discrete : Discrete Value
  pub get : String → Value → Option Value
  pub as_u64 : Value → Option ℕ
  pub of_u64 : ℕ → Value
  pub text : String → Value
  pub null : Value
  pub as_str : Value → Option Text
  -- The members of an object without this one; any other value stays.
  pub remove : Text → Value → Value
  pub from_slice : List ℕ → Option Value
  -- The `result` of the body of a JSON-RPC response.
  pub result_of : List ℕ → Option Value
  pub to_vec : Value → Result String (List ℕ)
  pub to_block_header : Value → Option (BlockHeader Value)
  pub to_info : Value → Option (GetInfoResult Value)
  pub of_info : GetInfoResult Value → Option Value
  pub to_fee_estimate : Value → Option (GetFeeEstimateResult Value)
  pub of_fee_estimate : GetFeeEstimateResult Value → Option Value
