-- ===== src/Wire/Answers.antt =====
-- crates/core/src/wire.rs: the answers of a node that the vote on consensus state reads. A text is
-- its bytes; the fields that a record does not name are in `extra`.
use mnr.Common.{ℕ, Bool, false, Option, List, [], ◌∷◌, if◌then◌else◌, is_yes}
use mnr.Common.Bytes.{bytes_discrete}
use mathlib.Core.Option
use Prim.Native.Char.{code}
use Prim.Native.String.{String}

abbrev pub Text : Type 0
Text = List ℕ

-- The bytes of an ASCII text.
abbrev pub bytes : String → Text
bytes String.[] = []
bytes (String.◌∷◌ c s) = code c ∷ bytes s

abbrev pub Extra : Type 0 → Type 0
Extra Value = List (Text × Value)

pub record BlockHeader (Value : Type 0) : Type 0 where
  pub block_size : ℕ
  pub block_weight : ℕ
  pub cumulative_difficulty : ℕ
  pub cumulative_difficulty_top64 : Option ℕ
  pub depth : ℕ
  pub difficulty : ℕ
  pub difficulty_top64 : Option ℕ
  pub hash : Text
  pub height : ℕ
  pub long_term_weight : Option ℕ
  pub major_version : ℕ
  pub miner_tx_hash : Text
  pub minor_version : ℕ
  pub nonce : ℕ
  pub num_txes : ℕ
  pub orphan_status : Option Bool
  pub pow_hash : Option Text
  pub prev_hash : Text
  pub reward : ℕ
  pub timestamp : ℕ
  pub wide_cumulative_difficulty : Option Text
  pub wide_difficulty : Option Text
  pub extra : Extra Value

pub record GetInfoResult (Value : Type 0) : Type 0 where
  pub adjusted_time : Option ℕ
  pub alt_blocks_count : ℕ
  pub block_size_limit : ℕ
  pub block_size_median : ℕ
  pub block_weight_limit : ℕ
  pub block_weight_median : ℕ
  pub bootstrap_daemon_address : Option Text
  pub busy_syncing : Option Bool
  pub credits : Option ℕ
  pub cumulative_difficulty : ℕ
  pub cumulative_difficulty_top64 : Option ℕ
  pub database_size : ℕ
  pub difficulty : ℕ
  pub difficulty_top64 : Option ℕ
  pub free_space : ℕ
  pub grey_peerlist_size : ℕ
  pub height : ℕ
  pub height_without_bootstrap : Option ℕ
  pub incoming_connections_count : ℕ
  pub mainnet : Bool
  pub nettype : Text
  pub offline : Bool
  pub outgoing_connections_count : ℕ
  pub restricted : Bool
  pub rpc_connections_count : Option ℕ
  pub stagenet : Bool
  pub start_time : ℕ
  pub status : Text
  pub synchronized : Bool
  pub target : ℕ
  pub target_height : ℕ
  pub testnet : Bool
  pub top_block_hash : Text
  pub top_hash : Option Text
  pub tx_count : ℕ
  pub tx_pool_size : ℕ
  pub untrusted : Bool
  pub update_available : Bool
  pub version : Option Text
  pub was_bootstrap_ever_used : Option Bool
  pub white_peerlist_size : ℕ
  pub wide_cumulative_difficulty : Option Text
  pub wide_difficulty : Option Text
  pub extra : Extra Value

pub record GetFeeEstimateResult (Value : Type 0) : Type 0 where
  pub fee : ℕ
  pub fees : Option (List ℕ)
  pub quantization_mask : Option ℕ
  pub status : Text
  pub untrusted : Bool
  pub credits : Option ℕ
  pub top_hash : Option Text
  pub extra : Extra Value

unfoldable pub remove_key : {Value : Type 0} → Text → Extra Value → Extra Value
unfolding bytes_discrete
remove_key name [] = []
remove_key name ((k, v) ∷ extra) =
    if is_yes (bytes_discrete k name) then remove_key name extra else (k, v) ∷ remove_key name extra

abbrev pub node_specific_fields : List Text
node_specific_fields =
    bytes "incoming_connections_count"
    ∷ bytes "outgoing_connections_count"
    ∷ bytes "rpc_connections_count"
    ∷ bytes "white_peerlist_size"
    ∷ bytes "grey_peerlist_size"
    ∷ bytes "update_available"
    ∷ bytes "start_time"
    ∷ []

unfoldable pub remove_keys : {Value : Type 0} → List Text → Extra Value → Extra Value
unfolding remove_key
remove_keys [] extra = extra
remove_keys (name ∷ names) extra = remove_keys names (remove_key name extra)

unfoldable pub normalise_get_info : {Value : Type 0} → GetInfoResult Value → GetInfoResult Value
unfolding remove_keys
normalise_get_info info = record info {
  incoming_connections_count = 0;
  outgoing_connections_count = 0;
  rpc_connections_count = Option.map (λ (_ : ℕ). 0) info.rpc_connections_count;
  white_peerlist_size = 0;
  grey_peerlist_size = 0;
  update_available = false;
  start_time = 0;
  extra = remove_keys node_specific_fields info.extra;
}
