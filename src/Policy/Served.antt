-- ===== src/Policy/Served.antt =====
-- crates/core/src/policy.rs: the rows of the table for what is served.
use mnr.Common.{List, [], ◌∷◌}
use mnr.Policy.Types.{Policy, json_rpc, legacy_path}
use mnr.Policy.Family.{swr, outputs_conditional, passthrough, alias_of}
use mnr.Policy.Rules.{pool_cache, pool_quorum, spent_cache, no_cache, single_node_quorum}
use mnr.Policy.Rows.{
  p_get_block, p_get_block_header_by_hash, p_get_block_header_by_height, p_get_block_headers_range,
  p_on_get_block_hash, p_get_info, p_get_height, p_get_last_block_header, p_get_block_count,
  p_get_transactions, p_get_blocks, p_get_blocks_by_height, p_get_hashes, p_send_raw_transaction,
}

abbrev pub immutable_rows : List Policy
immutable_rows =
    p_get_block ∷ p_get_block_header_by_height ∷ p_get_block_header_by_hash
    ∷ p_get_block_headers_range ∷ p_on_get_block_hash ∷ []

abbrev pub immutable_aliases : List Policy
immutable_aliases =
    alias_of "getblock" p_get_block "Alias of get_block."
    ∷ alias_of "getblockheaderbyhash" p_get_block_header_by_hash
        "Alias of get_block_header_by_hash."
    ∷ alias_of "getblockheaderbyheight" p_get_block_header_by_height
        "Alias of get_block_header_by_height."
    ∷ alias_of "getblockheadersrange" p_get_block_headers_range "Alias of get_block_headers_range."
    ∷ alias_of "on_getblockhash" p_on_get_block_hash "Alias of on_get_block_hash."
    ∷ []

abbrev pub swr_rows : List Policy
swr_rows =
    swr "get_info" json_rpc
      "Consensus state; node-specific fields (connections, peerlist, update_available, start_time) normalised."
    ∷ p_get_info
    ∷ p_get_height
    ∷ p_get_last_block_header
    ∷ swr "get_fee_estimate" json_rpc "Fee estimate = median of upstream estimates."
    ∷ swr "hard_fork_info" json_rpc "Fork/version agreement across upstreams."
    ∷ swr "get_version" json_rpc "Node version; checked against the directory minimum in Stage 2."
    ∷ p_get_block_count
    ∷ []

abbrev pub swr_aliases : List Policy
swr_aliases =
    alias_of "/getheight" p_get_height "Alias of /get_height."
    ∷ alias_of "/getinfo" p_get_info "Alias of /get_info."
    ∷ alias_of "getlastblockheader" p_get_last_block_header "Alias of get_last_block_header."
    ∷ alias_of "getblockcount" p_get_block_count "Alias of get_block_count."
    ∷ []

abbrev pub conditional_rows : List Policy
conditional_rows =
    p_get_transactions
    ∷ outputs_conditional "/get_outs.bin" legacy_path
        "Ring construction; correctness > hit rate. Stage 0: two-upstream agreement for Pro tokens, single upstream (owned node preferred) for Free (plan §10 item 3, decided)."
    ∷ outputs_conditional "/get_outs" legacy_path
        "JSON twin of /get_outs.bin; same per-tier agreement."
    ∷ outputs_conditional "/get_o_indexes.bin" legacy_path
        "Tx global output indexes; same per-tier agreement."
    ∷ outputs_conditional "/get_output_distribution.bin" legacy_path
        "Binary form of get_output_distribution."
    ∷ outputs_conditional "get_output_distribution" json_rpc
        "Ring-construction data; not self-authenticating from a single response."
    ∷ outputs_conditional "get_output_histogram" json_rpc
        "Ring-construction data; not self-authenticating from a single response."
    ∷ []

abbrev pub conditional_aliases : List Policy
conditional_aliases =
    alias_of "/gettransactions" p_get_transactions "Alias of /get_transactions." ∷ []

abbrev pub stream_rows : List Policy
stream_rows = p_get_blocks ∷ p_get_blocks_by_height ∷ p_get_hashes ∷ []

abbrev pub stream_aliases : List Policy
stream_aliases =
    alias_of "/getblocks.bin" p_get_blocks "Alias of /get_blocks.bin."
    ∷ alias_of "/getblocks_by_height.bin" p_get_blocks_by_height
        "Alias of /get_blocks_by_height.bin."
    ∷ alias_of "/gethashes.bin" p_get_hashes "Alias of /get_hashes.bin."
    ∷ []

abbrev pub passthrough_rows : List Policy
passthrough_rows =
    passthrough "/get_transaction_pool_hashes.bin" legacy_path pool_cache pool_quorum
      "Mempool is per-node by nature; never cached."
    ∷ passthrough "/get_transaction_pool_hashes" legacy_path pool_cache pool_quorum
        "Mempool is per-node by nature; never cached."
    ∷ passthrough "/get_transaction_pool_stats" legacy_path pool_cache pool_quorum
        "Mempool is per-node by nature; never cached."
    ∷ passthrough "/is_key_image_spent" legacy_path spent_cache single_node_quorum
        "Restricted-safe; used by wallets during sync."
    ∷ passthrough "/get_public_nodes" legacy_path no_cache single_node_quorum
        "Public node list; we never forward client identity (no client IP, no X-Forwarded-For)."
    ∷ passthrough "/get_limit" legacy_path no_cache single_node_quorum
        "Daemon bandwidth limits; we never forward client identity."
    ∷ passthrough "get_txpool_backlog" json_rpc no_cache single_node_quorum
        "Mempool backlog metrics; per-node by nature."
    ∷ passthrough "get_txids_loose" json_rpc no_cache single_node_quorum
        "Mempool txids by prefix; per-node by nature."
    ∷ []

abbrev pub broadcast_rows : List Policy
broadcast_rows = p_send_raw_transaction ∷ []

abbrev pub broadcast_aliases : List Policy
broadcast_aliases =
    alias_of "/sendrawtransaction" p_send_raw_transaction "Alias of /send_raw_transaction." ∷ []
