-- ===== src/Policy/Rows.antt =====
-- crates/core/src/policy.rs: the rows that have aliases.
use mnr.Policy.Types.{Policy, json_rpc, legacy_path}
use mnr.Policy.Family.{swr, immutable, transactions_conditional, stream, broadcast, deny}
use mnr.Policy.Rules.{mining_note}

abbrev pub p_get_block : Policy
p_get_block =
    immutable "get_block"
      "Block hash recomputed from the blob and matched to the requested hash or height."

abbrev pub p_get_block_header_by_hash : Policy
p_get_block_header_by_hash =
    immutable "get_block_header_by_hash" "Recomputed header hash matched to the requested hash."

abbrev pub p_get_block_header_by_height : Policy
p_get_block_header_by_height =
    immutable "get_block_header_by_height" "Header hash matched to the header chain at that height."

abbrev pub p_get_block_headers_range : Policy
p_get_block_headers_range =
    immutable "get_block_headers_range"
      "Every header checked against the header chain; a range that crosses the safety line is verified but not cached."

abbrev pub p_on_get_block_hash : Policy
p_on_get_block_hash =
    immutable "on_get_block_hash"
      "Takes a height, returns the block hash; matched to the header chain."

abbrev pub p_get_info : Policy
p_get_info = swr "/get_info" legacy_path "Legacy form of get_info; same normalisation."

abbrev pub p_get_height : Policy
p_get_height = swr "/get_height" legacy_path "Consensus state; majority of >=3 upstreams."

abbrev pub p_get_last_block_header : Policy
p_get_last_block_header =
    swr "get_last_block_header" json_rpc "Header verified against the header chain."

abbrev pub p_get_block_count : Policy
p_get_block_count =
    swr "get_block_count" json_rpc
      "Equivalent of get_height by block count; majority of >=3 upstreams."

abbrev pub p_get_transactions : Policy
p_get_transactions =
    transactions_conditional "/get_transactions" legacy_path
      "Tx blob hashed to txid; pruned-tx hash form verified where applicable."

abbrev pub p_get_blocks : Policy
p_get_blocks =
    stream "/get_blocks.bin"
      "Wallet sync path; largest bandwidth consumer, metered separately (bytes). Stage 0: not verified - Mnr-Verify: none; owned node preferred; idle timeout 15 s."

abbrev pub p_get_blocks_by_height : Policy
p_get_blocks_by_height =
    stream "/get_blocks_by_height.bin"
      "Same as get_blocks.bin by height; Mnr-Verify: none in Stage 0; idle timeout 15 s."

abbrev pub p_get_hashes : Policy
p_get_hashes =
    stream "/get_hashes.bin"
      "Block hashes for sync; Mnr-Verify: none in Stage 0; idle timeout 15 s."

abbrev pub p_send_raw_transaction : Policy
p_send_raw_transaction =
    broadcast "/send_raw_transaction" legacy_path
      "do_not_relay honoured; no retries (tx is idempotent on-chain); overall budget 6 s; result header Mnr-Relayed: k/n. If all reject, return the first error verbatim."

abbrev pub p_get_block_template : Policy
p_get_block_template = deny "get_block_template" json_rpc mining_note

abbrev pub p_submit_block : Policy
p_submit_block = deny "submit_block" json_rpc mining_note
