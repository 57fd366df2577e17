-- ===== src/Policy/Denied.antt =====
-- crates/core/src/policy.rs: the rows of the table for what is refused, and the composed pool.
use mnr.Common.{List, [], ◌∷◌}
use mnr.Policy.Types.{Policy, json_rpc, legacy_path, Class, Verification}
use mnr.Policy.Family.{deny, not_daemon, alias_of, policy}
use mnr.Policy.Rules.{
  composed_pool_cache, composed_pool_quorum, deny_note, mining_note, logging_note,
}
use mnr.Policy.Rows.{p_get_block_template, p_submit_block}

abbrev pub not_daemon_rows : List Policy
not_daemon_rows =
    not_daemon "check_tx_key"
    ∷ not_daemon "check_tx_proof"
    ∷ not_daemon "check_spend_proof"
    ∷ not_daemon "check_reserve_proof"
    ∷ []

abbrev pub legacy_deny_rows : List Policy
legacy_deny_rows =
    deny "/get_alt_blocks_hashes" legacy_path deny_note
    ∷ deny "/start_mining" legacy_path deny_note
    ∷ deny "/stop_mining" legacy_path deny_note
    ∷ deny "/mining_status" legacy_path deny_note
    ∷ deny "/save_bc" legacy_path deny_note
    ∷ deny "/get_peer_list" legacy_path deny_note
    ∷ deny "/set_log_hash_rate" legacy_path logging_note
    ∷ deny "/set_log_level" legacy_path logging_note
    ∷ deny "/set_log_categories" legacy_path logging_note
    ∷ policy "/get_transaction_pool" legacy_path Class.composed composed_pool_cache
        composed_pool_quorum Verification.authenticated 5000
        "Composed from /get_transaction_pool_hashes and hash-verified /get_transactions (plan decision 8): every entry is proven to hash to its id, which no daemon offers. monerod after commit 57ae55e refuses this on restricted RPC; the relay answers it from public nodes regardless. receive_time is when the relay first saw the hash, never a node's claim; the fields a daemon fills from its own pool state (max_used_block_*, last_failed_*, kept_by_block, last_relayed_time, do_not_relay) are zero, false or empty. tx_json is the node's rendering of the verified blob; tx_blob is authoritative."
    ∷ deny "/stop_daemon" legacy_path deny_note
    ∷ deny "/get_net_stats" legacy_path deny_note
    ∷ deny "/set_limit" legacy_path deny_note
    ∷ deny "/out_peers" legacy_path deny_note
    ∷ deny "/in_peers" legacy_path deny_note
    ∷ deny "/update" legacy_path deny_note
    ∷ deny "/pop_blocks" legacy_path deny_note
    ∷ []

abbrev pub json_deny_rows : List Policy
json_deny_rows =
    deny "get_connections" json_rpc deny_note
    ∷ deny "get_bans" json_rpc deny_note
    ∷ deny "set_bans" json_rpc deny_note
    ∷ deny "banned" json_rpc deny_note
    ∷ deny "flush_txpool" json_rpc deny_note
    ∷ deny "relay_tx" json_rpc
        "Restricted-gated (!m_restricted); cannot be served from a public node. Broadcast is available via /send_raw_transaction."
    ∷ deny "sync_info" json_rpc deny_note
    ∷ deny "prune_blockchain" json_rpc deny_note
    ∷ deny "get_coinbase_tx_sum" json_rpc deny_note
    ∷ deny "get_alternate_chains" json_rpc deny_note
    ∷ deny "flush_cache" json_rpc deny_note
    ∷ p_get_block_template
    ∷ alias_of "getblocktemplate" p_get_block_template "Alias of get_block_template (denied)."
    ∷ deny "get_miner_data" json_rpc mining_note
    ∷ deny "calc_pow" json_rpc deny_note
    ∷ deny "add_aux_pow" json_rpc mining_note
    ∷ p_submit_block
    ∷ alias_of "submitblock" p_submit_block "Alias of submit_block (denied)."
    ∷ deny "generateblocks" json_rpc mining_note
    ∷ []
