-- ===== src/Policy/Rules.antt =====
-- crates/core/src/policy.rs: the texts of the rules that rows of the table share.
use Prim.Native.String.{String}

abbrev pub immutable_cache : String
immutable_cache =
    "Cache 30 d only if requested height <= quorum_tip - TIP_SAFETY_DEPTH; requests above the safety line fall back to SWR. Cache key includes the block hash returned by the node."

abbrev pub immutable_quorum : String
immutable_quorum =
    "Height/hash must match the quorum-tip chain (validated against the header chain)."

abbrev pub swr_cache : String
swr_cache =
    "SWR 1/5/15 s (max-age=1, stale-while-revalidate=5, stale-if-error=15) with single-flight coalescing; node-specific fields normalised. Staleness bound <=6 s normal, <=15 s during upstream error."

abbrev pub swr_quorum : String
swr_quorum = "Majority of >=3 upstreams on quorum tip (each probe height >= quorum_tip - 1)."

abbrev pub txs_cache : String
txs_cache =
    "Cache 30 d per tx hash only for txs with block_height <= quorum_tip - TIP_SAFETY_DEPTH; mempool/young txs pass through. Per-tx-hash, not per request body; batches reassembled at the edge."

abbrev pub outputs_cache : String
outputs_cache =
    "Cache 24 h only if all requested indices belong to blocks <= quorum_tip - TIP_SAFETY_DEPTH; else pass through. Stage 0: only get_output_distribution with to_height <= the safety line is cached (needs the distribution to map indices to heights for the rest)."

abbrev pub stream_cache : String
stream_cache = "None - streamed body-through, no buffering."

abbrev pub stream_quorum : String
stream_quorum =
    "Route to the healthiest full node on quorum tip (pruned node only if request has prune=true)."

abbrev pub pool_cache : String
pool_cache = "None (mempool is per-node by nature)."

abbrev pub pool_quorum : String
pool_quorum = "Single node; response annotated Mnr-Upstream (opaque id)."

abbrev pub composed_pool_cache : String
composed_pool_cache =
    "None as a whole. Verified pool transactions are held by hash for 10 min, so a poll costs the listing plus one light call per transaction not seen before (charged as extra work units)."

abbrev pub composed_pool_quorum : String
composed_pool_quorum =
    "Listing from one node (the relay's own node first: it sees every broadcast the relay relays), annotated Mnr-Upstream; each transaction hash-verified through the /get_transactions path."

abbrev pub spent_cache : String
spent_cache = "None (spent status changes with the mempool)."

abbrev pub no_cache : String
no_cache = "None."

abbrev pub single_node_quorum : String
single_node_quorum = "Single node on quorum tip."

abbrev pub broadcast_quorum : String
broadcast_quorum = "Fan out to all healthy upstreams in parallel; success if >=1 returns status OK."

abbrev pub na : String
na = "n/a"

abbrev pub not_daemon_note : String
not_daemon_note =
    "Wallet-RPC method, not a daemon method; return -32601 method not found with a hint."

abbrev pub deny_note : String
deny_note =
    "Denied at the edge (403 / -32601); nodes also run --restricted-rpc as defence in depth."

abbrev pub mining_note : String
mining_note = "Mining/admin; denied at the edge (403 / -32601)."

abbrev pub logging_note : String
logging_note = "Logging control; denied at the edge (403 / -32601)."
