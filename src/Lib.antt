-- ===== src/Lib.antt =====
-- A verification library of mnr, a relay between wallets and Monero nodes that checks what the
-- nodes answer. The parts, with the file that models each:
--
-- * HeaderChain (crates/core/src/headerchain.rs): the chain of header records. Store holds the
--   records and the operations `append`, `truncate`, `fork_point`; Codec the byte format
--   (`to_bytes`, `from_bytes`). A hash is a list of 32 bytes, a `u64` a number whose range
--   `IsEntry` states.
-- * Hash (crates/core/src/hash.rs): how blobs are parsed and hashed. The crate `monero-oxide` is
--   the parameter `Oxide`; nothing is assumed of it.
-- * Verify (crates/core/src/verify.rs): Checks holds the checks of blocks, headers and transactions
--   against the header chain, Quorum the tip on which enough upstreams agree, Median the median.
-- * Chain (crates/relay/src/chain.rs): the relay's chain store. Its state is the record
--   `ChainStore` (the chain, the cache epoch, the count of reorgs, the search window and the bytes
--   of the file); `step`, `merge` and `no_fork_point` pass it on, and `Run` is the sync loop. What
--   other nodes agree on is an argument of a step: Fetch checks one upstream's copy of a range and
--   Agree compares the copies. The file system is the parameter `Disk`, and `IsReliable` says that
--   it does what it is told. Opening is `open`; what its calls report (`OpenCalls`) is an argument.
-- * Epee (crates/core/src/epee.rs): the parser of binary answers. Reader is the cursor (the bytes
--   that remain), Parse the parser, Tree its values, with `canonical`. The depth is counted down
--   from `MAX_DEPTH + 1` by `readers`, so that the recursion ends where the source says TooDeep.
-- * Wire (crates/core/src/wire.rs): Hex decodes the hexadecimal text of a hash and makes a node's
--   answer a report of its tip, which is what Verify.Quorum counts.
-- * Limits (crates/relay/src/limits.rs): Memory holds the stream counters with the permits that are
--   held, and the allowance of work units. The answer of the burst bucket is an argument.
-- * Policy (crates/core/src/policy.rs): the table of methods, row by row (Served, Denied), with its
--   look-ups, and the canonical names of crates/relay/src/verify.rs (Names).
-- * Consensus (crates/relay/src/consensus.rs and cache.rs): Vote is `reduce` and its agreement keys,
--   Fees the medians, Refresh `fetch` and the check of the last header, Swr the cached entry and
--   when it is refreshed. Which upstreams have a token and what they answer are arguments.
-- * Upstream (crates/relay/src/upstream.rs): Health holds one upstream's faults, its ejection and
--   the hours of its day, Probe a round of probes, Ranking who may serve a request and in what
--   order. Floats are a parameter; the clock is an argument.
-- * Serve (crates/relay/src/dispatch.rs and agreement.rs): Route chooses the handler and the ranking,
--   Attempts is `fetch_verified`, Immutable the cached methods, Broadcast `broadcast`, Agreement and
--   Tiers the vote on answers about outputs, with the cached distributions. Exchange holds what comes back from an upstream and
--   what a client is answered; a header and an error's text are data.
-- * Relay (crates/relay/src/verify.rs): Checks holds the checks of answers about a header at a height
--   and about a range of headers; reading a body as a JSON-RPC response is an argument.
-- * Common (shared by all): lists, bytes, sorting and options. Wire/Json says what is asked of the
--   crate serde_json, the parameter `Json`; nothing is assumed but that equality is decidable.
--
-- The relay asks its upstreams for their tips (Upstream.Probe, Verify.Quorum), extends its chain
-- towards the agreed one (Chain.Sync upon HeaderChain.Store), looks up the policy of a request
-- (Policy.Table), sends it to ranked upstreams (Upstream.Ranking, Serve.Attempts) and compares what
-- they answer with the chain (Verify.Checks, Consensus.Refresh) or with one another (Consensus.Vote,
-- Serve.Agreement).
--
-- Loops are recursions on lists; no definition takes fuel. Not modelled: logging, locks, the
-- network and the buckets of light calls, which are arguments where they decide; the checks of
-- crates/relay/src/verify.rs of blocks, of headers by hash, of block hashes and of transactions
-- (the check of an answer is the argument `check` of Serve.Attempts); batches of transactions,
-- streams and the composed listing of the mempool; the store's SQL, billing, prices,
-- authentication, configuration and ingress.
pub mod Common
pub mod HeaderChain
pub mod Hash
pub mod Verify
pub mod Chain
pub mod Epee
pub mod Limits
pub mod Wire
pub mod Policy
pub mod Upstream
pub mod Serve
pub mod Relay
pub mod Consensus
pub mod Tests
