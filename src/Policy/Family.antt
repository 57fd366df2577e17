-- ===== src/Policy/Family.antt =====
-- crates/core/src/policy.rs: the constructors of the families of rows.
use Prim.Native.String.{String}
use mnr.Common.{ℕ}
use mnr.Policy.Types.{Class, Transport, json_rpc, legacy_path, Verification, Policy}
use mnr.Policy.Rules.{
  swr_cache, swr_quorum, immutable_cache, immutable_quorum, txs_cache, single_node_quorum,
  outputs_cache, stream_cache, stream_quorum, no_cache, broadcast_quorum, na, not_daemon_note,
}

abbrev pub policy :
    String → Transport → Class → String → String → Verification → ℕ → String → Policy
policy method transport class cache quorum verification timeout_ms note = record {
  method = method;
  transport = transport;
  class = class;
  cache = cache;
  quorum = quorum;
  verification = verification;
  timeout_ms = timeout_ms;
  note = note;
}

abbrev pub swr : String → Transport → String → Policy
swr method transport note =
    policy method transport Class.swr swr_cache swr_quorum Verification.majority 1500 note

abbrev pub immutable : String → String → Policy
immutable method note =
    policy method json_rpc Class.immutable immutable_cache immutable_quorum
      Verification.authenticated 3000 note

abbrev pub transactions_conditional : String → Transport → String → Policy
transactions_conditional method transport note =
    policy method transport Class.immutable_conditional txs_cache single_node_quorum
      Verification.authenticated 5000 note

abbrev pub outputs_conditional : String → Transport → String → Policy
outputs_conditional method transport note =
    policy method transport Class.immutable_conditional outputs_cache single_node_quorum
      (Verification.agreement 1 2) 10000 note

abbrev pub stream : String → String → Policy
stream method note =
    policy method legacy_path Class.passthrough_stream stream_cache stream_quorum
      Verification.annotated 60000 note

abbrev pub passthrough : String → Transport → String → String → String → Policy
passthrough method transport cache quorum note =
    policy method transport Class.passthrough cache quorum Verification.annotated 3000 note

abbrev pub broadcast : String → Transport → String → Policy
broadcast method transport note =
    policy method transport Class.broadcast no_cache broadcast_quorum Verification.annotated 5000
      note

abbrev pub deny : String → Transport → String → Policy
deny method transport note =
    policy method transport Class.deny na na Verification.not_applicable 0 note

abbrev pub not_daemon : String → Policy
not_daemon method =
    policy method json_rpc Class.not_daemon na na Verification.not_daemon 0 not_daemon_note

abbrev pub alias_of : String → Policy → String → Policy
alias_of method canonical note = record canonical { method = method; note = note }
