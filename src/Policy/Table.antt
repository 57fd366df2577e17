-- ===== src/Policy/Table.antt =====
-- crates/core/src/policy.rs: the whole table, and the look-up of a method.
use Prim.Native.String.{String}
use text.Mathlib.Text.{◌==◌ as str_eq}
use mathlib.Core.Option
use mnr.Common.{Option, none, some, List, [], ◌∷◌, ◌++◌, if◌then◌else◌}
use mnr.Policy.Types.{Class, json_rpc, Verification, Policy}
use mnr.Policy.Rules.{na}
use mnr.Policy.Served.{
  immutable_rows, immutable_aliases, swr_rows, swr_aliases, conditional_rows, conditional_aliases,
  stream_rows, stream_aliases, passthrough_rows, broadcast_rows, broadcast_aliases,
}
use mnr.Policy.Denied.{not_daemon_rows, legacy_deny_rows, json_deny_rows}

unfoldable pub table : List Policy
table =
    immutable_rows
    ++ (immutable_aliases
        ++ (swr_rows
            ++ (swr_aliases
                ++ (conditional_rows
                    ++ (conditional_aliases
                        ++ (stream_rows
                            ++ (stream_aliases
                                ++ (passthrough_rows
                                    ++ (broadcast_rows
                                        ++ (broadcast_aliases
                                            ++ (not_daemon_rows
                                                ++ (legacy_deny_rows ++ json_deny_rows))))))))))))

abbrev pub deny_fallback : Policy
deny_fallback = record {
  method = "<unknown>";
  transport = json_rpc;
  class = Class.deny;
  cache = na;
  quorum = na;
  verification = Verification.not_applicable;
  timeout_ms = 0;
  note = "Unknown method; denied (allow-list).";
}

-- `TABLE.iter().find(|p| p.method == method)`
unfoldable pub find_row : String → List Policy → Option Policy
find_row method [] = none
find_row method (p ∷ ps) = if str_eq p.method method then some p else find_row method ps

unfoldable pub lookup : String → Option Policy
lookup method = find_row method table

unfoldable pub lookup_or_deny : String → Policy
unfolding lookup
lookup_or_deny method = Option.get_or (lookup method) deny_fallback
