-- ===== src/Tests/Methods.antt =====
-- The table of methods at some names.
use mnr.Common.{◌≡◌, ◌⊎◌, refl, some, In}
use mnr.Policy.Types.{Class, Policy}
use mnr.Policy.Rows.{p_get_block}
use mnr.Policy.Family.{alias_of}
use mnr.Policy.Table.{table, lookup, lookup_or_deny, find_row}
use mnr.Policy.Rulings.{IsRuled, lookup_or_deny-IsRuled}
use mnr.Policy.Names.{canonical, IsAliasOf, lookup-canonical}

abbrev getblock_row : Policy
getblock_row = alias_of "getblock" p_get_block "Alias of get_block."

getblock_found : lookup "getblock" ≡ some getblock_row
unfolding lookup find_row table
getblock_found = refl

lookup_or_deny-IsRuled_example :
    IsRuled (lookup_or_deny "/stop_daemon")
    × ((In (lookup_or_deny "/stop_daemon") table
          × ((lookup_or_deny "/stop_daemon").method ≡ "/stop_daemon"))
        ⊎ ((lookup_or_deny "/stop_daemon").class ≡ Class.deny))
lookup_or_deny-IsRuled_example = lookup_or_deny-IsRuled "/stop_daemon"

lookup-canonical_example :
    (q : Policy) × (lookup (canonical "getblock") ≡ some q) × IsAliasOf getblock_row q
lookup-canonical_example = lookup-canonical "getblock" getblock_row getblock_found

-- No alias makes a path of a name.
info_names : canonical "getinfo" ≡ "getinfo"
unfolding canonical
info_names = refl

header_name : canonical "getblockheaderbyhash" ≡ "get_block_header_by_hash"
unfolding canonical
header_name = refl
