-- ===== src/Consensus/Swr.antt =====
-- crates/relay/src/cache.rs and consensus.rs: the tier of consensus answers, and how `swr` serves a
-- request of one key from it. Time is in milliseconds. The map of entries is the crate moka: what it
-- holds under the key, when it is read and when an entry is made for a miss, are arguments, and so
-- is what `fetch` returns.
use Prim.Native.String.{String}
use mnr.Common.{
  ℕ, ◌+◌, ◌-◌, Bool, true, false, Option, none, some, ltb, if◌then◌else◌, not, Result, ok, err,
}
use mnr.Serve.Labels.{Status, hit, stale, miss, bypass}
use mnr.Consensus.Refresh.{SwrEntry}

abbrev pub swr_max_age : ℕ
swr_max_age = 1000

abbrev pub swr_revalidate : ℕ
swr_revalidate = 5000

abbrev pub swr_if_error : ℕ
swr_if_error = 15000

pub data Freshness : Type 0 where
  fresh revalidate if_error expired : Freshness

-- `SwrEntry::freshness_at`
unfoldable pub freshness_at : SwrEntry → ℕ → Freshness
freshness_at e now =
    let age = now - e.fetched in
    if ltb age swr_max_age
    then fresh
    else if ltb age (swr_max_age + swr_revalidate)
    then revalidate
    else if ltb age (swr_max_age + swr_revalidate + swr_if_error)
    then if_error
    else expired

-- What a request does: the answer, the entry that it writes itself, whether it asks upstreams now,
-- whether it starts a refresh in the background, and whether the key's refresh is claimed then.
pub record Served : Type 0 where
  pub answer : Result String (SwrEntry × Status)
  pub written : Option SwrEntry
  pub asks : Bool
  pub spawns : Bool
  pub refreshing : Bool

abbrev pub from_cache : SwrEntry → Status → Bool → Bool → Served
from_cache e status spawns refreshing = record {
  answer = ok (e, status);
  written = none;
  asks = false;
  spawns = spawns;
  refreshing = refreshing;
}

-- The refresh in the foreground: stale on an error.
unfoldable pub refresh_now : Bool → SwrEntry → Result String SwrEntry → Served
refresh_now degraded e (err why) = record {
  answer = ok (e, stale);
  written = none;
  asks = true;
  spawns = false;
  refreshing = false;
}
refresh_now true e (ok new) = record {
  answer = ok (new, bypass);
  written = none;
  asks = true;
  spawns = false;
  refreshing = false;
}
refresh_now false e (ok new) = record {
  answer = ok (new, miss);
  written = some new;
  asks = true;
  spawns = false;
  refreshing = false;
}

abbrev pub no_answer : String → Bool → Served
no_answer why refreshing = record {
  answer = err why;
  written = none;
  asks = true;
  spawns = false;
  refreshing = refreshing;
}

-- Nothing that may be served, and no quorum: `fetch`, with no write.
unfoldable pub miss_degraded : Bool → Result String SwrEntry → Served
miss_degraded refreshing (err why) = no_answer why refreshing
miss_degraded refreshing (ok new) = record {
  answer = ok (new, bypass);
  written = none;
  asks = true;
  spawns = false;
  refreshing = refreshing;
}

-- `swr_get_or_fetch`: what moka holds then, or what `fetch` returns, which it keeps.
unfoldable pub get_or_fetch : Bool → Option SwrEntry → Result String SwrEntry → Served
get_or_fetch refreshing (some held) fetched = from_cache held miss false refreshing
get_or_fetch refreshing none (err why) = no_answer why refreshing
get_or_fetch refreshing none (ok new) = record {
  answer = ok (new, miss);
  written = some new;
  asks = true;
  spawns = false;
  refreshing = refreshing;
}

abbrev pub miss_of : Bool → Bool → Option SwrEntry → Result String SwrEntry → Served
miss_of degraded refreshing held fetched =
    if degraded then miss_degraded refreshing fetched else get_or_fetch refreshing held fetched

-- By the freshness of the entry; `refreshing` says that the key's refresh is claimed.
unfoldable pub serve :
    Bool → Bool → Option SwrEntry → Result String SwrEntry → SwrEntry → Freshness → Served
unfolding refresh_now miss_degraded get_or_fetch
serve degraded refreshing held fetched e fresh = from_cache e hit false refreshing
serve degraded refreshing held fetched e revalidate =
    if degraded
    then from_cache e stale false refreshing
    else from_cache e stale (not refreshing) true
serve degraded refreshing held fetched e if_error =
    if refreshing then from_cache e stale false true else refresh_now degraded e fetched
serve degraded refreshing held fetched e expired = miss_of degraded refreshing held fetched

unfoldable pub swr :
    Bool → Bool → Option SwrEntry → Option SwrEntry → Result String SwrEntry → ℕ → Served
unfolding serve freshness_at miss_degraded get_or_fetch
swr degraded refreshing none held fetched now = miss_of degraded refreshing held fetched
swr degraded refreshing (some e) held fetched now =
    serve degraded refreshing held fetched e (freshness_at e now)
