-- ===== src/Consensus/Windows.antt =====
-- What a request of a consensus method is served, and what it leaves in the cache.
use Prim.Native.String.{String}
use mnr.Common.{
  ℕ, ◌+◌, ◌-◌, ◌<◌, ◌≤◌, ◌≡◌, ◌⊎◌, refl, inl, inr, Bool, true, false, Option, none, some, ◌||◌,
  ◌&&◌, ltb, Result, ok, err, arith, Bool-cases,
}
use mnr.Serve.Labels.{Status, hit, stale, miss, bypass}
use mnr.Consensus.Refresh.{SwrEntry}
use mnr.Consensus.Swr.{
  swr_max_age, swr_revalidate, swr_if_error, Freshness, fresh, revalidate, if_error, expired,
  freshness_at, Served, refresh_now, miss_degraded, get_or_fetch, miss_of, serve, swr,
}

abbrev pub window : ℕ
window = swr_max_age + swr_revalidate + swr_if_error

-- The age in which an entry has this freshness.
abbrev pub InAge : ℕ → Freshness → Type 0
InAge age fresh = age < swr_max_age
InAge age revalidate = (swr_max_age ≤ age) × (age < swr_max_age + swr_revalidate)
InAge age if_error = (swr_max_age + swr_revalidate ≤ age) × (age < window)
InAge age expired = window ≤ age

freshness_at-InAge : (e : SwrEntry) (now : ℕ) → InAge (now - e.fetched) (freshness_at e now)
unfolding freshness_at
freshness_at-InAge e now = elim (Bool-cases (ltb (now - e.fetched) swr_max_age)) [
  | inl y ↦ rw y (ground arith)
  | inr n ↦ elim (Bool-cases (ltb (now - e.fetched) (swr_max_age + swr_revalidate))) [
    | inl y ↦ rw (n, y) (ground arith)
    | inr k ↦ elim (Bool-cases (ltb (now - e.fetched) window)) [
      | inl y ↦ rw (n, k, y) (ground arith)
      | inr m ↦ rw (n, k, m) (ground arith)
    ]
  ]
]

-- What is served under each status.
abbrev pub InWindow :
    ℕ → Option SwrEntry → Option SwrEntry → Result String SwrEntry → SwrEntry → Status → Type 0
InWindow now existing held fetched e hit = (existing ≡ some e) × (now - e.fetched < swr_max_age)
InWindow now existing held fetched e stale =
    (existing ≡ some e) × (swr_max_age ≤ now - e.fetched) × (now - e.fetched < window)
InWindow now existing held fetched e miss = (fetched ≡ ok e) ⊎ (held ≡ some e)
InWindow now existing held fetched e bypass = fetched ≡ ok e

-- There is no entry that may be served.
abbrev pub Outdated : ℕ → Option SwrEntry → Type 0
Outdated now none = Unit
Outdated now (some e) = window ≤ now - e.fetched

abbrev pub IsServed :
    ℕ
    → Option SwrEntry
    → Option SwrEntry
    → Result String SwrEntry
    → Result String (SwrEntry × Status)
    → Type 0
IsServed now existing held fetched (ok (e, status)) = InWindow now existing held fetched e status
IsServed now existing held fetched (err why) = (fetched ≡ err why) × Outdated now existing

miss_of-IsServed :
    (now : ℕ) (degraded refreshing : Bool) (existing held : Option SwrEntry)
    (fetched : Result String SwrEntry)
    → Outdated now existing
    → IsServed now existing held fetched (miss_of degraded refreshing held fetched).answer
unfolding miss_degraded get_or_fetch
miss_of-IsServed now true refreshing existing held (ok new) o = refl
miss_of-IsServed now true refreshing existing held (err why) o = (refl, o)
miss_of-IsServed now false refreshing existing (some e) (ok new) o = inr refl
miss_of-IsServed now false refreshing existing (some e) (err why) o = inr refl
miss_of-IsServed now false refreshing existing none (ok new) o = inl refl
miss_of-IsServed now false refreshing existing none (err why) o = (refl, o)

serve-IsServed :
    (now : ℕ) (degraded refreshing : Bool) (held : Option SwrEntry)
    (fetched : Result String SwrEntry) (e : SwrEntry) (f : Freshness)
    → InAge (now - e.fetched) f
    → IsServed now (some e) held fetched (serve degraded refreshing held fetched e f).answer
unfolding serve refresh_now
serve-IsServed now degraded refreshing held fetched e fresh a = (refl, a)
serve-IsServed now true refreshing held fetched e revalidate a = (refl, omega arith, omega arith)
serve-IsServed now false refreshing held fetched e revalidate a = (refl, omega arith, omega arith)
serve-IsServed now degraded true held fetched e if_error a = (refl, omega arith, omega arith)
serve-IsServed now degraded false held (err why) e if_error a = (refl, omega arith, omega arith)
serve-IsServed now true false held (ok new) e if_error a = refl
serve-IsServed now false false held (ok new) e if_error a = inl refl
serve-IsServed now degraded refreshing held fetched e expired a =
    miss_of-IsServed now degraded refreshing (some e) held fetched a

-- Whatever the state of the cache and whatever the upstreams answer, a request is served an entry
-- of the cache below the age of 1 s (`hit`), or from there to below 21 s (`stale`); or what was
-- fetched (`bypass`); or what was fetched, or moka kept meanwhile (`miss`). It gets an error only if
-- the fetch failed and the cache had no entry younger than 21 s. (So while the upstreams fail an
-- entry is served up to 21 s, and not up to the 15 s that the table of methods promises.)
pub swr-IsServed :
    (degraded refreshing : Bool) (existing held : Option SwrEntry)
    (fetched : Result String SwrEntry) (now : ℕ)
    → IsServed now existing held fetched (swr degraded refreshing existing held fetched now).answer
unfolding swr
swr-IsServed degraded refreshing none held fetched now =
    miss_of-IsServed now degraded refreshing none held fetched tt
swr-IsServed degraded refreshing (some e) held fetched now =
    serve-IsServed now degraded refreshing held fetched e (freshness_at e now)
      (freshness_at-InAge e now)

-- What is written is what was fetched, and nothing without a quorum.
abbrev pub IsWrite : Bool → Result String SwrEntry → Option SwrEntry → Type 0
IsWrite degraded fetched none = Unit
IsWrite degraded fetched (some e) = (degraded ≡ false) × (fetched ≡ ok e)

-- This holds where the test is true.
abbrev pub Where : Bool → Type 0 → Type 0
Where true P = P
Where false P = Unit

-- When a request asks upstreams itself, and when it starts a refresh in the background, by the age
-- of the entry in the cache.
abbrev pub Asks : ℕ → Bool → Option SwrEntry → Bool → Bool → Type 0
Asks now refreshing none asks spawns = spawns ≡ false
Asks now refreshing (some e) asks spawns =
    Where asks (
      (swr_max_age + swr_revalidate ≤ now - e.fetched)
      × ((refreshing ≡ false) ⊎ (window ≤ now - e.fetched)))
    × Where spawns
        ((swr_max_age ≤ now - e.fetched) × (now - e.fetched < swr_max_age + swr_revalidate))

-- What a request does besides its answer.
abbrev pub Leaves : ℕ → Bool → Bool → Option SwrEntry → Result String SwrEntry → Served → Type 0
Leaves now degraded refreshing existing fetched s =
    IsWrite degraded fetched s.written
    × ((degraded && s.spawns) ≡ false)
    × ((refreshing && s.spawns) ≡ false)
    × (s.refreshing ≡ (refreshing || s.spawns))
    × Asks now refreshing existing s.asks s.spawns

or_false : (b : Bool) → b ≡ (b || false)
or_false true = refl
or_false false = refl

and_false : (b : Bool) → (b && false) ≡ false
and_false true = refl
and_false false = refl

Outdated-Asks :
    (now : ℕ) (refreshing : Bool) (existing : Option SwrEntry) (asks : Bool)
    → Outdated now existing
    → Asks now refreshing existing asks false
Outdated-Asks now refreshing none asks o = refl
Outdated-Asks now refreshing (some e) true o = ((omega arith, inr o), tt)
Outdated-Asks now refreshing (some e) false o = (tt, tt)

miss_of-Leaves :
    (now : ℕ) (degraded refreshing : Bool) (existing held : Option SwrEntry)
    (fetched : Result String SwrEntry)
    → Outdated now existing
    → Leaves now degraded refreshing existing fetched (miss_of degraded refreshing held fetched)
unfolding miss_degraded get_or_fetch
miss_of-Leaves now true r x held (ok new) o =
    (tt, refl, and_false r, or_false r, Outdated-Asks now r x true o)
miss_of-Leaves now true r x held (err why) o =
    (tt, refl, and_false r, or_false r, Outdated-Asks now r x true o)
miss_of-Leaves now false r x (some e) fetched o =
    (tt, refl, and_false r, or_false r, Outdated-Asks now r x false o)
miss_of-Leaves now false r x none (ok new) o =
    ((refl, refl), refl, and_false r, or_false r, Outdated-Asks now r x true o)
miss_of-Leaves now false r x none (err why) o =
    (tt, refl, and_false r, or_false r, Outdated-Asks now r x true o)

serve-Leaves :
    (now : ℕ) (degraded refreshing : Bool) (held : Option SwrEntry)
    (fetched : Result String SwrEntry) (e : SwrEntry) (f : Freshness)
    → InAge (now - e.fetched) f
    → Leaves now degraded refreshing (some e) fetched (serve degraded refreshing held fetched e f)
unfolding serve refresh_now
serve-Leaves now d r held fetched e fresh a = (tt, and_false d, and_false r, or_false r, (tt, tt))
serve-Leaves now true r held fetched e revalidate a = (tt, refl, and_false r, or_false r, (tt, tt))
serve-Leaves now false true held fetched e revalidate a = (tt, refl, refl, refl, (tt, tt))
serve-Leaves now false false held fetched e revalidate a = (tt, refl, refl, refl, (tt, a))
serve-Leaves now d true held fetched e if_error a = (tt, and_false d, refl, refl, (tt, tt))
serve-Leaves now d false held (err why) e if_error a =
    (tt, and_false d, refl, refl, ((a.0, inl refl), tt))
serve-Leaves now true false held (ok new) e if_error a =
    (tt, refl, refl, refl, ((a.0, inl refl), tt))
serve-Leaves now false false held (ok new) e if_error a =
    ((refl, refl), refl, refl, refl, ((a.0, inl refl), tt))
serve-Leaves now d r held fetched e expired a = miss_of-Leaves now d r (some e) held fetched a

-- A request writes nothing to the cache but what was fetched, and without a quorum nothing. It starts
-- a background refresh only with a quorum, for an entry of an age from 1 s to below 6 s, and where no
-- refresh of the key runs; the key is claimed afterwards just where it was or where one was started.
-- While there is an entry, it asks upstreams itself only if the entry is 6 s old or older, and either
-- no refresh of the key runs or the entry is 21 s old. (It does so without a quorum, too.)
pub swr-Leaves :
    (degraded refreshing : Bool) (existing held : Option SwrEntry)
    (fetched : Result String SwrEntry) (now : ℕ)
    → Leaves now degraded refreshing existing fetched
        (swr degraded refreshing existing held fetched now)
unfolding swr
swr-Leaves degraded refreshing none held fetched now =
    miss_of-Leaves now degraded refreshing none held fetched tt
swr-Leaves degraded refreshing (some e) held fetched now =
    serve-Leaves now degraded refreshing held fetched e (freshness_at e now)
      (freshness_at-InAge e now)
