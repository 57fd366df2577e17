-- ===== src/Limits/Memory.antt =====
-- The counters of streams and the allowance of work units. A map is an association list; an id is
-- only compared. The burst bucket is kept in floats and by the clock: its verdict is an argument.
use mnr.Common.{
  ℕ, ◌+◌, ◌-◌, ◌*◌, ◌/◌, ◌%◌, ◌^◌, max, Bool, true, false, Option, none, some, List, [], ◌∷◌, ltb,
  ◌==◌, if◌then◌else◌,
}
use mathlib.Core.Option

abbrev pub light_wu : ℕ
light_wu = 1

abbrev pub stream_wu_per_mb : ℕ
stream_wu_per_mb = 20

-- `(bytes * STREAM_WU_PER_MB).div_ceil(1_000_000).max(LIGHT_WU)`
unfoldable pub stream_wu : ℕ → ℕ
stream_wu size = max ((size * stream_wu_per_mb % 2 ^ 64 + 999999) / 1000000) light_wu

abbrev pub Counts : Type 0
Counts = List (ℕ × ℕ)

unfoldable pub lookup : Counts → ℕ → Option ℕ
lookup [] id = none
lookup ((k, v) ∷ m) id = if k == id then some v else lookup m id

unfoldable pub store : Counts → ℕ → ℕ → Counts
store [] id v = (id, v) ∷ []
store ((k, w) ∷ m) id v = if k == id then (id, v) ∷ m else (k, w) ∷ store m id v

unfoldable pub remove : Counts → ℕ → Counts
remove [] id = []
remove ((k, v) ∷ m) id = if k == id then remove m id else (k, v) ∷ remove m id

-- What `entry(id).or_insert(0)` reads.
abbrev pub count_of : Counts → ℕ → ℕ
count_of m id = Option.get_or (lookup m id) 0

-- `StreamCounters::take`
unfoldable pub take_slot : Counts → ℕ → ℕ → Counts × Bool
unfolding store lookup
take_slot m id most =
    let c = count_of m id in
    if ltb c most then (store m id (c + 1), true) else (store m id c, false)

unfoldable pub put_back : Counts → ℕ → ℕ → Counts
unfolding store remove
put_back m id c = if c == 0 then remove m id else store m id c

-- `StreamCounters::release`
unfoldable pub release : Counts → ℕ → Counts
unfolding put_back lookup
release m id = elim (lookup m id) [ none ↦ m | some c ↦ put_back m id (c - 1) ]

-- The permits that are held, with the counters: each is of one stream of a principal.
pub record Streams : Type 0 where
  pub counts : Counts
  pub held : List ℕ

pub data Event : Type 0 where
  -- `take_stream`
  open_stream : ℕ → Event
  -- A permit is dropped.
  drop_permit : ℕ → Event

unfoldable pub drop_one : List ℕ → ℕ → Option (List ℕ)
drop_one [] id = none
drop_one (h ∷ hs) id = if h == id then some hs else Option.map (λ rest. h ∷ rest) (drop_one hs id)

unfoldable pub handle : (ℕ → ℕ) → Streams → Event → Streams
unfolding take_slot release drop_one
handle max_streams s (open_stream id) =
    let (counts, taken) = take_slot s.counts id (max_streams id) in
    record { counts = counts; held = if taken then id ∷ s.held else s.held }
handle max_streams s (drop_permit id) = elim (drop_one s.held id) [
  | none ↦ s
  | some held ↦ record { counts = release s.counts id; held = held }
]

unfoldable pub handle_all : (ℕ → ℕ) → Streams → List Event → Streams
unfolding handle
handle_all max_streams s [] = s
handle_all max_streams s (e ∷ es) = handle_all max_streams (handle max_streams s e) es

pub data Verdict : Type 0 where
  allow : Verdict
  rate_limited : ℕ → Verdict
  quota_exceeded : Verdict

-- `admit_at`, with what `take_burst` answered: none, or the seconds to wait.
unfoldable pub admit : Counts → ℕ → ℕ → ℕ → Option ℕ → Counts × Verdict
unfolding store lookup
admit used id monthly_wu wu (some retry) = (used, rate_limited retry)
admit used id monthly_wu wu none =
    let u = count_of used id in
    let next = (u + wu) % 2 ^ 64 in
    if ltb monthly_wu next then (store used id u, quota_exceeded) else (store used id next, allow)

unfoldable pub charge : Counts → ℕ → ℕ → Counts
unfolding store lookup
charge used id wu = store used id ((count_of used id + wu) % 2 ^ 64)
