-- ===== src/Upstream/Ring.antt =====
-- crates/relay/src/upstream.rs: the ring of the last day's probes. Times are in seconds; a bucket is
-- an hour with its probes and those that found the upstream on the tip.
use mnr.Common.{
  ℕ, zero, suc, ◌+◌, ◌-◌, ◌/◌, ◌%◌, ◌^◌, Bool, List, [], ◌∷◌, ◌++◌, length, replicate, ltb, ◌==◌,
  if◌then◌else◌, not,
}

abbrev pub up_hours : ℕ
up_hours = 24

abbrev pub Bucket : Type 0
Bucket = ℕ × ℕ × ℕ

abbrev pub one_if : Bool → ℕ
one_if up = if up then 1 else 0

-- `b.1 += 1; b.2 += u32::from(up)`, in a bucket of the hour.
unfoldable pub count_probe : ℕ → Bool → Bucket → Bucket
count_probe hour up (h, p, u) =
    if not (h == hour)
    then (hour, 1, one_if up)
    else (h, (p + 1) % 2 ^ 32, (u + one_if up) % 2 ^ 32)

unfoldable pub update_at : ℕ → (Bucket → Bucket) → List Bucket → List Bucket
update_at slot f [] = []
update_at zero f (b ∷ ring) = f b ∷ ring
update_at (suc slot) f (b ∷ ring) = b ∷ update_at slot f ring

-- `resize(UP_HOURS, (0, 0, 0))` of a ring that is shorter.
unfoldable pub resized : List Bucket → List Bucket
resized ring =
    if ltb (length ring) up_hours
    then ring ++ replicate (up_hours - length ring) (0, 0, 0)
    else ring

-- `Health::record_up`
unfoldable pub record_up : List Bucket → Bool → ℕ → List Bucket
unfolding count_probe update_at resized
record_up ring up unix =
    let hour = unix / 3600 in update_at (hour % up_hours) (count_probe hour up) (resized ring)

unfoldable pub sum_since : ℕ → List Bucket → ℕ × ℕ
sum_since hour [] = (0, 0)
sum_since hour ((h, p, u) ∷ ring) =
    let (ps, us) = sum_since hour ring in
    if ltb (hour - h) up_hours then (ps + p, us + u) else (ps, us)

-- `Health::up_24h`
unfoldable pub up_24h : List Bucket → ℕ → ℕ × ℕ
unfolding sum_since
up_24h ring unix = sum_since (unix / 3600) ring
