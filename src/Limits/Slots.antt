-- ===== src/Limits/Slots.antt =====
-- The stream counters count the permits that are held.
use mnr.Common.{
  ℕ, ◌+◌, ◌-◌, ◌≤◌, ◌≡◌, ◌↔◌, refl, sym, inl, inr, Bool-cases, Option-cases, false, some, List, [],
  ◌∷◌, ltb, ◌==◌, if◌then◌else◌, arith,
}
use mnr.Limits.Memory.{
  Counts, lookup, store, remove, count_of, take_slot, put_back, release, Streams, Event,
  open_stream, drop_permit, drop_one, handle, handle_all,
}

pub count_of-store :
    (m : Counts) (id v k : ℕ) → count_of (store m id v) k ≡ (if k == id then v else count_of m k)
unfolding store lookup
count_of-store [] id v k = ground arith
count_of-store ((j, w) ∷ m) id v k = ground (arith, count_of-store m id v k)

count_of-remove :
    (m : Counts) (id k : ℕ) → count_of (remove m id) k ≡ (if k == id then 0 else count_of m k)
unfolding remove lookup
count_of-remove [] id k = ground arith
count_of-remove ((j, w) ∷ m) id k = ground (arith, count_of-remove m id k)

count_of-put_back :
    (m : Counts) (id c k : ℕ) → count_of (put_back m id c) k ≡ (if k == id then c else count_of m k)
unfolding put_back
count_of-put_back m id c k = ground (arith, count_of-remove m id k, count_of-store m id c k)

-- How many permits of a principal are held.
abbrev pub permits : ℕ → List ℕ → ℕ
permits id [] = 0
permits id (h ∷ hs) = (if h == id then 1 else 0) + permits id hs

drop_one-some :
    (held : List ℕ) (id : ℕ) (rest : List ℕ)
    → drop_one held id ≡ some rest
    → (k : ℕ) → permits k held ≡ (if k == id then 1 else 0) + permits k rest
unfolding drop_one
drop_one-some [] id rest h k = cc
drop_one-some (x ∷ held) id rest h k = elim (Bool-cases (x == id)) [
  | inl y ↦ let is : held ≡ rest = cc (rw y at h) in rw (sym is) (ground arith)
  | inr n ↦ elim (Option-cases (drop_one held id)) [
    | inl missing ↦ cc (rw (n, missing) at h)
    | inr (r, found) ↦
        let is : x ∷ r ≡ rest = cc (rw (n, found) at h) in
        rw (sym is) (omega (arith, drop_one-some held id r found k))
  ]
]

count_of-release :
    (m : Counts) (id k : ℕ)
    → count_of (release m id) k ≡ (if k == id then count_of m id - 1 else count_of m k)
unfolding release
count_of-release m id k = elim (Option-cases (lookup m id)) [
  | inl is ↦
      rw (is, release)
        (elim (Bool-cases (k == id)) [
          | inl y ↦ let same_id : k ≡ id = ground arith in rw (y, same_id, is) refl
          | inr n ↦ rw n refl
        ])
  | inr (c, is) ↦ rw (is, release) (count_of-put_back m id (c - 1) k)
]

-- The counter of each principal is the number of permits that it holds, and at most its limit.
abbrev pub IsCounted : (ℕ → ℕ) → Streams → Type 0
IsCounted max_streams s =
    (id : ℕ) → (count_of s.counts id ≡ permits id s.held) × (permits id s.held ≤ max_streams id)

handle-IsCounted :
    (max_streams : ℕ → ℕ) (s : Streams) (e : Event)
    → IsCounted max_streams s
    → IsCounted max_streams (handle max_streams s e)
unfolding handle take_slot
handle-IsCounted max_streams s (open_stream id) h k =
    elim (Bool-cases (ltb (count_of s.counts id) (max_streams id))) [
      | inl y ↦
          rw y (ground (arith, count_of-store s.counts id (count_of s.counts id + 1) k, h k, h id))
      | inr n ↦
          rw n (ground (arith, count_of-store s.counts id (count_of s.counts id) k, h k, h id))
    ]
handle-IsCounted max_streams s (drop_permit id) h k = elim (Option-cases (drop_one s.held id)) [
  | inl is ↦ rw (is, handle) (h k)
  | inr (rest, is) ↦
      rw (is, handle)
        (ground
          (arith, count_of-release s.counts id k, drop_one-some s.held id rest is k, h k, h id))
]

-- Whatever streams are opened and permits dropped, in any order: the counter of each principal is
-- the number of permits that it holds, and that is never more than its limit.
pub handle_all-IsCounted :
    (max_streams : ℕ → ℕ) (s : Streams) (es : List Event)
    → IsCounted max_streams s
    → IsCounted max_streams (handle_all max_streams s es)
unfolding handle_all
handle_all-IsCounted max_streams s [] h = h
handle_all-IsCounted max_streams s (e ∷ es) h =
    handle_all-IsCounted max_streams (handle max_streams s e) es
      (handle-IsCounted max_streams s e h)

-- A stream is refused exactly when the principal holds as many permits as it may.
pub open_stream-refused_iff :
    (max_streams : ℕ → ℕ) (s : Streams) (id : ℕ)
    → IsCounted max_streams s
    → ((take_slot s.counts id (max_streams id)).1 ≡ false) ↔ (permits id s.held ≡ max_streams id)
unfolding take_slot
open_stream-refused_iff max_streams s id h =
    elim (Bool-cases (ltb (count_of s.counts id) (max_streams id))) [
      | inl y ↦ rw y ((λ e. cc), λ e. ground (arith, h id))
      | inr n ↦ rw n ((λ e. ground (arith, h id)), λ e. refl)
    ]
