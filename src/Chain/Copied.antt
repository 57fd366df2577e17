-- ===== src/Chain/Copied.antt =====
-- Groups of copies: each copy is in the group of its run, and counted there.
use mnr.Common.{
  ℕ, ◌+◌, ◌≤◌, ◌<◌, ◌≡◌, ◌⊎◌, refl, sym, ap, subst, ◌∙◌, inl, inr, Bool-cases, true, List, [], ◌∷◌,
  length, length-append, leb, All, In, arith,
}
use mnr.HeaderChain.Store.{same_iff, Entry}
use mnr.Chain.Agree.{same_entry, same_run, Copy, CopyGroup, add_copy, group_copies, largest}

entry_eq :
    (e f : Entry)
    → e.height ≡ f.height
    → e.hash ≡ f.hash
    → e.prev_hash ≡ f.prev_hash
    → e.timestamp ≡ f.timestamp
    → e ≡ f
entry_eq e f a b c d = λ i. record { height = a i; hash = b i; prev_hash = c i; timestamp = d i }

same_entry-eq : (a b : Entry) → same_entry a b ≡ true → a ≡ b
unfolding same_entry
same_entry-eq a b h =
    let (height, hash, prev, time) : (a.height ≡ b.height)
        × (a.hash ≡ b.hash)
        × (a.prev_hash ≡ b.prev_hash)
        × (a.timestamp ≡ b.timestamp) =
      ground (arith, same_iff a.hash b.hash, same_iff a.prev_hash b.prev_hash) in
    entry_eq a b height hash prev time

same_run-eq : (a b : List Entry) → same_run a b ≡ true → a ≡ b
unfolding same_run
same_run-eq [] [] h = refl
same_run-eq [] (b ∷ bs) h = cc
same_run-eq (a ∷ as_) [] h = cc
same_run-eq (a ∷ as_) (b ∷ bs) h = elim (Bool-cases (same_entry a b)) [
  | inl y ↦ cc (same_entry-eq a b y, same_run-eq as_ bs (rw y at h))
  | inr n ↦ cc (rw n at h)
]

-- A group has this run.
abbrev pub HasRun : List Entry → List CopyGroup → Type 0
HasRun run [] = ⊥
HasRun run (g ∷ gs) = (g.run ≡ run) ⊎ HasRun run gs

abbrev pub total : List CopyGroup → ℕ
total [] = 0
total (g ∷ gs) = length g.members + total gs

abbrev pub IsFilled : CopyGroup → Type 0
IsFilled g = 0 < length g.members

add_copy_lem :
    (gs : List CopyGroup) (c : Copy)
    → All IsFilled gs
    → (total (add_copy gs c) ≡ total gs + 1)
      × All IsFilled (add_copy gs c)
      × HasRun c.run (add_copy gs c)
      × ((run : List Entry) → HasRun run gs → HasRun run (add_copy gs c))
unfolding add_copy
add_copy_lem [] c f = (omega arith, (omega arith, tt), inl refl, λ run m. absurd m)
add_copy_lem (g ∷ gs) c f = elim (Bool-cases (same_run g.run c.run)) [
  | inl y ↦
      let size = length-append g.members (c.upstream ∷ []) in
      rw y (
        omega (arith, size),
        (omega (arith, size), f.1),
        inl (same_run-eq g.run c.run y),
        λ run m. m,
      )
  | inr n ↦
      let (size, filled, has, keeps) = add_copy_lem gs c f.1 in
      rw n (
        omega (arith, size),
        (f.0, filled),
        inr has,
        λ run m. elim m [ inl e ↦ inl e | inr later ↦ inr (keeps run later) ],
      )
]

pub group_copies_lem :
    (cs : List Copy) (gs : List CopyGroup)
    → All IsFilled gs
    → (total (group_copies gs cs) ≡ total gs + length cs)
      × All IsFilled (group_copies gs cs)
      × All (λ c. HasRun c.run (group_copies gs cs)) cs
      × ((run : List Entry) → HasRun run gs → HasRun run (group_copies gs cs))
unfolding group_copies
group_copies_lem [] gs f = (omega arith, f, tt, λ run m. m)
group_copies_lem (c ∷ cs) gs f =
    let (size, filled, has, keeps) = add_copy_lem gs c f in
    let (size', filled', all, keeps') = group_copies_lem cs (add_copy gs c) filled in
    (
      omega (arith, size, size'),
      filled',
      (keeps' c.run has, all),
      λ run m. keeps' run (keeps run m),
    )

pub In-largest : (best : CopyGroup) (gs : List CopyGroup) → In (largest best gs) (best ∷ gs)
unfolding largest
In-largest best [] = inl refl
In-largest best (g ∷ gs) = elim (Bool-cases (leb (length best.members) (length g.members))) [
  | inl y ↦
      let next : largest best (g ∷ gs) ≡ largest g gs = rw y refl in
      subst (λ t. In t (best ∷ g ∷ gs)) (sym next) (inr (In-largest g gs))
  | inr n ↦
      let next : largest best (g ∷ gs) ≡ largest best gs = rw n refl in
      subst (λ t. In t (best ∷ g ∷ gs)) (sym next)
        (elim (In-largest best gs) [ inl e ↦ inl e | inr m ↦ inr (inr m) ])
]

In-le : (gs : List CopyGroup) (g : CopyGroup) → In g gs → length g.members ≤ total gs
In-le [] g m = absurd m
In-le (x ∷ gs) g (inl e) = omega (arith, ap (λ (t : CopyGroup). length t.members) e)
In-le (x ∷ gs) g (inr m) = omega (arith, In-le gs g m)

none_of_total :
    (gs : List CopyGroup) (run : List Entry) → All IsFilled gs → total gs ≡ 0 → HasRun run gs → ⊥
none_of_total [] run f z m = m
none_of_total (g ∷ gs) run f z m = omega (arith, f.0)

-- A group that holds every member is the only one.
pub whole_run :
    (gs : List CopyGroup) (g : CopyGroup) (run : List Entry)
    → All IsFilled gs
    → In g gs
    → length g.members ≡ total gs
    → HasRun run gs
    → run ≡ g.run
whole_run [] g run f m size has = absurd m
whole_run (x ∷ gs) g run f (inl e) size (inl r) = sym r ∙ ap (λ (t : CopyGroup). t.run) e
whole_run (x ∷ gs) g run f (inl e) size (inr later) =
    absurd
      (none_of_total gs run f.1 (omega (arith, ap (λ (t : CopyGroup). length t.members) e)) later)
whole_run (x ∷ gs) g run f (inr m) size has = absurd (omega (arith, In-le gs g m, f.0))
