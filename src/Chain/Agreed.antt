-- ===== src/Chain/Agreed.antt =====
-- A range is agreed on only where every copy of it is the same.
use mnr.Common.{
  ℕ, ◌+◌, ◌-◌, ◌*◌, ◌≤◌, ◌<◌, ◌≡◌, refl, sym, subst, ◌∙◌, inl, inr, Bool-cases, true, some, List,
  [], ◌∷◌, length, get_last?, ltb, ◌==◌, All, In, arith, Result-cases, Bool, not, zero, suc, map,
}
use mnr.Common.Sort.{Distinct}
use mnr.Common.Sub.{Sub, done, skip, Sub-nil, Sub-Distinct, Distinct-append}
use mnr.Common.Sub
use mnr.HeaderChain.Store.{Entry}
use mnr.Verify.Quorum.{QuorumTip}
use mnr.Chain.Fetch.{fetch_range}
use mnr.Chain.Agree.{
  Copy, CopyGroup, group_copies, largest, ends_on, judge, agree_groups, agree, Upstreams, copies_of,
  with_refusals, fetch_agreed, chosen, keep, in_order, choose,
}
use mnr.Chain.Copies.{IsRun, fetch_range-IsRun}
use mnr.Chain.Copied.{HasRun, total, IsFilled, group_copies_lem, In-largest, whole_run}

-- What agreement claims of the copies.
abbrev pub IsUnanimous : ℕ → QuorumTip → List Copy → List Entry → Type 0
IsUnanimous need q copies es =
    (need ≤ length copies) × All (λ c. c.run ≡ es) copies × (ends_on q (get_last? es) ≡ true)

judge-some :
    (start : ℕ) (q : QuorumTip) (copies : List Copy) (g : CopyGroup) (es : List Entry)
    → (judge start q copies g).agreed ≡ some es
    → (length g.members ≡ length copies) × (g.run ≡ es) × (ends_on q (get_last? g.run) ≡ true)
unfolding judge
judge-some start q copies g es h = elim (Bool-cases (length g.members == length copies)) [
  | inl whole ↦ elim (Bool-cases (ends_on q (get_last? g.run))) [
    | inl y ↦ (ground arith, cc (rw (whole, y) at h), y)
    | inr n ↦ cc (rw (whole, n) at h)
  ]
  | inr part ↦ elim (Bool-cases (ltb (length copies) (length g.members * 2))) [
    | inl y ↦ cc (rw (part, y) at h)
    | inr n ↦ cc (rw (part, n) at h)
  ]
]

-- Where a group has all members, every copy has its run.
All-runs :
    (gs : List CopyGroup) (g : CopyGroup) (cs : List Copy) (es : List Entry)
    → All IsFilled gs
    → In g gs
    → length g.members ≡ total gs
    → g.run ≡ es
    → All (λ c. HasRun c.run gs) cs
    → All (λ c. c.run ≡ es) cs
All-runs gs g [] es f m size is h = tt
All-runs gs g (c ∷ cs) es f m size is h =
    (whole_run gs g c.run f m size h.0 ∙ is, All-runs gs g cs es f m size is h.1)

agree_groups-some :
    (start : ℕ) (q : QuorumTip) (copies : List Copy) (gs : List CopyGroup) (es : List Entry)
    → All IsFilled gs
    → total gs ≡ length copies
    → All (λ c. HasRun c.run gs) copies
    → (agree_groups start q copies gs).agreed ≡ some es
    → All (λ c. c.run ≡ es) copies × (ends_on q (get_last? es) ≡ true)
unfolding agree_groups
agree_groups-some start q copies [] es f size has h = cc
agree_groups-some start q copies (g ∷ gs) es f size has h =
    let best = largest g gs in
    let (whole, is, on_tip) = judge-some start q copies best es h in
    (
      All-runs (g ∷ gs) best copies es f (In-largest g gs) (whole ∙ sym size) is has,
      rw (sym is) on_tip,
    )

pub agree-IsUnanimous :
    (need start : ℕ) (q : QuorumTip) (copies : List Copy) (es : List Entry)
    → (agree need start q copies).agreed ≡ some es
    → IsUnanimous need q copies es
unfolding agree
agree-IsUnanimous need start q copies es h = elim (Bool-cases (ltb (length copies) need)) [
  | inl few ↦ cc (rw few at h)
  | inr enough ↦
      let (size, filled, has, _) = group_copies_lem copies [] tt in
      let (same_runs, on_tip) =
        agree_groups-some start q copies (group_copies [] copies) es filled (omega (arith, size))
          has (rw enough at h) in
      (ground arith, same_runs, on_tip)
]

abbrev IsCopy : ℕ → ℕ → Copy → Type 0
IsCopy start size c = IsRun start c.run × (length c.run ≡ size)

copies_of-IsRun :
    (u : Upstreams) (start end : ℕ) (ids : List ℕ)
    → All (IsCopy start (end - start + 1)) (copies_of u start end ids)
unfolding copies_of
copies_of-IsRun u start end [] = tt
copies_of-IsRun u start end (id ∷ ids) =
    elim (Result-cases (fetch_range (u.answers id) start end)) [
      | inl (run, is) ↦
          let next : copies_of u start end (id ∷ ids)
              ≡ record { upstream = id; run = run } ∷ copies_of u start end ids =
            rw (is, copies_of) refl in
          subst (All (IsCopy start (end - start + 1))) (sym next)
            (fetch_range-IsRun (u.answers id) start end run is, copies_of-IsRun u start end ids)
      | inr (e, is) ↦
          let next : copies_of u start end (id ∷ ids) ≡ copies_of u start end ids =
            rw (is, copies_of) refl in
          subst (All (IsCopy start (end - start + 1))) (sym next) (copies_of-IsRun u start end ids)
    ]

run_of_copies :
    (cs : List Copy) (es : List Entry) (start size : ℕ)
    → 0 < length cs
    → All (λ c. c.run ≡ es) cs
    → All (IsCopy start size) cs
    → IsRun start es × (length es ≡ size)
run_of_copies [] es start size some_copy same_runs h = absurd (omega arith)
run_of_copies (c ∷ cs) es start size some_copy same_runs h =
    subst (λ r. IsRun start r × (length r ≡ size)) same_runs.0 h.0

-- Each upstream is asked once, and its copy counted once.
keep-Sub : (f : ℕ → Bool) (ids : List ℕ) → Sub (keep f ids) ids
unfolding keep
keep-Sub f [] = done
keep-Sub f (id ∷ ids) = elim (Bool-cases (f id)) [
  | inl y ↦ rw y (Sub.Sub.keep (keep-Sub f ids))
  | inr n ↦ rw n (skip (keep-Sub f ids))
]

keep-passes : (f : ℕ → Bool) (ids : List ℕ) (w : ℕ) → In w (keep f ids) → f w ≡ true
unfolding keep
keep-passes f [] w m = absurd m
keep-passes f (id ∷ ids) w m = elim (Bool-cases (f id)) [
  | inl y ↦ elim (rw (y, keep) at m) [ inl e ↦ rw (← e) y | inr k ↦ keep-passes f ids w k ]
  | inr n ↦ keep-passes f ids w (rw (n, keep) at m)
]

in_order-Distinct : (u : Upstreams) → Distinct u.ranked → Distinct (in_order u)
in_order-Distinct u d =
    Distinct-append (keep u.is_owned u.ranked) (keep (λ id. not (u.is_owned id)) u.ranked)
      (Sub-Distinct _ u.ranked (keep-Sub u.is_owned u.ranked) d)
      (Sub-Distinct _ u.ranked (keep-Sub (λ id. not (u.is_owned id)) u.ranked) d)
      (λ w k l.
        let owned = keep-passes u.is_owned u.ranked w k in
        let other = keep-passes (λ id. not (u.is_owned id)) u.ranked w l in
        let both : not true ≡ true = rw owned at other in cc)

choose-Sub : (u : Upstreams) (n : ℕ) (ids : List ℕ) → Sub (choose u n ids) ids
unfolding choose
choose-Sub u zero ids = Sub-nil ids
choose-Sub u (suc n) [] = done
choose-Sub u (suc n) (id ∷ ids) = elim (Bool-cases (u.has_token id)) [
  | inl y ↦ rw y (Sub.Sub.keep (choose-Sub u n ids))
  | inr n0 ↦ rw n0 (skip (choose-Sub u (suc n) ids))
]

copies_of-Sub :
    (u : Upstreams) (start end : ℕ) (ids : List ℕ)
    → Sub (map (λ c. c.upstream) (copies_of u start end ids)) ids
unfolding copies_of
copies_of-Sub u start end [] = done
copies_of-Sub u start end (id ∷ ids) = elim (Result-cases (fetch_range (u.answers id) start end)) [
  | inl (run, is) ↦ rw (is, copies_of) (Sub.Sub.keep (copies_of-Sub u start end ids))
  | inr (e, is) ↦ rw (is, copies_of) (skip (copies_of-Sub u start end ids))
]

-- What `fetch_agreed` returns for a range is one linked run of records over just the heights asked
-- for: at least `need` different upstreams sent it (the ranking names none twice), none of those that
-- were asked sent another copy that passed the checks, and where it reaches the height of the quorum
-- tip it ends on it.
pub fetch_agreed-IsRun :
    (u : Upstreams) (need start end : ℕ) (q : QuorumTip) (es : List Entry)
    → 1 ≤ need
    → Distinct u.ranked
    → (fetch_agreed u need start end q).agreed ≡ some es
    → IsRun start es
      × (length es ≡ end - start + 1)
      × Distinct (map (λ c. c.upstream) (copies_of u start end (chosen u need)))
      × IsUnanimous need q (copies_of u start end (chosen u need)) es
unfolding fetch_agreed with_refusals
fetch_agreed-IsRun u need start end q es some_need distinct h =
    elim (Bool-cases (ltb (length (chosen u need)) need)) [
      | inl few ↦ cc (rw few at h)
      | inr enough ↦
          let copies = copies_of u start end (chosen u need) in
          let unanimous = agree-IsUnanimous need start q copies es (rw enough at h) in
          let (run, size) =
            run_of_copies copies es start (end - start + 1) (omega (arith, unanimous.0)) unanimous.1
              (copies_of-IsRun u start end (chosen u need)) in
          let asked_once =
            Sub-Distinct (chosen u need) (in_order u) (choose-Sub u _ (in_order u))
              (in_order-Distinct u distinct) in
          (
            run,
            size,
            Sub-Distinct _ (chosen u need) (copies_of-Sub u start end (chosen u need)) asked_once,
            unanimous,
          )
    ]
