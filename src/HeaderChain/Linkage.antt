-- ===== src/HeaderChain/Linkage.antt =====
-- The invariant that `append` and `truncate` keep.
use mnr.Common.{
  ℕ, zero, suc, ◌+◌, ◌<◌, ◌^◌, ◌≡◌, ◌↔◌, refl, sym, ap, Option, none, some, List, [], ◌∷◌, ◌++◌,
  length, get_elem?, get_last?, take, get_elem?_lt, lt_of_get_elem?, arith, ok,
}
use mnr.HeaderChain.Store.{
  Hash, zero_hash, Entry, HeaderChain, len, tip, get, append, truncate, append_after, push,
}

-- The records follow one another from `height` on, the first one upon `prev`.
abbrev pub LinkedFrom : ℕ → Hash → List Entry → Type 0
LinkedFrom height prev [] = Unit
LinkedFrom height prev (e ∷ es) =
    (e.height ≡ height) × (e.prev_hash ≡ prev) × LinkedFrom (height + 1) e.hash es

-- From genesis: heights 0, 1, 2, …, and each record upon the hash of the one before.
abbrev pub IsLinked : HeaderChain → Type 0
IsLinked c = LinkedFrom 0 zero_hash c.entries

-- The hash that a record after `es` must name.
abbrev pub end_hash : Hash → List Entry → Hash
end_hash prev [] = prev
end_hash prev (e ∷ es) = end_hash e.hash es

pub LinkedFrom-snoc :
    (h : ℕ) (p : Hash) (es : List Entry) (e : Entry)
    → LinkedFrom h p es
    → e.height ≡ h + length es
    → e.prev_hash ≡ end_hash p es
    → LinkedFrom h p (es ++ e ∷ [])
LinkedFrom-snoc h p [] e l a b = (omega arith, b, tt)
LinkedFrom-snoc h p (x ∷ es) e l a b =
    (l.0, l.1, LinkedFrom-snoc (h + 1) x.hash es e l.2 (omega arith) b)

-- What the last record of a linked run says.
pub get_last?-LinkedFrom :
    (h : ℕ) (p : Hash) (es : List Entry) (t : Entry)
    → LinkedFrom h p es
    → get_last? es ≡ some t
    → (t.height + 1 ≡ h + length es) × (t.hash ≡ end_hash p es)
get_last?-LinkedFrom h p [] t l e = cc
get_last?-LinkedFrom h p (x ∷ []) t l e =
    let same_record : x ≡ t = cc in
    (
      omega (arith, ap (λ (y : Entry). y.height) same_record, l.0),
      ap (λ (y : Entry). y.hash) (sym same_record),
    )
get_last?-LinkedFrom h p (x ∷ y ∷ es) t l e =
    let ih = get_last?-LinkedFrom (h + 1) x.hash (y ∷ es) t l.2 e in (omega arith, ih.1)

append_after-none :
    (c : HeaderChain) (e : Entry) (c' : HeaderChain)
    → (append_after c e none ≡ ok c')
      ↔ ((e.height ≡ 0) × (e.prev_hash ≡ zero_hash) × (c' ≡ push c e))
unfolding append_after
append_after-none c e c' = (λ h. ground arith, λ h. ground arith)

append_after-some :
    (c : HeaderChain) (e : Entry) (c' : HeaderChain) (t : Entry)
    → t.height + 1 < 2 ^ 64
    → (append_after c e (some t) ≡ ok c')
      ↔ ((e.height ≡ t.height + 1) × (e.prev_hash ≡ t.hash) × (c' ≡ push c e))
unfolding append_after
append_after-some c e c' t fits = (λ h. ground arith, λ h. ground arith)

-- An empty list has no last record, and only an empty one.
pub get_last?-eq-none : (es : List Entry) → get_last? es ≡ none → es ≡ []
get_last?-eq-none [] e = refl
get_last?-eq-none (x ∷ []) e = cc
get_last?-eq-none (x ∷ y ∷ es) e = absurd (cons_has_last (get_last?-eq-none (y ∷ es) e))
  where
    cons_has_last : y ∷ es ≡ [] → ⊥
    cons_has_last h = cc

append_after_iff :
    (c : HeaderChain) (e : Entry) (c' : HeaderChain) (o : Option Entry)
    → IsLinked c
    → length c.entries < 2 ^ 64
    → get_last? c.entries ≡ o
    → (append_after c e o ≡ ok c')
      ↔ ((e.height ≡ len c) × (e.prev_hash ≡ end_hash zero_hash c.entries) × (c' ≡ push c e))
unfolding len
append_after_iff c e c' none l fits last =
    let nothing = get_last?-eq-none c.entries last in
    let no_records : length c.entries ≡ 0 = ap length nothing in
    let at_genesis : end_hash zero_hash c.entries ≡ zero_hash = ap (end_hash zero_hash) nothing in
    rw (no_records, at_genesis) (append_after-none c e c')
append_after_iff c e c' (some t) l fits last =
    let said = get_last?-LinkedFrom 0 zero_hash c.entries t l last in
    let at : t.height + 1 ≡ length c.entries = omega (arith, said.0) in
    rw (← at, ← said.1) (append_after-some c e c' t (omega arith))

-- On a linked chain that `u64` can number, `append` accepts a record exactly when its height is
-- the next one and it names the hash of the last record (all zeros on an empty chain). The result
-- is then the chain with the record at its end.
pub append-eq-ok_iff :
    (c : HeaderChain) (e : Entry) (c' : HeaderChain)
    → IsLinked c
    → length c.entries < 2 ^ 64
    → (append c e ≡ ok c') ↔ (
        (e.height ≡ len c)
        × (e.prev_hash ≡ end_hash zero_hash c.entries)
        × (c' ≡ record { entries = c.entries ++ e ∷ [] }))
unfolding append
append-eq-ok_iff c e c' l fits = append_after_iff c e c' (get_last? c.entries) l fits refl

-- What `append` accepts keeps the chain linked.
pub append-IsLinked :
    (c : HeaderChain) (e : Entry) (c' : HeaderChain)
    → IsLinked c
    → length c.entries < 2 ^ 64
    → append c e ≡ ok c'
    → IsLinked c'
unfolding len
append-IsLinked c e c' l fits h =
    let (at, upon, is) = (append-eq-ok_iff c e c' l fits).0 h in
    rw is (LinkedFrom-snoc 0 zero_hash c.entries e l (omega (arith, at)) upon)

pub LinkedFrom-take :
    (n h : ℕ) (p : Hash) (es : List Entry) → LinkedFrom h p es → LinkedFrom h p (take n es)
LinkedFrom-take zero h p es l = tt
LinkedFrom-take (suc n) h p [] l = tt
LinkedFrom-take (suc n) h p (x ∷ es) l = (l.0, l.1, LinkedFrom-take n (h + 1) x.hash es l.2)

pub truncate-IsLinked : (c : HeaderChain) (h : ℕ) → IsLinked c → IsLinked (truncate c h).0
unfolding truncate
truncate-IsLinked c h l = LinkedFrom-take _ 0 zero_hash c.entries l

-- The record at index `i` of a linked run bears the height `i` above the first.
pub height-LinkedFrom :
    (h : ℕ) (p : Hash) (es : List Entry) (i : ℕ) (e : Entry)
    → LinkedFrom h p es
    → get_elem? es i ≡ some e
    → e.height ≡ h + i
height-LinkedFrom h p [] i e l at = cc
height-LinkedFrom h p (x ∷ es) zero e l at =
    let same_record : x ≡ e = cc in omega (arith, ap (λ (y : Entry). y.height) same_record, l.0)
height-LinkedFrom h p (x ∷ es) (suc i) e l at =
    omega (arith, height-LinkedFrom (h + 1) x.hash es i e l.2 at)

-- `get` finds a record at exactly the heights up to the tip, and the record bears that height.
pub get_at :
    (c : HeaderChain) (h : ℕ)
    → IsLinked c
    → (h < len c) ↔ ((e : Entry) × (get c h ≡ some e) × (e.height ≡ h))
unfolding get len
get_at c h l = (
  λ below.
      let (e, at) = get_elem?_lt c.entries h below in
      (e, at, omega (arith, height-LinkedFrom 0 zero_hash c.entries h e l at)),
  λ (e, at, _). lt_of_get_elem? c.entries h at,
)

pub height-get :
    (c : HeaderChain) (h : ℕ) (e : Entry) → IsLinked c → get c h ≡ some e → e.height ≡ h
unfolding get
height-get c h e l at = omega (arith, height-LinkedFrom 0 zero_hash c.entries h e l at)

-- The tip's height is one less than the number of records.
pub tip_height : (c : HeaderChain) (t : Entry) → IsLinked c → tip c ≡ some t → t.height + 1 ≡ len c
unfolding tip len
tip_height c t l e = omega (arith, (get_last?-LinkedFrom 0 zero_hash c.entries t l e).0)
