-- ===== src/HeaderChain/Fork.antt =====
-- `truncate` and `fork_point`: what is cut, and where two chains part.
use mnr.Common.{
  ℕ, ◌+◌, ◌<◌, ◌≤◌, ◌^◌, ◌≡◌, ◌≢◌, ◌⊎◌, inl, inr, refl, sym, ◌∙◌, ap, Option, none, some, List, [],
  ◌∷◌, ◌++◌, min, length, get_elem?, take, length-take, get_elem?-take, get_elem?-none, arith,
  saturating_add, Bool-cases, All,
}
use mnr.HeaderChain.Store.{
  Hash, Entry, HeaderChain, len, get, hash_at, truncate, fork_update, fork_scan, fork_point, same,
  same_iff,
}

lt_or_le : (a b : ℕ) → (a < b) ⊎ (b ≤ a)
lt_or_le a b = omega arith

-- `truncate` at a height keeps the records up to it, and counts the rest.
pub truncate_counts :
    (c : HeaderChain) (h : ℕ)
    → h + 1 < 2 ^ 64
    → (len (truncate c h).0 ≡ min (h + 1) (len c))
      × (len (truncate c h).0 + (truncate c h).1 ≡ len c)
unfolding truncate len
truncate_counts c h fits =
    let kept = length-take (min (saturating_add h 1) (length c.entries)) c.entries in
    (omega (arith, kept), omega (arith, kept))

-- The records at and below the height stay; above it there is none.
pub get-truncate :
    (c : HeaderChain) (h i : ℕ)
    → h + 1 < 2 ^ 64
    → (i ≤ h → get (truncate c h).0 i ≡ get c i) × (h < i → get (truncate c h).0 i ≡ none)
unfolding truncate get
get-truncate c h i fits = (
  (λ below. get_truncated_below c h i fits below),
  λ above.
      get_elem?-none (take (min (saturating_add h 1) (length c.entries)) c.entries) i
        (omega (arith, length-take (min (saturating_add h 1) (length c.entries)) c.entries)),
)
  where
    get_truncated_below :
        (c : HeaderChain) (h i : ℕ)
        → h + 1 < 2 ^ 64
        → i ≤ h
        → get_elem? (take (min (saturating_add h 1) (length c.entries)) c.entries) i
          ≡ get_elem? c.entries i
    get_truncated_below c h i fits below = elim (lt_or_le i (length c.entries)) [
      | inl p ↦
          get_elem?-take (min (saturating_add h 1) (length c.entries)) c.entries i (omega arith)
      | inr p ↦
          get_elem?-none (take (min (saturating_add h 1) (length c.entries)) c.entries) i
            (omega (arith, length-take (min (saturating_add h 1) (length c.entries)) c.entries))
          ∙ sym (get_elem?-none c.entries i p)
    ]

-- The candidate's record at which the two chains agree.
abbrev pub Agrees : HeaderChain → Entry → Type 0
Agrees c e = hash_at c e.height ≡ some e.hash

fork_update_cases :
    (e : Entry) (highest : Option ℕ) (o : Option Hash)
    → ((o ≡ some e.hash) × (fork_update e highest o ≡ some e.height))
      ⊎ ((o ≢ some e.hash) × (fork_update e highest o ≡ highest))
unfolding fork_update
fork_update_cases e highest none = inr ((λ h. cc), refl)
fork_update_cases e highest (some h) = elim (Bool-cases (same h e.hash)) [
  | inl s ↦ inl (ap some ((same_iff h e.hash).0 s), rw s)
  | inr s ↦ inr ((λ p. ground (arith, (same_iff h e.hash).1)), rw s)
]

-- The last of the records at which the candidate agrees with the chain.
pub record LastAgreement (c : HeaderChain) (es : List Entry) (found : Option ℕ) : Type 0 where
  pub before : List Entry
  pub at : Entry
  pub behind : List Entry
  pub is_split : es ≡ before ++ at ∷ behind
  pub agrees : Agrees c at
  pub differ : All (λ e. ¬ Agrees c e) behind
  pub is_found : found ≡ some at.height

fork_scan_cases :
    (c : HeaderChain) (es : List Entry) (highest : Option ℕ)
    → (All (λ e. ¬ Agrees c e) es × (fork_scan c es highest ≡ highest))
      ⊎ LastAgreement c es (fork_scan c es highest)
unfolding fork_scan
fork_scan_cases c [] highest = inl (tt, refl)
fork_scan_cases c (e ∷ es) highest =
    step (fork_update_cases e highest (hash_at c e.height))
      (fork_scan_cases c es (fork_update e highest (hash_at c e.height)))
  where
    next : Option ℕ
    next = fork_update e highest (hash_at c e.height)

    step :
        ((hash_at c e.height ≡ some e.hash) × (next ≡ some e.height))
          ⊎ ((hash_at c e.height ≢ some e.hash) × (next ≡ highest))
        → (All (λ e. ¬ Agrees c e) es × (fork_scan c es next ≡ next))
          ⊎ LastAgreement c es (fork_scan c es next)
        → (All (λ e. ¬ Agrees c e) (e ∷ es) × (fork_scan c es next ≡ highest))
          ⊎ LastAgreement c (e ∷ es) (fork_scan c es next)
    step d (inr l) = inr (record {
      before = e ∷ l.before;
      at = l.at;
      behind = l.behind;
      is_split = ap (λ t. e ∷ t) l.is_split;
      agrees = l.agrees;
      differ = l.differ;
      is_found = l.is_found;
    })
    step (inl (same_hash, is)) (inl (differ, kept)) = inr (record {
      before = [];
      at = e;
      behind = es;
      is_split = refl;
      agrees = same_hash;
      differ = differ;
      is_found = kept ∙ is;
    })
    step (inr (other_hash, is)) (inl (differ, kept)) = inl ((other_hash, differ), kept ∙ is)

-- `fork_point` answers with the height of the candidate's last record whose hash is the chain's at
-- the same height, and with none exactly when there is no such record.
pub fork_point_last :
    (c : HeaderChain) (candidate : List Entry)
    → (All (λ e. ¬ Agrees c e) candidate × (fork_point c candidate ≡ none))
      ⊎ LastAgreement c candidate (fork_point c candidate)
unfolding fork_point
fork_point_last c candidate = fork_scan_cases c candidate none
