-- ===== src/Chain/Agree.antt =====
-- crates/relay/src/chain.rs: the choice of the upstreams that are asked, and what comes of their
-- copies.
use mnr.Common.{
  ℕ, zero, suc, ◌*◌, max, min, Bool, ◌&&◌, not, Option, none, some, List, [], ◌∷◌, ◌++◌, length,
  get_last?, ltb, leb, ◌==◌, if◌then◌else◌, Result, ok, err,
}
use mnr.Common.Sort.{contains}
use mnr.HeaderChain.Store.{same, Entry}
use mnr.Verify.Quorum.{QuorumTip}
use mnr.Chain.Fetch.{CopyError, Answer, fetch_range}

-- `==` on records and on runs of them.
unfoldable pub same_entry : Entry → Entry → Bool
same_entry a b =
    (a.height == b.height)
    && (same a.hash b.hash && (same a.prev_hash b.prev_hash && (a.timestamp == b.timestamp)))

unfoldable pub same_run : List Entry → List Entry → Bool
unfolding same_entry
same_run [] [] = Bool.true
same_run [] (b ∷ bs) = Bool.false
same_run (a ∷ as_) [] = Bool.false
same_run (a ∷ as_) (b ∷ bs) = same_entry a b && same_run as_ bs

-- One upstream's copy, and a group of upstreams with one copy.
pub record Copy : Type 0 where
  pub upstream : ℕ
  pub run : List Entry

pub record CopyGroup : Type 0 where
  pub members : List ℕ
  pub run : List Entry

unfoldable pub add_copy : List CopyGroup → Copy → List CopyGroup
unfolding same_run
add_copy [] c = record { members = c.upstream ∷ []; run = c.run } ∷ []
add_copy (g ∷ gs) c =
    if same_run g.run c.run
    then record g { members = g.members ++ c.upstream ∷ [] } ∷ gs
    else g ∷ add_copy gs c

unfoldable pub group_copies : List CopyGroup → List Copy → List CopyGroup
unfolding add_copy
group_copies gs [] = gs
group_copies gs (c ∷ cs) = group_copies (add_copy gs c) cs

-- `max_by_key` of the members' number from a first group; of equal ones the last stays.
unfoldable pub largest : CopyGroup → List CopyGroup → CopyGroup
largest best [] = best
largest best (g ∷ gs) =
    largest (if leb (length best.members) (length g.members) then g else best) gs

-- The height at which a copy first differs from the majority's.
unfoldable pub differs_at : ℕ → List Entry → List Entry → ℕ
unfolding same_entry
differs_at start [] bs = start
differs_at start (a ∷ as_) [] = start
differs_at start (a ∷ as_) (b ∷ bs) = if same_entry a b then differs_at start as_ bs else a.height

-- Why a fault is recorded: a copy that is refused, or one that differs from the majority's.
pub data Blame : Type 0 where
  refused : CopyError → Blame
  differs : ℕ → Blame

unfoldable pub faults_of : ℕ → CopyGroup → List Copy → List (ℕ × Blame)
unfolding differs_at
faults_of start g [] = []
faults_of start g (c ∷ cs) =
    if contains g.members c.upstream
    then faults_of start g cs
    else (c.upstream, differs (differs_at start g.run c.run)) ∷ faults_of start g cs

-- What comes of the copies: the agreed run, the faults to record (an upstream, and the height at
-- which it differs), and whether a disagreement is counted.
pub record Agreement : Type 0 where
  pub agreed : Option (List Entry)
  pub faults : List (ℕ × Blame)
  pub disagreed : Bool

abbrev pub no_agreement : Agreement
no_agreement = record { agreed = none; faults = []; disagreed = Bool.false }

-- The quorum tip itself must be the last record where the range reaches it.
unfoldable pub ends_on : QuorumTip → Option Entry → Bool
ends_on q none = Bool.true
ends_on q (some last) = not ((last.height == q.height) && not (same last.hash q.hash))

unfoldable pub judge : ℕ → QuorumTip → List Copy → CopyGroup → Agreement
unfolding ends_on faults_of
judge start q copies g =
    if length g.members == length copies
    then record no_agreement { agreed = if ends_on q (get_last? g.run) then some g.run else none }
    else if ltb (length copies) (length g.members * 2)
    then record no_agreement { faults = faults_of start g copies }
    else record no_agreement { disagreed = Bool.true }

unfoldable pub agree_groups : ℕ → QuorumTip → List Copy → List CopyGroup → Agreement
unfolding judge largest
agree_groups start q copies [] = no_agreement
agree_groups start q copies (g ∷ gs) = judge start q copies (largest g gs)

unfoldable pub agree : ℕ → ℕ → QuorumTip → List Copy → Agreement
unfolding agree_groups group_copies
agree need start q copies =
    if ltb (length copies) need
    then no_agreement
    else agree_groups start q copies (group_copies [] copies)

-- What the pool says of the upstreams: the ranked ones, which are owned, which have a light token
-- now, and what each answers.
pub record Upstreams : Type 0 where
  pub ranked : List ℕ
  pub is_owned : ℕ → Bool
  pub has_token : ℕ → Bool
  pub answers : ℕ → Answer

abbrev pub build_copies : ℕ
build_copies = 5

unfoldable pub keep : (ℕ → Bool) → List ℕ → List ℕ
keep f [] = []
keep f (id ∷ ids) = if f id then id ∷ keep f ids else keep f ids

-- The owned ones first.
abbrev pub in_order : Upstreams → List ℕ
in_order u = keep u.is_owned u.ranked ++ keep (λ id. not (u.is_owned id)) u.ranked

-- The first ones that have a token, at most so many.
unfoldable pub choose : Upstreams → ℕ → List ℕ → List ℕ
choose u zero ids = []
choose u (suc n) [] = []
choose u (suc n) (id ∷ ids) =
    let rest = choose u n ids in
    let passed = choose u (suc n) ids in if u.has_token id then id ∷ rest else passed

abbrev pub chosen : Upstreams → ℕ → List ℕ
chosen u need = choose u (max need (min build_copies (length u.ranked))) (in_order u)

unfoldable pub copies_of : Upstreams → ℕ → ℕ → List ℕ → List Copy
copies_of u start end [] = []
copies_of u start end (id ∷ ids) = elim (fetch_range (u.answers id) start end) [
  | ok run ↦ record { upstream = id; run = run } ∷ copies_of u start end ids
  | err e ↦ copies_of u start end ids
]

-- `CopyError::Skip` is no fault.
unfoldable pub blames : ℕ → Result CopyError (List Entry) → List (ℕ × Blame)
blames id (ok run) = []
blames id (err CopyError.skip) = []
blames id (err e) = (id, refused e) ∷ []

unfoldable pub refusals : Upstreams → ℕ → ℕ → List ℕ → List (ℕ × Blame)
unfolding blames
refusals u start end [] = []
refusals u start end (id ∷ ids) =
    blames id (fetch_range (u.answers id) start end) ++ refusals u start end ids

unfoldable pub with_refusals : List (ℕ × Blame) → Agreement → Agreement
with_refusals refusals a = record a { faults = refusals ++ a.faults }

-- `need` (`min_agree`) is at least 1: the configuration refuses 0.
unfoldable pub fetch_agreed : Upstreams → ℕ → ℕ → ℕ → QuorumTip → Agreement
unfolding choose keep copies_of agree refusals with_refusals
fetch_agreed u need start end q =
    let ids = chosen u need in
    if ltb (length ids) need
    then no_agreement
    else with_refusals (refusals u start end ids) (agree need start q (copies_of u start end ids))
