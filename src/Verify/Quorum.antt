-- ===== src/Verify/Quorum.antt =====
-- crates/core/src/verify.rs: the tip on which enough upstreams agree.
use mnr.Common.{
  ℕ, Bool, ◌&&◌, ◌||◌, Option, none, some, List, [], ◌∷◌, ◌++◌, length, ltb, leb, ◌==◌,
  if◌then◌else◌,
}
use mnr.Common.Sort.{contains, sort}
use mnr.HeaderChain.Store.{Hash, same}
use mathlib.Core.Option

pub record TipReport : Type 0 where
  pub upstream : ℕ
  pub height : ℕ
  pub hash : Hash

pub record QuorumTip : Type 0 where
  pub height : ℕ
  pub hash : Hash
  pub agreeing : List ℕ

-- `g.height == r.height && g.hash == r.hash`
abbrev pub has_key : QuorumTip → ℕ → Hash → Bool
has_key g height hash = g.height == height && same g.hash hash

unfoldable pub join : QuorumTip → ℕ → QuorumTip
join g upstream =
    if contains g.agreeing upstream then g else record g { agreeing = g.agreeing ++ upstream ∷ [] }

-- One round of the loop: the report joins the first group of its key, or opens one at the end.
unfoldable pub add_report : List QuorumTip → TipReport → List QuorumTip
unfolding join
add_report [] r = record { height = r.height; hash = r.hash; agreeing = r.upstream ∷ [] } ∷ []
add_report (g ∷ gs) r =
    if has_key g r.height r.hash then join g r.upstream ∷ gs else g ∷ add_report gs r

unfoldable pub group : List QuorumTip → List TipReport → List QuorumTip
unfolding add_report
group gs [] = gs
group gs (r ∷ rs) = group (add_report gs r) rs

-- `agreeing.len() >= min_agree`
abbrev pub is_enough : ℕ → QuorumTip → Bool
is_enough min_agree g = leb min_agree (length g.agreeing)

unfoldable pub keep_enough : ℕ → List QuorumTip → List QuorumTip
keep_enough min_agree [] = []
keep_enough min_agree (g ∷ gs) =
    if is_enough min_agree g then g ∷ keep_enough min_agree gs else keep_enough min_agree gs

-- `a` is not greater than `b`, by height and then by votes.
unfoldable pub not_above : QuorumTip → QuorumTip → Bool
not_above a b =
    ltb a.height b.height || (a.height == b.height && leb (length a.agreeing) (length b.agreeing))

-- `max_by` from a first element; of equal ones the last stays.
unfoldable pub max_from : QuorumTip → List QuorumTip → QuorumTip
unfolding not_above
max_from best [] = best
max_from best (g ∷ gs) = max_from (if not_above best g then g else best) gs

unfoldable pub max_group : List QuorumTip → Option QuorumTip
unfolding max_from
max_group [] = none
max_group (g ∷ gs) = some (max_from g gs)

-- `agreeing.sort_unstable()`
abbrev pub sorted : QuorumTip → QuorumTip
sorted g = record g { agreeing = sort g.agreeing }

unfoldable pub quorum_tip : List TipReport → ℕ → Option QuorumTip
unfolding group keep_enough max_group
quorum_tip reports min_agree =
    if min_agree == 0
    then none
    else Option.map sorted (max_group (keep_enough min_agree (group [] reports)))
