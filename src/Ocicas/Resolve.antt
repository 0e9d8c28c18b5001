-- ===== src/Ocicas/Resolve.antt =====
-- `resolve_link` and `expand` of crates/ocicas/src/restore.rs on Unix. What the disk holds is a
-- parameter, `on_disk`.
pub mod Settled
use task_rs.Base.{
  ℕ, zero, suc, ◌≡◌, Bool, true, false, not, ◌&&◌, ◌||◌, Option, none, some, List, [], ◌∷◌, ◌++◌,
  ltb, ◌==◌, if◌then◌else◌, Text, codes, ◌=ₜ◌, any, keep, length, Result, ok, err,
}
use task_rs.Glob.Path.{is_empty, split}
use task_rs.Ocicas.Entries.{◌=ₚ◌}

-- The target of a link, nothing when its bytes are not text.
pub data Pending : Type 0 where
  dir file : Pending
  link : Option Text → Pending

pub data Resolution : Type 0 where
  inside : List Text → Resolution
  outside : Resolution

pub data ResolveError : Type 0 where
  too_many_links : ResolveError
  disk : ResolveError

abbrev pub max_link_hops : ℕ
max_link_hops = 40

abbrev pub has_root : Text → Bool
has_root [] = false
has_root (c ∷ s) = c == b'/'

-- The components of a rooted path after its root.
unfoldable pub path_components : Text → List Text
unfolding split ◌=ₜ◌
path_components path = keep (λ s. not (is_empty s || s =ₜ codes ".")) (split path)

-- `Path::strip_prefix`
unfoldable pub strip_components : List Text → List Text → Option (List Text)
unfolding ◌=ₜ◌
strip_components [] path = some path
strip_components (b ∷ base) [] = none
strip_components (b ∷ base) (c ∷ path) =
    let rest = strip_components base path in if b =ₜ c then rest else none

-- Where the resolution goes on, and the components to put ahead of the queue.
abbrev from_root : Option (List Text) → Option (List Text × List Text)
from_root none = none
from_root (some rest) = some ([], rest)

unfoldable pub expand : Text → List Text → Option Text → Option (List Text × List Text)
unfolding path_components strip_components split
expand base cur none = none
expand base cur (some target) =
    if has_root target
    then (if has_root base
        then from_root (strip_components (path_components base) (path_components target))
        else none)
    else some (cur, split target)

-- Whether the path has every component of the prefix, and more.
unfoldable pub extends : List Text → List Text → Bool
unfolding ◌=ₜ◌
extends [] [] = false
extends [] (c ∷ path) = true
extends (p ∷ prefix) [] = false
extends (p ∷ prefix) (c ∷ path) = p =ₜ c && extends prefix path

abbrev pub PendingMap : Type 0
PendingMap = List (List Text × Pending)

unfoldable pub find_pending : PendingMap → List Text → Option Pending
unfolding ◌=ₚ◌
find_pending [] path = none
find_pending ((key, p) ∷ pending) path = if key =ₚ path then some p else find_pending pending path

-- The keys that extend a path that is no key follow it in the order of the map: that the next key
-- does is that some key does.
unfoldable pub has_below : PendingMap → List Text → Bool
unfolding extends
has_below pending path = any (λ (k : List Text × Pending). extends path k.0) pending

pub data Component : Type 0 where
  current parent named : Component

abbrev pub component_kind : Text → Component
component_kind comp =
    if is_empty comp || comp =ₜ codes "."
    then current
    else if comp =ₜ codes ".."
    then parent
    else named

-- `Vec::pop`, from a directory that is known.
abbrev pub keep_first : Text → Option (List Text) → Option (List Text)
keep_first c none = none
keep_first c (some rest) = some (c ∷ rest)

unfoldable pub pop : List Text → Option (List Text)
pop [] = none
pop (c ∷ []) = some []
pop (c ∷ d ∷ s) = keep_first c (pop (d ∷ s))

abbrev pub parent_of : Bool → List Text → Option (List Text)
parent_of known cur = if known then pop cur else none

abbrev pub Resolved : Type 0
Resolved = Result ResolveError Resolution

-- What the loop does with a link: its target, and where the loop stands.
abbrev pub OnLink : Type 0
OnLink = Option Text → List Text → List Text → Bool → Resolved

abbrev pub from_above : (List Text → Resolved) → Option (List Text) → Resolved
from_above go none = ok outside
from_above go (some above) = go above

-- A link is followed; on anything else the loop moves, and knows whether it is a directory.
abbrev pub from_node :
    (Bool → Resolved) → (Option Text → Resolved) → Result ResolveError (Option Pending) → Resolved
from_node go follow (err e) = err e
from_node go follow (ok none) = go false
from_node go follow (ok (some dir)) = go true
from_node go follow (ok (some file)) = go false
from_node go follow (ok (some (link target))) = follow target

abbrev pub expanded :
    (List Text → List Text → Bool → Resolved)
    → List Text
    → List Text
    → Bool
    → Option (List Text × List Text)
    → Resolved
expanded go cur queue known none = ok outside
expanded go cur queue known (some (moved, rest)) =
    go moved (rest ++ queue) (known || not (length moved == length cur))

abbrev pub directory : Option (List Text) → List Text
directory none = []
directory (some d) = d

module _ (base : Text) (pending : PendingMap)
    (on_disk : List Text → Result ResolveError (Option Pending)) where
  abbrev pub or_below : Option Pending → List Text → Result ResolveError (Option Pending)
  or_below (some p) cand = ok (some p)
  or_below none cand = if has_below pending cand then ok (some dir) else on_disk cand

  unfoldable pub node : List Text → Result ResolveError (Option Pending)
  unfolding find_pending has_below
  node cand = or_below (find_pending pending cand) cand

  -- The loop up to the next link.
  unfoldable pub walk : OnLink → List Text → List Text → Bool → Resolved
  unfolding pop node ◌=ₜ◌
  walk on_link cur [] known = ok (inside cur)
  walk on_link cur (comp ∷ queue) known = elim (component_kind comp) [
    | current ↦ walk on_link cur queue known
    | parent ↦ from_above (λ above. walk on_link above queue known) (parent_of known cur)
    | named ↦
        from_node (λ k. walk on_link (cur ++ comp ∷ []) queue k)
          (λ target. on_link target cur queue known) (node (cur ++ comp ∷ []))
  ]

  -- The loop, with so many links still allowed.
  unfoldable pub resolve_hops : ℕ → List Text → List Text → Bool → Resolved
  unfolding walk expand
  resolve_hops zero cur queue known = walk (λ t c q k. err too_many_links) cur queue known
  resolve_hops (suc hops) cur queue known =
      walk (λ t c q k. expanded (resolve_hops hops) c q k (expand base c t)) cur queue known

  unfoldable pub resolve_link : List Text → Option Text → Resolved
  unfolding resolve_hops pop expand
  resolve_link path target =
      expanded (resolve_hops max_link_hops) (directory (pop path)) [] true
        (expand base (directory (pop path)) target)
