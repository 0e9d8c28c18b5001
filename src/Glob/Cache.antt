-- ===== src/Glob/Cache.antt =====
-- `CacheMatcher` and `MatchGroup` of crates/taskcore/src/fingerprint/glob.rs: matching of paths
-- against the `generates` of a task, with no walk. Options::TREE: dot names are included.
pub mod Entries
mod Examples
use task_rs.Base.{
  ℕ, zero, suc, Bool, true, false, not, ◌&&◌, ◌||◌, List, [], ◌∷◌, ◌++◌, ◌==◌, ltb, if◌then◌else◌,
  Text, codes, ◌=ₜ◌, any, keep, map,
}
use task_rs.Glob.Segment.{has_meta}
use task_rs.Glob.Path.{normalized_segments, match_segments, ends_with_slash, is_empty}
use task_rs.Glob.Exclusion.{ends_in_stars}
use task_rs.FilePath.{smart_join, join_glob}

-- An entry of `generates` (crates/taskcore/src/ast/glob.rs).
pub record Entry : Type 0 where
  pub glob : Text
  pub negate : Bool
  pub fingerprint : Text
  pub from_ : Text
  pub task : Text
  pub group : ℕ
  pub folded : Bool

unfoldable pub is_reference : Entry → Bool
is_reference g = not (is_empty g.from_) || not (is_empty g.task)

unfoldable pub has_wildcards : Entry → Bool
unfolding has_meta
has_wildcards g = has_meta g.glob

unfoldable pub is_named : Entry → Bool
unfolding is_reference has_wildcards
is_named g =
    not g.negate
    && (not g.folded
        && (not (is_reference g) && (not (is_empty g.fingerprint) || not (has_wildcards g))))

-- `trim_end_matches('/')`
unfoldable pub trim_slashes : Text → Text
trim_slashes [] = []
trim_slashes (c ∷ s) =
    let rest = trim_slashes s in
    elim rest [ [] ↦ if c == b'/' then [] else c ∷ [] | d ∷ ds ↦ c ∷ d ∷ ds ]

-- `join_path` of glob.rs
unfoldable pub join_file : Text → Text → Text
unfolding smart_join trim_slashes
join_file dir path =
    let joined = smart_join dir path in
    let trimmed = trim_slashes joined in if is_empty trimmed then joined else trimmed

pub record MatchGroup : Type 0 where
  pub includes : List (List Text)
  pub excludes : List (List Text)
  pub named : List (List Text)
  pub literal : List (List Text)

abbrev pub empty_group : MatchGroup
empty_group = record { includes = []; excludes = []; named = []; literal = [] }

-- A negated entry, at its joined pattern.
unfoldable pub add_exclusion : Text → Bool → MatchGroup → MatchGroup
unfolding normalized_segments ends_with_slash ends_in_stars
add_exclusion pattern wild rest =
    let segments = normalized_segments pattern in
    if ends_with_slash pattern then rest else record rest {
      literal = if wild then rest.literal else segments ∷ rest.literal;
      excludes =
          (if ends_in_stars segments then segments ++ codes "*" ∷ [] else segments) ∷ rest.excludes;
    }

unfoldable pub add_include : Text → Entry → MatchGroup → MatchGroup
unfolding normalized_segments is_named has_wildcards join_file join_glob
add_include dir g rest =
    let segments = normalized_segments (join_glob dir g.glob) in
    let named =
      if is_named g && not (is_empty g.fingerprint)
      then normalized_segments (join_file dir g.fingerprint) ∷ rest.named
      else rest.named in
    record rest {
      named = if is_named g && not (has_wildcards g) then segments ∷ named else named;
      includes = segments ∷ rest.includes;
    }

unfoldable pub new_group : Text → List Entry → MatchGroup
unfolding add_exclusion add_include has_wildcards join_glob
new_group dir [] = empty_group
new_group dir (g ∷ globs) =
    let rest = new_group dir globs in
    if g.negate
    then add_exclusion (join_glob dir g.glob) (has_wildcards g) rest
    else add_include dir g rest

-- `Iterator::eq` on segments
infix 50 ◌=ₛ◌
unfoldable pub ◌=ₛ◌ : List Text → List Text → Bool
unfolding ◌=ₜ◌
[] =ₛ [] = true
[] =ₛ (_ ∷ _) = false
(_ ∷ _) =ₛ [] = false
(v ∷ vs) =ₛ (w ∷ ws) = v =ₜ w && vs =ₛ ws

unfoldable pub excluded : MatchGroup → List Text → Bool
unfolding match_segments
excluded m segments = any (λ e. match_segments e segments true) m.excludes

unfoldable pub names : MatchGroup → List Text → Bool
unfolding ◌=ₛ◌
names m segments = any (λ f. f =ₛ segments) m.named

unfoldable pub removes : MatchGroup → List Text → Bool
unfolding ◌=ₛ◌ names excluded
removes m segments =
    any (λ l. l =ₛ segments) m.literal || (not (names m segments) && excluded m segments)

unfoldable pub lists : MatchGroup → List Text → Bool
unfolding names removes match_segments
lists m segments =
    (names m segments || any (λ i. match_segments i segments true) m.includes)
    && not (removes m segments)

abbrev pub of_group : ℕ → List Entry → List Entry
of_group n globs = keep (λ g. g.group == n) globs

-- `BTreeSet::insert`
unfoldable pub insert_sorted : ℕ → List ℕ → List ℕ
insert_sorted n [] = n ∷ []
insert_sorted n (k ∷ ks) =
    let rest = insert_sorted n ks in
    if ltb n k then n ∷ k ∷ ks else if n == k then k ∷ ks else k ∷ rest

-- The numbers of the groups of other tasks, in order.
unfoldable pub group_numbers : List Entry → List ℕ
unfolding insert_sorted
group_numbers [] = []
group_numbers (g ∷ globs) =
    let rest = group_numbers globs in if g.group == 0 then rest else insert_sorted g.group rest

pub record CacheMatcher : Type 0 where
  pub own : MatchGroup
  pub folded : List MatchGroup

unfoldable pub new_matcher : Text → List Entry → CacheMatcher
unfolding new_group group_numbers
new_matcher dir globs = record {
  own = new_group dir (of_group 0 globs);
  folded = map (λ n. new_group dir (of_group n globs)) (group_numbers globs);
}

unfoldable pub matches : CacheMatcher → Text → Text → Bool
unfolding lists removes join_glob normalized_segments
matches m root rel =
    let segments = normalized_segments (join_glob root rel) in
    (lists m.own segments || any (λ g. lists g segments) m.folded) && not (removes m.own segments)
