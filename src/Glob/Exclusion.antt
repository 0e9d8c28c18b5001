-- ===== src/Glob/Exclusion.antt =====
-- `Exclusion`, `Exclusions` and `Matcher` of crates/taskcore/src/fingerprint/glob.rs: an exclusion
-- compiled for matching listed paths. Whether a path is a directory is a parameter.
pub mod Runs
pub mod Joins
pub mod Names
pub mod Rooted
pub mod Last
pub mod Cheap
mod Examples
use task_rs.Base.{
  ℕ, zero, suc, ◌+◌, ◌-◌, Bool, true, false, not, ◌&&◌, ◌||◌, Option, none, some, List, [], ◌∷◌,
  ◌++◌, ◌==◌, ltb, if◌then◌else◌, Text, codes, ◌=ₜ◌, ends_with, length, take, drop, any, all, keep,
  map, is_some,
}
use task_rs.Glob.Segment.{has_meta}
use task_rs.Glob.Path.{
  normalized, double_star, match_segments, ends_with_slash, join, starts_with, contains,
  path_segments, clean_path, is_slash,
}

pub data Tail : Type 0 where
  name dir tree : Tail

pub record Exclusion : Type 0 where
  pub segments : List Text
  pub below : Option (List Text)
  pub tail : Tail
  pub literal : Option Text
  pub prefix : Text
  pub base : Text
  pub needles : List Text
  pub last : Option Text
  pub affix : Option (Text × Text)
  pub dotglob : Bool
  pub pruned : Bool

abbrev pub is_tree : Tail → Bool
is_tree tree = true
is_tree _ = false

abbrev pub is_name : Tail → Bool
is_name name = true
is_name _ = false

-- `segments.last()`
unfoldable pub last_segment : List Text → Option Text
last_segment [] = none
last_segment (w ∷ []) = some w
last_segment (w ∷ v ∷ ws) = last_segment (v ∷ ws)

-- The segments without the trailing `**`s.
unfoldable pub drop_stars : List Text → List Text
unfolding ◌=ₜ◌
drop_stars [] = []
drop_stars (s ∷ segments) =
    let rest = drop_stars segments in
    elim rest [ [] ↦ if s =ₜ double_star then [] else s ∷ [] | w ∷ ws ↦ s ∷ w ∷ ws ]

-- `while segments.len() > 1 && last == "**"`: the first segment stays.
unfoldable pub pop_stars : List Text → List Text
unfolding drop_stars
pop_stars [] = []
pop_stars (s ∷ segments) = s ∷ drop_stars segments

unfoldable pub ends_in_stars : List Text → Bool
unfolding last_segment ◌=ₜ◌
ends_in_stars segments = elim (last_segment segments) [
  | none ↦ false
  | some s ↦ ltb 1 (length segments) && s =ₜ double_star
]

unfoldable pub tail_of : Text → List Text → Tail
unfolding ends_with_slash ends_in_stars
tail_of pattern segments =
    if ends_with_slash pattern then dir else if ends_in_stars segments then tree else name

-- `segments.iter().take_while(|s| !has_meta(s)).count()`
unfoldable pub lead : List Text → ℕ
unfolding has_meta
lead [] = 0
lead (s ∷ segments) = let rest = lead segments in if has_meta s then 0 else suc rest

unfoldable pub needles_of : List Text → List Text
unfolding has_meta
needles_of segments =
    map (λ (s : Text). b'/' ∷ (s ++ b'/' ∷ [])) (keep (λ s. not (has_meta s)) segments)

unfoldable pub last_of : List Text → Option Text
unfolding last_segment has_meta ◌=ₜ◌
last_of segments = elim (last_segment segments) [
  | none ↦ none
  | some s ↦
      if ltb 1 (length segments) && (not (has_meta s) && not (s =ₜ double_star))
      then some (b'/' ∷ s)
      else none
]

-- `s.split([…]).next()`
unfoldable pub before_first : (ℕ → Bool) → Text → Text
before_first p [] = []
before_first p (c ∷ s) = let rest = before_first p s in if p c then [] else c ∷ rest

-- `s.rsplit([…]).next()`
unfoldable pub after_last : (ℕ → Bool) → Text → Text
after_last p [] = []
after_last p (c ∷ s) =
    let rest = after_last p s in if any p s then rest else if p c then s else c ∷ s

abbrev pub is_wild : ℕ → Bool
is_wild c = c == b'*' || c == b'?'

abbrev pub is_meta : ℕ → Bool
is_meta c = c == b'*' || (c == b'?' || c == b'[')

unfoldable pub affix_of : List Text → Option (Text × Text)
unfolding last_segment has_meta before_first after_last ◌=ₜ◌
affix_of segments = elim (last_segment segments) [
  | none ↦ none
  | some s ↦
      if ltb 1 (length segments) && (has_meta s && not (s =ₜ double_star))
      then some
          (before_first is_meta s, if any (λ c. c == b'[') s then [] else after_last is_wild s)
      else none
]

abbrev pub below_of : Tail → List Text → Option (List Text)
below_of tree segments = some (segments ++ codes "*" ∷ double_star ∷ [])
below_of _ segments = none

-- The segments left by a trailing `**`.
abbrev pub segments_of : Tail → List Text → List Text
segments_of tree segments = pop_stars segments
segments_of _ segments = segments

-- The fields that are read off the segments and the tail.
unfoldable pub compile : List Text → Tail → Bool → Bool → Bool → Exclusion
unfolding lead needles_of last_of affix_of join
compile segments tail literal dotglob pruned =
    let base = join (take (lead segments) segments) in
    record {
      segments = segments;
      below = below_of tail segments;
      tail = tail;
      literal = if literal && not (is_tree tail) then some (join segments) else none;
      prefix = base ++ b'/' ∷ [];
      base = base;
      needles = needles_of (drop (lead segments) segments);
      last = last_of segments;
      affix = affix_of segments;
      dotglob = dotglob;
      pruned = pruned;
    }

unfoldable pub new : Text → Bool → Bool → Bool → Exclusion
unfolding compile normalized tail_of pop_stars
new pattern literal dotglob pruned =
    let segments = normalized pattern in
    let tail = tail_of pattern segments in
    compile (segments_of tail segments) tail literal dotglob pruned

-- `ends` of a needle: the path ends with it, without its last `/`.
unfoldable pub has_needle : Text → Text → Bool
unfolding contains ends_with
has_needle path n = contains n path || ends_with (take (length n - 1) n) path

abbrev pub ends_in : Option Text → Text → Bool
ends_in none path = true
ends_in (some l) path = ends_with l path

abbrev pub fits_affix : Option (Text × Text) → Text → Bool
fits_affix none file_name = true
fits_affix (some (start, end)) file_name = starts_with start file_name && ends_with end file_name

unfoldable pub last_fits : Exclusion → Text → Bool
unfolding after_last starts_with ends_with
last_fits e path = ends_in e.last path && fits_affix e.affix (after_last is_slash path)

-- The answer from whether the segments match, those below do, the last name fits and the path is
-- a directory.
unfoldable pub tail_test : Tail → Bool → Bool → Bool → Bool → Bool
tail_test name whole below fits is_dir = whole
tail_test dir whole below fits is_dir = whole && is_dir
tail_test tree whole below fits is_dir = below || (fits && (whole && is_dir))

unfoldable pub below_matches : Option (List Text) → List Text → Bool → Bool
unfolding match_segments
below_matches none path dotglob = false
below_matches (some b) path dotglob = match_segments b path dotglob

-- `Exclusions`: those without wildcards by their paths, and the others.
pub record Exclusions : Type 0 where
  pub literal : List Text
  pub others : List Exclusion

unfoldable pub partition : List Exclusion → Exclusions
partition [] = record { literal = []; others = [] }
partition (e ∷ all) =
    let rest = partition all in
    elim e.literal [
      | none ↦ record { literal = rest.literal; others = e ∷ rest.others }
      | some l ↦
          if is_name e.tail
          then record { literal = l ∷ rest.literal; others = rest.others }
          else record { literal = rest.literal; others = e ∷ rest.others }
    ]

module _ (is_dir : Text → Bool) where
  -- The matching by segments, past every cheap check.
  unfoldable pub by_tail : Exclusion → Option (List Text) → List Text → Text → Bool → Bool
  unfolding match_segments tail_test below_matches
  by_tail e below path raw fits =
      tail_test e.tail (match_segments e.segments path e.dotglob)
        (below_matches below path e.dotglob) fits (is_dir raw)

  -- The plain matching: no test on the text of the path.
  unfoldable pub excludes_plain : Exclusion → Text → Text → Bool → Bool
  unfolding by_tail path_segments ◌=ₜ◌
  excludes_plain e path raw walked =
      let below = if walked && e.pruned then none else e.below in
      if walked && (e.pruned && is_name e.tail) then false else elim e.literal [
        | some literal ↦ literal =ₜ path && (is_name e.tail || is_dir raw)
        | none ↦ by_tail e below (path_segments path) raw true
      ]

  -- `Matcher::excludes_clean`
  unfoldable pub excludes_clean : Exclusion → Text → Text → Bool → Bool
  unfolding has_needle last_fits by_tail starts_with path_segments ◌=ₜ◌
  excludes_clean e path raw walked =
      let below = if walked && e.pruned then none else e.below in
      if walked && (e.pruned && is_name e.tail) then false else elim e.literal [
        | some literal ↦ literal =ₜ path && (is_name e.tail || is_dir raw)
        | none ↦
            if not (starts_with e.prefix path) && not (path =ₜ e.base)
            then false
            else if not (all (has_needle path) e.needles)
            then false
            else if not (is_some below) && not (last_fits e path)
            then false
            else by_tail e below (path_segments path) raw (last_fits e path)
      ]

  unfoldable pub names : Exclusions → Text → Bool
  unfolding clean_path excludes_clean ◌=ₜ◌
  names x path =
      any (λ l. l =ₜ clean_path path) x.literal
      || any (λ e. is_some e.literal && excludes_clean e (clean_path path) path false) x.others

  unfoldable pub excludes : Exclusions → Text → Bool → Bool
  unfolding clean_path excludes_clean ◌=ₜ◌
  excludes x path walked =
      any (λ l. l =ₜ clean_path path) x.literal
      || any (λ e. excludes_clean e (clean_path path) path walked) x.others
