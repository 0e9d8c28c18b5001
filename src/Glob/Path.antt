-- ===== src/Glob/Path.antt =====
-- Paths as segments: `rooted_segments`, `normalized`, `path_segments`, `clean_path`, `join_seg`
-- and `match_segments` of crates/taskcore/src/fingerprint/glob.rs.
pub mod Clean
pub mod Spelled
use task_rs.Base.{
  ℕ, ◌≡◌, refl, Bool, true, false, not, ◌&&◌, ◌||◌, List, [], ◌∷◌, ◌++◌, ◌==◌, if◌then◌else◌, Text,
  codes, ◌=ₜ◌, keep,
}
use task_rs.Glob.Star.{Tests, star_match}
use task_rs.Glob.Segment.{has_meta, matches_segment, starts_with_dot}

abbrev pub is_slash : ℕ → Bool
is_slash c = c == b'/'

abbrev pub push_head : ℕ → List Text → List Text
push_head c [] = (c ∷ []) ∷ []
push_head c (w ∷ ws) = (c ∷ w) ∷ ws

-- `str::split('/')`: at least one piece.
unfoldable pub split : Text → List Text
split [] = [] ∷ []
split (c ∷ s) = let rest = split s in if c == b'/' then [] ∷ rest else push_head c rest

-- `[…].join("/")`
unfoldable pub join : List Text → Text
join [] = []
join (w ∷ []) = w
join (w ∷ v ∷ ws) = w ++ b'/' ∷ join (v ∷ ws)

abbrev pub is_empty : Text → Bool
is_empty [] = true
is_empty (c ∷ s) = false

abbrev pub dot : Text
dot = b'.' ∷ []

abbrev pub double_star : Text
double_star = b'*' ∷ b'*' ∷ []

unfoldable pub insert_root : List Text → List Text
insert_root [] = dot ∷ []
insert_root (w ∷ ws) = if is_empty w then w ∷ ws else dot ∷ w ∷ ws

unfoldable pub rooted_segments : Text → List Text
unfolding split insert_root
rooted_segments pattern = insert_root (split pattern)

-- `enumerate().filter(|(i, s)| *i == 0 || …)`
abbrev pub keep_past_root : (Text → Bool) → List Text → List Text
keep_past_root p [] = []
keep_past_root p (w ∷ ws) = w ∷ keep p ws

unfoldable pub normalized : Text → List Text
unfolding rooted_segments
normalized path = keep_past_root (λ s. not (is_empty s)) (rooted_segments path)

-- Drops the `.` segments too.
unfoldable pub normalized_segments : Text → List Text
unfolding rooted_segments ◌=ₜ◌
normalized_segments path = keep_past_root (λ s. not (is_empty s || s =ₜ dot)) (rooted_segments path)

-- A path that starts with `.` or an empty segment has its root marker.
unfoldable pub add_root : List Text → List Text
add_root [] = dot ∷ []
add_root (w ∷ ws) = if is_empty w || w =ₜ dot then w ∷ ws else dot ∷ w ∷ ws

unfoldable pub path_segments : Text → List Text
unfolding split add_root ◌=ₜ◌
path_segments path = keep_past_root (λ s. not (is_empty s)) (add_root (split path))

unfoldable pub starts_with : Text → Text → Bool
starts_with [] s = true
starts_with (c ∷ p) [] = false
starts_with (c ∷ p) (d ∷ s) = c == d && starts_with p s

unfoldable pub contains : Text → Text → Bool
contains p [] = starts_with p []
contains p (c ∷ s) = starts_with p (c ∷ s) || contains p s

unfoldable pub ends_with_slash : Text → Bool
ends_with_slash [] = false
ends_with_slash (c ∷ []) = c == b'/'
ends_with_slash (c ∷ d ∷ s) = ends_with_slash (d ∷ s)

unfoldable pub clean_path : Text → Text
unfolding starts_with contains ends_with_slash join path_segments
clean_path path =
    if (starts_with (codes "/") path || starts_with (codes "./") path)
      && (not (contains (codes "//") path) && not (ends_with_slash path))
    then path
    else join (path_segments path)

unfoldable pub join_seg : Text → Text → Text
unfolding ◌=ₜ◌
join_seg base seg = if base =ₜ codes "/" then b'/' ∷ seg else base ++ b'/' ∷ seg

unfoldable pub path_tests : Bool → Tests Text Text
unfolding starts_with_dot has_meta matches_segment ◌=ₜ◌
path_tests dotglob = record {
  is_star = λ seg. seg =ₜ double_star;
  star_ok = λ name. dotglob || not (starts_with_dot name);
  hit = λ seg name. if has_meta seg then matches_segment seg name dotglob else seg =ₜ name;
}

unfoldable pub match_segments : List Text → List Text → Bool → Bool
unfolding star_match path_tests
match_segments pat path dotglob = star_match (path_tests dotglob) pat path
