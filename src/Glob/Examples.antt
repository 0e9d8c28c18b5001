-- ===== src/Glob/Examples.antt =====
-- Runs of the glob matcher, and its theorems at concrete patterns.
use mathlib.Core.Option
use task_rs.Base.{◌≡◌, refl, ◌↔◌, true, false, ◌++◌, none, some, List, [], ◌∷◌, Text, codes, ◌=ₜ◌}
use task_rs.Glob.Star.{Matches, star_match, star_match_iff}
use task_rs.Glob.Bracket.{
  Members, members, bracket_len, match_bracket, is_negation, verdict, match_bracket_lem,
}
use task_rs.Glob.Segment.{
  has_meta, glob_match, matches_segment, glob_match_literal, glob_match_unclosed,
}
use task_rs.Glob.Path.{
  split, normalized, clean_path, join, path_segments, match_segments, path_tests, double_star,
  ends_with_slash,
}
use task_rs.Glob.Path.Clean.{clean_path-join}
use task_rs.Glob.Pruner.{Pruner, new, covers, split_last, drop_star, drop_double_stars, min_depth}
use task_rs.Glob.Pruner.Excluded.{covers-excludes}
use task_rs.Glob.Exclusion
use task_rs.Glob.Exclusion.{excludes_clean}

class_matches : glob_match (codes "v[0-9a]*.rs") (codes "v7x.rs") ≡ true
unfolding glob_match
class_matches = refl

negated_class : glob_match (codes "[!a-c]?") (codes "b1") ≡ false
unfolding glob_match
negated_class = refl

hidden_name : matches_segment (codes "*") (codes ".git") false ≡ false
unfolding matches_segment
hidden_name = refl

crosses_segments :
    match_segments (split (codes "./src/**/*.rs")) (split (codes "./src/a/b/c.rs")) false ≡ true
unfolding match_segments split
crosses_segments = refl

cleaned : clean_path (codes "a//b/") ≡ codes "./a/b"
unfolding clean_path
cleaned = refl

abbrev build_pruner : Pruner
build_pruner = record { prefix = codes "." ∷ codes "build" ∷ [] }

build_is_pruned : new (codes "build/**/*") ≡ some build_pruner
unfolding new split_last drop_star drop_double_stars min_depth normalized ends_with_slash ◌=ₜ◌
build_is_pruned = refl

root_is_not_pruned : new (codes "**/*") ≡ none
unfolding new split_last drop_star drop_double_stars min_depth normalized ends_with_slash ◌=ₜ◌
root_is_not_pruned = refl

build_covers : covers build_pruner (codes "./build") ≡ true
unfolding covers match_segments split
build_covers = refl

abbrev stars : List Text
stars = codes "src" ∷ double_star ∷ []

star_match_iff_example :
    (star_match (path_tests false) stars (split (codes "src/a/b")) ≡ true)
    ↔ Matches (path_tests false) stars (split (codes "src/a/b"))
star_match_iff_example = star_match_iff (path_tests false) stars (split (codes "src/a/b"))

match_bracket_lem_example :
    (bracket_len (codes "!a-c]x") ≡ Option.map (λ (m : Members). m.1) (members (codes "!a-c]x")))
    × (match_bracket (codes "!a-c]x") 100
        ≡ verdict
            (is_negation (codes "!a-c]x"))
            false
            100
            (codes "!a-c]x")
            (members (codes "!a-c]x")))
match_bracket_lem_example = match_bracket_lem (codes "!a-c]x") 100

no_meta : has_meta (codes "go.mod") ≡ false
unfolding has_meta
no_meta = refl

glob_match_literal_example :
    (glob_match (codes "go.mod") (codes "go.sum") ≡ true) ↔ (codes "go.mod" ≡ codes "go.sum")
glob_match_literal_example = glob_match_literal (codes "go.mod") (codes "go.sum") no_meta

unclosed : bracket_len (codes "a-z") ≡ none
unfolding bracket_len
unclosed = refl

glob_match_unclosed_example : glob_match (codes "*" ++ b'[' ∷ codes "a-z") (codes "xb") ≡ false
glob_match_unclosed_example =
    glob_match_unclosed (codes "*") (codes "a-z") (codes "xb") refl unclosed

clean_path-join_example : clean_path (codes "/a/b") ≡ join (path_segments (codes "/a/b"))
clean_path-join_example = clean_path-join (codes "/a/b")

cache_spelled :
    path_segments (codes "./build" ++ b'/' ∷ codes ".cache/x")
    ≡ split (codes "./build" ++ b'/' ∷ codes ".cache/x")
unfolding path_segments split ◌=ₜ◌
cache_spelled = refl

covers-excludes_example :
    excludes_clean
      (λ path. false)
      (Exclusion.new (codes "build/**/*") false true true)
      (clean_path (codes "./build" ++ b'/' ∷ codes ".cache/x"))
      (codes "./build" ++ b'/' ∷ codes ".cache/x")
      false
    ≡ true
covers-excludes_example =
    covers-excludes (λ path. false) (codes "build/**/*") (codes "./build") (codes ".cache/x")
      build_pruner true build_is_pruned build_covers cache_spelled
