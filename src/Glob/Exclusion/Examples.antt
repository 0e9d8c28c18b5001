-- ===== src/Glob/Exclusion/Examples.antt =====
-- Runs of the exclusions, and their theorems at concrete paths.
use task_rs.Base.{◌≡◌, refl, true, false, codes, ◌=ₜ◌, ends_with, Text, Bool}
use task_rs.Glob.Path.{path_segments, clean_path, join, normalized, split}
use task_rs.Glob.Path.Spelled.{path_segments-clean_path}
use task_rs.Glob.Exclusion.{new, excludes_clean, excludes_plain}
use task_rs.Glob.Exclusion.Cheap.{excludes_clean-plain}

abbrev nothing : Text → Bool
nothing path = false

abbrev e_objects : Bool → Bool
e_objects walked =
    excludes_clean nothing (new (codes "/w/out/**/*.o") false true false) (codes "/w/out/a/b.o")
      (codes "/w/out/a/b.o") walked

excludes_object : e_objects true ≡ true
unfolding new excludes_clean normalized split ◌=ₜ◌ ends_with path_segments
excludes_object = refl

excludes_clean-plain_example :
    excludes_clean nothing
      (new (codes "/w/out/**/*.o") false true false)
      (clean_path (codes "/w//out/b.o"))
      (codes "/w//out/b.o")
      true
    ≡ excludes_plain nothing
        (new (codes "/w/out/**/*.o") false true false)
        (clean_path (codes "/w//out/b.o"))
        (codes "/w//out/b.o")
        true
excludes_clean-plain_example =
    excludes_clean-plain nothing (codes "/w/out/**/*.o") false true false (codes "/w//out/b.o") true

path_segments-clean_path_example :
    (path_segments (clean_path (codes "a//b/")) ≡ path_segments (codes "a//b/"))
    × (join (path_segments (clean_path (codes "a//b/"))) ≡ clean_path (codes "a//b/"))
path_segments-clean_path_example = path_segments-clean_path (codes "a//b/")
