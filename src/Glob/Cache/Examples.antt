-- ===== src/Glob/Cache/Examples.antt =====
-- A run of the cache matcher, and its theorem at concrete entries.
use task_rs.Base.{◌≡◌, refl, ◌↔◌, true, false, codes, [], ◌∷◌, Text, List, ℕ, Bool}
use task_rs.Glob.Path.{normalized_segments}
use task_rs.FilePath.{join_glob}
use task_rs.Glob.Cache.{Entry, new_matcher, matches, of_group}
use task_rs.Glob.Cache.Entries.{listed, removed, matches_iff}

abbrev entry : Text → ℕ → Entry
entry glob group = record {
  glob = glob;
  negate = false;
  fingerprint = [];
  from_ = [];
  task = [];
  group = group;
  folded = false;
}

abbrev generates : List Entry
generates =
    entry (codes "out/**") 0
    ∷ record (entry (codes "out/*.tmp") 0) { negate = true }
    ∷ entry (codes "lib/*.a") 2
    ∷ []

abbrev accepted : Text → Bool
accepted rel = matches (new_matcher (codes "/w") generates) (codes "/w") rel

accepts_nested : accepted (codes "out/a/b") ≡ true
unfolding matches new_matcher
accepts_nested = refl

rejects_temporary : accepted (codes "out/b.tmp") ≡ false
unfolding matches new_matcher
rejects_temporary = refl

accepts_folded : accepted (codes "lib/x.a") ≡ true
unfolding matches new_matcher
accepts_folded = refl

matches_iff_example : (accepted (codes "lib/x.a") ≡ true) ↔ (
    ((n : ℕ) × (listed
          (codes "/w")
          (normalized_segments (join_glob (codes "/w") (codes "lib/x.a")))
          (of_group n generates)
        ≡ true))
    × (removed
          (codes "/w")
          (normalized_segments (join_glob (codes "/w") (codes "lib/x.a")))
          (of_group 0 generates)
        ≡ false))
matches_iff_example = matches_iff (codes "/w") generates (codes "/w") (codes "lib/x.a")
