-- ===== src/Fuzzy/Examples.antt =====
-- Runs of the suggester, and its theorems at concrete names.
use task_rs.Base.{ℕ, ◌≤◌, ◌≡◌, refl, some, [], ◌∷◌, List, Text, codes, arith}
use task_rs.Fuzzy.{
  levenshtein, saturating_add, inner_loop, outer_loop, upto, last_or_zero, threshold_for, consider,
  suggest_loop, suggest,
}
use task_rs.Fuzzy.Distance.{Edits}
use task_rs.Fuzzy.Levenshtein.{levenshtein-Edits}
use task_rs.Fuzzy.Suggest.{Suggested, suggest-Suggested}

kitten_sitting : levenshtein (codes "kitten") (codes "sitting") ≡ 3
unfolding levenshtein saturating_add inner_loop outer_loop upto last_or_zero
kitten_sitting = refl

abbrev names : List Text
names = codes "build" ∷ codes "test" ∷ codes "deploy" ∷ []

suggests_build : suggest (codes "buld") names ≡ some (codes "build")
unfolding suggest suggest_loop consider threshold_for levenshtein saturating_add inner_loop
    outer_loop upto last_or_zero
suggests_build = refl

levenshtein-Edits_example :
    Edits (codes "tset") (codes "test") (levenshtein (codes "tset") (codes "test"))
    × ((n : ℕ)
        → Edits (codes "tset") (codes "test") n
        → levenshtein (codes "tset") (codes "test") ≤ n)
levenshtein-Edits_example = levenshtein-Edits (codes "tset") (codes "test") (omega arith)

suggest-Suggested_example :
    Suggested (codes "xyzzyplugh") names (suggest (codes "xyzzyplugh") names)
suggest-Suggested_example = suggest-Suggested (codes "xyzzyplugh") names
