-- ===== src/FilePath/Examples.antt =====
-- Runs of the path helpers, and their theorem at a concrete path.
use task_rs.Base.{◌≡◌, refl, true, codes, [], ◌∷◌, Text, List}
use mathlib.Core.List.{reverse}
use task_rs.Glob.Path.{join, starts_with}
use task_rs.FilePath.{clean, join_dirs, spell}
use task_rs.FilePath.Clean.{IsClean, clean-IsClean}

cleans_up : clean (codes "a/./b//../../../c") ≡ codes "../c"
unfolding clean
cleans_up = refl

last_absolute : join_dirs (codes "/a" ∷ codes "b" ∷ codes "/c" ∷ codes "d" ∷ []) ≡ codes "/c/d"
unfolding join_dirs
last_absolute = refl

clean-IsClean_example :
    (clean (clean (codes "/a/../../b")) ≡ clean (codes "/a/../../b"))
    × ((parts : List Text) × IsClean true parts
        × (clean (codes "/a/../../b") ≡ spell true (join (reverse parts))))
unfolding starts_with
clean-IsClean_example = clean-IsClean (codes "/a/../../b")
