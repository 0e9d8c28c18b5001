-- ===== src/FilePath.antt =====
-- crates/taskcore/src/filepathext.rs: joining and cleaning of paths. Paths are those of Unix.
pub mod Clean
mod Examples
use mathlib.Core.List.{reverse}
use task_rs.Base.{
  ℕ, zero, suc, ◌+◌, ◌-◌, Bool, true, false, not, ◌&&◌, ◌||◌, Option, none, some, List, [], ◌∷◌,
  ◌++◌, map, ◌==◌, if◌then◌else◌, Text, codes, ◌=ₜ◌, any, keep, length, drop, take,
}
use task_rs.Glob.Path.{split, join, is_empty, dot, starts_with, contains, ends_with_slash}

abbrev pub dot_dot : Text
dot_dot = codes ".."

-- One part of the path; `out` holds the parts that are kept, the last one first.
unfoldable pub clean_step : Bool → List Text → Text → List Text
unfolding ◌=ₜ◌
clean_step rooted out part =
    if is_empty part || part =ₜ dot
    then out
    else if part =ₜ dot_dot
    then elim out [
      | [] ↦ if rooted then [] else dot_dot ∷ []
      | t ∷ rest ↦ if t =ₜ dot_dot then dot_dot ∷ t ∷ rest else rest
    ]
    else part ∷ out

unfoldable pub clean_loop : Bool → List Text → List Text → List Text
unfolding clean_step
clean_loop rooted out [] = out
clean_loop rooted out (part ∷ parts) = clean_loop rooted (clean_step rooted out part) parts

abbrev pub is_rooted : Text → Bool
is_rooted path = starts_with (codes "/") path

-- The text of the parts.
unfoldable pub spell : Bool → Text → Text
spell true body = b'/' ∷ body
spell false body = if is_empty body then dot else body

unfoldable pub clean : Text → Text
unfolding clean_loop spell split join starts_with
clean path =
    if is_empty path
    then dot
    else spell (is_rooted path) (join (reverse (clean_loop (is_rooted path) [] (split path))))

unfoldable pub join_component : Text → Text → Text
unfolding clean
join_component base component =
    if is_empty component
    then clean base
    else if is_empty base
    then clean component
    else clean (base ++ b'/' ∷ component)

unfoldable pub join_all : Text → List Text → Text
unfolding join_component
join_all out [] = out
join_all out (part ∷ parts) = join_all (join_component out part) parts

-- From the last component that is absolute, or from the first.
unfoldable pub from_absolute : List Text → List Text
unfolding starts_with
from_absolute [] = []
from_absolute (d ∷ dirs) =
    let rest = from_absolute dirs in if any is_rooted dirs then rest else d ∷ dirs

unfoldable pub join_dirs : List Text → Text
unfolding from_absolute join_all
join_dirs dirs = join_all [] (from_absolute dirs)

unfoldable pub join_path : List Text → Text
unfolding join clean
join_path elems =
    let joined = join (keep (λ e. not (is_empty e)) elems) in
    if is_empty joined then [] else clean joined

abbrev pub known_abs_dirs : List Text
known_abs_dirs = codes ".ROOT_DIR" ∷ codes ".TASKFILE_DIR" ∷ codes ".USER_WORKING_DIR" ∷ []

unfoldable pub is_special_dir : Text → Bool
unfolding contains
is_special_dir dir = any (λ d. contains d dir) known_abs_dirs

unfoldable pub is_abs : Text → Bool
unfolding is_special_dir starts_with
is_abs path = is_special_dir path || is_rooted path

unfoldable pub smart_join : Text → Text → Text
unfolding is_abs join_component
smart_join a b = if is_abs b then b else join_component a b

unfoldable pub join_glob : Text → Text → Text
unfolding smart_join ends_with_slash
join_glob dir pattern =
    let joined = smart_join dir pattern in
    if ends_with_slash pattern && not (ends_with_slash joined) then joined ++ b'/' ∷ [] else joined
