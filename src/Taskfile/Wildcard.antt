-- ===== src/Taskfile/Wildcard.antt =====
-- `wildcard_captures` and `Task::wildcard_match` of crates/taskcore/src/ast/task.rs.
pub mod Fill
pub mod Greedy
use task_rs.Base.{
  ℕ, zero, suc, ◌+◌, ◌-◌, ◌≡◌, refl, Bool, true, false, not, ◌&&◌, ◌||◌, Option, none, some, List,
  [], ◌∷◌, ◌++◌, arith, ◌==◌, if◌then◌else◌, Text, ◌=ₜ◌, ends_with, is_some, length, take, drop,
}
use task_rs.Taskfile.Names.{strip_prefix}
use task_rs.Taskfile.Task.{Task, is_empty}

-- `pattern.split('*')`: the first segment, and the others.
unfoldable pub split_star : Text → Text × List Text
split_star [] = ([], [])
split_star (c ∷ s) = let (w, ws) = split_star s in if c == b'*' then ([], w ∷ ws) else (c ∷ w, ws)

-- `str::rfind`: where the last occurrence begins.
unfoldable pub rfind : Text → Text → Option ℕ
unfolding strip_prefix
rfind sep [] = if is_empty sep then some 0 else none
rfind sep (c ∷ s) = elim (rfind sep s) [
  | some i ↦ some (suc i)
  | none ↦ if is_some (strip_prefix sep (c ∷ s)) then some 0 else none
]

-- `if sep.is_empty() { 0 } else { rest.rfind(sep)? }`
unfoldable pub find_segment : Text → Text → Option ℕ
unfolding rfind
find_segment sep rest = if is_empty sep then some 0 else rfind sep rest

unfoldable pub cons_capture : Text → Option (List Text) → Option (List Text)
cons_capture c none = none
cons_capture c (some cs) = some (c ∷ cs)

-- The segments after the first, on what remains of the name: the last one must end it.
unfoldable pub captures_loop : Text → List Text → Text → Option (List Text)
unfolding find_segment ends_with cons_capture
captures_loop last [] rest =
    if ends_with last rest then some (take (length rest - length last) rest ∷ []) else none
captures_loop sep (next ∷ segments) rest = elim (find_segment sep rest) [
  | none ↦ none
  | some idx ↦
      cons_capture (take idx rest) (captures_loop next segments (drop (idx + length sep) rest))
]

-- The segments after the first, when the name begins with the first.
unfoldable pub captures_after : Text → List Text → Option Text → Option (List Text)
unfolding captures_loop
captures_after w ws none = none
captures_after w ws (some rest) = captures_loop w ws rest

-- A pattern with no `*` matches only its literal equal.
unfoldable pub captures_segments : Text → Text → Text × List Text → Option (List Text)
unfolding captures_after strip_prefix ◌=ₜ◌
captures_segments pattern name (first, []) = if pattern =ₜ name then some [] else none
captures_segments pattern name (first, w ∷ ws) = captures_after w ws (strip_prefix first name)

unfoldable pub wildcard_captures : Text → Text → Option (List Text)
unfolding split_star captures_segments
wildcard_captures pattern name = captures_segments pattern name (split_star pattern)

-- `task_name.matches('*').count()`
unfoldable pub stars : Text → ℕ
stars [] = 0
stars (c ∷ s) = let rest = stars s in if c == b'*' then suc rest else rest

-- `continue` without captures, or with a number of them that is not the wildcards'.
unfoldable pub or_continue : Option (List Text) → ℕ → Bool × List Text → Bool × List Text
or_continue none wildcard_count rest = rest
or_continue (some wildcards) wildcard_count rest =
    if length wildcards == wildcard_count then (true, wildcards) else rest

unfoldable pub match_loop : List Text → Text → Bool × List Text
unfolding wildcard_captures stars or_continue
match_loop [] name = (false, [])
match_loop (task_name ∷ names) name =
    or_continue (wildcard_captures task_name name) (stars task_name) (match_loop names name)

unfoldable pub wildcard_match : {V O : Type 0} → Task V O → Text → Bool × List Text
unfolding match_loop
wildcard_match t name = match_loop (t.task ∷ t.aliases) name
