-- ===== src/Executor/Examples.antt =====
-- Runs of the admission of tasks, and its theorems at concrete calls.
use task_rs.Base.{
  ℕ, ◌<◌, ◌≡◌, refl, head_eq, inl, inr, true, false, none, some, [], ◌∷◌, arith, Text, codes, ◌=ₜ◌,
  lookup, insert,
}
use task_rs.Executor.{
  no, all, Level, Ancestors, Compiled, keyed, call_count, cyclic_dependency, called_too_many_times,
  admitted, is_ignored, extend, calling, contains, names_up, to_path_through, count_call, admit,
  admit_all,
}
use task_rs.Executor.Cycle.{IsKeyed, NoRepeat, Answers, admit-Answers}
use task_rs.Executor.Count.{occurrences, admit_all-bound}

abbrev level : Text → Level ℕ
level name = record {
  key = keyed name (some (codes "7f"));
  name = name;
  layers = none;
  ignored = false;
  calls = no;
}

-- `b`, called by `a`.
abbrev above : Ancestors ℕ
above = level (codes "b") ∷ level (codes "a") ∷ []

abbrev repeat : Compiled
repeat = record { task = codes "a"; full_name = []; digest = some (codes "7f") }

abbrev other : Compiled
other = record { task = codes "c-*"; full_name = codes "c-1"; digest = some (codes "7f") }

repeat_refused :
    admit false [] above repeat ≡ (cyclic_dependency (codes "a" ∷ codes "b" ∷ codes "a" ∷ []), [])
unfolding admit contains to_path_through names_up ◌=ₜ◌
repeat_refused = refl

other_admitted :
    admit false [] above other ≡ (admitted (level (codes "c-1") ∷ above), (codes "c-*", 1) ∷ [])
unfolding admit contains to_path_through names_up ◌=ₜ◌ count_call call_count lookup insert
other_admitted = refl

worn_out :
    admit false ((codes "c-*", 999) ∷ []) above other
    ≡ (called_too_many_times (codes "c-*"), (codes "c-*", 1000) ∷ [])
unfolding admit contains to_path_through names_up ◌=ₜ◌ count_call call_count lookup insert
worn_out = refl

-- What a deferred call beneath the path is told of ignored failures.
deferred : is_ignored (extend (calling above all) (codes "k") (codes "d")) ≡ true
deferred = refl

above-IsKeyed : IsKeyed above
above-IsKeyed = (
  ((λ e. omega (arith, e), tt), (codes "7f", refl)),
  (((λ e. omega (arith, e), tt), (codes "7f", refl)), tt),
)

above-NoRepeat : NoRepeat above
above-NoRepeat = (
  λ d q r. elim r [ inl h ↦ absurd (omega (arith, head_eq h.0)) | inr h ↦ absurd h ],
  (λ d q r. absurd r, tt),
)

admit-Answers_example :
    Answers false [] above (codes "a") (codes "a") (codes "7f") (admit false [] above repeat)
admit-Answers_example =
    admit-Answers false [] above (codes "a") [] (codes "7f") above-IsKeyed above-NoRepeat
      (λ e. omega (arith, e), tt)

admit_all-bound_example :
    occurrences (codes "a") (admit_all false [] ((above, repeat) ∷ ([], repeat) ∷ [])) < 1000
admit_all-bound_example = admit_all-bound (codes "a") ((above, repeat) ∷ ([], repeat) ∷ [])
