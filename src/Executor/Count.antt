-- ===== src/Executor/Count.antt =====
-- No pattern is admitted as often as the guard on calls allows, however its calls are nested.
use task_rs.Base.{
  ℕ, suc, ◌-◌, ◌≤◌, ◌<◌, ◌≡◌, refl, ap, inl, inr, true, false, List, [], ◌∷◌, arith, min, leb,
  if◌then◌else◌, Text, ◌=ₜ◌, =ₜ_iff, Map, lookup, insert, lookup-insert, Bool-cases, not_leb→lt,
}
use task_rs.Executor.{
  Ancestors, Compiled, run_name, run_key, maximum_task_call, i32_max, call_count, Admission,
  cyclic_dependency, called_too_many_times, admitted, contains, extend, count_call, admit,
  and_admitted, admit_all,
}

-- How often the list has a task of the pattern.
pub occurrences : Text → List Compiled → ℕ
occurrences task [] = 0
occurrences task (t ∷ ts) =
    if t.task =ₜ task then suc (occurrences task ts) else occurrences task ts

call_count-insert :
    (task other : Text) (n : ℕ) (counts : Map ℕ)
    → call_count (insert task n counts) other
      ≡ (if task =ₜ other then n else call_count counts other)
unfolding call_count
call_count-insert task other n counts =
    rw (lookup-insert task other n counts)
      (elim (Bool-cases (task =ₜ other)) [ inl e ↦ rw e refl | inr e ↦ rw e refl ])

-- The calls of a pattern that the guard still lets through.
left : Text → Map ℕ → ℕ
left task counts = 999 - call_count counts task

left-insert :
    (task other : Text) (n : ℕ) (counts : Map ℕ)
    → left other (insert task n counts) ≡ (if task =ₜ other then 999 - n else left other counts)
unfolding left
left-insert task other n counts =
    rw (call_count-insert task other n counts)
      (elim (Bool-cases (task =ₜ other)) [ inl e ↦ rw e refl | inr e ↦ rw e refl ])

-- The count after one call, of its own pattern or of another.
left-count_call :
    (task other : Text) (counts : Map ℕ)
    → ((task =ₜ other) ≡ true
        → left other (insert task (min (suc (call_count counts task)) i32_max) counts)
          ≡ left other counts - 1)
      × ((task =ₜ other) ≡ false
          → left other (insert task (min (suc (call_count counts task)) i32_max) counts)
            ≡ left other counts)
unfolding left
left-count_call task other counts = (
  λ same. rw (left-insert task other _ counts) (
      rw same (
        let old : call_count counts task ≡ call_count counts other =
          ap (λ (x : Text). call_count counts x) ((=ₜ_iff task other).0 same) in
        omega (arith, old))),
  λ other_task. rw (left-insert task other _ counts) (rw other_task refl),
)

left-positive :
    (task other : Text) (counts : Map ℕ)
    → (task =ₜ other) ≡ true
    → min (suc (call_count counts task)) i32_max < 1000
    → 0 < left other counts
unfolding left
left-positive task other counts same small =
    let old : call_count counts task ≡ call_count counts other =
      ap (λ (x : Text). call_count counts x) ((=ₜ_iff task other).0 same) in
    omega (arith, old, small)

module _ {L : Type 0} (task : Text) where
  -- What one call takes of them: one when it is admitted.
  Spends : Compiled → Map ℕ → Admission L × Map ℕ → Type 0
  Spends t counts (admitted path, after) =
      ((t.task =ₜ task) ≡ true → suc (left task after) ≤ left task counts)
      × (left task after ≤ left task counts)
  Spends t counts (cyclic_dependency path, after) = left task after ≤ left task counts
  Spends t counts (called_too_many_times n, after) = left task after ≤ left task counts

  count_call-Spends :
      (counts : Map ℕ) (t : Compiled) (path : Ancestors L)
      → Spends t counts (count_call false counts t.task path)
  unfolding count_call Spends
  count_call-Spends counts t path =
      elim (Bool-cases (leb maximum_task_call (min (suc (call_count counts t.task)) i32_max))) [
        | inl e ↦ rw e less
        | inr e ↦ rw e (
          λ same. omega (
            arith,
            (left-count_call t.task task counts).0 same,
            left-positive t.task task counts same (not_leb→lt _ _ e),
          ),
          less,
        )
      ]
    where
      less :
          left task (insert t.task (min (suc (call_count counts t.task)) i32_max) counts)
          ≤ left task counts
      less = elim (Bool-cases (t.task =ₜ task)) [
        | inl e ↦ omega (arith, (left-count_call t.task task counts).0 e)
        | inr e ↦ omega (arith, (left-count_call t.task task counts).1 e)
      ]

  admit-Spends :
      (counts : Map ℕ) (ancestors : Ancestors L) (t : Compiled)
      → Spends t counts (admit false counts ancestors t)
  unfolding admit
  admit-Spends counts ancestors t = elim (Bool-cases (contains ancestors (run_key t))) [
    | inl e ↦ rw e (unfold Spends in omega arith)
    | inr e ↦ rw e (count_call-Spends counts t (extend ancestors (run_key t) (run_name t)))
  ]

  and_admitted-Spends :
      (t : Compiled) (counts : Map ℕ) (r : Admission L × Map ℕ) (rest : List Compiled)
      → Spends t counts r
      → occurrences task rest ≤ left task r.1
      → occurrences task (and_admitted t r.0 rest) ≤ left task counts
  unfolding Spends occurrences
  and_admitted-Spends t counts (cyclic_dependency path, after) rest s h = omega (arith, s, h)
  and_admitted-Spends t counts (called_too_many_times n, after) rest s h = omega (arith, s, h)
  and_admitted-Spends t counts (admitted path, after) rest s h =
      elim (Bool-cases (t.task =ₜ task)) [
        | inl e ↦ rw e (omega (arith, s.0 e, h))
        | inr e ↦ rw e (omega (arith, s.1, h))
      ]

  admit_all-left :
      (counts : Map ℕ) (calls : List (Ancestors L × Compiled))
      → occurrences task (admit_all false counts calls) ≤ left task counts
  unfolding admit_all occurrences
  admit_all-left counts [] = omega arith
  admit_all-left counts ((ancestors, t) ∷ calls) =
      and_admitted-Spends t counts (admit false counts ancestors t)
        (admit_all false (admit false counts ancestors t).1 calls) (admit-Spends counts ancestors t)
        (admit_all-left (admit false counts ancestors t).1 calls)

  -- In a run that does not watch, fewer than `MAXIMUM_TASK_CALL` calls of one pattern are admitted,
  -- in whatever order its calls come and on whatever paths.
  pub admit_all-bound :
      (calls : List (Ancestors L × Compiled))
      → occurrences task (admit_all false [] calls) < maximum_task_call
  unfolding left call_count lookup
  admit_all-bound calls = omega (arith, admit_all-left [] calls)
