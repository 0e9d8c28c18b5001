-- ===== src/Fuzzy.antt =====
-- crates/task/src/fuzzy.rs: the task name nearest to a mistyped one, by edit distance. `usize` is
-- 64 bits wide; its additions stop at the largest value.
pub mod Distance
pub mod Levenshtein
pub mod Suggest
mod Examples
use task_rs.Base.{
  ℕ, zero, suc, ◌+◌, ◌-◌, ◌^◌, min, Bool, Option, none, some, List, [], ◌∷◌, ◌==◌, ltb, leb,
  if◌then◌else◌, Text, length, get_or, tail,
}

abbrev pub usize_max : ℕ
usize_max = 2 ^ 64 - 1

unfoldable pub saturating_add : ℕ → ℕ → ℕ
saturating_add a b = min (a + b) usize_max

-- The inner loop: `left` is `curr[j]`, the head of `prev` is `prev[j]`.
unfoldable pub inner_loop : ℕ → ℕ → List ℕ → Text → List ℕ
inner_loop ca left prev [] = []
inner_loop ca left prev (cb ∷ b) =
    let cost : ℕ = if ca == cb then 0 else 1 in
    let deletion = get_or prev 1 usize_max in
    let substitution = get_or prev 0 usize_max in
    let best =
      min (min (saturating_add deletion 1) (saturating_add left 1))
        (saturating_add substitution cost) in
    best ∷ inner_loop ca best (tail prev) b

-- The outer loop over `a`, at its index `i`: `curr[0]` is `i + 1`, and the rows are swapped.
unfoldable pub outer_loop : ℕ → List ℕ → Text → Text → List ℕ
outer_loop i prev [] b = prev
outer_loop i prev (ca ∷ a) b =
    let start = saturating_add i 1 in outer_loop (i + 1) (start ∷ inner_loop ca start prev b) a b

-- `(start..=start + n).collect()`
unfoldable pub upto : ℕ → ℕ → List ℕ
upto start zero = start ∷ []
upto start (suc n) = start ∷ upto (start + 1) n

-- `prev.last().copied().unwrap_or(0)`
unfoldable pub last_or_zero : List ℕ → ℕ
last_or_zero [] = 0
last_or_zero (d ∷ []) = d
last_or_zero (d ∷ e ∷ ds) = last_or_zero (e ∷ ds)

abbrev pub is_nil : Text → Bool
is_nil [] = Bool.true
is_nil (c ∷ s) = Bool.false

unfoldable pub levenshtein : Text → Text → ℕ
levenshtein a b =
    if is_nil a
    then length b
    else if is_nil b
    then length a
    else last_or_zero (outer_loop 0 (upto 0 (length b)) a b)

unfoldable pub threshold_for : Text → ℕ
threshold_for target = let n = length target in if leb n 3 then 1 else if leb n 6 then 2 else 3

-- One round of `suggest`.
unfoldable pub consider : Text → Option (ℕ × Text) → Text → Option (ℕ × Text)
consider target best candidate =
    let distance = levenshtein target candidate in
    if ltb (threshold_for target) distance then best else elim best [
      | none ↦ some (distance, candidate)
      | some (best_distance, name) ↦
          if leb best_distance distance
          then some (best_distance, name)
          else some (distance, candidate)
    ]

unfoldable pub suggest_loop : Text → Option (ℕ × Text) → List Text → Option (ℕ × Text)
suggest_loop target best [] = best
suggest_loop target best (candidate ∷ rest) =
    suggest_loop target (consider target best candidate) rest

unfoldable pub suggest : Text → List Text → Option Text
suggest target candidates = elim (suggest_loop target none candidates) [
  | none ↦ none
  | some (d, name) ↦ some name
]
