-- ===== src/Limiter/Examples.antt =====
-- Runs of the limiter over a semaphore that is a number.
use task_rs.Base.{
  ℕ, zero, suc, ◌≤◌, ◌<◌, ◌≡◌, refl, ap, ◌↔◌, ◌⊎◌, true, Option, none, some, [], ◌∷◌, arith, In,
  some-injective,
}
use task_rs.Limiter.{
  Semaphore, ConcurrencyGuard, acquire, drop_guard, LimitedTasks, arrive, enter, Reach, here, next,
}
use task_rs.Limiter.Permits.{running-bound, acquire-progress, IsFree}

abbrev take_one : ℕ → Option ℕ
take_one zero = none
take_one (suc n) = some n

take_one-none : (s : ℕ) → (take_one s ≡ none) ↔ (s ≡ 0)
take_one-none zero = ground arith
take_one-none (suc n) = ground arith

take_one-some : (s t : ℕ) → take_one s ≡ some t → s ≡ suc t
take_one-some zero t e = ground (arith, e)
take_one-some (suc n) t e = ap suc (some-injective e)

abbrev counter : Semaphore
counter = record {
  State = ℕ;
  permits = λ n. n;
  with_permits = λ n. n;
  acquire_owned = take_one;
  release = suc;
  permits-with_permits = λ n. refl;
  acquire_owned-none = take_one-none;
  acquire_owned-some = take_one-some;
  permits-release = λ n. refl;
}

abbrev held : ConcurrencyGuard
held = record { holds_permit = true }

-- One task runs and another waits, under a limit of one.
abbrev one_runs : LimitedTasks counter
one_runs = record { limiter = some 0; waiting = 1; running = held ∷ [] }

run_one : Reach counter 1 one_runs
run_one = next (next (next here arrive) arrive) (enter held refl)

full : acquire counter (some 0) ≡ none
full = refl

running-bound_example : 1 ≤ 1
running-bound_example = running-bound counter 1 one_runs (omega arith) run_one

acquire-progress_example :
    IsFree counter 1 (some 0)
    ⊎ ((0 < 1)
        × ((g : ConcurrencyGuard)
            → In g (held ∷ [])
            → IsFree counter 1 (drop_guard counter g (some 0))))
acquire-progress_example = acquire-progress counter 1 one_runs run_one
