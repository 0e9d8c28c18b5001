-- ===== src/Limiter.antt =====
-- `ConcurrencyLimiter` of crates/taskcore/src/concurrency.rs over the semaphore of tokio, which is a
-- parameter, and the runs of the tasks that share one limiter.
pub mod Permits
mod Examples
use task_rs.Base.{
  ℕ, zero, suc, ◌≡◌, ◌↔◌, Bool, true, false, Option, none, some, List, [], ◌∷◌, ◌++◌, ◌==◌,
  if◌then◌else◌,
}

-- What tokio documents of its semaphore: `acquire_owned` takes a permit when there is one and waits
-- otherwise, and a dropped permit returns to the semaphore.
pub record Semaphore : Type 1 where
  State : Type 0
  permits : State → ℕ
  with_permits : ℕ → State
  acquire_owned : State → Option State
  release : State → State
  permits-with_permits : (n : ℕ) → permits (with_permits n) ≡ n
  acquire_owned-none : (s : State) → (acquire_owned s ≡ none) ↔ (permits s ≡ 0)
  acquire_owned-some :
      (s : State) (t : State) → acquire_owned s ≡ some t → permits s ≡ suc (permits t)
  permits-release : (s : State) → permits (release s) ≡ suc (permits s)

-- The guard, by whether it holds a permit.
pub record ConcurrencyGuard : Type 0 where
  holds_permit : Bool

module _ (sem : Semaphore) where
  -- `None` when unlimited.
  abbrev pub ConcurrencyLimiter : Type 0
  ConcurrencyLimiter = Option sem.State

  abbrev pub unlimited : ConcurrencyLimiter
  unlimited = none

  abbrev pub new : ℕ → ConcurrencyLimiter
  new limit = if limit == 0 then unlimited else some (sem.with_permits limit)

  abbrev pub with_guard : Option sem.State → Option (ConcurrencyGuard × ConcurrencyLimiter)
  with_guard none = none
  with_guard (some s) = some (record { holds_permit = true }, some s)

  -- `acquire`, with nothing where it waits.
  abbrev pub acquire : ConcurrencyLimiter → Option (ConcurrencyGuard × ConcurrencyLimiter)
  acquire none = some (record { holds_permit = false }, none)
  acquire (some s) = with_guard (sem.acquire_owned s)

  -- The drop of a guard.
  abbrev pub drop_guard : ConcurrencyGuard → ConcurrencyLimiter → ConcurrencyLimiter
  drop_guard g none = none
  drop_guard g (some s) = if g.holds_permit then some (sem.release s) else some s

  -- The tasks on one limiter: how many wait in `acquire`, and the guards of those that run.
  pub record LimitedTasks : Type 0 where
    limiter : ConcurrencyLimiter
    waiting : ℕ
    running : List ConcurrencyGuard

  pub data Step : LimitedTasks → LimitedTasks → Type 0 where
    arrive :
        {l : ConcurrencyLimiter} {w : ℕ} {gs : List ConcurrencyGuard}
        → Step
            (record { limiter = l; waiting = w; running = gs })
            (record { limiter = l; waiting = suc w; running = gs })
    enter :
        {l l' : ConcurrencyLimiter} {w : ℕ} {gs : List ConcurrencyGuard} (g : ConcurrencyGuard)
        → acquire l ≡ some (g, l')
        → Step
            (record { limiter = l; waiting = suc w; running = gs })
            (record { limiter = l'; waiting = w; running = g ∷ gs })
    leave :
        {l : ConcurrencyLimiter} {w : ℕ} (g : ConcurrencyGuard) (gs hs : List ConcurrencyGuard)
        → Step
            (record { limiter = l; waiting = w; running = gs ++ g ∷ hs })
            (record { limiter = drop_guard g l; waiting = w; running = gs ++ hs })

  abbrev pub start : ℕ → LimitedTasks
  start limit = record { limiter = new limit; waiting = 0; running = [] }

  pub data Reach (limit : ℕ) : LimitedTasks → Type 0 where
    here : Reach limit (start limit)
    next : {t u : LimitedTasks} → Reach limit t → Step t u → Reach limit u
