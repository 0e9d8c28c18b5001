-- ===== src/Limiter/Permits.antt =====
-- No more tasks than the limit hold the limiter, and none waits for a permit that is lost.
use task_rs.Base.{
  ℕ, suc, ◌+◌, ◌≤◌, ◌<◌, ◌≡◌, refl, sym, subst, ◌⊎◌, inl, inr, true, Option, none, some, List, [],
  ◌∷◌, ◌++◌, arith, ◌==◌, length, length-append, In, is_some, Option-cases, some-injective, All,
  Bool-cases, ==_iff,
}
use task_rs.Limiter.{
  Semaphore, ConcurrencyGuard, ConcurrencyLimiter, with_guard, acquire, drop_guard, new,
  LimitedTasks, Step, arrive, enter, leave, Reach, here, next,
}

module _ (sem : Semaphore) (limit : ℕ) where
  -- With a limit every running task holds a permit, and the permits are the free ones and those.
  abbrev IsCounted : LimitedTasks sem → Type 0
  IsCounted t = elim t.limiter [
    | none ↦ limit ≡ 0
    | some s ↦
        (0 < limit)
        × All (λ (g : ConcurrencyGuard). g.holds_permit ≡ true) t.running
        × (sem.permits s + length t.running ≡ limit)
  ]

  All-remove :
      {A : Type 0} (P : A → Type 0) (xs ys : List A) (x : A)
      → All P (xs ++ x ∷ ys)
      → P x × All P (xs ++ ys)
  All-remove P [] ys x h = h
  All-remove P (y ∷ xs) ys x h = let (p, q) = All-remove P xs ys x h.1 in (p, (h.0, q))

  start-IsCounted : IsCounted (record { limiter = new sem limit; waiting = 0; running = [] })
  start-IsCounted = elim (Bool-cases (limit == 0)) [
    | inl z ↦ rw z ((==_iff limit 0).0 z)
    | inr n ↦ rw n (ground arith, tt, omega (arith, sem.permits-with_permits limit))
  ]

  with_guard-IsCounted :
      (s : sem.State) (o : Option sem.State) (l' : ConcurrencyLimiter sem) (w v : ℕ)
      (g : ConcurrencyGuard) (gs : List ConcurrencyGuard)
      → sem.acquire_owned s ≡ o
      → with_guard sem o ≡ some (g, l')
      → IsCounted (record { limiter = some s; waiting = w; running = gs })
      → IsCounted (record { limiter = l'; waiting = v; running = g ∷ gs })
  with_guard-IsCounted s none l' w v g gs a e h = cc e
  with_guard-IsCounted s (some t) l' w v g gs a e h =
      subst
        (λ (p : ConcurrencyGuard × ConcurrencyLimiter sem).
          IsCounted (record { limiter = p.1; waiting = v; running = p.0 ∷ gs }))
        (some-injective e) (h.0, (refl, h.1), omega (arith, h.2, sem.acquire_owned-some s t a))

  enter-IsCounted :
      (l l' : ConcurrencyLimiter sem) (w v : ℕ) (g : ConcurrencyGuard) (gs : List ConcurrencyGuard)
      → acquire sem l ≡ some (g, l')
      → IsCounted (record { limiter = l; waiting = w; running = gs })
      → IsCounted (record { limiter = l'; waiting = v; running = g ∷ gs })
  enter-IsCounted none l' w v g gs e h =
      subst
        (λ (p : ConcurrencyGuard × ConcurrencyLimiter sem).
          IsCounted (record { limiter = p.1; waiting = v; running = p.0 ∷ gs }))
        (some-injective e) h
  enter-IsCounted (some s) l' w v g gs e h =
      with_guard-IsCounted s (sem.acquire_owned s) l' w v g gs refl e h

  leave-IsCounted :
      (l : ConcurrencyLimiter sem) (w : ℕ) (g : ConcurrencyGuard) (gs hs : List ConcurrencyGuard)
      → IsCounted (record { limiter = l; waiting = w; running = gs ++ g ∷ hs })
      → IsCounted (record { limiter = drop_guard sem g l; waiting = w; running = gs ++ hs })
  leave-IsCounted none w g gs hs h = h
  leave-IsCounted (some s) w g gs hs h =
      let (held, rest) = All-remove (λ (g : ConcurrencyGuard). g.holds_permit ≡ true) gs hs g h.1 in
      rw held (
        h.0,
        rest,
        omega (arith, h.2, sem.permits-release s, length-append gs (g ∷ hs), length-append gs hs),
      )

  Step-IsCounted : {t u : LimitedTasks sem} → Step sem t u → IsCounted t → IsCounted u
  Step-IsCounted arrive h = h
  Step-IsCounted (enter {l} {l'} {w} {gs} g e) h = enter-IsCounted l l' (suc w) w g gs e h
  Step-IsCounted (leave {l} {w} g gs hs) h = leave-IsCounted l w g gs hs h

  Reach-IsCounted : {t : LimitedTasks sem} → Reach sem limit t → IsCounted t
  Reach-IsCounted here = start-IsCounted
  Reach-IsCounted (next r s) = Step-IsCounted s (Reach-IsCounted r)

  -- In every run of tasks that share a limiter of a limit that is not 0, no more than `limit` tasks
  -- hold a guard at a time.
  pub running-bound :
      (t : LimitedTasks sem) → 0 < limit → Reach sem limit t → length t.running ≤ limit
  running-bound t positive r = bound t.limiter t.running (Reach-IsCounted r)
    where
      bound :
          (l : ConcurrencyLimiter sem) (gs : List ConcurrencyGuard)
          → IsCounted (record { limiter = l; waiting = 0; running = gs })
          → length gs ≤ limit
      bound none gs h = omega (arith, h, positive)
      bound (some s) gs h = omega (arith, h.2)

  -- Whether a task that asks for a guard gets one at once.
  abbrev pub IsFree : ConcurrencyLimiter sem → Type 0
  IsFree l = is_some (acquire sem l) ≡ true

  IsFree-permits : (s : sem.State) → 0 < sem.permits s → IsFree (some s)
  IsFree-permits s positive = free (sem.acquire_owned s) refl
    where
      free : (o : Option sem.State) → sem.acquire_owned s ≡ o → is_some (with_guard sem o) ≡ true
      free none e =
          absurd (
            let z : sem.permits s ≡ 0 = (sem.acquire_owned-none s).0 e in
            omega (arith, z, positive))
      free (some t) e = refl

  not-IsFree : (s : sem.State) → IsFree (some s) ⊎ (sem.permits s ≡ 0)
  not-IsFree s = elim (Option-cases (sem.acquire_owned s)) [
    | inl e ↦ inr ((sem.acquire_owned-none s).0 e)
    | inr p ↦ inl (rw (p.1) refl)
  ]

  All-In : {A : Type 0} (P : A → Type 0) (xs : List A) (x : A) → All P xs → In x xs → P x
  All-In P [] x h i = absurd i
  All-In P (y ∷ xs) x h (inl e) = subst P (sym e) h.0
  All-In P (y ∷ xs) x h (inr i) = All-In P xs x h.1 i

  -- In every run a task that asks for a guard gets one at once, or some task holds one and the drop
  -- of any guard that is held lets it in: no permit is ever lost.
  pub acquire-progress :
      (t : LimitedTasks sem)
      → Reach sem limit t
      → IsFree t.limiter
        ⊎ ((0 < length t.running)
            × ((g : ConcurrencyGuard) → In g t.running → IsFree (drop_guard sem g t.limiter)))
  acquire-progress t r = progress t.limiter t.running (Reach-IsCounted r)
    where
      progress :
          (l : ConcurrencyLimiter sem) (gs : List ConcurrencyGuard)
          → IsCounted (record { limiter = l; waiting = 0; running = gs })
          → IsFree l
            ⊎ ((0 < length gs) × ((g : ConcurrencyGuard) → In g gs → IsFree (drop_guard sem g l)))
      progress none gs h = inl refl
      progress (some s) gs h = elim (not-IsFree s) [
        | inl free ↦ inl free
        | inr none_left ↦ inr (
          omega (arith, h.0, h.2, none_left),
          λ g i.
              rw (All-In (λ (g : ConcurrencyGuard). g.holds_permit ≡ true) gs g h.1 i)
                (IsFree-permits (sem.release s) (omega (arith, sem.permits-release s))),
        )
      ]
