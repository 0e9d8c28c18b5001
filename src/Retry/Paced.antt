-- ===== src/Retry/Paced.antt =====
-- How often a request is made, and when.
use task_rs.Base.{
  ℕ, zero, suc, ◌+◌, ◌≤◌, ◌<◌, ◌≡◌, refl, sym, subst, ap, ◌∙◌, ◌⊎◌, ◌*◌, min, Text, inl, inr, true,
  false, List, [], ◌∷◌, arith, Bool-cases,
}
use task_rs.Retry.{
  Outcome, success, failure, network, io_error, json, format, unrecoverable, Run, again, prepend,
  retry_loop, retry_paced, saturating_mul, is_unreachable,
}

-- The first `n` pauses: each is twice the one before it, up to the longest duration.
unfoldable pub doubling : ℕ → ℕ → List ℕ
doubling zero pause = []
doubling (suc n) pause = pause ∷ doubling n (min (pause * 2) 18446744073709551615999999999)

-- The attempt failed with an error of the network.
abbrev pub DidNotReach : {T X : Type 0} → Outcome T X → Type 0
DidNotReach o = (message : Text) × (o ≡ failure (network message))

again-DidNotReach : {T X : Type 0} (o : Outcome T X) → again o ≡ true → DidNotReach o
unfolding again is_unreachable
again-DidNotReach (success t) e = cc e
again-DidNotReach (failure (network message)) e = (message, refl)
again-DidNotReach (failure (io_error x)) e = cc e
again-DidNotReach (failure (json x)) e = cc e
again-DidNotReach (failure (format message)) e = cc e
again-DidNotReach (failure (unrecoverable message)) e = cc e

again-not_DidNotReach : {T X : Type 0} (o : Outcome T X) → again o ≡ false → ¬ DidNotReach o
unfolding again is_unreachable
again-not_DidNotReach o e (message, q) = cc (sym e ∙ ap again q)

module _ {T X : Type 0} (attempt : ℕ → Outcome T X) where
  -- What a run of at most `left` more attempts, from number `n` on, has done.
  pub record IsPaced (left pause n : ℕ) (r : Run T X) : Type 0 where
    pub more : ℕ
    pub bounded : more ≤ left
    pub counted : r.attempts ≡ suc more
    pub last : r.result ≡ attempt (n + more)
    pub waited : r.pauses ≡ doubling more pause
    pub failed_before : (k : ℕ) → k < more → DidNotReach (attempt (n + k))
    pub final : (more ≡ left) ⊎ (¬ DidNotReach (attempt (n + more)))

  plus_zero : (n : ℕ) → n + 0 ≡ n
  plus_zero n = omega arith

  -- A run of one attempt.
  once :
      (left pause n : ℕ)
      → (0 ≡ left) ⊎ (¬ DidNotReach (attempt (n + 0)))
      → IsPaced left pause n (record { result = attempt n; attempts = 1; pauses = [] })
  once left pause n f = record {
    more = 0;
    bounded = omega arith;
    counted = refl;
    last = ap attempt (sym (plus_zero n));
    waited = unfold doubling in refl;
    failed_before = λ k h. absurd (omega (arith, h));
    final = f;
  }

  shifted : (n k : ℕ) → suc n + k ≡ n + suc k
  shifted n k = omega arith

  -- An attempt that failed, before a run.
  later :
      (left pause n : ℕ) (r : Run T X)
      → DidNotReach (attempt n)
      → IsPaced left (saturating_mul pause 2) (suc n) r
      → IsPaced (suc left) pause n (prepend pause r)
  later left pause n r e p = record {
    more = suc p.more;
    bounded = omega (arith, p.bounded);
    counted = ap suc p.counted;
    last = p.last ∙ ap attempt (shifted n p.more);
    waited = unfold doubling saturating_mul in ap (λ (l : List ℕ). pause ∷ l) p.waited;
    failed_before = λ k h. failed k h;
    final = elim p.final [
      | inl a ↦ inl (ap suc a)
      | inr b ↦ inr (subst (λ (m : ℕ). ¬ DidNotReach (attempt m)) (shifted n p.more) b)
    ];
  }
    where
      failed : (k : ℕ) → k < suc p.more → DidNotReach (attempt (n + k))
      failed zero h = subst (λ (m : ℕ). DidNotReach (attempt m)) (sym (plus_zero n)) e
      failed (suc k) h =
          subst (λ (m : ℕ). DidNotReach (attempt m)) (shifted n k)
            (p.failed_before k (omega (arith, h)))

  retry_loop-IsPaced : (left pause n : ℕ) → IsPaced left pause n (retry_loop attempt left pause n)
  unfolding retry_loop
  retry_loop-IsPaced zero pause n = once zero pause n (inl refl)
  retry_loop-IsPaced (suc left) pause n = elim (Bool-cases (again (attempt n))) [
    | inr e ↦
        rw e
          (once (suc left) pause n (inr (rw (plus_zero n) (again-not_DidNotReach (attempt n) e))))
    | inl e ↦ rw e (
        later left pause n _ (again-DidNotReach (attempt n) e)
          (retry_loop-IsPaced left (saturating_mul pause 2) (suc n)))
  ]

  -- A request is made one to four times: again only after an attempt that failed with an error of the
  -- network, after pauses that double from the first one up to the longest duration, and the run's
  -- result is that of its last attempt. The run ends at the fourth attempt or at one that is a
  -- success or an error of another kind.
  pub retry_paced-IsPaced : (first : ℕ) → IsPaced 3 first 0 (retry_paced first attempt)
  retry_paced-IsPaced first = unfold retry_paced in retry_loop-IsPaced 3 first 0
