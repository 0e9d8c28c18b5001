-- ===== src/Ocicas/Index/Sums.antt =====
-- What the sums of the chunks and of the files come to.
use task_rs.Base.{
  ℕ, ◌+◌, ◌<◌, ◌≡◌, refl, sym, ap, subst, ◌∙◌, ◌↔◌, inl, inr, Bool, none, some, List, [], ◌∷◌,
  arith, ltb, ℤ, pos, checked_add, i64_half, ok, ◌>>=◌, ok-injective, All, Bool-cases,
  some-injective, ltb→lt, not_ltb→le,
}
use task_rs.Glob.Path.{is_empty}
use task_rs.Ocicas.Index.{
  max_chunk_size, ChunkRef, FileEntry, chunks_overflow, stream_loop, chunk_refusal, ok_or,
  chunks_loop,
}
use task_rs.Ocicas.Index.Valid.{
  count, IsValidFile, IsValidChunk, needed, covered, Within-count, positive-count,
  chunk_refusal-none, unless-ok,
}

sum_step :
    (n m : ℕ) (cs : List ChunkRef) (s : ℤ)
    → ((ok_or (checked_add (pos n) (pos m)) chunks_overflow >>= λ sum. chunks_loop sum cs) ≡ ok s)
      ↔ ((n + m < i64_half) × (chunks_loop (pos (n + m)) cs ≡ ok s))
sum_step n m cs s = elim (Bool-cases (ltb (n + m) i64_half)) [
  | inl e ↦ rw e (λ h. (ltb→lt _ _ e, h), λ h. h.1)
  | inr e ↦ rw e (
    λ h. absurd (cc h),
    λ h. absurd (let l = h.0 in let g = not_ltb→le _ _ e in omega (arith, l, g)),
  )
]

-- The loop over the chunks, from a sum.
unfoldable pub Sums : ℕ → List ChunkRef → ℤ → Type 0
Sums n cs s = All IsValidChunk cs × ((n + covered cs < i64_half) × (s ≡ pos (n + covered cs)))

pub chunks_loop-ok :
    (n : ℕ) (cs : List ChunkRef) (s : ℤ)
    → n < i64_half
    → (chunks_loop (pos n) cs ≡ ok s) ↔ Sums n cs s
unfolding chunks_loop Sums covered
chunks_loop-ok n [] s h = (
  λ e. (tt, (omega (arith, h), sym (ok-injective e) ∙ ap pos (omega arith))),
  λ v. ap ok (ap pos (omega arith) ∙ sym v.1.1),
)
chunks_loop-ok n (c ∷ cs) s h =
    let first = chunk_refusal-none c in
    let step =
      unless-ok (chunk_refusal c)
        (ok_or (checked_add (pos n) c.raw_size) chunks_overflow >>= λ sum. chunks_loop sum cs) s in
    let sums = λ (v : IsValidChunk c).
      subst
        (λ (z : ℤ).
          ((ok_or (checked_add (pos n) z) chunks_overflow >>= λ sum. chunks_loop sum cs) ≡ ok s) ↔ (
            (n + count c.raw_size < i64_half)
            × (chunks_loop (pos (n + count c.raw_size)) cs ≡ ok s)))
        (sym (Within-count max_chunk_size c.raw_size v.raw_within).0)
        (sum_step n (count c.raw_size) cs s) in
    let rest =
      λ (l : n + count c.raw_size < i64_half). chunks_loop-ok (n + count c.raw_size) cs s l in
    (
      λ e.
          let valid = first.0 ((step.0 e).0) in
          let (fits, later) = (sums valid).0 ((step.0 e).1) in
          let (all_valid, sum) = (rest fits).0 later in
          ((valid, all_valid), (omega (arith, sum.0), sum.1 ∙ ap pos (omega arith))),
      λ v.
          let fits : n + count c.raw_size < i64_half = omega (arith, v.1.0) in
          step.1 (
            first.1 v.0.0,
            (sums v.0.0).1
                (fits, (rest fits).1 (v.0.1, (omega (arith, v.1.0), v.1.1 ∙ ap pos (omega arith)))),
          ),
    )

-- The loop over the files, from a sum.
stream_loop-none : (fs : List FileEntry) → stream_loop none fs ≡ none
unfolding stream_loop
stream_loop-none [] = refl
stream_loop-none (f ∷ fs) = elim (Bool-cases (is_empty f.symlink)) [
  | inl e ↦ rw e (stream_loop-none fs)
  | inr e ↦ rw e (stream_loop-none fs)
]

pub stream_loop-ok :
    (windows : Bool) (n : ℕ) (fs : List FileEntry) (s : ℤ)
    → All (IsValidFile windows) fs
    → n < i64_half
    → (stream_loop (some (pos n)) fs ≡ some s)
      ↔ ((n + needed fs < i64_half) × (s ≡ pos (n + needed fs)))
unfolding stream_loop needed
stream_loop-ok windows n [] s v h = (
  λ e. (omega (arith, h), sym (some-injective e) ∙ ap pos (omega arith)),
  λ e. ap some (ap pos (omega arith) ∙ sym e.1),
)
stream_loop-ok windows n (f ∷ fs) s v h = elim (Bool-cases (is_empty f.symlink)) [
  | inr e ↦ rw e (stream_loop-ok windows n fs s v.1 h)
  | inl e ↦ rw e (
      subst
        (λ (z : ℤ). (stream_loop (checked_add (pos n) z) fs ≡ some s) ↔ (
          (n + (count f.size + needed fs) < i64_half) × (s ≡ pos (n + (count f.size + needed fs)))))
        (sym (positive-count f.size v.0.size_positive))
        (elim (Bool-cases (ltb (n + count f.size) i64_half)) [
          | inl fits ↦ rw fits (
              let rest = stream_loop-ok windows (n + count f.size) fs s v.1 (ltb→lt _ _ fits) in
              (
                λ q. (omega (arith, (rest.0 q).0), (rest.0 q).1 ∙ ap pos (omega arith)),
                λ q. rest.1 (omega (arith, q.0), q.1 ∙ ap pos (omega arith)),
              ))
          | inr big ↦
              rw (big, stream_loop-none fs)
                (
                  λ q. absurd (cc q),
                  λ q. absurd (let l = q.0 in let g = not_ltb→le _ _ big in omega (arith, l, g)),
                )
        ]))
]
