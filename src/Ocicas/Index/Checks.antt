-- ===== src/Ocicas/Index/Checks.antt =====
-- What `unmarshal_index` lets through.
use task_rs.Base.{
  ℕ, zero, suc, ◌+◌, ◌≤◌, ◌<◌, ◌≡◌, refl, sym, ap, subst, ◌∙◌, ◌↔◌, inl, inr, Bool, true, false,
  not, Option, some, List, [], ◌∷◌, arith, ltb, leb, codes, ◌=ₜ◌, =ₜ_iff, take, length, ℤ, pos,
  negsuc, ◌=ℤ◌, i64_half, ok, ◌>>=◌, ◌>>◌, guard, ok-injective, All, Bool-cases, min, ==_iff,
  leb→le, not_leb→lt, lt→ltb, >>=-ok, guard-ok,
}
use task_rs.Ocicas.Index.{
  max_index_size, Index, new, files_overflow, undecodable, oversized, no_json, stream_loop,
  stream_size, same_params, ok_or, files_loop, chunks_loop, after_sums, after_chunks, after_files,
  after_format, validated, Stream, read_up_to, zstd_decode_bounded, unmarshal_index,
}
use task_rs.Ocicas.Index.Valid.{
  count, IsValidFile, IsValidChunk, needed, covered, IsValid, ok_or-ok, files_loop-ok,
}
use task_rs.Ocicas.Index.Sums.{Sums, chunks_loop-ok, stream_loop-ok}

=ℤ_iff : (a b : ℤ) → ((a =ℤ b) ≡ true) ↔ (a ≡ b)
=ℤ_iff (pos a) (pos b) = ground (arith, ==_iff a b)
=ℤ_iff (negsuc a) (negsuc b) = ground (arith, ==_iff a b)
=ℤ_iff (pos a) (negsuc b) = (λ h. absurd (cc h), λ h. absurd (cc h))
=ℤ_iff (negsuc a) (pos b) = (λ h. absurd (cc h), λ h. absurd (cc h))

zero_plus : (n : ℕ) → pos (0 + n) ≡ pos n
zero_plus n = ap pos (omega arith)

-- The conditions of a step and of those after it.
Covers : Index → ℤ → Index → Type 0
Covers idx chunked out =
    (needed idx.files < i64_half) × ((chunked ≡ pos (needed idx.files)) × (idx ≡ out))

after_sums-ok :
    (idx out : Index) (chunked need : ℤ)
    → (after_sums idx chunked need ≡ ok out) ↔ ((chunked ≡ need) × (idx ≡ out))
after_sums-ok idx out chunked need =
    let same = =ℤ_iff chunked need in
    elim (Bool-cases (chunked =ℤ need)) [
      | inl e ↦ rw e (λ h. (same.0 e, ok-injective h), λ h. ap ok h.1)
      | inr e ↦ rw e (λ h. absurd (cc h), λ h. absurd (cc (e, same.1 h.0)))
    ]

after_chunks-ok :
    (windows : Bool) (idx out : Index) (chunked : ℤ)
    → All (IsValidFile windows) idx.files
    → (after_chunks idx chunked ≡ ok out) ↔ Covers idx chunked out
unfolding after_chunks stream_size Covers
after_chunks-ok windows idx out chunked files = (
  λ e.
      let (need, (n, e')) =
        >>=-ok (ok_or (stream_loop (some (pos 0)) idx.files) files_overflow)
          (λ need. after_sums idx chunked need) out e in
      let found = (stream need).0 ((ok_or-ok _ files_overflow need).0 n) in
      let (same, whole) = (after_sums-ok idx out chunked need).0 e' in
      (omega (arith, found.0), (same ∙ found.1 ∙ zero_plus (needed idx.files), whole)),
  λ h.
      let found : stream_loop (some (pos 0)) idx.files ≡ some (pos (needed idx.files)) =
        (stream (pos (needed idx.files))).1
          (omega (arith, h.0), sym (zero_plus (needed idx.files))) in
      rw found ((after_sums-ok idx out chunked (pos (needed idx.files))).1 (h.1.0, h.1.1)),
)
  where
    stream :
        (s : ℤ)
        → (stream_loop (some (pos 0)) idx.files ≡ some s)
          ↔ ((0 + needed idx.files < i64_half) × (s ≡ pos (0 + needed idx.files)))
    stream s = stream_loop-ok windows 0 idx.files s files (omega arith)

after_files-ok :
    (windows : Bool) (idx out : Index)
    → All (IsValidFile windows) idx.files
    → (after_files idx ≡ ok out) ↔ (
        All IsValidChunk idx.chunks
        × ((covered idx.chunks ≡ needed idx.files) × ((needed idx.files < i64_half) × (idx ≡ out))))
unfolding after_files Sums Covers
after_files-ok windows idx out files = (
  λ e.
      let (chunked, (c, e')) =
        >>=-ok (chunks_loop (pos 0) idx.chunks) (λ chunked. after_chunks idx chunked) out e in
      let sums = (chunks_loop-ok 0 idx.chunks chunked (omega arith)).0 c in
      let rest = (after_chunks-ok windows idx out chunked files).0 e' in
      (
        sums.0,
        (
          pos-injective (sym (zero_plus (covered idx.chunks)) ∙ sym sums.1.1 ∙ rest.1.0),
          (rest.0, rest.1.1),
        ),
      ),
  λ h.
      let sums : chunks_loop (pos 0) idx.chunks ≡ ok (pos (covered idx.chunks)) =
        (chunks_loop-ok 0 idx.chunks (pos (covered idx.chunks)) (omega arith)).1
          (h.0, (omega (arith, h.1.0, h.1.1.0), ap pos (omega arith))) in
      rw sums (
        (after_chunks-ok windows idx out (pos (covered idx.chunks)) files).1
          (h.1.1.0, (ap pos h.1.0, h.1.1.1))),
)
  where
    pos-injective : {a b : ℕ} → pos a ≡ pos b → a ≡ b
    pos-injective e = ap count e

-- Every check of `unmarshal_index` on an index that was read: it returns that index, and exactly
-- when it is of this format, every file has a safe path, a size that is not negative and permission
-- bits only, every chunk is of an allowed size with a digest, and the chunks cover the bytes that
-- the files need, whose sum does not overflow 64 bits.
pub validated_iff :
    (windows : Bool) (idx out : Index)
    → (validated windows idx ≡ ok out) ↔ (IsValid windows idx × (idx ≡ out))
unfolding validated after_format
validated_iff windows idx out = (
  λ e.
      let (version, e1) = guard-ok (idx.version =ℤ pos 2) _ _ out e in
      let (params, e2) = guard-ok (same_params idx.chunker new.chunker) _ _ out e1 in
      let (algo, e3) = guard-ok (idx.compression.algo =ₜ codes "zstd") _ _ out e2 in
      let (u, (f, e4)) = >>=-ok (files_loop windows idx.files) (λ _. after_files idx) out e3 in
      let files = (files_loop-ok windows idx.files u).0 f in
      let (chunks, (cover, (fits, whole))) = (after_files-ok windows idx out files).0 e4 in
      (
        record {
          version_2 = (=ℤ_iff idx.version (pos 2)).0 version;
          same_chunker = params;
          zstd_algo = (=ₜ_iff idx.compression.algo (codes "zstd")).0 algo;
          valid_files = files;
          valid_chunks = chunks;
          chunks_cover = cover;
          no_overflow = fits;
        },
        whole,
      ),
  λ h. rw ((=ℤ_iff idx.version (pos 2)).1 h.0.version_2) (
      rw (h.0.same_chunker) (
        rw ((=ₜ_iff idx.compression.algo (codes "zstd")).1 h.0.zstd_algo) (
          rw ((files_loop-ok windows idx.files tt).1 h.0.valid_files) (
            (after_files-ok windows idx out h.0.valid_files).1
              (h.0.valid_chunks, (h.0.chunks_cover, (h.0.no_overflow, h.1))))))),
)

length-take : (n : ℕ) (s : List ℕ) → n ≤ length s → length (take n s) ≡ n
length-take zero s h = refl
length-take (suc n) [] h = omega (arith, h)
length-take (suc n) (c ∷ s) h = omega (arith, length-take n s (omega (arith, h)))

module _ (decoder : List ℕ → Option Stream) where
  read_up_to-ok :
      (s : Stream) (max : ℕ) (out : List ℕ)
      → ((read_up_to decoder (suc max) s >>= λ o.
            guard (not (ltb max (length o))) oversized >> ok o)
          ≡ ok out)
        ↔ ((s.fails ≡ false) × ((s.bytes ≡ out) × (length out ≤ max)))
  read_up_to-ok s max out = elim (Bool-cases (leb (suc max) (length s.bytes))) [
    | inl e ↦ rw e (
        rw
          (too_long (length (take (suc max) s.bytes))
            (length-take (suc max) s.bytes (leb→le _ _ e)))
          (
            λ h. absurd (cc h),
            λ h. absurd (
                let same : length s.bytes ≡ length out = ap (λ (l : List ℕ). length l) h.1.0 in
                omega (arith, same, h.1.1, leb→le _ _ e)),
          ))
    | inr e ↦ rw e (elim (Bool-cases s.fails) [
      | inl f ↦ rw f (λ h. absurd (cc h), λ h. absurd (cc (h.0)))
      | inr f ↦ rw f (
          rw (short (length s.bytes) (not_leb→lt _ _ e)) (
            λ h. (refl, (ok-injective h, fits (ok-injective h) (not_leb→lt _ _ e))),
            λ h. ap ok h.1.0,
          ))
    ])
  ]
    where
      too_long : (n : ℕ) → n ≡ suc max → ltb max n ≡ true
      too_long n h = lt→ltb _ _ (omega (arith, h))

      short : (n : ℕ) → n < suc max → ltb max n ≡ false
      short n h = ground arith

      fits : s.bytes ≡ out → length s.bytes < suc max → length out ≤ max
      fits e h = subst (λ (l : List ℕ). length l ≤ max) e (omega (arith, h))

  -- `zstd_decode_bounded` returns exactly what the decoder reads without an error from the whole
  -- frame, when that is no longer than the bound, and fails otherwise.
  pub zstd_decode_bounded_iff :
      (frame : List ℕ) (max : ℕ) (out : List ℕ)
      → max < 18446744073709551615
      → (zstd_decode_bounded decoder frame max ≡ ok out) ↔ (
          (s : Stream) × ((decoder frame ≡ some s)
            × ((s.fails ≡ false) × ((s.bytes ≡ out) × (length out ≤ max)))))
  unfolding zstd_decode_bounded
  zstd_decode_bounded_iff frame max out h =
      subst
        (λ (n : ℕ).
          ((ok_or (decoder frame) undecodable >>= λ dec.
          read_up_to decoder n dec >>= λ o. guard (not (ltb max (length o))) oversized >> ok o)
            ≡ ok out)
          ↔ ((s : Stream) × ((decoder frame ≡ some s)
                × ((s.fails ≡ false) × ((s.bytes ≡ out) × (length out ≤ max))))))
        (sym limit)
        (
          λ e.
              let (s, (d, e')) = >>=-ok (ok_or (decoder frame) undecodable) _ out e in
              (s, ((ok_or-ok (decoder frame) undecodable s).0 d, (read_up_to-ok s max out).0 e')),
          λ p. rw p.1.0 ((read_up_to-ok p.0 max out).1 p.1.1),
        )
    where
      limit : min (suc max) 18446744073709551615 ≡ suc max
      limit = omega (arith, h)

  -- `unmarshal_index` returns an index exactly when the decoder reads no more than the allowed bytes
  -- from the whole frame without an error, they are read as that index, and the index is valid: of
  -- this format, with safe paths, permission bits only, chunks of allowed sizes, and chunks that
  -- cover the bytes that the files need, whose sum does not overflow 64 bits.
  pub unmarshal_index_iff :
      (from_slice : List ℕ → Option Index) (windows : Bool) (frame : List ℕ) (out : Index)
      → (unmarshal_index decoder from_slice windows frame ≡ ok out) ↔ (
          (s : Stream) × ((decoder frame ≡ some s)
            × ((s.fails ≡ false)
                × ((length s.bytes ≤ max_index_size)
                    × ((from_slice s.bytes ≡ some out) × IsValid windows out)))))
  unfolding unmarshal_index
  unmarshal_index_iff from_slice windows frame out = (
    λ e.
        let (raw, (d, e1)) =
          >>=-ok (zstd_decode_bounded decoder frame max_index_size)
            (λ raw. ok_or (from_slice raw) no_json >>= λ idx. validated windows idx) out e in
        let (s, (found, (clean, (same, short)))) =
          (zstd_decode_bounded_iff frame max_index_size raw (omega arith)).0 d in
        let (idx, (j, e2)) =
          >>=-ok (ok_or (from_slice raw) no_json) (λ idx. validated windows idx) out e1 in
        let (valid, whole) = (validated_iff windows idx out).0 e2 in
        (
          s,
          (
            found,
            (
              clean,
              (
                subst (λ (l : List ℕ). length l ≤ max_index_size) (sym same) short,
                (
                  ap from_slice same ∙ (ok_or-ok (from_slice raw) no_json idx).0 j ∙ ap some whole,
                  subst (IsValid windows) whole valid,
                ),
              ),
            ),
          ),
        ),
    λ p.
        let (s, (found, (clean, (short, (json, valid))))) = p in
        let read : zstd_decode_bounded decoder frame max_index_size ≡ ok s.bytes =
          (zstd_decode_bounded_iff frame max_index_size s.bytes (omega arith)).1
            (s, (found, (clean, (refl, short)))) in
        rw read (rw json ((validated_iff windows out out).1 (valid, refl))),
  )
