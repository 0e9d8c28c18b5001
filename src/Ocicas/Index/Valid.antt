-- ===== src/Ocicas/Index/Valid.antt =====
-- A valid index, and the checks on one file and on one chunk of it.
use task_rs.Base.{
  ℕ, ◌+◌, ◌≤◌, ◌<◌, ◌≡◌, refl, ap, ◌↔◌, Bool, true, false, Option, none, some, List, [], ◌∷◌, arith,
  if◌then◌else◌, codes, is_some, ℤ, pos, negsuc, is_negative, exceeds, i64_half, Result, ok,
  ok-injective, All, some-injective,
}
use task_rs.Glob.Path.{is_empty}
use task_rs.Ocicas.Index.{
  max_chunk_size, max_chunk_blob, ChunkRef, FileEntry, Index, new, IndexError, digest_hex,
  safe_rel_path, same_params, file_refusal, chunk_refusal, unless, ok_or, files_loop,
}

-- The number of a size that is not negative.
abbrev pub count : ℤ → ℕ
count (pos n) = n
count (negsuc n) = 0

-- A size from 0 to a bound.
abbrev pub Within : ℕ → ℤ → Type 0
Within bound (pos n) = n ≤ bound
Within bound (negsuc n) = ⊥

pub record IsValidFile (windows : Bool) (f : FileEntry) : Type 0 where
  pub safe : safe_rel_path windows f.path ≡ true
  pub size_positive : is_negative f.size ≡ false
  pub permissions : f.mode < 512

pub record IsValidChunk (c : ChunkRef) : Type 0 where
  pub size_within : Within max_chunk_blob c.size
  pub raw_within : Within max_chunk_size c.raw_size
  pub has_digest : is_some (digest_hex c.digest) ≡ true

-- The bytes that the files need; a symlink needs none.
unfoldable pub needed : List FileEntry → ℕ
needed [] = 0
needed (f ∷ files) = if is_empty f.symlink then count f.size + needed files else needed files

-- The bytes that the chunks cover.
unfoldable pub covered : List ChunkRef → ℕ
covered [] = 0
covered (c ∷ chunks) = count c.raw_size + covered chunks

pub record IsValid (windows : Bool) (idx : Index) : Type 0 where
  pub version_2 : idx.version ≡ pos 2
  pub same_chunker : same_params idx.chunker new.chunker ≡ true
  pub zstd_algo : idx.compression.algo ≡ codes "zstd"
  pub valid_files : All (IsValidFile windows) idx.files
  pub valid_chunks : All IsValidChunk idx.chunks
  pub chunks_cover : covered idx.chunks ≡ needed idx.files
  pub no_overflow : needed idx.files < i64_half

pub file_refusal-none :
    (windows : Bool) (f : FileEntry) → (file_refusal windows f ≡ none) ↔ IsValidFile windows f
unfolding file_refusal
file_refusal-none windows f = (
  λ h. record {
    safe = ground (arith, h);
    size_positive = ground (arith, h);
    permissions = ground (arith, h);
  },
  λ v. ground (arith, v.safe, v.size_positive, v.permissions),
)

pub Within-iff :
    (bound : ℕ) (z : ℤ) → Within bound z ↔ ((is_negative z ≡ false) × (exceeds z bound ≡ false))
Within-iff bound (pos n) = ground arith
Within-iff bound (negsuc n) = (λ w. absurd w, λ h. cc (h.0))

pub Within-count : (bound : ℕ) (z : ℤ) → Within bound z → (z ≡ pos (count z)) × (count z ≤ bound)
Within-count bound (pos n) w = (refl, w)
Within-count bound (negsuc n) w = absurd w

pub positive-count : (z : ℤ) → is_negative z ≡ false → z ≡ pos (count z)
positive-count (pos n) h = refl
positive-count (negsuc n) h = absurd (cc h)

pub chunk_refusal-none : (c : ChunkRef) → (chunk_refusal c ≡ none) ↔ IsValidChunk c
unfolding chunk_refusal
chunk_refusal-none c = (
  λ h. record {
    size_within = (Within-iff max_chunk_blob c.size).1 (ground (arith, h), ground (arith, h));
    raw_within = (Within-iff max_chunk_size c.raw_size).1 (ground (arith, h), ground (arith, h));
    has_digest = ground (arith, h);
  },
  λ v.
      let s = (Within-iff max_chunk_blob c.size).0 v.size_within in
      let r = (Within-iff max_chunk_size c.raw_size).0 v.raw_within in
      ground (arith, s, r, v.has_digest),
)

pub unless-ok :
    {A : Type 0} (r : Option IndexError) (m : Result IndexError A) (a : A)
    → (unless r m ≡ ok a) ↔ ((r ≡ none) × (m ≡ ok a))
unless-ok none m a = (λ e. (refl, e), λ h. h.1)
unless-ok (some x) m a = (λ e. absurd (cc e), λ h. absurd (cc (h.0)))

pub ok_or-ok :
    {A : Type 0} (o : Option A) (x : IndexError) (a : A) → (ok_or o x ≡ ok a) ↔ (o ≡ some a)
ok_or-ok none x a = (λ e. absurd (cc e), λ e. absurd (cc e))
ok_or-ok (some b) x a = (λ e. ap some (ok-injective e), λ e. ap ok (some-injective e))

pub files_loop-ok :
    (windows : Bool) (fs : List FileEntry) (u : Unit {0})
    → (files_loop windows fs ≡ ok u) ↔ All (IsValidFile windows) fs
unfolding files_loop
files_loop-ok windows [] u = (λ _. tt, λ _. refl)
files_loop-ok windows (f ∷ fs) u =
    let first = file_refusal-none windows f in
    let step = unless-ok (file_refusal windows f) (files_loop windows fs) u in
    let rest = files_loop-ok windows fs u in
    (λ e. (first.0 ((step.0 e).0), rest.0 ((step.0 e).1)), λ h. step.1 (first.1 h.0, rest.1 h.1))
