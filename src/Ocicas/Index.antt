-- ===== src/Ocicas/Index.antt =====
-- The index of an artifact: crates/ocicas/src/index.rs, and `digest_hex` of cas.rs. The zstd
-- decoder and the JSON reader are parameters.
pub mod Valid
pub mod Sums
pub mod Checks
pub mod Paths
use task_rs.Base.{
  ℕ, zero, suc, ◌+◌, ◌≡◌, Bool, true, false, not, ◌&&◌, ◌||◌, Option, none, some, List, [], ◌∷◌,
  ltb, leb, ◌==◌, if◌then◌else◌, Text, codes, ◌=ₜ◌, any, all, min, take, length, is_some, ℤ, pos,
  negsuc, is_negative, exceeds, ◌=ℤ◌, checked_add, Result, ok, err, ◌>>=◌, ◌>>◌, guard,
}
use task_rs.Glob.Path.{is_empty, split}
use task_rs.Taskfile.Names.{strip_prefix}
use task_rs.Ocicas.Names.{NameError, head_is, components}

abbrev pub max_index_size : ℕ
max_index_size = 1073741824

abbrev pub max_chunk_size : ℕ
max_chunk_size = 4194304

abbrev pub max_chunk_blob : ℕ
max_chunk_blob = 8388608

pub record ChunkRef : Type 0 where
  pub digest : Text
  pub size : ℤ
  pub raw_size : ℤ

pub record FileEntry : Type 0 where
  pub path : Text
  pub mode : ℕ
  pub size : ℤ
  pub symlink : Text

pub record ChunkerParams : Type 0 where
  pub algo : Text
  pub min : ℤ
  pub avg : ℤ
  pub max : ℤ

pub record Compression : Type 0 where
  pub algo : Text
  pub level : ℤ

pub record Index : Type 0 where
  pub version : ℤ
  pub chunker : ChunkerParams
  pub compression : Compression
  pub transparent : Bool
  pub chunks : List ChunkRef
  pub files : List FileEntry

-- `Index::new`
abbrev pub new : Index
new = record {
  version = pos 2;
  chunker = record {
    algo = codes "fastcdc-v2020";
    min = pos 262144;
    avg = pos 1048576;
    max = pos 4194304;
  };
  compression = record { algo = codes "zstd"; level = pos 3 };
  transparent = false;
  chunks = [];
  files = [];
}

pub data IndexError : Type 0 where
  undecodable oversized no_json : IndexError
  version_unsupported : ℤ → IndexError
  chunker_unsupported : ChunkerParams → IndexError
  compression_unsupported : Text → IndexError
  path_unsafe negative_file invalid_mode : Text → IndexError
  negative_chunk : IndexError
  chunk_too_big raw_too_big malformed_digest : Text → IndexError
  chunks_overflow files_overflow : IndexError
  uncovered : ℤ → ℤ → IndexError

-- `Index::stream_size`
abbrev pub and_add : Option ℤ → ℤ → Option ℤ
and_add none size = none
and_add (some sum) size = checked_add sum size

unfoldable pub stream_loop : Option ℤ → List FileEntry → Option ℤ
stream_loop sum [] = sum
stream_loop sum (f ∷ files) =
    stream_loop (if is_empty f.symlink then and_add sum f.size else sum) files

unfoldable pub stream_size : Index → Option ℤ
unfolding stream_loop
stream_size idx = stream_loop (some (pos 0)) idx.files

abbrev pub is_hex : ℕ → Bool
is_hex b = (leb 48 b && leb b 57) || (leb 97 b && leb b 102)

abbrev pub is_digest : Text → Bool
is_digest hex = length hex == 64 && all is_hex hex

unfoldable pub digest_hex : Text → Option Text
unfolding strip_prefix
digest_hex digest = elim (strip_prefix (codes "sha256:") digest) [
  | none ↦ none
  | some hex ↦ if is_digest hex then some hex else none
]

abbrev pub is_ok : {E A : Type 0} → Result E A → Bool
is_ok (ok a) = true
is_ok (err e) = false

abbrev pub is_dropped : Text → Bool
is_dropped part = is_empty part || (part =ₜ codes "." || part =ₜ codes "..")

unfoldable pub safe_rel_path : Bool → Text → Bool
unfolding split ◌=ₜ◌ components
safe_rel_path windows p =
    if is_empty p || head_is (λ c. c == b'/') p
    then false
    else not (any is_dropped (split p)) && is_ok (components windows p false)

abbrev pub same_params : ChunkerParams → ChunkerParams → Bool
same_params a b = a.algo =ₜ b.algo && (a.min =ℤ b.min && (a.avg =ℤ b.avg && a.max =ℤ b.max))

-- Why a file is refused; the bits above the permissions are those from 512 on.
unfoldable pub file_refusal : Bool → FileEntry → Option IndexError
unfolding safe_rel_path
file_refusal windows f =
    if not (safe_rel_path windows f.path)
    then some (path_unsafe f.path)
    else if is_negative f.size
    then some (negative_file f.path)
    else if leb 512 f.mode
    then some (invalid_mode f.path)
    else none

unfoldable pub chunk_refusal : ChunkRef → Option IndexError
unfolding digest_hex
chunk_refusal c =
    if is_negative c.raw_size || is_negative c.size
    then some negative_chunk
    else if exceeds c.size max_chunk_blob
    then some (chunk_too_big c.digest)
    else if exceeds c.raw_size max_chunk_size
    then some (raw_too_big c.digest)
    else if not (is_some (digest_hex c.digest))
    then some (malformed_digest c.digest)
    else none

abbrev pub unless : {A : Type 0} → Option IndexError → Result IndexError A → Result IndexError A
unless none rest = rest
unless (some e) rest = err e

-- `Option::ok_or_else`
abbrev pub ok_or : {A : Type 0} → Option A → IndexError → Result IndexError A
ok_or none e = err e
ok_or (some a) e = ok a

unfoldable pub files_loop : Bool → List FileEntry → Result IndexError (Unit {0})
unfolding file_refusal
files_loop windows [] = ok tt
files_loop windows (f ∷ files) = unless (file_refusal windows f) (files_loop windows files)

unfoldable pub chunks_loop : ℤ → List ChunkRef → Result IndexError ℤ
unfolding chunk_refusal
chunks_loop chunked [] = ok chunked
chunks_loop chunked (c ∷ chunks) =
    unless (chunk_refusal c)
      (ok_or (checked_add chunked c.raw_size) chunks_overflow >>= λ sum. chunks_loop sum chunks)

-- The rest of `unmarshal_index` after each of its steps, the last one first.
abbrev pub after_sums : Index → ℤ → ℤ → Result IndexError Index
after_sums idx chunked need = guard (chunked =ℤ need) (uncovered chunked need) >> ok idx

unfoldable pub after_chunks : Index → ℤ → Result IndexError Index
unfolding stream_size
after_chunks idx chunked =
    ok_or (stream_size idx) files_overflow >>= λ need. after_sums idx chunked need

unfoldable pub after_files : Index → Result IndexError Index
unfolding chunks_loop after_chunks
after_files idx = chunks_loop (pos 0) idx.chunks >>= λ chunked. after_chunks idx chunked

unfoldable pub after_format : Bool → Index → Result IndexError Index
unfolding files_loop after_files
after_format windows idx = files_loop windows idx.files >> after_files idx

unfoldable pub validated : Bool → Index → Result IndexError Index
unfolding after_format ◌=ₜ◌
validated windows idx = do
  guard (idx.version =ℤ pos 2) (version_unsupported idx.version)
  guard (same_params idx.chunker new.chunker) (chunker_unsupported idx.chunker)
  guard (idx.compression.algo =ₜ codes "zstd") (compression_unsupported idx.compression.algo)
  after_format windows idx

-- What the decoder reads from a frame: its bytes, and whether an error follows them.
pub record Stream : Type 0 where
  pub bytes : List ℕ
  pub fails : Bool

module _ (decoder : List ℕ → Option Stream) where
  -- `take(limit).read_to_end`: an error past the limit is not read.
  abbrev pub read_up_to : ℕ → Stream → Result IndexError (List ℕ)
  read_up_to limit s =
      if leb limit (length s.bytes)
      then ok (take limit s.bytes)
      else if s.fails
      then err undecodable
      else ok s.bytes

  unfoldable pub zstd_decode_bounded : List ℕ → ℕ → Result IndexError (List ℕ)
  zstd_decode_bounded frame max = do
    dec ← ok_or (decoder frame) undecodable
    out ← read_up_to (min (suc max) 18446744073709551615) dec
    guard (not (ltb max (length out))) oversized
    ok out

  unfoldable pub unmarshal_index : (List ℕ → Option Index) → Bool → List ℕ → Result IndexError Index
  unfolding zstd_decode_bounded validated
  unmarshal_index from_slice windows frame = do
    raw ← zstd_decode_bounded frame max_index_size
    idx ← ok_or (from_slice raw) no_json
    validated windows idx
