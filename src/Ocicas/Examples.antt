-- ===== src/Ocicas/Examples.antt =====
-- Runs of the parts of the store, and their theorems at concrete inputs.
use task_rs.Base.{
  arith, ℕ, ◌≤◌, ◌<◌, ◌≡◌, refl, ◌↔◌, true, false, Option, none, some, List, [], ◌∷◌, Text, codes,
  ◌=ₜ◌, length, All, pos, Result, ok, err,
}
use task_rs.Glob.Path.{split, join}
use task_rs.Taskfile.Names.{strip_prefix}
use task_rs.Ocicas.Names.{
  outside, aliased, components, name_len, parts_loop, refusal, split_at, windows_aliased,
  trim_end_spaces, before_dot,
}
use task_rs.Ocicas.Names.Plain.{IsPlain, components-IsPlain}
use task_rs.Ocicas.Names.Joined.{components-components}
use task_rs.Ocicas.Entries.{
  Entry, parent_is_link, twice, check_link_parents, check_unique, parents_loop, unique_loop,
  links_of, holds, linked_parent, ◌=ₚ◌,
}
use task_rs.Ocicas.Entries.Parents.{NoneBelowLinks, Distinct, check_link_parents_iff}
use task_rs.Ocicas.Resolve.{
  Pending, dir, link, inside, outside, ResolveError, PendingMap, pop, expand, path_components,
  strip_components, extends, find_pending, has_below, node, walk, resolve_hops, resolve_link,
}
use task_rs.Ocicas.Resolve.Settled.{Settled, nil-Settled, resolve_link-Settled}
use task_rs.Ocicas.Index.{
  FileEntry, Index, new, max_index_size, Stream, stream_loop, stream_size, digest_hex,
  safe_rel_path, file_refusal, chunk_refusal, files_loop, chunks_loop, after_chunks, after_files,
  after_format, validated, zstd_decode_bounded, unmarshal_index, uncovered,
}
use task_rs.Ocicas.Index.Valid.{IsValid, IsValidFile}
use task_rs.Ocicas.Index.Checks.{unmarshal_index_iff}
use task_rs.Ocicas.Assemble.{all_parts, with_links, checked_parts}
use task_rs.Ocicas.Assemble.Checked.{paths_of, NoneBelowSymlinks, checked_parts-IsSafe}

dotted_name : components false (codes "./a//b/") false ≡ ok (codes "a" ∷ codes "b" ∷ [])
unfolding components name_len parts_loop split_at refusal ◌=ₜ◌ windows_aliased
dotted_name = refl

parent_name : components false (codes "a/../b") false ≡ err outside
unfolding components name_len parts_loop split_at refusal ◌=ₜ◌ windows_aliased
parent_name = refl

device_name : components true (codes "a/com1.txt") false ≡ err aliased
unfolding components name_len parts_loop split_at refusal ◌=ₜ◌ windows_aliased trim_end_spaces
    before_dot
device_name = refl

components-IsPlain_example : (0 < 2) × All (IsPlain false) (codes "a" ∷ codes "b" ∷ [])
components-IsPlain_example =
    components-IsPlain false (codes "./a//b/") false (codes "a" ∷ codes "b" ∷ []) dotted_name

components-components_example :
    components false (join (codes "a" ∷ codes "b" ∷ [])) true ≡ ok (codes "a" ∷ codes "b" ∷ [])
components-components_example =
    components-components false (codes "./a//b/") false true (codes "a" ∷ codes "b" ∷ [])
      dotted_name

-- A symlink, and a file below a directory of another name.
abbrev apart : List Entry
apart = (codes "l" ∷ [], true) ∷ (codes "d" ∷ codes "l" ∷ [], false) ∷ []

abbrev through : List Entry
through = (codes "l" ∷ codes "x" ∷ [], false) ∷ (codes "l" ∷ [], true) ∷ []

apart_accepted : check_link_parents apart ≡ ok tt
unfolding check_link_parents parents_loop links_of linked_parent holds ◌=ₚ◌ ◌=ₜ◌
apart_accepted = refl

through_refused :
    check_link_parents through ≡ err (parent_is_link (codes "l" ∷ codes "x" ∷ []) (codes "l"))
unfolding check_link_parents parents_loop links_of linked_parent holds ◌=ₚ◌ ◌=ₜ◌
through_refused = refl

twice_refused :
    check_unique ((codes "a" ∷ []) ∷ (codes "a" ∷ []) ∷ []) ≡ err (twice (codes "a" ∷ []))
unfolding check_unique unique_loop holds ◌=ₚ◌ ◌=ₜ◌
twice_refused = refl

check_link_parents_iff_example : (check_link_parents apart ≡ ok tt) ↔ NoneBelowLinks apart
check_link_parents_iff_example = check_link_parents_iff apart

-- A link `l` to the directory `d`, and nothing on the disk.
abbrev pending_set : PendingMap
pending_set =
    (codes "d" ∷ [], dir)
    ∷ (codes "l" ∷ [], link (some (codes "d/../d")))
    ∷ (codes "m" ∷ [], link (some (codes "l/x")))
    ∷ []

abbrev empty_disk : List Text → Result ResolveError (Option Pending)
empty_disk path = ok none

abbrev base : Text
base = codes "/r"

run_link :
    resolve_link base pending_set empty_disk (codes "m" ∷ []) (some (codes "l/x"))
    ≡ ok (inside (codes "d" ∷ codes "x" ∷ []))
unfolding resolve_link resolve_hops walk node find_pending has_below extends expand path_components
    strip_components pop split ◌=ₜ◌ ◌=ₚ◌
run_link = refl

absolute_link :
    resolve_link base pending_set empty_disk (codes "m" ∷ []) (some (codes "/r/d/y"))
    ≡ ok (inside (codes "d" ∷ codes "y" ∷ []))
unfolding resolve_link resolve_hops walk node find_pending has_below extends expand path_components
    strip_components pop split ◌=ₜ◌ ◌=ₚ◌
absolute_link = refl

leaving_link :
    resolve_link base pending_set empty_disk (codes "m" ∷ []) (some (codes "../x")) ≡ ok outside
unfolding resolve_link resolve_hops walk node find_pending has_below extends expand path_components
    strip_components pop split ◌=ₜ◌ ◌=ₚ◌
leaving_link = refl

at_root : Settled base pending_set empty_disk []
at_root = nil-Settled base pending_set empty_disk

resolve_link-Settled_example : Settled base pending_set empty_disk (codes "d" ∷ codes "x" ∷ [])
unfolding pop
resolve_link-Settled_example =
    resolve_link-Settled base pending_set empty_disk (codes "m" ∷ []) (some (codes "l/x"))
      (codes "d" ∷ codes "x" ∷ []) at_root run_link

abbrev digest : Text
digest = codes "sha256:0123456789abcdef0123456789abcdef0123456789abcdef0123456789abcdef"

-- A chunk of three bytes for a file of three.
abbrev one_file : Index
one_file = record new {
  chunks = record { digest = digest; size = pos 5; raw_size = pos 3 } ∷ [];
  files = record { path = codes "a/b"; mode = 420; size = pos 3; symlink = [] } ∷ [];
}

abbrev short_file : Index
short_file = record new {
  chunks = record { digest = digest; size = pos 5; raw_size = pos 3 } ∷ [];
  files = record { path = codes "a/b"; mode = 420; size = pos 4; symlink = [] } ∷ [];
}

abbrev raw_decoder : List ℕ → Option Stream
raw_decoder frame = some (record { bytes = frame; fails = false })

abbrev by_length : List ℕ → Option Index
by_length [] = none
by_length (b ∷ bs) = some one_file

one_file_read : unmarshal_index raw_decoder by_length false (1 ∷ []) ≡ ok one_file
unfolding unmarshal_index zstd_decode_bounded validated after_format after_files after_chunks
    stream_size stream_loop chunks_loop chunk_refusal digest_hex strip_prefix files_loop
    file_refusal safe_rel_path split components name_len parts_loop split_at refusal ◌=ₜ◌
    windows_aliased
one_file_read = refl

short_file_refused : validated false short_file ≡ err (uncovered (pos 3) (pos 4))
unfolding validated after_format after_files after_chunks stream_size stream_loop chunks_loop
    chunk_refusal digest_hex strip_prefix files_loop file_refusal safe_rel_path split components
    name_len parts_loop split_at refusal ◌=ₜ◌ windows_aliased
short_file_refused = refl

unmarshal_index_iff_example :
    (unmarshal_index raw_decoder by_length false (1 ∷ []) ≡ ok one_file) ↔ (
      (s : Stream) × ((raw_decoder (1 ∷ []) ≡ some s)
        × ((s.fails ≡ false)
            × ((length s.bytes ≤ max_index_size)
                × ((by_length s.bytes ≡ some one_file) × IsValid false one_file)))))
unmarshal_index_iff_example = unmarshal_index_iff raw_decoder by_length false (1 ∷ []) one_file

abbrev files : List FileEntry
files = one_file.files

files_checked : checked_parts files ≡ ok ((codes "a" ∷ codes "b" ∷ []) ∷ [])
unfolding checked_parts all_parts with_links check_unique unique_loop check_link_parents
    parents_loop links_of linked_parent holds ◌=ₚ◌ components name_len parts_loop split_at refusal
    ◌=ₜ◌ windows_aliased
files_checked = refl

files-IsValidFile : All (IsValidFile false) files
unfolding safe_rel_path split components name_len parts_loop split_at refusal ◌=ₜ◌ windows_aliased
files-IsValidFile = (record { safe = refl; size_positive = refl; permissions = omega arith }, tt)

checked_parts-IsSafe_example :
    ((codes "a" ∷ codes "b" ∷ []) ∷ [] ≡ paths_of files)
    × (All (All (IsPlain false)) ((codes "a" ∷ codes "b" ∷ []) ∷ [])
        × (Distinct ((codes "a" ∷ codes "b" ∷ []) ∷ []) × NoneBelowSymlinks files))
checked_parts-IsSafe_example =
    checked_parts-IsSafe files ((codes "a" ∷ codes "b" ∷ []) ∷ []) files-IsValidFile files_checked
