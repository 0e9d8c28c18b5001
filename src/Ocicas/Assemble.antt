-- ===== src/Ocicas/Assemble.antt =====
-- The checks of `assemble` of crates/ocicas/src/cas.rs on the files of an index, before anything is
-- written, on Unix.
pub mod Checked
use task_rs.Base.{ℕ, Bool, true, false, not, List, [], ◌∷◌, Text, map, Result, ok, err, ◌>>=◌, ◌>>◌}
use task_rs.Glob.Path.{is_empty}
use task_rs.Ocicas.Names.{NameError, components}
use task_rs.Ocicas.Entries.{EntryError, Entry, check_link_parents, check_unique}
use task_rs.Ocicas.Index.{FileEntry}

pub data AssembleError : Type 0 where
  bad_name : NameError → AssembleError
  bad_entry : EntryError → AssembleError

abbrev pub or_name : {A : Type 0} → Result NameError A → Result AssembleError A
or_name (ok a) = ok a
or_name (err e) = err (bad_name e)

abbrev pub or_entry : {A : Type 0} → Result EntryError A → Result AssembleError A
or_entry (ok a) = ok a
or_entry (err e) = err (bad_entry e)

unfoldable pub all_parts : List FileEntry → Result AssembleError (List (List Text))
unfolding components
all_parts [] = ok []
all_parts (f ∷ files) = do
  parts ← or_name (components false f.path false)
  rest ← all_parts files
  ok (parts ∷ rest)

-- `parts.iter().zip(&idx.files)`, with whether the file is a symlink.
unfoldable pub with_links : List (List Text) → List FileEntry → List Entry
with_links [] files = []
with_links (parts ∷ rest) [] = []
with_links (parts ∷ rest) (f ∷ files) = (parts, not (is_empty f.symlink)) ∷ with_links rest files

unfoldable pub checked_parts : List FileEntry → Result AssembleError (List (List Text))
unfolding all_parts check_unique check_link_parents with_links
checked_parts files = do
  parts ← all_parts files
  or_entry (check_unique parts)
  or_entry (check_link_parents (with_links parts files))
  ok parts
