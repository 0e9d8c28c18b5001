-- ===== src/Ocicas/Assemble/Checked.antt =====
-- What is known of the files of an index that `assemble` starts to write.
use task_rs.Base.{
  In, inl, inr, ap₂, true, not, Bool, ◌≢◌, ◌++◌, ◌≡◌, refl, sym, ap, subst, ◌∙◌, false, List, [],
  ◌∷◌, Text, All, Result, ok, err, ◌>>=◌, ◌>>◌, >>=-ok, ok-injective, cons_eq,
}
use task_rs.Glob.Path.{split, is_empty}
use task_rs.Ocicas.Names.{NameError, components}
use task_rs.Ocicas.Names.Plain.{IsPlain}
use task_rs.Ocicas.Entries.{EntryError, Entry, check_link_parents, check_unique}
use task_rs.Ocicas.Entries.Parents.{
  NoneBelowLinks, check_link_parents_iff, Distinct, check_unique_iff,
}
use task_rs.Ocicas.Index.{FileEntry}
use task_rs.Ocicas.Index.Valid.{IsValidFile}
use task_rs.Ocicas.Index.Paths.{safe_rel_path_iff}
use task_rs.Ocicas.Names.Plain.{components-IsPlain}
use task_rs.Ocicas.Assemble.{or_name, or_entry, all_parts, with_links, checked_parts}

or_name-ok : {A : Type 0} (r : Result NameError A) (a : A) → or_name r ≡ ok a → r ≡ ok a
or_name-ok (ok b) a e = ap ok (ok-injective e)
or_name-ok (err x) a e = absurd (cc e)

or_entry-ok : (r : Result EntryError (Unit {0})) (u : Unit {0}) → or_entry r ≡ ok u → r ≡ ok tt
or_entry-ok (ok b) a e = refl
or_entry-ok (err x) a e = absurd (cc e)

-- The pieces of every path between the slashes.
pub paths_of : List FileEntry → List (List Text)
paths_of [] = []
paths_of (f ∷ files) = split f.path ∷ paths_of files

-- The components of valid files are the pieces of their paths.
all_parts-split :
    (files : List FileEntry) (parts : List (List Text))
    → All (IsValidFile false) files
    → all_parts files ≡ ok parts
    → (parts ≡ paths_of files) × All (All (IsPlain false)) parts
unfolding all_parts paths_of
all_parts-split [] parts v e =
    subst (λ (p : List (List Text)). (p ≡ []) × All (All (IsPlain false)) p) (ok-injective e)
      (refl, tt)
all_parts-split (f ∷ files) parts v e =
    let (first, (named, e1)) =
      >>=-ok (or_name (components false f.path false))
        (λ p. all_parts files >>= λ rest. ok (p ∷ rest)) parts e in
    let (rest, (others, e2)) = >>=-ok (all_parts files) (λ rest. ok (first ∷ rest)) parts e1 in
    let found = or_name-ok (components false f.path false) first named in
    let pieces : components false f.path false ≡ ok (split f.path) =
      (safe_rel_path_iff false f.path).0 v.0.safe in
    let (same, plain) = all_parts-split files rest v.1 others in
    subst
      (λ (p : List (List Text)). (p ≡ split f.path ∷ paths_of files) × All (All (IsPlain false)) p)
      (ok-injective e2)
      (
        cons_eq (ok-injective (sym found ∙ pieces)) same,
        ((components-IsPlain false f.path false first found).1, plain),
      )

-- No file lies below a file that has a link target.
abbrev pub NoneBelowSymlinks : List FileEntry → Type 0
NoneBelowSymlinks files =
    (f g : FileEntry) (first : Text) (others : List Text) (below : Text) (deeper : List Text)
    → In f files
    → In g files
    → g.symlink ≢ []
    → split g.path ≡ first ∷ others
    → split f.path ≢ first ∷ (others ++ below ∷ deeper)

with_links-In :
    (files : List FileEntry) (f : FileEntry)
    → In f files
    → In (split f.path, not (is_empty f.symlink)) (with_links (paths_of files) files)
unfolding with_links paths_of
with_links-In [] f i = absurd i
with_links-In (g ∷ files) f (inl e) =
    inl (ap (λ (h : FileEntry). (split h.path, not (is_empty h.symlink))) e)
with_links-In (g ∷ files) f (inr i) = inr (with_links-In files f i)

is_empty-not : (s : Text) → s ≢ [] → not (is_empty s) ≡ true
is_empty-not [] h = absurd (h refl)
is_empty-not (c ∷ s) h = refl

with_links-NoneBelow :
    (files : List FileEntry)
    → NoneBelowLinks (with_links (paths_of files) files)
    → NoneBelowSymlinks files
with_links-NoneBelow files n f g first others below deeper i j link q =
    n (split f.path) (not (is_empty f.symlink)) first others below deeper (with_links-In files f i)
      (subst (λ (e : Entry). In e (with_links (paths_of files) files))
        (ap₂ (λ (p : List Text) (b : Bool). (p, b)) q (is_empty-not g.symlink link))
        (with_links-In files g j))

-- When the files of a valid index pass the checks of `assemble`, each is written at the pieces of
-- its path, all of which are plain names; no two are written at one place, and none below a file
-- of the index that has a link target.
pub checked_parts-IsSafe :
    (files : List FileEntry) (parts : List (List Text))
    → All (IsValidFile false) files
    → checked_parts files ≡ ok parts
    → (parts ≡ paths_of files)
      × (All (All (IsPlain false)) parts × (Distinct parts × NoneBelowSymlinks files))
unfolding checked_parts
checked_parts-IsSafe files parts v e =
    let (found, (all, e1)) =
      >>=-ok (all_parts files)
        (λ p.
          or_entry (check_unique p) >> (or_entry (check_link_parents (with_links p files)) >> ok p))
        parts e in
    let (u, (unique, e2)) =
      >>=-ok (or_entry (check_unique found))
        (λ _. or_entry (check_link_parents (with_links found files)) >> ok found) parts e1 in
    let (w, (links, e3)) =
      >>=-ok (or_entry (check_link_parents (with_links found files))) (λ _. ok found) parts e2 in
    let (same, plain) = all_parts-split files found v all in
    subst
      (λ (p : List (List Text)).
        (p ≡ paths_of files)
        × (All (All (IsPlain false)) p × (Distinct p × NoneBelowSymlinks files)))
      (ok-injective e3)
      (
        same,
        (
          plain,
          (
            (check_unique_iff found).0 (or_entry-ok (check_unique found) u unique),
            with_links-NoneBelow files (
                subst (λ (p : List (List Text)). NoneBelowLinks (with_links p files)) same
                  ((check_link_parents_iff (with_links found files)).0
                    (or_entry-ok (check_link_parents (with_links found files)) w links))),
          ),
        ),
      )
