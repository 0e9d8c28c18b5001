-- ===== src/Ocicas/Entries.antt =====
-- The checks on a set of entries: `check_link_parents` and `check_unique` of
-- crates/ocicas/src/restore.rs, on a platform that tells names apart by case.
pub mod Parents
use task_rs.Base.{
  ℕ, ◌≡◌, Bool, true, false, ◌&&◌, Option, none, some, List, [], ◌∷◌, ◌++◌, if◌then◌else◌, Text,
  ◌=ₜ◌, any, Result, ok, err, Bool-cases,
}

infix 50 ◌=ₚ◌
unfoldable pub ◌=ₚ◌ : List Text → List Text → Bool
[] =ₚ [] = true
[] =ₚ (_ ∷ _) = false
(_ ∷ _) =ₚ [] = false
(a ∷ s) =ₚ (b ∷ t) = a =ₜ b && s =ₚ t

pub data EntryError : Type 0 where
  parent_is_link : List Text → Text → EntryError
  twice : List Text → EntryError

-- The components of an entry, and whether it is a symlink.
abbrev pub Entry : Type 0
Entry = List Text × Bool

unfoldable pub links_of : List Entry → List (List Text)
links_of [] = []
links_of ((parts, link) ∷ entries) =
    let rest = links_of entries in if link then parts ∷ rest else rest

unfoldable pub holds : List (List Text) → List Text → Bool
unfolding ◌=ₚ◌
holds set parts = any (λ (l : List Text). l =ₚ parts) set

-- `for depth in 1..parts.len()`: the last component of the first prefix that is a link, `prefix`
-- holding the components that were passed.
unfoldable pub linked_parent : List (List Text) → List Text → List Text → Option Text
unfolding holds
linked_parent links prefix [] = none
linked_parent links prefix (part ∷ []) = none
linked_parent links prefix (part ∷ next ∷ rest) =
    let later = linked_parent links (prefix ++ part ∷ []) (next ∷ rest) in
    if holds links (prefix ++ part ∷ []) then some part else later

abbrev pub or_linked :
    List Text → Option Text → Result EntryError (Unit {0}) → Result EntryError (Unit {0})
or_linked parts (some part) rest = err (parent_is_link parts part)
or_linked parts none rest = rest

unfoldable pub parents_loop : List (List Text) → List Entry → Result EntryError (Unit {0})
unfolding linked_parent
parents_loop links [] = ok tt
parents_loop links ((parts, link) ∷ entries) =
    or_linked parts (linked_parent links [] parts) (parents_loop links entries)

unfoldable pub check_link_parents : List Entry → Result EntryError (Unit {0})
unfolding parents_loop links_of
check_link_parents entries = parents_loop (links_of entries) entries

unfoldable pub unique_loop : List (List Text) → List (List Text) → Result EntryError (Unit {0})
unfolding holds
unique_loop seen [] = ok tt
unique_loop seen (parts ∷ entries) =
    let rest = unique_loop (parts ∷ seen) entries in
    if holds seen parts then err (twice parts) else rest

unfoldable pub check_unique : List (List Text) → Result EntryError (Unit {0})
unfolding unique_loop
check_unique entries = unique_loop [] entries
