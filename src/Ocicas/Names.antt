-- ===== src/Ocicas/Names.antt =====
-- Names of entries: `components` and `windows_aliased` of crates/ocicas/src/restore.rs. The
-- platform is an argument, `windows`.
pub mod Plain
pub mod Joined
use task_rs.Base.{
  ℕ, zero, suc, ◌+◌, ◌-◌, ◌≡◌, Bool, true, false, not, ◌&&◌, ◌||◌, Option, none, some, List, [],
  ◌∷◌, ◌++◌, map, ltb, leb, ◌==◌, if◌then◌else◌, Text, codes, ◌=ₜ◌, any, take, drop, Result, ok,
  err,
}
use task_rs.Glob.Path.{is_empty, push_head}

pub data NameError : Type 0 where
  too_long outside has_backslash long_component aliased no_path : NameError

abbrev pub max_name : Bool → ℕ
max_name windows = if windows then 32767 else 4096

abbrev pub max_component : ℕ
max_component = 255

abbrev utf8_len : ℕ → ℕ
utf8_len c = if ltb c 128 then 1 else if ltb c 2048 then 2 else if ltb c 65536 then 3 else 4

abbrev utf16_len : ℕ → ℕ
utf16_len c = if ltb c 65536 then 1 else 2

abbrev pub char_len : Bool → ℕ → ℕ
char_len windows c = if windows then utf16_len c else utf8_len c

unfoldable pub name_len : Bool → Text → ℕ
name_len windows [] = 0
name_len windows (c ∷ s) = char_len windows c + name_len windows s

abbrev pub backslash : ℕ
backslash = 92

abbrev pub is_separator : ℕ → Bool
is_separator c = c == b'/' || c == backslash

abbrev pub is_nul : ℕ → Bool
is_nul c = c == 0

-- `split` at the characters of a set: at least one piece.
unfoldable pub split_at : (ℕ → Bool) → Text → List Text
split_at is_end [] = [] ∷ []
split_at is_end (c ∷ s) =
    let rest = split_at is_end s in if is_end c then [] ∷ rest else push_head c rest

abbrev to_upper : ℕ → ℕ
to_upper c = if leb 97 c && leb c 122 then c - 32 else c

abbrev to_ascii_uppercase : Text → Text
to_ascii_uppercase s = map to_upper s

abbrev last_is : (ℕ → Bool) → Text → Bool
last_is p [] = false
last_is p (c ∷ []) = p c
last_is p (c ∷ d ∷ s) = last_is p (d ∷ s)

unfoldable pub trim_end_spaces : Text → Text
trim_end_spaces [] = []
trim_end_spaces (c ∷ s) =
    let rest = trim_end_spaces s in if is_empty rest && c == b' ' then [] else c ∷ rest

-- What stands before the first dot.
unfoldable pub before_dot : Text → Text
before_dot [] = []
before_dot (c ∷ s) = let rest = before_dot s in if c == b'.' then [] else c ∷ rest

abbrev devices : List Text
devices =
    codes "CON" ∷ codes "PRN" ∷ codes "AUX" ∷ codes "NUL" ∷ codes "CONIN$" ∷ codes "CONOUT$" ∷ []

abbrev device_digits : List ℕ
device_digits = codes "123456789" ++ 185 ∷ 178 ∷ 179 ∷ []

unfoldable pub windows_aliased : Text → Bool
unfolding ◌=ₜ◌ trim_end_spaces before_dot
windows_aliased part =
    any (λ c. c == b':') part
    || last_is (λ c. c == b'.' || c == b' ') part
    || (let stem = trim_end_spaces (before_dot part) in
        any (λ (d : Text). d =ₜ to_ascii_uppercase stem) devices
        || (let port = to_ascii_uppercase (take 3 stem) in
            (port =ₜ codes "COM" || port =ₜ codes "LPT")
            && any (λ c. drop 3 stem =ₜ (c ∷ [])) device_digits))

abbrev is_letter : ℕ → Bool
is_letter c = (leb 65 c && leb c 90) || (leb 97 c && leb c 122)

abbrev has_drive : Text → Bool
has_drive [] = false
has_drive (c ∷ []) = false
has_drive (c ∷ d ∷ s) = is_letter c && d == b':'

-- `Path::components` of a part without a separator, which is none of ``, `.` and `..`, is one
-- normal component, unless Windows reads a drive at its head.
abbrev pub is_normal : Bool → Text → Bool
is_normal windows part = not (windows && has_drive part)

abbrev pub is_skipped : Text → Bool
is_skipped part = is_empty part || part =ₜ codes "."

-- Why a part that is not skipped is refused.
unfoldable pub refusal : Bool → Text → Option NameError
unfolding ◌=ₜ◌ name_len windows_aliased
refusal windows part =
    if part =ₜ codes ".."
    then some outside
    else if not (is_normal windows part)
    then some outside
    else if ltb max_component (name_len windows part)
    then some long_component
    else if windows && windows_aliased part
    then some aliased
    else none

abbrev pub add_part : Text → Result NameError (List Text) → Result NameError (List Text)
add_part part (ok parts) = ok (part ∷ parts)
add_part part (err e) = err e

abbrev pub or_refused :
    Option NameError → Text → Result NameError (List Text) → Result NameError (List Text)
or_refused none part rest = add_part part rest
or_refused (some e) part rest = err e

unfoldable pub parts_loop : Bool → List Text → Result NameError (List Text)
unfolding refusal ◌=ₜ◌
parts_loop windows [] = ok []
parts_loop windows (part ∷ parts) =
    let rest = parts_loop windows parts in
    if is_skipped part then rest else or_refused (refusal windows part) part rest

abbrev pub some_parts : Result NameError (List Text) → Result NameError (List Text)
some_parts (ok []) = err no_path
some_parts (ok (part ∷ parts)) = ok (part ∷ parts)
some_parts (err e) = err e

abbrev pub head_is : (ℕ → Bool) → Text → Bool
head_is p [] = false
head_is p (c ∷ s) = p c

unfoldable pub components : Bool → Text → Bool → Result NameError (List Text)
unfolding name_len parts_loop split_at
components windows name backslash_separates =
    if ltb (max_name windows) (name_len windows name)
    then err too_long
    else if head_is is_separator name || any is_nul name
    then err outside
    else if not backslash_separates && any (λ c. c == backslash) name
    then err has_backslash
    else some_parts (parts_loop windows (split_at is_separator name))
