-- ===== src/Platform.antt =====
-- crates/taskcore/src/ast/platforms.rs, with the known names of crates/taskcore/src/goext.rs.
pub mod Parse
mod Examples
use task_rs.Base.{
  ℕ, Bool, true, false, not, ◌&&◌, ◌||◌, Option, none, some, List, [], ◌∷◌, if◌then◌else◌, Text,
  codes, ◌=ₜ◌, any,
}
use task_rs.Glob.Path.{split, is_empty}

abbrev pub known_os : List Text
known_os =
    codes "aix"
    ∷ codes "android"
    ∷ codes "darwin"
    ∷ codes "dragonfly"
    ∷ codes "freebsd"
    ∷ codes "hurd"
    ∷ codes "illumos"
    ∷ codes "ios"
    ∷ codes "js"
    ∷ codes "linux"
    ∷ codes "nacl"
    ∷ codes "netbsd"
    ∷ codes "openbsd"
    ∷ codes "plan9"
    ∷ codes "solaris"
    ∷ codes "windows"
    ∷ codes "zos"
    ∷ codes "__test__"
    ∷ []

abbrev pub known_arch : List Text
known_arch =
    codes "386"
    ∷ codes "amd64"
    ∷ codes "amd64p32"
    ∷ codes "arm"
    ∷ codes "armbe"
    ∷ codes "arm64"
    ∷ codes "arm64be"
    ∷ codes "loong64"
    ∷ codes "mips"
    ∷ codes "mipsle"
    ∷ codes "mips64"
    ∷ codes "mips64le"
    ∷ codes "mips64p32"
    ∷ codes "mips64p32le"
    ∷ codes "ppc"
    ∷ codes "ppc64"
    ∷ codes "ppc64le"
    ∷ codes "riscv"
    ∷ codes "riscv64"
    ∷ codes "s390"
    ∷ codes "s390x"
    ∷ codes "sparc"
    ∷ codes "sparc64"
    ∷ codes "wasm"
    ∷ []

unfoldable pub is_known_os : Text → Bool
unfolding ◌=ₜ◌
is_known_os s = any (λ k. k =ₜ s) known_os

unfoldable pub is_known_arch : Text → Bool
unfolding ◌=ₜ◌
is_known_arch s = any (λ k. k =ₜ s) known_arch

pub record Platform : Type 0 where
  pub os : Text
  pub arch : Text

-- `none` is an error: a blank value, a second architecture or an unknown name.
unfoldable pub parse_os_or_arch : Platform → Text → Option Platform
unfolding is_known_os is_known_arch
parse_os_or_arch self os_or_arch =
    if is_empty os_or_arch
    then none
    else if is_known_os os_or_arch
    then some (record self { os = os_or_arch })
    else if is_known_arch os_or_arch
    then some (record self { arch = os_or_arch })
    else none

unfoldable pub parse_arch : Platform → Text → Option Platform
unfolding is_known_arch
parse_arch self arch =
    if is_empty arch
    then none
    else if not (is_empty self.arch)
    then none
    else if is_known_arch arch
    then some (record self { arch = arch })
    else none

-- The second part of `OS/Arch`, after the first.
unfoldable pub parse_second : Option Platform → Text → Option Platform
unfolding parse_arch
parse_second none second = none
parse_second (some p) second = parse_arch p second

unfoldable pub parse_parts : Platform → List Text → Option Platform
unfolding parse_os_or_arch parse_second
parse_parts self [] = parse_os_or_arch self []
parse_parts self (first ∷ []) = parse_os_or_arch self first
parse_parts self (first ∷ second ∷ []) = parse_second (parse_os_or_arch self first) second
parse_parts self (first ∷ second ∷ third ∷ parts) = none

unfoldable pub parse_platform : Platform → Text → Option Platform
unfolding parse_parts split
parse_platform self input = parse_parts self (split input)
