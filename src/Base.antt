-- ===== src/Base.antt =====
-- What the modules share: the library's names passed on, Boolean tests, lists over the native
-- numbers, and text as lists of code points.
mod Tests
mod Lists
mod Strings
mod Maps
mod Ints
mod Results
pub use Tests.*
pub use Lists.*
pub use Strings.{Text, codes, =ₜ_iff, ends_with-append, any-In}
unfoldable pub use Strings.{◌=ₜ◌, ends_with}
pub use Ints.{ℤ, pos, negsuc, ◌+ℤ◌, is_negative, exceeds, ◌=ℤ◌, i64_half, checked_add}
pub use Results.{Result, ok, err, ◌>>=◌, ◌>>◌, guard, ok-injective, Result-cases, >>=-ok, guard-ok}
pub use Maps.{Map, lookup-insert, keys}
unfoldable pub use Maps.{lookup, insert}
pub use Prim.Native.Nat.{ℕ, zero, suc, ◌+◌, ◌-◌, ◌*◌, ◌^◌, ◌≤◌, ◌<◌, min}
pub use mathlib.Core.Path.{◌≡◌, refl, sym, subst, ap, ap₂, ◌∙◌}
pub use mathlib.Core.Logic.{◌≢◌, ◌↔◌, ◌⊎◌, inl, inr}
pub use mathlib.Core.Bool.{Bool, true, false, not, ◌&&◌, ◌||◌}
pub use mathlib.Core.Option.{Option, none, some}
pub use mathlib.Core.List.{List, [], ◌∷◌, ◌++◌, map, append_assoc, append-nil}
pub use native.Mathlib.Omega.{arith}
