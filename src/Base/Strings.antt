-- ===== src/Base/Strings.antt =====
-- Rust's `String` and `[char]` as the list of code points.
use Prim.Native.Nat.{ℕ}
use Prim.Native.Char.{code}
use Prim.Native.String.{String}
use mathlib.Core.Path.{◌≡◌, refl, sym}
use mathlib.Core.Logic.{◌↔◌, inl, inr}
use mathlib.Core.Bool.{Bool, true, false, ◌&&◌, ◌||◌}
use mathlib.Core.List.{List, [], ◌∷◌, ◌++◌}
use native.Mathlib.Omega.{arith}
use task_rs.Base.Tests.{◌==◌, ||_iff}
use task_rs.Base.Lists.{any, In}

abbrev pub Text : Type 0
Text = List ℕ

abbrev pub codes : String → Text
codes String.[] = []
codes (String.◌∷◌ c s) = code c ∷ codes s

infix 50 ◌=ₜ◌
unfoldable pub ◌=ₜ◌ : Text → Text → Bool
[] =ₜ [] = true
[] =ₜ (_ ∷ _) = false
(_ ∷ _) =ₜ [] = false
(a ∷ s) =ₜ (b ∷ t) = a == b && s =ₜ t

pub =ₜ_iff : (s t : Text) → ((s =ₜ t) ≡ true) ↔ (s ≡ t)
unfolding ◌=ₜ◌
=ₜ_iff [] [] = (λ _. refl, λ _. refl)
=ₜ_iff [] (b ∷ t) = (λ h. cc, λ h. cc)
=ₜ_iff (a ∷ s) [] = (λ h. cc, λ h. cc)
=ₜ_iff (a ∷ s) (b ∷ t) = ground (arith, =ₜ_iff s t)

-- `str::ends_with`
unfoldable pub ends_with : Text → Text → Bool
unfolding ◌=ₜ◌
ends_with last [] = last =ₜ []
ends_with last (c ∷ s) = last =ₜ (c ∷ s) || ends_with last s

pub ends_with-append : (t w : Text) → ends_with w (t ++ w) ≡ true
unfolding ends_with
ends_with-append [] [] = (=ₜ_iff [] []).1 refl
ends_with-append [] (c ∷ w) = rw ((=ₜ_iff (c ∷ w) (c ∷ w)).1 refl) refl
ends_with-append (c ∷ t) w =
    (||_iff (w =ₜ (c ∷ (t ++ w))) (ends_with w (t ++ w))).1 (inr (ends_with-append t w))

-- The search for a text among texts.
pub any-In : (s : Text) (all : List Text) → (any (λ e. e =ₜ s) all ≡ true) ↔ In s all
any-In s [] = (λ e. cc e, λ i. absurd i)
any-In s (w ∷ all) =
    let rest = any-In s all in
    let both = ||_iff (w =ₜ s) (any (λ e. e =ₜ s) all) in
    (
      λ h. elim (both.0 h) [ inl e ↦ inl (sym ((=ₜ_iff w s).0 e)) | inr e ↦ inr (rest.0 e) ],
      λ i. both.1 (elim i [ inl e ↦ inl ((=ₜ_iff w s).1 (sym e)) | inr j ↦ inr (rest.1 j) ]),
    )
