-- ===== src/FilePath/Clean.antt =====
-- What `clean` leaves of a path.
use mathlib.Core.List.{reverse, reverse-cons, reverse-reverse}
use task_rs.Base.{
  ◌≡◌, refl, sym, ap, ◌∙◌, subst, Bool, true, false, ◌||◌, List, [], ◌∷◌, ◌++◌, arith, Text, ◌=ₜ◌,
  =ₜ_iff, All, any, Bool-cases, inl, inr,
}
use task_rs.Glob.Path.{split, join, is_empty, dot, is_slash, starts_with}
use task_rs.Glob.Path.Spelled.{AllNames, split-AllNames, split-join}
use task_rs.FilePath.{dot_dot, clean_step, clean_loop, spell, clean, is_rooted}

-- A part that stays: a name, neither `.` nor `..`, without slashes.
abbrev pub IsPart : Text → Type 0
IsPart w =
    (is_empty w ≡ false)
    × ((w =ₜ dot) ≡ false)
    × ((w =ₜ dot_dot) ≡ false)
    × (any is_slash w ≡ false)

-- Only `..`s, and none below the root.
abbrev pub AllUp : Bool → List Text → Type 0
AllUp rooted [] = Unit
AllUp rooted (w ∷ ws) = (rooted ≡ false) × (w ≡ dot_dot) × AllUp rooted ws

-- The parts of a clean path, the last one first: names, and before them only `..`s.
pub data IsClean (rooted : Bool) : List Text → Type 0 where
  up : {ws : List Text} → AllUp rooted ws → IsClean rooted ws
  part : {w : Text} {ws : List Text} → IsPart w → IsClean rooted ws → IsClean rooted (w ∷ ws)

-- `..` after clean parts.
up-IsClean :
    (rooted : Bool) (out : List Text)
    → IsClean rooted out
    → IsClean rooted (clean_step rooted out dot_dot)
unfolding clean_step ◌=ₜ◌
up-IsClean true [] h = up tt
up-IsClean false [] h = up (refl, refl, tt)
up-IsClean rooted (t ∷ rest) (up a) = rw ((=ₜ_iff t dot_dot).1 a.1) (up (a.0, refl, a))
up-IsClean rooted (t ∷ rest) (part p h) = rw (p.2) h

clean_step-IsClean :
    (rooted : Bool) (out : List Text) (w : Text)
    → any is_slash w ≡ false
    → IsClean rooted out
    → IsClean rooted (clean_step rooted out w)
unfolding clean_step
clean_step-IsClean rooted out w n h = elim (Bool-cases (is_empty w || w =ₜ dot)) [
  | inl e ↦ rw e h
  | inr e ↦ elim (Bool-cases (w =ₜ dot_dot)) [
    | inl q ↦
        subst (λ (t : Text). IsClean rooted (clean_step rooted out t))
          (sym ((=ₜ_iff w dot_dot).0 q)) (up-IsClean rooted out h)
    | inr q ↦ rw (e, q) (part (ground (arith, e), ground (arith, e), q, n) h)
  ]
]

clean_loop-IsClean :
    (rooted : Bool) (out parts : List Text)
    → AllNames parts
    → IsClean rooted out
    → IsClean rooted (clean_loop rooted out parts)
unfolding clean_loop
clean_loop-IsClean rooted out [] n h = h
clean_loop-IsClean rooted out (w ∷ parts) n h =
    clean_loop-IsClean rooted (clean_step rooted out w) parts n.1
      (clean_step-IsClean rooted out w n.0 h)

clean_loop-append :
    (rooted : Bool) (out a b : List Text)
    → clean_loop rooted out (a ++ b) ≡ clean_loop rooted (clean_loop rooted out a) b
unfolding clean_loop
clean_loop-append rooted out [] b = refl
clean_loop-append rooted out (w ∷ a) b = clean_loop-append rooted (clean_step rooted out w) a b

step-part : (rooted : Bool) (ws : List Text) (w : Text) → IsPart w → clean_step rooted ws w ≡ w ∷ ws
unfolding clean_step
step-part rooted ws w p = rw (p.0, p.1, p.2) refl

step-up :
    (rooted : Bool) (ws : List Text)
    → AllUp rooted (dot_dot ∷ ws)
    → clean_step rooted ws dot_dot ≡ dot_dot ∷ ws
unfolding clean_step ◌=ₜ◌
step-up rooted [] a = rw (a.0) refl
step-up rooted (w ∷ ws) a = rw ((=ₜ_iff w dot_dot).1 a.2.1) refl

clean_loop-snoc :
    (rooted : Bool) (ws : List Text) (w : Text)
    → clean_loop rooted [] (reverse ws) ≡ ws
    → clean_step rooted ws w ≡ w ∷ ws
    → clean_loop rooted [] (reverse (w ∷ ws)) ≡ w ∷ ws
clean_loop-snoc rooted ws w h k =
    ap (clean_loop rooted []) (reverse-cons w ws)
    ∙ clean_loop-append rooted [] (reverse ws) (w ∷ [])
    ∙ ap (λ (l : List Text). clean_loop rooted l (w ∷ [])) h
    ∙ unfold clean_loop in k

-- Clean parts, read again, are kept.
clean_loop-clean :
    (rooted : Bool) (ws : List Text) → IsClean rooted ws → clean_loop rooted [] (reverse ws) ≡ ws
clean_loop-clean rooted [] h = unfold clean_loop in refl
clean_loop-clean rooted (w ∷ ws) (part p h) =
    clean_loop-snoc rooted ws w (clean_loop-clean rooted ws h) (step-part rooted ws w p)
clean_loop-clean rooted (w ∷ ws) (up a) =
    clean_loop-snoc rooted ws w (clean_loop-clean rooted ws (up a.2)) (
      subst (λ (t : Text). clean_step rooted ws t ≡ t ∷ ws) (sym a.1)
        (step-up rooted ws (a.0, refl, a.2)))

-- Parts that are neither empty nor hold a slash.
abbrev AllGood : List Text → Type 0
AllGood ws = All (λ w. (is_empty w ≡ false) × (any is_slash w ≡ false)) ws

up-AllGood : (rooted : Bool) (ws : List Text) → AllUp rooted ws → AllGood ws
up-AllGood rooted [] a = tt
up-AllGood rooted (w ∷ ws) a = (
  subst (λ (t : Text). (is_empty t ≡ false) × (any is_slash t ≡ false)) (sym a.1) (refl, refl),
  up-AllGood rooted ws a.2,
)

IsClean-AllGood : (rooted : Bool) (ws : List Text) → IsClean rooted ws → AllGood ws
IsClean-AllGood rooted ws (up a) = up-AllGood rooted ws a
IsClean-AllGood rooted (w ∷ ws) (part p h) = ((p.0, p.3), IsClean-AllGood rooted ws h)

All-snoc :
    (ws : List Text) (w : Text)
    → AllGood ws
    → (is_empty w ≡ false) × (any is_slash w ≡ false)
    → AllGood (ws ++ w ∷ [])
All-snoc [] w h k = (k, tt)
All-snoc (v ∷ ws) w h k = (h.0, All-snoc ws w h.1 k)

reverse-AllGood : (ws : List Text) → AllGood ws → AllGood (reverse ws)
reverse-AllGood [] h = tt
reverse-AllGood (w ∷ ws) h =
    rw (reverse-cons w ws) (All-snoc (reverse ws) w (reverse-AllGood ws h.1) h.0)

AllGood-AllNames : (ws : List Text) → AllGood ws → AllNames ws
AllGood-AllNames [] h = tt
AllGood-AllNames (w ∷ ws) h = (h.0.1, AllGood-AllNames ws h.1)

-- The parts, read from their text.
read-join :
    (rooted : Bool) (vs ws : List Text)
    → vs ≡ reverse ws
    → IsClean rooted ws
    → AllGood vs
    → clean_loop rooted [] (split (join vs)) ≡ ws
read-join rooted [] ws e h g =
    unfold split join clean_loop in unfold clean_step in ap reverse e ∙ reverse-reverse ws
read-join rooted (v ∷ vs) ws e h g =
    ap (clean_loop rooted []) (split-join (v ∷ vs) tt (AllGood-AllNames (v ∷ vs) g) ∙ e)
    ∙ clean_loop-clean rooted ws h

join-no_root : (vs : List Text) → AllGood vs → is_rooted (join vs) ≡ false
unfolding starts_with join
join-no_root [] g = refl
join-no_root ([] ∷ vs) g = cc (g.0.0)
join-no_root ((c ∷ v) ∷ []) g = ground (arith, g.0.1)
join-no_root ((c ∷ v) ∷ w ∷ vs) g = ground (arith, g.0.1)

clean-spell :
    (rooted : Bool) (ws : List Text)
    → IsClean rooted ws
    → clean (spell rooted (join (reverse ws))) ≡ spell rooted (join (reverse ws))
unfolding spell clean
clean-spell true ws h =
    unfold starts_with in
    ap (λ (l : List Text). b'/' ∷ join (reverse l))
      (read-join true (reverse ws) ws refl h (reverse-AllGood ws (IsClean-AllGood true ws h)))
clean-spell false ws h = elim (Bool-cases (is_empty (join (reverse ws)))) [
  | inl e ↦ rw e (unfold split join clean_loop starts_with in unfold clean_step in refl)
  | inr e ↦ rw e (
      rw (e, join-no_root (reverse ws) good)
        (rw (read-join false (reverse ws) ws refl h good) (rw e refl)))
]
  where
    good : AllGood (reverse ws)
    good = reverse-AllGood ws (IsClean-AllGood false ws h)

cleaned :
    (path : Text)
    → (parts : List Text) × IsClean (is_rooted path) parts
      × (clean path ≡ spell (is_rooted path) (join (reverse parts)))
unfolding clean
cleaned [] = ([], up tt, unfold starts_with spell join in refl)
cleaned (c ∷ path) = (
  clean_loop (is_rooted (c ∷ path)) [] (split (c ∷ path)),
  clean_loop-IsClean (is_rooted (c ∷ path)) [] (split (c ∷ path)) (split-AllNames (c ∷ path))
      (up tt),
  refl,
)

-- `clean` is idempotent, and what it leaves of a path are names, neither empty nor `.` nor `..`, behind
-- `..`s that only a path without a root keeps.
pub clean-IsClean :
    (path : Text)
    → (clean (clean path) ≡ clean path)
      × ((parts : List Text) × IsClean (is_rooted path) parts
          × (clean path ≡ spell (is_rooted path) (join (reverse parts))))
clean-IsClean path =
    let c = cleaned path in (ap clean c.2 ∙ clean-spell (is_rooted path) c.0 c.1 ∙ sym c.2, c)
