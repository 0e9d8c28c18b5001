-- ===== src/Ocicas/Index/Paths.antt =====
-- The paths that an index may hold.
use task_rs.Base.{
  ◌<◌, ◌≡◌, refl, sym, ap, subst, ◌∙◌, ◌↔◌, inl, inr, Bool, true, false, ◌||◌, Option, none, some,
  List, [], ◌∷◌, arith, ◌==◌, Text, codes, =ₜ_iff, any, length, Result, ok, err, Result-cases, All,
  Bool-cases,
}
use task_rs.Glob.Path.{is_empty, split}
use task_rs.Ocicas.Names.{
  NameError, head_is, backslash, is_separator, split_at, is_skipped, refusal, or_refused,
  parts_loop, components,
}
use task_rs.Ocicas.Names.Plain.{
  IsPlain, Returns, Returns-ok, components-Returns, components-IsPlain,
}
use task_rs.Ocicas.Index.{is_dropped, is_ok, safe_rel_path}

split_at-split :
    (p : Text) → any (λ c. c == backslash) p ≡ false → split_at is_separator p ≡ split p
unfolding split_at split
split_at-split [] h = refl
split_at-split (c ∷ p) h =
    rw (same (c == b'/') (c == backslash) (ground (arith, h)))
      (rw (split_at-split p (ground (arith, h))) refl)
  where
    same : (a b : Bool) → b ≡ false → (a || b) ≡ a
    same a b e = ground (arith, e)

or_refused-whole :
    (r : Option NameError) (w : Text) (ws : List Text) (rest : Result NameError (List Text))
    → Returns (λ ps. ps ≡ ws) rest
    → Returns (λ ps. ps ≡ w ∷ ws) (or_refused r w rest)
or_refused-whole (some e) w ws rest h = tt
or_refused-whole none w ws (ok ps) h = ap (λ (l : List Text). w ∷ l) h
or_refused-whole none w ws (err e) h = tt

-- When no part is dropped, all of them are returned.
parts_loop-whole :
    (windows : Bool) (ws : List Text)
    → any is_dropped ws ≡ false
    → Returns (λ ps. ps ≡ ws) (parts_loop windows ws)
unfolding parts_loop
parts_loop-whole windows [] h = refl
parts_loop-whole windows (w ∷ ws) h = rw (kept w ws h) (
    or_refused-whole (refusal windows w) w ws (parts_loop windows ws)
      (parts_loop-whole windows ws (later w ws h)))
  where
    kept : (w : Text) (ws : List Text) → any is_dropped (w ∷ ws) ≡ false → is_skipped w ≡ false
    kept w ws h = ground (arith, h)

    later :
        (w : Text) (ws : List Text) → any is_dropped (w ∷ ws) ≡ false → any is_dropped ws ≡ false
    later w ws h = ground (arith, h)

IsPlain-not_dropped : (windows : Bool) (w : Text) → IsPlain windows w → is_dropped w ≡ false
IsPlain-not_dropped windows [] p = absurd (p.not_empty refl)
IsPlain-not_dropped windows (c ∷ w) p = ground (
  arith,
  (=ₜ_iff (c ∷ w) (codes ".")).0,
  (=ₜ_iff (c ∷ w) (codes "..")).0,
  p.not_dot,
  p.not_dot_dot,
)

any-dropped :
    (windows : Bool) (ws : List Text) → All (IsPlain windows) ws → any is_dropped ws ≡ false
any-dropped windows [] h = refl
any-dropped windows (w ∷ ws) h = rw (IsPlain-not_dropped windows w h.0) (any-dropped windows ws h.1)

plain-relative :
    (windows : Bool) (p : Text)
    → All (IsPlain windows) (split p)
    → (is_empty p || head_is (λ c. c == b'/') p) ≡ false
unfolding split
plain-relative windows [] h = absurd (h.0.not_empty refl)
plain-relative windows (c ∷ p) h = elim (Bool-cases (c == b'/')) [
  | inl e ↦ absurd ((rw e at h).0.not_empty refl)
  | inr e ↦ e
]

-- A path of an index is safe exactly when `components` returns all its pieces between the slashes,
-- so that it neither drops nor refuses one of them.
pub safe_rel_path_iff :
    (windows : Bool) (p : Text)
    → (safe_rel_path windows p ≡ true) ↔ (components windows p false ≡ ok (split p))
unfolding safe_rel_path
safe_rel_path_iff windows p = (
  λ e.
      let kept : any is_dropped (split p) ≡ false = ground (arith, e) in
      elim (Result-cases (components windows p false)) [
        | inl (parts, c) ↦
            c
            ∙ ap ok (
                (Returns-ok (λ ps. (0 < length ps) × (ps ≡ split p)) (components windows p false)
                  parts
                  (components-Returns (λ ps. ps ≡ split p) windows p false
                    (λ _ _ slashes.
                      subst (λ ws. Returns (λ ps. ps ≡ split p) (parts_loop windows ws))
                        (sym (split_at-split p slashes)) (parts_loop-whole windows (split p) kept)))
                  c).1)
        | inr (x, c) ↦ absurd (
            let o : is_ok (components windows p false) ≡ true = ground (arith, e) in cc (rw c at o))
      ],
  λ c.
      let plain = (components-IsPlain windows p false (split p) c).1 in
      rw (plain-relative windows p plain) (rw (any-dropped windows (split p) plain) (rw c refl)),
)
