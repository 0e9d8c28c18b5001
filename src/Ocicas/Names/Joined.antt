-- ===== src/Ocicas/Names/Joined.antt =====
-- A name written from its components is read as them again.
use task_rs.Base.{
  ℕ, suc, ◌+◌, ◌≤◌, ◌<◌, ◌≡◌, refl, ap, ◌∙◌, inl, inr, Bool, true, false, not, ◌&&◌, Option, none,
  some, List, [], ◌∷◌, ◌++◌, arith, ltb, ◌==◌, if◌then◌else◌, Text, codes, ◌=ₜ◌, =ₜ_iff, any, All,
  length, Result, ok, err, Bool-cases,
}
use task_rs.Glob.Path.{push_head, join}
use task_rs.Ocicas.Names.{
  NameError, has_backslash, max_name, head_is, name_len, backslash, is_separator, is_nul, split_at,
  is_skipped, refusal, add_part, or_refused, parts_loop, some_parts, components, char_len,
}
use task_rs.Ocicas.Names.Plain.{
  IsNameChar, IsPlain, Returns, Returns-ok, components-Returns, components-IsPlain,
}

-- The length of the parts, a separator after each.
weight : Bool → List Text → ℕ
weight windows [] = 0
weight windows (w ∷ ws) = name_len windows w + suc (weight windows ws)

weight-push_head :
    (windows : Bool) (c : ℕ) (ws : List Text)
    → 0 < length ws
    → weight windows (push_head c ws) ≡ char_len windows c + weight windows ws
unfolding weight name_len
weight-push_head windows c [] h = omega (arith, h)
weight-push_head windows c (w ∷ ws) h = omega arith

length-split_at : (p : ℕ → Bool) (s : Text) → 0 < length (split_at p s)
unfolding split_at
length-split_at p [] = omega arith
length-split_at p (c ∷ s) = elim (Bool-cases (p c)) [
  | inl e ↦ rw e (omega arith)
  | inr e ↦ rw e (added (split_at p s))
]
  where
    added : (ws : List Text) → 0 < length (push_head c ws)
    added [] = omega arith
    added (w ∷ ws) = omega arith

separator_len : (windows : Bool) (c : ℕ) → is_separator c ≡ true → char_len windows c ≡ 1
separator_len true c h = ground (arith, h)
separator_len false c h = ground (arith, h)

weight-split_at :
    (windows : Bool) (s : Text)
    → weight windows (split_at is_separator s) ≡ suc (name_len windows s)
unfolding weight split_at name_len
weight-split_at windows [] = omega arith
weight-split_at windows (c ∷ s) = elim (Bool-cases (is_separator c)) [
  | inl e ↦ rw e (omega (arith, weight-split_at windows s, separator_len windows c e))
  | inr e ↦ rw e (
      omega (
        arith,
        weight-split_at windows s,
        weight-push_head windows c (split_at is_separator s) (length-split_at is_separator s),
      ))
]

name_len-append :
    (windows : Bool) (s t : Text)
    → name_len windows (s ++ t) ≡ name_len windows s + name_len windows t
unfolding name_len
name_len-append windows [] t = omega arith
name_len-append windows (c ∷ s) t = omega (arith, name_len-append windows s t)

weight-join :
    (windows : Bool) (ws : List Text)
    → 0 < length ws
    → suc (name_len windows (join ws)) ≡ weight windows ws
unfolding weight join name_len
weight-join windows [] h = omega (arith, h)
weight-join windows (w ∷ []) h = omega arith
weight-join windows (w ∷ v ∷ ws) h = omega (
  arith,
  name_len-append windows w (b'/' ∷ join (v ∷ ws)),
  weight-join windows (v ∷ ws) (omega arith),
  separator_len windows b'/' refl,
)

or_refused-weight :
    (windows : Bool) (n : ℕ) (part : Text) (r : Option NameError)
    (rest : Result NameError (List Text))
    → Returns (λ ps. weight windows ps ≤ n) rest
    → Returns (λ ps. weight windows ps ≤ name_len windows part + suc n) (or_refused r part rest)
unfolding weight
or_refused-weight windows n part (some e) rest h = tt
or_refused-weight windows n part none (ok parts) h = omega (arith, h)
or_refused-weight windows n part none (err e) h = tt

Returns-le :
    (windows : Bool) (n m : ℕ) (r : Result NameError (List Text))
    → n ≤ m
    → Returns (λ ps. weight windows ps ≤ n) r
    → Returns (λ ps. weight windows ps ≤ m) r
Returns-le windows n m (ok ps) le h = omega (arith, le, h)
Returns-le windows n m (err e) le h = tt

weight-parts_loop :
    (windows : Bool) (ws : List Text)
    → Returns (λ ps. weight windows ps ≤ weight windows ws) (parts_loop windows ws)
unfolding parts_loop weight
weight-parts_loop windows [] = omega arith
weight-parts_loop windows (w ∷ ws) = elim (Bool-cases (is_skipped w)) [
  | inl e ↦ rw e (
      Returns-le windows (weight windows ws) _ (parts_loop windows ws) (omega arith)
        (weight-parts_loop windows ws))
  | inr e ↦ rw e (
      or_refused-weight windows (weight windows ws) w (refusal windows w) (parts_loop windows ws)
        (weight-parts_loop windows ws))
]

IsPlain-kept : (windows : Bool) (w : Text) → IsPlain windows w → is_skipped w ≡ false
unfolding ◌=ₜ◌
IsPlain-kept windows [] p = absurd (p.not_empty refl)
IsPlain-kept windows (c ∷ w) p = elim (Bool-cases ((c ∷ w) =ₜ codes ".")) [
  | inl e ↦ absurd (p.not_dot ((=ₜ_iff (c ∷ w) (codes ".")).0 e))
  | inr e ↦ e
]

IsPlain-refusal : (windows : Bool) (w : Text) → IsPlain windows w → refusal windows w ≡ none
unfolding refusal
IsPlain-refusal windows w p =
    ground (arith, p.not_dot_dot, p.short, p.no_drive, p.not_aliased, (=ₜ_iff w (codes "..")).0)

parts_loop-plain :
    (windows : Bool) (ws : List Text) → All (IsPlain windows) ws → parts_loop windows ws ≡ ok ws
unfolding parts_loop
parts_loop-plain windows [] h = refl
parts_loop-plain windows (w ∷ ws) h = rw (IsPlain-kept windows w h.0) (
    rw (IsPlain-refusal windows w h.0)
      (ap (λ (r : Result NameError (List Text)). add_part w r) (parts_loop-plain windows ws h.1)))

-- Pieces are found again when they hold no character of the set.
split_at-word : (w : Text) → All IsNameChar w → split_at is_separator w ≡ w ∷ []
unfolding split_at
split_at-word [] h = refl
split_at-word (c ∷ w) h = rw (h.0.0) (ap (λ (l : List Text). push_head c l) (split_at-word w h.1))

split_at-before :
    (w s : Text)
    → All IsNameChar w
    → split_at is_separator (w ++ b'/' ∷ s) ≡ w ∷ split_at is_separator s
unfolding split_at
split_at-before [] s h = refl
split_at-before (c ∷ w) s h =
    rw (h.0.0) (ap (λ (l : List Text). push_head c l) (split_at-before w s h.1))

split_at-join :
    (windows : Bool) (ws : List Text)
    → 0 < length ws
    → All (IsPlain windows) ws
    → split_at is_separator (join ws) ≡ ws
unfolding join
split_at-join windows [] h p = absurd (omega (arith, h))
split_at-join windows (w ∷ []) h p = split_at-word w (p.0.characters)
split_at-join windows (w ∷ v ∷ ws) h p =
    split_at-before w (join (v ∷ ws)) p.0.characters
    ∙ ap (λ (l : List Text). w ∷ l) (split_at-join windows (v ∷ ws) (omega arith) p.1)

any-append :
    (p : ℕ → Bool) (s t : Text) → any p s ≡ false → any p t ≡ false → any p (s ++ t) ≡ false
any-append p [] t a b = b
any-append p (c ∷ s) t a b = ground (arith, a, any-append p s t (ground (arith, a)) b)

any-name :
    (p : ℕ → Bool) (w : Text)
    → ((c : ℕ) → IsNameChar c → p c ≡ false)
    → All IsNameChar w
    → any p w ≡ false
any-name p [] q h = refl
any-name p (c ∷ w) q h = rw (q c h.0) (any-name p w q h.1)

-- A test that no character of a component and no slash passes.
any-join :
    (p : ℕ → Bool) (windows : Bool) (ws : List Text)
    → p b'/' ≡ false
    → ((c : ℕ) → IsNameChar c → p c ≡ false)
    → All (IsPlain windows) ws
    → any p (join ws) ≡ false
unfolding join
any-join p windows [] s q h = refl
any-join p windows (w ∷ []) s q h = any-name p w q h.0.characters
any-join p windows (w ∷ v ∷ ws) s q h =
    any-append p w (b'/' ∷ join (v ∷ ws)) (any-name p w q h.0.characters)
      (rw s (any-join p windows (v ∷ ws) s q h.1))

head-join :
    (windows : Bool) (ws : List Text)
    → All (IsPlain windows) ws
    → head_is is_separator (join ws) ≡ false
unfolding join
head-join windows [] h = refl
head-join windows ([] ∷ ws) h = absurd (h.0.not_empty refl)
head-join windows ((c ∷ w) ∷ []) h = h.0.characters.0.0
head-join windows ((c ∷ w) ∷ v ∷ ws) h = h.0.characters.0.0

-- The name of plain components, when it is not too long.
pub components-join :
    (windows : Bool) (ws : List Text) (backslash_separates : Bool)
    → 0 < length ws
    → All (IsPlain windows) ws
    → name_len windows (join ws) ≤ max_name windows
    → components windows (join ws) backslash_separates ≡ ok ws
unfolding components
components-join windows ws b h p short =
    rw (not_long (max_name windows) (name_len windows (join ws)) short) (
      rw (head-join windows ws p) (
        rw (any-join is_nul windows ws refl (λ c q. q.1) p) (
          rw (any-join (λ c. c == backslash) windows ws refl (λ c q. ground (arith, q.0)) p) (
            rw (split_at-join windows ws h p) (rw (parts_loop-plain windows ws p) (last b ws h))))))
  where
    not_long : (n m : ℕ) → m ≤ n → ltb n m ≡ false
    not_long n m h = ground arith

    last :
        (b : Bool) (ws : List Text)
        → 0 < length ws
        → (if not b && false then err has_backslash else some_parts (ok ws)) ≡ ok ws
    last b [] h = absurd (omega (arith, h))
    last true (w ∷ ws) h = refl
    last false (w ∷ ws) h = refl

-- The components of a name, joined by `/`, are a name that is read as the same components, whether
-- or not a backslash separates.
pub components-components :
    (windows : Bool) (name : Text) (b b' : Bool) (parts : List Text)
    → components windows name b ≡ ok parts
    → components windows (join parts) b' ≡ ok parts
components-components windows name b b' parts e =
    let plain : (0 < length parts) × All (IsPlain windows) parts =
      components-IsPlain windows name b parts e in
    components-join windows parts b' plain.0 plain.1
      (omega (arith, weight-join windows parts plain.0, shorter))
  where
    shorter : weight windows parts ≤ suc (max_name windows)
    shorter =
        (Returns-ok (λ ps. (0 < length ps) × (weight windows ps ≤ suc (max_name windows)))
          (components windows name b) parts
          (components-Returns (λ ps. weight windows ps ≤ suc (max_name windows)) windows name b
            (λ _ short _.
              Returns-le windows (weight windows (split_at is_separator name))
                (suc (max_name windows)) _ (omega (arith, weight-split_at windows name, short))
                (weight-parts_loop windows (split_at is_separator name))))
          e).1
