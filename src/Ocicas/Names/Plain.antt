-- ===== src/Ocicas/Names/Plain.antt =====
-- The components that `components` returns are plain names.
use task_rs.Base.{
  ℕ, ◌≤◌, ◌<◌, ◌≡◌, ◌≢◌, refl, ap, subst, inl, inr, Bool, false, not, ◌&&◌, ◌||◌, Option, none,
  some, List, [], ◌∷◌, arith, ltb, ◌==◌, Text, codes, =ₜ_iff, any, All, length, Result, ok, err,
  ok-injective, not_ltb→le, Bool-cases,
}
use task_rs.Glob.Path.{push_head}
use task_rs.Ocicas.Names.{
  NameError, max_name, max_component, head_is, name_len, backslash, is_separator, is_nul, split_at,
  windows_aliased, has_drive, is_skipped, refusal, or_refused, parts_loop, some_parts, components,
}

-- A character that no component holds.
abbrev pub IsNameChar : ℕ → Type 0
IsNameChar c = (is_separator c ≡ false) × (is_nul c ≡ false)

-- A component that names an entry of the directory that it is joined to, on the platform.
pub record IsPlain (windows : Bool) (part : Text) : Type 0 where
  pub not_empty : part ≢ []
  pub not_dot : part ≢ codes "."
  pub not_dot_dot : part ≢ codes ".."
  pub characters : All IsNameChar part
  pub short : name_len windows part ≤ max_component
  pub no_drive : (windows && has_drive part) ≡ false
  pub not_aliased : (windows && windows_aliased part) ≡ false

split_at-All : (s : Text) → any is_nul s ≡ false → All (All IsNameChar) (split_at is_separator s)
unfolding split_at
split_at-All [] h = (tt, tt)
split_at-All (c ∷ s) h = elim (Bool-cases (is_separator c)) [
  | inl e ↦ rw e (tt, split_at-All s (rest h))
  | inr e ↦ rw e (add (split_at is_separator s) (e, first h) (split_at-All s (rest h)))
]
  where
    first : (is_nul c || any is_nul s) ≡ false → is_nul c ≡ false
    first h = ground (arith, h)

    rest : (is_nul c || any is_nul s) ≡ false → any is_nul s ≡ false
    rest h = ground (arith, h)

    add :
        (ws : List Text)
        → IsNameChar c
        → All (All IsNameChar) ws
        → All (All IsNameChar) (push_head c ws)
    add [] p h = ((p, tt), tt)
    add (w ∷ ws) p h = ((p, h.0), h.1)

pub refusal-IsPlain :
    (windows : Bool) (part : Text)
    → All IsNameChar part
    → is_skipped part ≡ false
    → refusal windows part ≡ none
    → IsPlain windows part
unfolding refusal
refusal-IsPlain windows part chars kept r = record {
  not_empty = λ e. cc (kept, ap (λ (t : Text). is_skipped t) e);
  not_dot = λ e. ground (arith, kept, (=ₜ_iff part (codes ".")).1 e);
  not_dot_dot = λ e. ground (arith, r, (=ₜ_iff part (codes "..")).1 e);
  characters = chars;
  short = ground (arith, r);
  no_drive = ground (arith, r);
  not_aliased = ground (arith, r);
}

-- What is known of the parts when there is no error.
abbrev pub Returns : (List Text → Type 0) → Result NameError (List Text) → Type 0
Returns P (ok parts) = P parts
Returns P (err e) = Unit

or_refused-Returns :
    (windows : Bool) (part : Text) (r : Option NameError) (rest : Result NameError (List Text))
    → (r ≡ none → IsPlain windows part)
    → Returns (All (IsPlain windows)) rest
    → Returns (All (IsPlain windows)) (or_refused r part rest)
or_refused-Returns windows part (some e) rest p h = tt
or_refused-Returns windows part none (ok parts) p h = (p refl, h)
or_refused-Returns windows part none (err e) p h = tt

parts_loop-Returns :
    (windows : Bool) (ws : List Text)
    → All (All IsNameChar) ws
    → Returns (All (IsPlain windows)) (parts_loop windows ws)
unfolding parts_loop
parts_loop-Returns windows [] h = tt
parts_loop-Returns windows (w ∷ ws) h = elim (Bool-cases (is_skipped w)) [
  | inl e ↦ rw e (parts_loop-Returns windows ws h.1)
  | inr e ↦ rw e (
      or_refused-Returns windows w (refusal windows w) (parts_loop windows ws)
        (refusal-IsPlain windows w h.0 e) (parts_loop-Returns windows ws h.1))
]

some_parts-Returns :
    (P : List Text → Type 0) (r : Result NameError (List Text))
    → Returns P r
    → Returns (λ ps. (0 < length ps) × P ps) (some_parts r)
some_parts-Returns P (ok []) h = tt
some_parts-Returns P (ok (p ∷ ps)) h = (omega arith, h)
some_parts-Returns P (err e) h = tt

-- The checks of the whole name, before its parts are read.
pub components-Returns :
    (P : List Text → Type 0) (windows : Bool) (name : Text) (backslash_separates : Bool)
    → (any is_nul name ≡ false
        → name_len windows name ≤ max_name windows
        → (not backslash_separates && any (λ c. c == backslash) name) ≡ false
        → Returns P (parts_loop windows (split_at is_separator name)))
    → Returns (λ ps. (0 < length ps) × P ps) (components windows name backslash_separates)
unfolding components
components-Returns P windows name b h =
    elim (Bool-cases (ltb (max_name windows) (name_len windows name))) [
      | inl e ↦ rw e tt
      | inr e ↦ rw e (elim (Bool-cases (head_is is_separator name || any is_nul name)) [
        | inl e' ↦ rw e' tt
        | inr e' ↦ rw e' (elim (Bool-cases (not b && any (λ c. c == backslash) name)) [
          | inl e'' ↦ rw e'' tt
          | inr e'' ↦ rw e'' (
              some_parts-Returns P (parts_loop windows (split_at is_separator name))
                (h (ground (arith, e')) (not_ltb→le _ _ e) e''))
        ])
      ])
    ]

pub Returns-ok :
    (P : List Text → Type 0) (r : Result NameError (List Text)) (parts : List Text)
    → Returns P r
    → r ≡ ok parts
    → P parts
Returns-ok P (ok ps) parts h e = subst P (ok-injective e) h
Returns-ok P (err x) parts h e = absurd (cc e)

-- A name that `components` accepts has at least one component, and every one names an entry of the
-- directory that it is joined to: it is none of the empty name, `.` and `..`, holds no separator of
-- either kind and no NUL, is no longer than the platform allows, and on Windows is neither a drive
-- nor an alias.
pub components-IsPlain :
    (windows : Bool) (name : Text) (backslash_separates : Bool) (parts : List Text)
    → components windows name backslash_separates ≡ ok parts
    → (0 < length parts) × All (IsPlain windows) parts
components-IsPlain windows name b parts e =
    Returns-ok (λ ps. (0 < length ps) × All (IsPlain windows) ps) (components windows name b) parts
      (components-Returns (All (IsPlain windows)) windows name b (λ no_nul _ _.
        parts_loop-Returns windows (split_at is_separator name) (split_at-All name no_nul)))
      e
