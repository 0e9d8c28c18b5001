-- ===== src/Glob/Path/Spelled.antt =====
-- Paths as the walk spells them: `clean_path` keeps the segments, and it is idempotent.
use task_rs.Base.{
  ℕ, ◌≡◌, refl, sym, ap, ◌∙◌, Bool, true, false, not, ◌||◌, List, [], ◌∷◌, arith, Text, ◌=ₜ◌, All,
  Bool-cases, inl, inr, any, keep, ◌==◌,
}
use task_rs.Glob.Path.{
  split, join, push_head, add_root, keep_past_root, path_segments, clean_path, is_empty, dot,
  is_slash,
}
use task_rs.Glob.Path.Clean.{
  IsCons, split-append, clean_path-join, keep_past_root-split, AllNonEmpty,
}

-- A name of a path holds no slash.
abbrev pub AllNames : List Text → Type 0
AllNames ws = All (λ w. any is_slash w ≡ false) ws

pub split-AllNames : (s : Text) → AllNames (split s)
unfolding split
split-AllNames [] = (refl, tt)
split-AllNames (c ∷ s) = elim (Bool-cases (c == b'/')) [
  | inl e ↦ rw e (refl, split-AllNames s)
  | inr e ↦ rw e (push_head-AllNames c (split s) e (split-AllNames s))
]
  where
    push_head-AllNames :
        (c : ℕ) (ws : List Text) → (c == b'/') ≡ false → AllNames ws → AllNames (push_head c ws)
    push_head-AllNames c [] e h = (rw e refl, tt)
    push_head-AllNames c (w ∷ ws) e h = (rw e h.0, h.1)

keep-AllNames : (p : Text → Bool) (ws : List Text) → AllNames ws → AllNames (keep p ws)
keep-AllNames p [] h = tt
keep-AllNames p (w ∷ ws) h = elim (Bool-cases (p w)) [
  | inl e ↦ rw e (h.0, keep-AllNames p ws h.1)
  | inr e ↦ rw e (keep-AllNames p ws h.1)
]

add_root-AllNames : (ws : List Text) → AllNames ws → AllNames (add_root ws)
unfolding add_root
add_root-AllNames [] h = (refl, tt)
add_root-AllNames (w ∷ ws) h = elim (Bool-cases (is_empty w || w =ₜ dot)) [
  | inl e ↦ rw e h
  | inr e ↦ rw e (refl, h)
]

keep_past_root-AllNames :
    (p : Text → Bool) (ws : List Text) → AllNames ws → AllNames (keep_past_root p ws)
keep_past_root-AllNames p [] h = tt
keep_past_root-AllNames p (w ∷ ws) h = (h.0, keep-AllNames p ws h.1)

pub path_segments-AllNames : (path : Text) → AllNames (path_segments path)
unfolding path_segments
path_segments-AllNames path =
    keep_past_root-AllNames (λ s. not (is_empty s)) (add_root (split path))
      (add_root-AllNames (split path) (split-AllNames path))

split-word : (w : Text) → any is_slash w ≡ false → split w ≡ w ∷ []
unfolding split
split-word [] h = refl
split-word (c ∷ w) h = elim (Bool-cases (c == b'/')) [
  | inl e ↦ absurd (ground (arith, h, e))
  | inr e ↦ rw e (rw (split-word w (ground (arith, h))) refl)
]

pub split-join : (ws : List Text) → IsCons ws → AllNames ws → split (join ws) ≡ ws
unfolding join
split-join [] c h = elim c [ ]
split-join (w ∷ []) c h = split-word w h.0
split-join (w ∷ v ∷ ws) c h =
    split-append w (join (v ∷ ws)) ∙ rw (split-word w h.0, split-join (v ∷ ws) tt h.1) refl

-- A root marker stands first, and no segment behind it is empty.
abbrev IsSpelled : List Text → Type 0
IsSpelled [] = ⊥
IsSpelled (w ∷ ws) = ((is_empty w || w =ₜ dot) ≡ true) × AllNonEmpty ws

keep-AllNonEmpty : (ws : List Text) → AllNonEmpty (keep (λ s. not (is_empty s)) ws)
keep-AllNonEmpty [] = tt
keep-AllNonEmpty (w ∷ ws) = elim (Bool-cases (is_empty w)) [
  | inl e ↦ rw e (keep-AllNonEmpty ws)
  | inr e ↦ rw e (e, keep-AllNonEmpty ws)
]

IsSpelled-root : (ws : List Text) → IsSpelled (keep_past_root (λ s. not (is_empty s)) (add_root ws))
unfolding add_root ◌=ₜ◌
IsSpelled-root [] = (refl, tt)
IsSpelled-root (w ∷ ws) = elim (Bool-cases (is_empty w || w =ₜ dot)) [
  | inl e ↦ rw e (e, keep-AllNonEmpty ws)
  | inr e ↦ rw e (refl, keep-AllNonEmpty (w ∷ ws))
]

respelled : (ws : List Text) → IsSpelled ws → AllNames ws → path_segments (join ws) ≡ ws
unfolding path_segments add_root
respelled [] s h = absurd s
respelled (w ∷ ws) s h =
    ap (λ (l : List Text). keep_past_root (λ s. not (is_empty s)) (add_root l))
      (split-join (w ∷ ws) tt h)
    ∙ rw (s.0) (keep_past_root-split (w ∷ ws) s.1)

-- `clean_path` spells a path with the segments that the path has, and spelling those again gives
-- the same text.
pub path_segments-clean_path :
    (path : Text)
    → (path_segments (clean_path path) ≡ path_segments path)
      × (join (path_segments (clean_path path)) ≡ clean_path path)
path_segments-clean_path path = (kept, ap join kept ∙ sym (clean_path-join path))
  where
    kept : path_segments (clean_path path) ≡ path_segments path
    kept =
        ap path_segments (clean_path-join path)
        ∙ respelled (path_segments path) (unfold path_segments in IsSpelled-root (split path))
            (path_segments-AllNames path)
