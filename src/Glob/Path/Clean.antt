-- ===== src/Glob/Path/Clean.antt =====
-- `clean_path` borrows a path that is already spelled as the walk spells it.
use task_rs.Base.{
  ℕ, ◌≡◌, refl, true, false, not, ◌||◌, List, [], ◌∷◌, ◌++◌, ◌==◌, Text, codes, ◌=ₜ◌, keep, arith,
  All, ap, ◌∙◌, sym, ==_iff, Bool-cases, inl, inr, tail,
}
use task_rs.Glob.Path.{
  split, join, is_empty, add_root, path_segments, starts_with, contains, ends_with_slash,
  clean_path, push_head, keep_past_root,
}

abbrev pub IsCons : List Text → Type 0
IsCons [] = ⊥
IsCons (w ∷ ws) = Unit

pub split-IsCons : (s : Text) → IsCons (split s)
unfolding split
split-IsCons [] = tt
split-IsCons (c ∷ s) = elim (Bool-cases (c == b'/')) [
  | inl e ↦ rw e tt
  | inr e ↦ rw e (pushed (split s))
]
  where
    pushed : (ws : List Text) → IsCons (push_head c ws)
    pushed [] = tt
    pushed (w ∷ ws) = tt

join-slash : (ws : List Text) → IsCons ws → join ([] ∷ ws) ≡ b'/' ∷ join ws
unfolding join
join-slash [] h = elim h [ ]
join-slash (w ∷ ws) h = refl

join-push_head : (c : ℕ) (ws : List Text) → IsCons ws → join (push_head c ws) ≡ c ∷ join ws
unfolding join
join-push_head c [] h = elim h [ ]
join-push_head c (w ∷ []) h = refl
join-push_head c (w ∷ v ∷ ws) h = refl

-- Joining the pieces of a split gives the text back.
pub join-split : (s : Text) → join (split s) ≡ s
unfolding split
join-split [] = unfold join in refl
join-split (c ∷ s) = elim (Bool-cases (c == b'/')) [
  | inl e ↦ rw (e) (
      join-slash (split s) (split-IsCons s)
      ∙ ap (λ (t : Text). b'/' ∷ t) (join-split s)
      ∙ ap (λ (d : ℕ). d ∷ s) (sym ((==_iff c b'/').0 e)))
  | inr e ↦
      rw (e) (join-push_head c (split s) (split-IsCons s) ∙ ap (λ (t : Text). c ∷ t) (join-split s))
]

push_head-append :
    (c : ℕ) (ws vs : List Text) → IsCons ws → push_head c (ws ++ vs) ≡ push_head c ws ++ vs
push_head-append c [] vs h = elim h [ ]
push_head-append c (w ∷ ws) vs h = refl

-- The pieces of a joined path.
pub split-append : (dir rest : Text) → split (dir ++ b'/' ∷ rest) ≡ split dir ++ split rest
unfolding split
split-append [] rest = refl
split-append (c ∷ dir) rest = elim (Bool-cases (c == b'/')) [
  | inl e ↦ rw e (ap (λ (l : List Text). [] ∷ l) (split-append dir rest))
  | inr e ↦
      rw e (
        rw (split-append dir rest) (push_head-append c (split dir) (split rest) (split-IsCons dir)))
]

abbrev pub AllNonEmpty : List Text → Type 0
AllNonEmpty ws = All (λ w. is_empty w ≡ false) ws

-- A text that starts with no slash has a first piece that is not empty.
split-AllNonEmpty :
    (d : ℕ) (s : Text)
    → (d == b'/') ≡ false
    → AllNonEmpty (tail (split (d ∷ s)))
    → AllNonEmpty (split (d ∷ s))
unfolding split
split-AllNonEmpty d s e h = rw e (pushed (split s) (rw e at h))
  where
    pushed : (ws : List Text) → AllNonEmpty (tail (push_head d ws)) → AllNonEmpty (push_head d ws)
    pushed [] k = (refl, tt)
    pushed (w ∷ ws) k = (refl, k)

tail-push_head : (c : ℕ) (ws : List Text) → IsCons ws → tail (push_head c ws) ≡ tail ws
tail-push_head c [] h = elim h [ ]
tail-push_head c (w ∷ ws) h = refl

module _ (c d : ℕ) (s : Text) (n : contains (codes "//") (c ∷ d ∷ s) ≡ false) where
  contains-tail : contains (codes "//") (d ∷ s) ≡ false
  unfolding contains starts_with
  contains-tail = ground arith

  second_ne : (c == b'/') ≡ true → (d == b'/') ≡ false
  unfolding contains starts_with
  second_ne q = ground arith

ends-tail :
    (c d : ℕ) (s : Text) → ends_with_slash (c ∷ d ∷ s) ≡ false → ends_with_slash (d ∷ s) ≡ false
unfolding ends_with_slash
ends-tail c d s h = h

split-tail-cons :
    (c : ℕ) (s : Text)
    → ((c == b'/') ≡ true → AllNonEmpty (split s))
    → AllNonEmpty (tail (split s))
    → AllNonEmpty (tail (split (c ∷ s)))
unfolding split
split-tail-cons c s h k = elim (Bool-cases (c == b'/')) [
  | inl q ↦ rw q (h q)
  | inr q ↦ rw q (rw (tail-push_head c (split s) (split-IsCons s)) k)
]

split-tail :
    (s : Text)
    → contains (codes "//") s ≡ false
    → ends_with_slash s ≡ false
    → AllNonEmpty (tail (split s))
split-tail [] n e = unfold split in tt
split-tail (c ∷ []) n e = unfold split ends_with_slash in split-tail-cons c [] (λ q. cc (q, e)) tt
split-tail (c ∷ d ∷ s) n e =
    let ih : AllNonEmpty (tail (split (d ∷ s))) =
      split-tail (d ∷ s) (contains-tail c d s n) (ends-tail c d s e) in
    split-tail-cons c (d ∷ s) (λ q. split-AllNonEmpty d s (second_ne c d s n q) ih) ih

keep-all : (ws : List Text) → AllNonEmpty ws → keep (λ s. not (is_empty s)) ws ≡ ws
keep-all [] h = refl
keep-all (w ∷ ws) h = rw (h.0) (ap (λ (l : List Text). w ∷ l) (keep-all ws h.1))

add_root-split :
    (path : Text)
    → (starts_with (codes "/") path || starts_with (codes "./") path) ≡ true
    → add_root (split path) ≡ split path
unfolding add_root split starts_with ◌=ₜ◌
add_root-split [] h = ground arith
add_root-split (c ∷ []) h = ground arith
add_root-split (c ∷ d ∷ s) h = ground arith

pub keep_past_root-split :
    (ws : List Text) → AllNonEmpty (tail ws) → keep_past_root (λ s. not (is_empty s)) ws ≡ ws
keep_past_root-split [] h = refl
keep_past_root-split (w ∷ ws) h = ap (λ (l : List Text). w ∷ l) (keep-all ws h)

-- The path that is borrowed.
spelled :
    (path : Text)
    → (starts_with (codes "/") path || starts_with (codes "./") path) ≡ true
    → contains (codes "//") path ≡ false
    → ends_with_slash path ≡ false
    → join (path_segments path) ≡ path
unfolding path_segments
spelled path r d e =
    ap (λ (ws : List Text). join (keep_past_root (λ s. not (is_empty s)) ws))
      (add_root-split path r)
    ∙ ap join (keep_past_root-split (split path) (split-tail path d e))
    ∙ join-split path

-- `clean_path` is the joined segments of the path, also where it takes the path as it is.
pub clean_path-join : (path : Text) → clean_path path ≡ join (path_segments path)
unfolding clean_path
clean_path-join path = ground (arith, spelled path)
