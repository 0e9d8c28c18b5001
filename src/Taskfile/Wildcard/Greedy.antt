-- ===== src/Taskfile/Wildcard/Greedy.antt =====
-- Which names a task with wildcards answers to, and one that the greedy search misses.
use task_rs.Base.{
  take-length, drop-length, ends_with, ends_with-append, ℕ, ◌+◌, ◌-◌, ◌≡◌, refl, sym, subst, ap,
  ◌∙◌, inl, inr, Bool, true, false, Option, none, some, List, [], ◌∷◌, ◌++◌, arith, ◌==◌, ==_iff,
  if◌then◌else◌, Text, codes, length, length-append, take, drop, drop-add, In, Bool-cases,
  append_assoc,
}
use task_rs.Taskfile.Names.{strip_prefix, strip_prefix-append}
use task_rs.Taskfile.Task.{Task}
use task_rs.Taskfile.Wildcard.{
  split_star, rfind, find_segment, cons_capture, captures_loop, captures_after, captures_segments,
  wildcard_captures, stars, or_continue, match_loop, wildcard_match,
}
use task_rs.Taskfile.Wildcard.Fill.{fill, fill-nil, wildcard_captures-Fills, ends_with-inv}

-- What a search of the names answers.
abbrev pub MatchPost : List Text → Text → Bool × List Text → Type 0
MatchPost names name (true, cs) =
    (pattern : Text) × In pattern names × (fill pattern cs ≡ name) × (length cs ≡ stars pattern)
MatchPost names name (false, cs) =
    (cs ≡ []) × ((pattern : Text) → In pattern names → wildcard_captures pattern name ≡ none)

MatchPost-later :
    (p : Text) (names : List Text) (name : Text) (res : Bool × List Text)
    → wildcard_captures p name ≡ none
    → MatchPost names name res
    → MatchPost (p ∷ names) name res
MatchPost-later p names name (true, cs) n (q, i, f, l) = (q, inr i, f, l)
MatchPost-later p names name (false, cs) n (e, f) = (
  e,
  λ q i. elim i [
    | inl s ↦ subst (λ (t : Text). wildcard_captures t name ≡ none) (sym s) n
    | inr j ↦ f q j
  ],
)

or_continue-Post :
    (p : Text) (names : List Text) (name : Text) (o : Option (List Text)) (res : Bool × List Text)
    → wildcard_captures p name ≡ o
    → MatchPost names name res
    → MatchPost (p ∷ names) name (or_continue o (stars p) res)
unfolding or_continue
or_continue-Post p names name none res e h = MatchPost-later p names name res e h
or_continue-Post p names name (some cs) res e h =
    let found = wildcard_captures-Fills p name cs e in
    subst (λ (b : Bool). MatchPost (p ∷ names) name (if b then (true, cs) else res))
      (sym ((==_iff (length cs) (stars p)).1 found.1)) (p, inl refl, found.0, found.1)

match_loop-Post : (names : List Text) (name : Text) → MatchPost names name (match_loop names name)
unfolding match_loop
match_loop-Post [] name = (refl, λ p i. absurd i)
match_loop-Post (p ∷ names) name =
    or_continue-Post p names name (wildcard_captures p name) (match_loop names name) refl
      (match_loop-Post names name)

-- A task answers to a name only with captures that, put in place of the wildcards of its name or
-- of an alias, give the name back, one for each wildcard; and it refuses a name only when neither
-- its own name nor an alias has captures for it.
pub wildcard_match-Post :
    {V O : Type 0} (t : Task V O) (name : Text)
    → MatchPost (t.task ∷ t.aliases) name (wildcard_match t name)
wildcard_match-Post t name = unfold wildcard_match in match_loop-Post (t.task ∷ t.aliases) name

split_star-plain : (s : Text) → stars s ≡ 0 → split_star s ≡ (s, [])
unfolding split_star stars
split_star-plain [] h = refl
split_star-plain (c ∷ s) h = elim (Bool-cases (c == b'*')) [
  | inl e ↦ absurd (ground (arith, rw e at h))
  | inr e ↦ rw e (rw (split_star-plain s (rw e at h)) refl)
]

split_star-one : (p w : Text) → stars p ≡ 0 → stars w ≡ 0 → split_star (p ++ b'*' ∷ w) ≡ (p, w ∷ [])
unfolding split_star stars
split_star-one [] w hp hw = rw (split_star-plain w hw) refl
split_star-one (c ∷ p) w hp hw = elim (Bool-cases (c == b'*')) [
  | inl e ↦ absurd (ground (arith, rw e at hp))
  | inr e ↦ rw e (rw (split_star-one p w (rw e at hp) hw) refl)
]

-- A pattern with one wildcard has captures for every text that fills it.
pub wildcard_captures-one :
    (p w t : Text)
    → stars p ≡ 0
    → stars w ≡ 0
    → wildcard_captures (p ++ b'*' ∷ w) (p ++ (t ++ w)) ≡ some (t ∷ [])
unfolding wildcard_captures captures_segments captures_after captures_loop
wildcard_captures-one p w t hp hw =
    ap (captures_segments (p ++ b'*' ∷ w) (p ++ (t ++ w))) (split_star-one p w hp hw)
    ∙ ap (captures_after w []) (strip_prefix-append p (t ++ w))
    ∙ rw (ends_with-append t w) (ap (λ (l : Text). some (l ∷ [])) taken)
  where
    taken : take (length (t ++ w) - length w) (t ++ w) ≡ t
    taken = ap (λ (n : ℕ). take n (t ++ w)) (omega (arith, length-append t w)) ∙ take-length t w

rfind-absent : (c : ℕ) (x : Text) → (In c x → ⊥) → rfind (c ∷ []) x ≡ none
unfolding rfind strip_prefix
rfind-absent c [] h = refl
rfind-absent c (d ∷ x) h =
    rw (rfind-absent c x (λ i. h (inr i))) (elim (Bool-cases (c == d)) [
      | inl e ↦ absurd (h (inl ((==_iff c d).0 e)))
      | inr e ↦ rw e refl
    ])

-- The last occurrence of a character.
rfind-last :
    (c : ℕ) (before x : Text)
    → (In c x → ⊥)
    → rfind (c ∷ []) (before ++ c ∷ x) ≡ some (length before)
unfolding rfind strip_prefix
rfind-last c [] x h = rw (rfind-absent c x h) (rw ((==_iff c c).1 refl) refl)
rfind-last c (d ∷ before) x h = rw (rfind-last c before x h) refl

ends_with-longer : (c : ℕ) (x : Text) → ends_with (c ∷ x) x ≡ false
ends_with-longer c x = elim (Bool-cases (ends_with (c ∷ x) x)) [
  | inr e ↦ e
  | inl e ↦
      let found = ends_with-inv (c ∷ x) x e in
      absurd (omega (arith, ap (λ (l : Text). length l) found.1, length-append found.0 (c ∷ x)))
]

captures_loop-found :
    (sep next : Text) (segments : List Text) (rest : Text) (idx : ℕ)
    → find_segment sep rest ≡ some idx
    → captures_loop sep (next ∷ segments) rest
      ≡ cons_capture (take idx rest) (captures_loop next segments (drop (idx + length sep) rest))
captures_loop-found sep next segments rest idx e =
    unfold captures_loop in rw (e, captures_loop) refl

captures_loop-unended : (c : ℕ) (x : Text) → captures_loop (c ∷ x) [] x ≡ none
captures_loop-unended c x = unfold captures_loop in rw (ends_with-longer c x) refl

abbrev dash : Text
dash = b'-' ∷ []

-- The greedy search is never taken back: a name that the texts `a` and `b` fill, as in `*-*-x`, has
-- no captures, since the first wildcard takes all up to the last dash and leaves no dash to end on.
pub wildcard_captures-misses :
    (a b x : Text)
    → (In b'-' x → ⊥)
    → stars x ≡ 0
    → (fill (codes "*-*-" ++ x) (a ∷ b ∷ []) ≡ (a ++ (dash ++ b)) ++ (dash ++ x))
      × (wildcard_captures (codes "*-*-" ++ x) ((a ++ (dash ++ b)) ++ (dash ++ x)) ≡ none)
unfolding wildcard_captures captures_segments captures_after captures_loop find_segment
wildcard_captures-misses a b x h hx = (filled, missed)
  where
    filled : fill (codes "*-*-" ++ x) (a ∷ b ∷ []) ≡ (a ++ (dash ++ b)) ++ (dash ++ x)
    filled =
        unfold fill in
        ap (λ (l : Text). a ++ (dash ++ (b ++ (dash ++ l)))) (fill-nil x)
        ∙ sym (append_assoc a (dash ++ b) (dash ++ x))

    name : Text
    name = (a ++ (dash ++ b)) ++ (dash ++ x)

    rest : drop (length (a ++ (dash ++ b)) + 1) name ≡ x
    rest =
        drop-add (length (a ++ (dash ++ b))) 1 name
        ∙ ap (drop 1) (drop-length (a ++ (dash ++ b)) (dash ++ x))

    missed : captures_loop dash ((b'-' ∷ (split_star x).0) ∷ (split_star x).1) name ≡ none
    missed = rw (split_star-plain x hx) (
        captures_loop-found dash (dash ++ x) [] name (length (a ++ (dash ++ b)))
          (rfind-last b'-' (a ++ (dash ++ b)) x h)
        ∙ ap
            (λ (l : Text).
              cons_capture (take (length (a ++ (dash ++ b))) name) (captures_loop (dash ++ x) [] l))
            rest
        ∙ ap (cons_capture (take (length (a ++ (dash ++ b))) name)) (captures_loop-unended b'-' x)
        ∙ unfold cons_capture in refl)
