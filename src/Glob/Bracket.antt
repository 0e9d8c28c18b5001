-- ===== src/Glob/Bracket.antt =====
-- Bracket expressions of crates/taskcore/src/fingerprint/glob.rs: `bracket_len` and
-- `match_bracket`. An index `i` into `pat` is the number of characters read and the rest after
-- them; `inside` is the test `i > usize::from(negated)`.
use task_rs.Base.{
  ℕ, ◌+◌, ◌≡◌, refl, sym, ap, ◌∙◌, Bool, true, false, not, ◌&&◌, ◌||◌, inl, inr, Option, none, some,
  List, [], ◌∷◌, arith, ◌==◌, leb, if◌then◌else◌, Text, drop, drop-add, Bool-cases,
}
use mathlib.Core.Bool.{xor}
use mathlib.Core.Option

-- The two walks make the same steps: a closing bracket ends them, `a-z` (with no closing bracket
-- for `z`) takes three characters, and anything else takes one.
bracket_len_loop : Bool → ℕ → Text → Option ℕ
bracket_len_loop inside i [] = none
bracket_len_loop inside i (ch ∷ dash ∷ end ∷ rest) =
    let range = bracket_len_loop true (i + 3) rest in
    let single = bracket_len_loop true (i + 1) (dash ∷ end ∷ rest) in
    if ch == b']' && inside
    then some (i + 1)
    else if dash == b'-' && not (end == b']')
    then range
    else single
bracket_len_loop inside i (ch ∷ rest) =
    let single = bracket_len_loop true (i + 1) rest in
    if ch == b']' && inside then some (i + 1) else single

match_bracket_loop : Bool → Bool → Bool → ℕ → Text → Option Text
match_bracket_loop negated inside matched c [] = none
match_bracket_loop negated inside matched c (ch ∷ dash ∷ end ∷ rest) =
    let range = match_bracket_loop negated true (matched || (leb ch c && leb c end)) c rest in
    let single = match_bracket_loop negated true (matched || ch == c) c (dash ∷ end ∷ rest) in
    if ch == b']' && inside
    then (if xor matched negated then some (dash ∷ end ∷ rest) else none)
    else if dash == b'-' && not (end == b']')
    then range
    else single
match_bracket_loop negated inside matched c (ch ∷ rest) =
    let single = match_bracket_loop negated true (matched || ch == c) c rest in
    if ch == b']' && inside then (if xor matched negated then some rest else none) else single

pub is_negation : Text → Bool
is_negation [] = false
is_negation (c ∷ _) = c == b'!' || c == b'^'

abbrev skip_negation : Text → Text
skip_negation pat = if is_negation pat then drop 1 pat else pat

unfoldable pub bracket_len : Text → Option ℕ
unfolding bracket_len_loop is_negation
bracket_len pat = bracket_len_loop false (if is_negation pat then 1 else 0) (skip_negation pat)

unfoldable pub match_bracket : Text → ℕ → Option Text
unfolding match_bracket_loop is_negation xor
match_bracket pat c = match_bracket_loop (is_negation pat) false false c (skip_negation pat)

-- Independent of both walks: the members of an expression as ranges, and its length.
abbrev pub Members : Type 0
Members = List (ℕ × ℕ) × ℕ

one_more : ℕ → ℕ × ℕ → Members → Members
one_more k m (ms, n) = (m ∷ ms, k + n)

parse_members : Bool → Text → Option Members
parse_members inside [] = none
parse_members inside (ch ∷ dash ∷ end ∷ rest) =
    let range = parse_members true rest in
    let single = parse_members true (dash ∷ end ∷ rest) in
    if ch == b']' && inside
    then some ([], 1)
    else if dash == b'-' && not (end == b']')
    then Option.map (one_more 3 (ch, end)) range
    else Option.map (one_more 1 (ch, ch)) single
parse_members inside (ch ∷ rest) =
    let single = parse_members true rest in
    if ch == b']' && inside then some ([], 1) else Option.map (one_more 1 (ch, ch)) single

pub covers : List (ℕ × ℕ) → ℕ → Bool
covers [] c = false
covers ((lo, hi) ∷ ms) c = (leb lo c && leb c hi) || covers ms c

pub verdict : Bool → Bool → ℕ → Text → Option Members → Option Text
verdict negated matched c pat none = none
verdict negated matched c pat (some (ms, n)) =
    if xor (matched || covers ms c) negated then some (drop n pat) else none

or_assoc : (a b c : Bool) → (a || (b || c)) ≡ ((a || b) || c)
or_assoc true b c = refl
or_assoc false b c = refl

or_false : (a : Bool) → (a || false) ≡ a
or_false true = refl
or_false false = refl

-- Equal on each branch of one test.
if-congr :
    {A B : Type 0} (b : Bool) (f : B → A) (x y : A) (u v : B)
    → x ≡ f u
    → y ≡ f v
    → (if b then x else y) ≡ f (if b then u else v)
if-congr true f x y u v p q = p
if-congr false f x y u v p q = q

bracket_len_loop_lem :
    (inside : Bool) (i : ℕ) (pat : Text)
    → bracket_len_loop inside i pat
      ≡ Option.map (λ (m : Members). i + m.1) (parse_members inside pat)
unfolding bracket_len_loop parse_members one_more
bracket_len_loop_lem inside i [] = refl
bracket_len_loop_lem inside i (ch ∷ []) = ground arith
bracket_len_loop_lem inside i (ch ∷ dash ∷ []) =
    ground (arith, bracket_len_loop_lem true (i + 1) (dash ∷ []))
bracket_len_loop_lem inside i (ch ∷ dash ∷ end ∷ rest) = ground (
  arith,
  bracket_len_loop_lem true (i + 1) (dash ∷ end ∷ rest),
  bracket_len_loop_lem true (i + 3) rest,
)

module _ (negated matched : Bool) (c : ℕ) where
  verdict-one_more :
      (pat : Text) (k lo hi : ℕ) (r : Option Members)
      → verdict negated matched c pat (Option.map (one_more k (lo, hi)) r)
        ≡ verdict negated (matched || (leb lo c && leb c hi)) c (drop k pat) r
  unfolding verdict one_more covers
  verdict-one_more pat k lo hi none = refl
  verdict-one_more pat k lo hi (some (ms, n)) = rw drop-add (
      ap (λ (b : Bool). if xor b negated then some (drop n (drop k pat)) else none)
        (or_assoc matched (leb lo c && leb c hi) (covers ms c)))

  verdict-closed :
      (ch : ℕ) (rest : Text)
      → verdict negated matched c (ch ∷ rest) (some ([], 1))
        ≡ (if xor matched negated then some rest else none)
  unfolding verdict covers
  verdict-closed ch rest =
      ap (λ (b : Bool). if xor b negated then some rest else none) (or_false matched)

eq_of_range : (a c : ℕ) → (a == c) ≡ (leb a c && leb c a)
eq_of_range a c = ground arith

-- `ch` read as the member `ch-ch`.
single_lem :
    (negated matched : Bool) (c ch : ℕ) (rest : Text) (r : Option Members) (o : Option Text)
    → o ≡ verdict negated (matched || ch == c) c rest r
    → o ≡ verdict negated matched c (ch ∷ rest) (Option.map (one_more 1 (ch, ch)) r)
single_lem negated matched c ch rest r o h =
    h
    ∙ ap (λ (b : Bool). verdict negated (matched || b) c rest r) (eq_of_range ch c)
    ∙ sym (verdict-one_more negated matched c (ch ∷ rest) 1 ch ch r)

match_bracket_loop_lem :
    (negated inside matched : Bool) (c : ℕ) (pat : Text)
    → match_bracket_loop negated inside matched c pat
      ≡ verdict negated matched c pat (parse_members inside pat)
unfolding match_bracket_loop parse_members
match_bracket_loop_lem negated inside matched c [] = unfold verdict in refl
match_bracket_loop_lem negated inside matched c (ch ∷ dash ∷ end ∷ rest) =
    if-congr (ch == b']' && inside) (verdict negated matched c (ch ∷ dash ∷ end ∷ rest)) _ _ _ _
      (sym (verdict-closed negated matched c ch (dash ∷ end ∷ rest)))
      (if-congr (dash == b'-' && not (end == b']'))
        (verdict negated matched c (ch ∷ dash ∷ end ∷ rest)) _ _ _ _
        (match_bracket_loop_lem negated true (matched || (leb ch c && leb c end)) c rest
          ∙ sym (
              verdict-one_more negated matched c (ch ∷ dash ∷ end ∷ rest) 3 ch end
                (parse_members true rest)))
        (single_lem negated matched c ch (dash ∷ end ∷ rest) _ _
          (match_bracket_loop_lem negated true (matched || ch == c) c (dash ∷ end ∷ rest))))
match_bracket_loop_lem negated inside matched c (ch ∷ rest) =
    if-congr (ch == b']' && inside) (verdict negated matched c (ch ∷ rest)) _ _ _ _
      (sym (verdict-closed negated matched c ch rest))
      (single_lem negated matched c ch rest _ _
        (match_bracket_loop_lem negated true (matched || ch == c) c rest))

shift : ℕ → Members → Members
shift k (ms, n) = (ms, k + n)

pub members : Text → Option Members
unfolding parse_members one_more shift
members pat =
    Option.map (shift (if is_negation pat then 1 else 0)) (parse_members false (skip_negation pat))

verdict-shift :
    (negated : Bool) (c k : ℕ) (pat : Text) (r : Option Members)
    → verdict negated false c pat (Option.map (shift k) r) ≡ verdict negated false c (drop k pat) r
unfolding verdict shift
verdict-shift negated c k pat none = refl
verdict-shift negated c k pat (some (ms, n)) = rw drop-add

skip_lem : (pat : Text) → skip_negation pat ≡ drop (if is_negation pat then 1 else 0) pat
skip_lem pat = elim (Bool-cases (is_negation pat)) [ inl e ↦ rw e refl | inr e ↦ rw e refl ]

bracket_len-members :
    (pat : Text) → bracket_len pat ≡ Option.map (λ (m : Members). m.1) (members pat)
unfolding bracket_len members shift
bracket_len-members pat =
    bracket_len_loop_lem false (if is_negation pat then 1 else 0) (skip_negation pat)
    ∙ sym (
        Option-map-map (shift (if is_negation pat then 1 else 0))
          (parse_members false (skip_negation pat)))
  where
    Option-map-map :
        (f : Members → Members) (r : Option Members)
        → Option.map (λ (m : Members). m.1) (Option.map f r)
          ≡ Option.map (λ (m : Members). (f m).1) r
    Option-map-map f none = refl
    Option-map-map f (some m) = refl

match_bracket-members :
    (pat : Text) (c : ℕ) → match_bracket pat c ≡ verdict (is_negation pat) false c pat (members pat)
unfolding match_bracket members
match_bracket-members pat c =
    match_bracket_loop_lem (is_negation pat) false false c (skip_negation pat)
    ∙ ap
        (λ (s : Text).
          verdict (is_negation pat) false c s (parse_members false (skip_negation pat)))
        (skip_lem pat)
    ∙ sym (verdict-shift (is_negation pat) c (if is_negation pat then 1 else 0) pat _)

-- Both walks read an expression as its members: `bracket_len` is its length (none if it has no
-- closing bracket), and `match_bracket` answers the text after it exactly when the character is in
-- one of the ranges and the expression is not negated, or in none and it is.
pub match_bracket_lem :
    (pat : Text) (c : ℕ)
    → (bracket_len pat ≡ Option.map (λ (m : Members). m.1) (members pat))
      × (match_bracket pat c ≡ verdict (is_negation pat) false c pat (members pat))
match_bracket_lem pat c = (bracket_len-members pat, match_bracket-members pat c)
