-- ===== src/Glob/Segment.antt =====
-- One path segment: `tokens`, `glob_match`, `has_meta`, `matches_segment` of
-- crates/taskcore/src/fingerprint/glob.rs.
use task_rs.Base.{
  ℕ, zero, suc, ◌+◌, ◌≤◌, ◌≡◌, refl, ap₂, ◌↔◌, inl, inr, Bool, true, false, not, ◌&&◌, ◌||◌, none,
  some, List, [], ◌∷◌, arith, ◌==◌, if◌then◌else◌, Text, drop, length, any, is_some, In,
  length-append, ◌∙◌, map, ==_iff, ◌<◌, ◌++◌, Bool-cases, Option-cases,
}
use Prim.Native.Nat.add
use task_rs.Glob.Star.{Tests, Matches, star_match, star_match_iff, one, leave, take, done}
use task_rs.Glob.Bracket.{bracket_len, match_bracket}

pub data Tok : Type 0 where
  star any_one never : Tok
  class : Text → Tok
  lit : ℕ → Tok

-- The loop of `tokens`; `rest.get(len..)` is the rest after a bracket expression.
unfoldable pub tokens_loop : ℕ → Text → List Tok
tokens_loop zero pat = []
tokens_loop (suc f) [] = []
tokens_loop (suc f) (c ∷ rest) =
    let plain = tokens_loop f rest in
    let bracket : List Tok = elim (bracket_len rest) [
      | none ↦ never ∷ []
      | some len ↦ class rest ∷ tokens_loop f (drop len rest)
    ] in
    if c == b'*'
    then star ∷ plain
    else if c == b'?'
    then any_one ∷ plain
    else if c == b'['
    then bracket
    else lit c ∷ plain

unfoldable pub tokens : Text → List Tok
unfolding tokens_loop bracket_len
tokens pat = tokens_loop (length pat) pat

is_star : Tok → Bool
is_star star = true
is_star _ = false

hit : Tok → ℕ → Bool
hit any_one c = true
hit (class rest) c = is_some (match_bracket rest c)
hit (lit l) c = l == c
hit star c = false
hit never c = false

unfoldable pub segment_tests : Tests Tok ℕ
unfolding is_star hit match_bracket
segment_tests = record { is_star = is_star; star_ok = λ _. true; hit = hit }

unfoldable pub glob_match : Text → Text → Bool
unfolding tokens segment_tests star_match
glob_match pat text = star_match segment_tests (tokens pat) text

unfoldable pub has_meta : Text → Bool
has_meta segment = any (λ c. c == b'*' || (c == b'?' || c == b'[')) segment

unfoldable pub starts_with_dot : Text → Bool
starts_with_dot [] = false
starts_with_dot (c ∷ _) = c == b'.'

unfoldable pub matches_segment : Text → Text → Bool → Bool
unfolding starts_with_dot glob_match
matches_segment pattern name dotglob =
    if not dotglob && (starts_with_dot name && not (starts_with_dot pattern))
    then false
    else glob_match pattern name

length-drop-le : (n : ℕ) (xs : Text) → length (drop n xs) ≤ length xs
length-drop-le zero xs = omega arith
length-drop-le (suc n) [] = omega arith
length-drop-le (suc n) (x ∷ xs) = omega (arith, length-drop-le n xs)

-- The fuel is the length of the pattern, and more of it changes nothing: the loop has ended.
tokens_loop-fuel :
    (f : ℕ) (pat : Text) → length pat ≤ f → tokens_loop (suc f) pat ≡ tokens_loop f pat
unfolding tokens_loop
tokens_loop-fuel zero [] h = refl
tokens_loop-fuel zero (c ∷ rest) h = absurd (omega arith)
tokens_loop-fuel (suc f) [] h = refl
tokens_loop-fuel (suc f) (c ∷ rest) h = elim (Option-cases (bracket_len rest)) [
  | inl e ↦ rw e (cc (tokens_loop-fuel f rest (omega arith)))
  | inr (len, e) ↦ rw e (
      cc (
        tokens_loop-fuel f rest (omega arith),
        tokens_loop-fuel f (drop len rest) (omega (arith, length-drop-le len rest)),
      ))
]

-- The tokens of a pattern without wildcards are its characters.
pub tokens_loop-literal :
    (f : ℕ) (pat : Text) → length pat ≤ f → has_meta pat ≡ false → tokens_loop f pat ≡ map lit pat
unfolding tokens_loop has_meta
tokens_loop-literal zero [] h n = refl
tokens_loop-literal zero (c ∷ rest) h n = absurd (omega arith)
tokens_loop-literal (suc f) [] h n = refl
tokens_loop-literal (suc f) (c ∷ rest) h n = ground (arith, tokens_loop-literal f rest)

pub literal_sound :
    (pat : Text) {text : Text} → Matches segment_tests (map lit pat) text → pat ≡ text
unfolding segment_tests
literal_sound [] done = refl
literal_sound (c ∷ pat) (one _ h d) = ap₂ ◌∷◌ ((==_iff c _).0 h) (literal_sound pat d)
literal_sound (c ∷ pat) (leave s d) = cc
literal_sound (c ∷ pat) (take s o d) = cc

literal_complete : (pat : Text) → Matches segment_tests (map lit pat) pat
unfolding segment_tests
literal_complete [] = done
literal_complete (c ∷ pat) = one refl ((==_iff c c).1 refl) (literal_complete pat)

-- A pattern without wildcards matches itself and nothing else, so that comparing the texts, which
-- the callers do, is the same test.
pub glob_match_literal :
    (pat text : Text) → has_meta pat ≡ false → (glob_match pat text ≡ true) ↔ (pat ≡ text)
unfolding glob_match tokens
glob_match_literal pat text n = rw (tokens_loop-literal (length pat) pat (omega arith) n) (
    let m = star_match_iff segment_tests (map lit pat) text in
    (λ h. literal_sound pat (m.0 h), λ e. m.1 (rw (← e) (literal_complete pat))))

never-Matches : (ts : List Tok) {text : Text} → In never ts → Matches segment_tests ts text → ⊥
unfolding segment_tests
never-Matches [] n d = elim n [ ]
never-Matches (t ∷ ts) (inl e) (one ns h d) = ground arith
never-Matches (t ∷ ts) (inl e) (leave s d) = ground arith
never-Matches (t ∷ ts) (inl e) (take s o d) = ground arith
never-Matches (t ∷ ts) (inr n) (one ns h d) = never-Matches ts n d
never-Matches (t ∷ ts) (inr n) (leave s d) = never-Matches ts n d
never-Matches (t ∷ ts) (inr n) (take s o d) = never-Matches (t ∷ ts) (inr n) d

-- The tokens of a text with no `[` stand before those of what follows.
In-tail :
    (t : Tok) (a b c : Bool) (x y z : Tok) (ts us : List Tok)
    → In t ts
    → c ≡ false
    → In t (if a then x ∷ ts else if b then y ∷ ts else if c then us else z ∷ ts)
In-tail t true b c x y z ts us h n = inr h
In-tail t false true c x y z ts us h n = inr h
In-tail t false false c x y z ts us h n = rw n (inr h)

unclosed-never :
    (f : ℕ) (start rest : Text)
    → length start + length rest < f
    → any (λ c. c == b'[') start ≡ false
    → bracket_len rest ≡ none
    → In never (tokens_loop f (start ++ b'[' ∷ rest))
unfolding tokens_loop
unclosed-never zero start rest h n u = absurd (omega arith)
unclosed-never (suc f) [] rest h n u = rw u (inl refl)
unclosed-never (suc f) (c ∷ start) rest h n u =
    In-tail never (c == b'*') (c == b'?') (c == b'[') _ _ _ _ _
      (unclosed-never f start rest (omega arith) (ground arith) u) (ground arith)

-- A `[` with no closing bracket makes the whole pattern match nothing, where no other `[` stands
-- before it.
pub glob_match_unclosed :
    (start rest text : Text)
    → any (λ c. c == b'[') start ≡ false
    → bracket_len rest ≡ none
    → glob_match (start ++ b'[' ∷ rest) text ≡ false
unfolding glob_match tokens
glob_match_unclosed start rest text n u =
    elim (Bool-cases (glob_match (start ++ b'[' ∷ rest) text)) [
      | inl m ↦ absurd (
          never-Matches _
            (unclosed-never (length (start ++ b'[' ∷ rest)) start rest
              (omega (arith, length-append start (b'[' ∷ rest))) n u)
            ((star_match_iff segment_tests _ text).0 m))
      | inr e ↦ e
    ]

-- The answer is that of the relation on the tokens, and any fuel from the length of the pattern on
-- reads the same tokens.
pub glob_match_iff :
    (pat text : Text)
    → ((glob_match pat text ≡ true) ↔ Matches segment_tests (tokens pat) text)
      × ((k : ℕ) → tokens_loop (k + length pat) pat ≡ tokens pat)
unfolding glob_match tokens
glob_match_iff pat text = (star_match_iff segment_tests (tokens pat) text, fuel)
  where
    fuel : (k : ℕ) → tokens_loop (k + length pat) pat ≡ tokens pat
    fuel zero = rw (add.zero (length pat))
    fuel (suc k) = rw add.suc (tokens_loop-fuel (k + length pat) pat (omega arith) ∙ fuel k)
