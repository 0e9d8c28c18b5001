-- ===== src/Glob/Exclusion/Names.antt =====
-- What a name that matches a segment starts and ends with.
use task_rs.Base.{
  ℕ, ◌≡◌, refl, sym, subst, ap, true, false, List, [], ◌∷◌, ◌++◌, arith, if◌then◌else◌, Text,
  Bool-cases, inl, inr, length, ends_with, ends_with-append, ||_iff, any, ◌==◌, ==_iff,
}
use task_rs.Glob.Star.{Matches, end_inv, one_inv, star_inv}
use task_rs.Glob.Segment.{
  Tok, star, any_one, lit, tokens, tokens_loop, tokens_loop-literal, literal_sound, segment_tests,
  has_meta,
}
use task_rs.Glob.Path.{starts_with}
use task_rs.Glob.Exclusion.{before_first, after_last, is_meta, is_wild}

-- What the tokens after the first one match.
record Rest (ts : List Tok) (us : Text) : Type 0 where
  front : Text
  back : Text
  whole : us ≡ front ++ back
  matched : Matches segment_tests ts back

Rest-tokens : (t : Tok) (ts : List Tok) (us : Text) → Matches segment_tests (t ∷ ts) us → Rest ts us
Rest-tokens t ts [] m = record {
  front = [];
  back = [];
  whole = refl;
  matched = (end_inv segment_tests m).1;
}
Rest-tokens t ts (u ∷ us) m = elim (Bool-cases (segment_tests.is_star t)) [
  | inr n ↦ record {
    front = u ∷ [];
    back = us;
    whole = refl;
    matched = (one_inv segment_tests m n).1;
  }
  | inl s ↦ elim (star_inv segment_tests m s) [
    | inl left ↦ record { front = []; back = u ∷ us; whole = refl; matched = left }
    | inr taken ↦
        let r = Rest-tokens t ts us taken.1 in
        record {
          front = u ∷ r.front;
          back = r.back;
          whole = ap (λ (l : Text). u ∷ l) r.whole;
          matched = r.matched;
        }
  ]
]

tokens-lit : (c : ℕ) (s : Text) → is_meta c ≡ false → tokens (c ∷ s) ≡ lit c ∷ tokens s
unfolding tokens tokens_loop
tokens-lit c s h = ground arith

first_tok : ℕ → Tok
first_tok c = if c == b'*' then star else if c == b'?' then any_one else lit c

tokens-first : (c : ℕ) (s : Text) → (c == b'[') ≡ false → tokens (c ∷ s) ≡ first_tok c ∷ tokens s
unfolding tokens tokens_loop first_tok
tokens-first c s h = ground arith

lit_inv :
    (c : ℕ) (ts : List Tok) (n : Text)
    → Matches segment_tests (lit c ∷ ts) n
    → (back : Text) × (n ≡ c ∷ back) × Matches segment_tests ts back
unfolding segment_tests
lit_inv c ts [] m = cc ((end_inv segment_tests m).0)
lit_inv c ts (u ∷ us) m =
    let e = one_inv segment_tests m refl in (us, ap (λ v. v ∷ us) (sym ((==_iff c u).0 e.0)), e.1)

-- A name that matches starts with what stands before the first wildcard.
pub tokens_starts :
    (s n : Text)
    → Matches segment_tests (tokens s) n
    → starts_with (before_first is_meta s) n ≡ true
unfolding starts_with before_first
tokens_starts [] n m = refl
tokens_starts (c ∷ s) n m = elim (Bool-cases (is_meta c)) [
  | inl e ↦ rw e refl
  | inr e ↦
      let i =
        lit_inv c (tokens s) n (subst (λ ts. Matches segment_tests ts n) (tokens-lit c s e) m) in
      rw e (rw (i.1, (==_iff c c).1 refl) (tokens_starts s i.0 i.2))
]

ends_with-later : (last x s : Text) → ends_with last s ≡ true → ends_with last (x ++ s) ≡ true
unfolding ends_with
ends_with-later last [] s h = h
ends_with-later last (c ∷ x) s h =
    (||_iff _ (ends_with last (x ++ s))).1 (inr (ends_with-later last x s h))

plain-ends :
    (s n : Text) → has_meta s ≡ false → Matches segment_tests (tokens s) n → ends_with s n ≡ true
unfolding tokens
plain-ends s n h m =
    subst (λ (l : Text). ends_with s l ≡ true)
      (literal_sound s (
        subst (λ ts. Matches segment_tests ts n) (tokens_loop-literal (length s) s (omega arith) h)
          m))
      (ends_with-append [] s)

no_meta : (s : Text) → any is_wild s ≡ false → any (λ c. c == b'[') s ≡ false → has_meta s ≡ false
unfolding has_meta
no_meta [] w b = refl
no_meta (c ∷ s) w b = ground (arith, no_meta s)

-- A name that matches a segment without brackets ends with what stands behind the last wildcard.
pub tokens_ends :
    (s n : Text)
    → any (λ c. c == b'[') s ≡ false
    → Matches segment_tests (tokens s) n
    → ends_with (after_last is_wild s) n ≡ true
unfolding after_last
tokens_ends [] n h m = plain-ends [] n (unfold has_meta in refl) m
tokens_ends (c ∷ s) n h m = elim (Bool-cases (any is_wild s)) [
  | inl w ↦ rw w (later _ (tokens_ends s r.back (ground (arith, h)) r.matched))
  | inr w ↦ rw w (elim (Bool-cases (is_wild c)) [
    | inl e ↦ rw e (later _ (plain-ends s r.back (no_meta s w (ground (arith, h))) r.matched))
    | inr e ↦ rw e (plain-ends (c ∷ s) n (no_meta (c ∷ s) (ground (arith, w, e)) h) m)
  ])
]
  where
    r : Rest (tokens s) n
    r =
        Rest-tokens (first_tok c) (tokens s) n
          (subst (λ ts. Matches segment_tests ts n) (tokens-first c s (ground (arith, h))) m)

    later : (l : Text) → ends_with l r.back ≡ true → ends_with l n ≡ true
    later l k =
        subst (λ (t : Text). ends_with l t ≡ true) (sym r.whole)
          (ends_with-later l r.front r.back k)
