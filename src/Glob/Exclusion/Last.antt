-- ===== src/Glob/Exclusion/Last.antt =====
-- The last segment of a pattern fits the last name of what the pattern matches.
use task_rs.Base.{
  suc, ◌≡◌, refl, sym, subst, ap, ◌∙◌, inl, inr, Bool, true, false, not, ◌&&◌, some, List, [], ◌∷◌,
  ◌++◌, arith, if◌then◌else◌, Text, ◌=ₜ◌, =ₜ_iff, Bool-cases, Option-cases, ltb, length, any,
  ends_with, ||_iff, &&_iff, ◌==◌,
}
use task_rs.Glob.Star.{Matches, end_inv, one_inv}
use task_rs.Glob.Segment.{has_meta, matches_segment, glob_match, glob_match_iff}
use task_rs.Glob.Path.{is_slash, path_tests, double_star, join, starts_with}
use task_rs.Glob.Path.Clean.{IsCons}
use task_rs.Glob.Exclusion.{
  ends_in, fits_affix, last_of, affix_of, last_segment, is_meta, is_wild, after_last, before_first,
}
use task_rs.Glob.Path.Spelled.{AllNames}
use task_rs.Glob.Exclusion.Runs.{literal_no_star, cut, literal-run}
use task_rs.Glob.Exclusion.Joins.{join-ends_with, after_last-join}
use task_rs.Glob.Exclusion.Names.{tokens_starts, tokens_ends}
use task_rs.Glob.Exclusion.Rooted.{IsRooted}

All-last : (a : List Text) (n : Text) → AllNames (a ++ n ∷ []) → any is_slash n ≡ false
All-last [] n h = h.0
All-last (w ∷ a) n h = All-last a n h.1

-- The segments before the last one.
last_segment-inv :
    (ws : List Text) (s : Text)
    → last_segment ws ≡ some s
    → (a : List Text) × (ws ≡ a ++ s ∷ []) × (suc (length a) ≡ length ws)
unfolding last_segment
last_segment-inv [] s h = cc h
last_segment-inv (w ∷ []) s h = ([], ground (arith, h), refl)
last_segment-inv (w ∷ v ∷ ws) s h =
    let r = last_segment-inv (v ∷ ws) s h in
    (w ∷ r.0, ap (λ (l : List Text). w ∷ l) r.1, ap suc r.2)

-- The last segment of a pattern of more than one matches the end of the path.
record Ended (d : Bool) (s : Text) (us : List Text) : Type 0 where
  front : List Text
  back : List Text
  whole : us ≡ front ++ back
  cons : IsCons front
  matched : Matches (path_tests d) (s ∷ []) back

front-IsCons :
    (d : Bool) (w : Text) (ts us : List Text)
    → has_meta w ≡ false
    → Matches (path_tests d) (w ∷ ts) us
    → IsCons us
front-IsCons d w ts [] h m = cc ((end_inv (path_tests d) m).0, literal_no_star d w h)
front-IsCons d w ts (u ∷ us) h m = tt

Ended-append :
    (d : Bool) (a us : List Text) (s : Text)
    → IsRooted (a ++ s ∷ [])
    → ltb 1 (suc (length a)) ≡ true
    → Matches (path_tests d) (a ++ s ∷ []) us
    → Ended d s us
Ended-append d [] us s h l m = cc l
Ended-append d (w ∷ a) us s h l m =
    let c = cut d (w ∷ a) (s ∷ []) us m in
    record {
      front = c.front;
      back = c.back;
      whole = c.whole;
      cons = front-IsCons d w a c.front h c.in_front;
      matched = c.in_back;
    }

ended :
    (d : Bool) (ws us : List Text) (s : Text)
    → IsRooted ws
    → last_segment ws ≡ some s
    → ltb 1 (length ws) ≡ true
    → Matches (path_tests d) ws us
    → Ended d s us
ended d ws us s h e l m =
    let r = last_segment-inv ws s e in
    Ended-append d r.0 us s (subst IsRooted r.1 h) (ap (ltb 1) r.2 ∙ l)
      (subst (λ (t : List Text). Matches (path_tests d) t us) r.1 m)

pub last-fits :
    (d : Bool) (ws us : List Text)
    → IsRooted ws
    → Matches (path_tests d) ws us
    → ends_in (last_of ws) (join us) ≡ true
unfolding last_of
last-fits d ws us h m = elim (Option-cases (last_segment ws)) [
  | inl n ↦ rw (n, last_of) refl
  | inr s ↦
      elim (Bool-cases (ltb 1 (length ws) && (not (has_meta s.0) && not (s.0 =ₜ double_star)))) [
        | inr e ↦ rw (s.1, last_of, e) refl
        | inl e ↦
            let literal : has_meta s.0 ≡ false = ground (arith, e) in
            let x : Ended d s.0 us = ended d ws us s.0 h s.1 (ground (arith, e)) m in
            rw (s.1, last_of, e)
              (subst (λ (t : List Text). ends_with (b'/' ∷ s.0) (join t) ≡ true)
                (sym (
                  x.whole
                  ∙ ap (λ (t : List Text). x.front ++ t)
                      (literal-run d (s.0 ∷ []) x.back (literal, tt) x.matched)))
                (join-ends_with x.front s.0 x.cons))
      ]
]

no_star : (d : Bool) (s : Text) → (s =ₜ double_star) ≡ false → (path_tests d).is_star s ≡ false
unfolding path_tests
no_star d s h = h

-- A segment that is no `**` matches one name.
single :
    (d : Bool) (s : Text) (us : List Text)
    → (s =ₜ double_star) ≡ false
    → Matches (path_tests d) (s ∷ []) us
    → (n : Text) × (us ≡ n ∷ []) × ((path_tests d).hit s n ≡ true)
single d s [] h m = cc ((end_inv (path_tests d) m).0, no_star d s h)
single d s (u ∷ us) h m =
    let e = one_inv (path_tests d) m (no_star d s h) in
    (u, ap (λ (l : List Text). u ∷ l) (literal-run d [] us tt e.1), e.0)

hit-glob_match :
    (d : Bool) (s n : Text)
    → has_meta s ≡ true
    → (path_tests d).hit s n ≡ true
    → glob_match s n ≡ true
unfolding path_tests matches_segment
hit-glob_match d s n h e = ground (arith, rw h at e)

ends_with-nil : (s : Text) → ends_with [] s ≡ true
unfolding ends_with
ends_with-nil [] = (=ₜ_iff [] []).1 refl
ends_with-nil (c ∷ s) = (||_iff ([] =ₜ (c ∷ s)) (ends_with [] s)).1 (inr (ends_with-nil s))

name-fits :
    (s n : Text)
    → glob_match s n ≡ true
    → starts_with (before_first is_meta s) n
        && ends_with (if any (λ c. c == b'[') s then [] else after_last is_wild s) n
      ≡ true
name-fits s n m =
    let matched = (glob_match_iff s n).0.0 m in
    (&&_iff (starts_with (before_first is_meta s) n) _).1 (
      tokens_starts s n matched,
      elim (Bool-cases (any (λ c. c == b'[') s)) [
        | inl e ↦ rw e (ends_with-nil n)
        | inr e ↦ rw e (tokens_ends s n e matched)
      ],
    )

pub affix-fits :
    (d : Bool) (ws us : List Text)
    → IsRooted ws
    → AllNames us
    → Matches (path_tests d) ws us
    → fits_affix (affix_of ws) (after_last is_slash (join us)) ≡ true
unfolding affix_of
affix-fits d ws us h names m = elim (Option-cases (last_segment ws)) [
  | inl n ↦ rw (n, affix_of) refl
  | inr s ↦ elim (Bool-cases (ltb 1 (length ws) && (has_meta s.0 && not (s.0 =ₜ double_star)))) [
    | inr e ↦ rw (s.1, affix_of, e) refl
    | inl e ↦
        let x : Ended d s.0 us = ended d ws us s.0 h s.1 (ground (arith, e)) m in
        let n = single d s.0 x.back (ground (arith, e)) x.matched in
        let whole : us ≡ x.front ++ n.0 ∷ [] = x.whole ∙ ap (λ (t : List Text). x.front ++ t) n.1 in
        let file_name : after_last is_slash (join us) ≡ n.0 =
          ap (λ (t : List Text). after_last is_slash (join t)) whole
          ∙ after_last-join x.front n.0 (All-last x.front n.0 (subst AllNames whole names))
              x.cons in
        rw (s.1, affix_of, e)
          (rw file_name (name-fits s.0 n.0 (hit-glob_match d s.0 n.0 (ground (arith, e)) n.2)))
  ]
]
