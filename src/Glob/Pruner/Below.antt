-- ===== src/Glob/Pruner/Below.antt =====
-- Pruning loses nothing: the pattern of a pruner excludes every path below a directory it covers.
use task_rs.Base.{
  ℕ, zero, suc, ◌+◌, ◌≡◌, refl, sym, subst, length, ap, ◌∙◌, ◌≢◌, ◌⊎◌, true, some, List, [], ◌∷◌,
  ◌++◌, arith, Text, append_assoc, Bool-cases, inl, inr, Option-cases, =ₜ_iff, ◌=ₜ◌,
}
use task_rs.Glob.Star.{Matches, one, leave, take, done, Matches-append, star_match_iff}
use task_rs.Glob.Segment.{has_meta, matches_segment, glob_match_iff, segment_tests, tokens}
use task_rs.Glob.Path.{split, normalized, double_star, match_segments, path_tests}
use task_rs.Glob.Path.Clean.{IsCons, split-IsCons}
use task_rs.Glob.Pruner.{
  Pruner, new, covers, drop_star, drop_double_stars, drop_double_stars-Drops, split_last,
  split_last-append, lone_star, stars_of, init_last, init_last-append,
}

-- With `dotglob`, a run of `**` matches any names.
double_star-Matches :
    (ts names : List Text)
    → Matches (path_tests true) ts []
    → Matches (path_tests true) (double_star ∷ ts) names
unfolding path_tests
double_star-Matches ts [] d = leave refl d
double_star-Matches ts (w ∷ ws) d = take refl refl (double_star-Matches ts ws d)

pub stars_of-Matches :
    (k : ℕ) (names : List Text) → Matches (path_tests true) (stars_of (suc k)) names
unfolding stars_of
stars_of-Matches zero names = double_star-Matches [] names done
stars_of-Matches (suc k) names =
    double_star-Matches (stars_of (suc k)) names (stars_of-Matches k [])

star-Matches : (name : Text) → Matches segment_tests (tokens lone_star) name
unfolding segment_tests tokens
star-Matches [] = leave refl done
star-Matches (c ∷ name) = take refl refl (star-Matches name)

pub lone_star-Matches : (name : Text) → Matches (path_tests true) (lone_star ∷ []) (name ∷ [])
unfolding path_tests has_meta matches_segment
lone_star-Matches name = one refl ((glob_match_iff lone_star name).0.1 (star-Matches name)) done

-- What the pruner's pattern ends with, past its prefix.
pub drop_star-append :
    (ws : List Text) → (drop_star ws ≡ ws) ⊎ (drop_star ws ++ lone_star ∷ [] ≡ ws)
unfolding drop_star
drop_star-append ws = elim (Option-cases (split_last ws)) [
  | inl e ↦ inl (rw (e, drop_star) refl)
  | inr ((rest, s), e) ↦ elim (Bool-cases (s =ₜ lone_star)) [
    | inl q ↦ inr (
        rw (e, drop_star, q)
          (sym (
            split_last-append ws rest s e
            ∙ ap (λ (w : Text). rest ++ w ∷ []) ((=ₜ_iff s lone_star).0 q))))
    | inr q ↦ inl (rw (e, drop_star, q) refl)
  ]
]

-- Anything below what the prefix matches.
below-Matches :
    (ws prefix path names : List Text) (k : ℕ)
    → prefix ++ stars_of (suc k) ≡ drop_star ws
    → Matches (path_tests true) prefix path
    → IsCons names
    → Matches (path_tests true) ws (path ++ names)
below-Matches ws prefix path [] k e d c = elim c [ ]
below-Matches ws prefix path (v ∷ vs) k e d c = elim (drop_star-append ws) [
  | inl a ↦
      rw (← a, ← e)
        (Matches-append (path_tests true) (stars_of (suc k)) (v ∷ vs) d
          (stars_of-Matches k (v ∷ vs)))
  | inr a ↦
      let (ys, y) = init_last v vs in
      subst (λ (l : List Text). Matches (path_tests true) ws (path ++ l)) (init_last-append v vs)
        (rw (← a, ← e)
          (subst (Matches (path_tests true) ((prefix ++ stars_of (suc k)) ++ lone_star ∷ []))
            (append_assoc path ys (y ∷ []))
            (Matches-append (path_tests true) (lone_star ∷ []) (y ∷ [])
              (Matches-append (path_tests true) (stars_of (suc k)) ys d (stars_of-Matches k ys))
              (lone_star-Matches y))))
]

-- A pruner's pattern: its prefix, at least one `**`, and at most one `*`.
pub new_inv :
    (pattern : Text) (p : Pruner)
    → new pattern ≡ some p
    → (k : ℕ) × (p.prefix ++ stars_of (suc k) ≡ drop_star (normalized pattern))
unfolding new
new_inv pattern p h = found (drop_double_stars-Drops (length segments) segments 0)
  where
    segments : List Text
    segments = drop_star (normalized pattern)

    r : List Text × ℕ
    r = drop_double_stars (length segments) segments 0

    prefix_lem : p.prefix ≡ r.0
    prefix_lem = ground arith

    counted : r.1 ≢ 0
    counted = ground arith

    found :
        (k : ℕ) × (r.0 ++ stars_of k ≡ segments) × (r.1 ≡ 0 + k)
        → (k : ℕ) × (p.prefix ++ stars_of (suc k) ≡ segments)
    found (zero, a, b) = absurd (counted (omega arith))
    found (suc k, a, b) = (k, rw prefix_lem a)

-- A path below a directory that a pruner covers is matched by the segments of its pattern.
pub covers-Matches :
    (pattern dir rest : Text) (p : Pruner)
    → new pattern ≡ some p
    → covers p dir ≡ true
    → Matches (path_tests true) (normalized pattern) (split dir ++ split rest)
unfolding covers match_segments
covers-Matches pattern dir rest p h c =
    let (k, e) = new_inv pattern p h in
    below-Matches (normalized pattern) p.prefix (split dir) (split rest) k e
      ((star_match_iff (path_tests true) p.prefix (split dir)).0 c) (split-IsCons rest)
