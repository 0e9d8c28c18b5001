-- ===== src/Glob/Pruner/Excluded.antt =====
-- Pruning loses nothing: the exclusion of the pruner's pattern has every path below a directory that
-- the pruner covers.
use task_rs.Base.{
  ap₂, ℕ, zero, suc, ◌≡◌, refl, sym, subst, length, ap, ◌∙◌, true, false, Bool, some, List, [], ◌∷◌,
  ltb, ◌++◌, arith, Text, append_assoc, Bool-cases, inl, inr, =ₜ_iff, ◌=ₜ◌, &&_iff,
}
use task_rs.Glob.Star.{Matches, Matches-append, star_match_iff}
use task_rs.Glob.Path.{
  split, normalized, double_star, match_segments, path_tests, path_segments, clean_path,
  ends_with_slash,
}
use task_rs.Glob.Path.Clean.{split-append, IsCons, split-IsCons}
use task_rs.Glob.Path.Spelled.{path_segments-clean_path}
use task_rs.Glob.Pruner
use task_rs.Glob.Pruner.{covers, drop_star, lone_star, stars_of, min_depth, drop_double_stars}
use task_rs.Glob.Pruner.Below.{
  covers-Matches, stars_of-Matches, lone_star-Matches, drop_star-append, new_inv,
}
use task_rs.Glob.Exclusion.{
  new, compile, by_tail, tail_test, below_matches, tail_of, pop_stars, drop_stars, ends_in_stars,
  last_segment, excludes_clean, excludes_plain,
}
use task_rs.Glob.Exclusion.Runs.{cut}
use task_rs.Glob.Exclusion.Cheap.{excludes_clean-plain}

-- A run of `**` at the end is dropped whole.
drop_stars-stars : (k : ℕ) → drop_stars (stars_of k) ≡ []
unfolding drop_stars stars_of ◌=ₜ◌
drop_stars-stars zero = refl
drop_stars-stars (suc k) = rw (drop_stars-stars k) refl

drop_stars-run : (ws : List Text) (k : ℕ) → drop_stars (ws ++ stars_of k) ≡ drop_stars ws
unfolding drop_stars
drop_stars-run [] k = drop_stars-stars k
drop_stars-run (w ∷ ws) k = rw (drop_stars-run ws k) refl

drop_stars-step :
    (w : Text) (ws r : List Text)
    → drop_stars ws ≡ r
    → (k : ℕ) × (r ++ stars_of k ≡ ws)
    → (k : ℕ) × (drop_stars (w ∷ ws) ++ stars_of k ≡ w ∷ ws)
unfolding drop_stars stars_of
drop_stars-step w ws [] e (k, h) = elim (Bool-cases (w =ₜ double_star)) [
  | inl q ↦ (
    suc k,
    rw (e, q) (ap₂ (λ (v : Text) (vs : List Text). v ∷ vs) (sym ((=ₜ_iff w double_star).0 q)) h),
  )
  | inr q ↦ (k, rw (e, q) (ap (λ (l : List Text). w ∷ l) h))
]
drop_stars-step w ws (v ∷ vs) e (k, h) = (k, rw e (ap (λ (l : List Text). w ∷ l) h))

-- What is dropped is a run of `**`.
drop_stars-append : (ws : List Text) → (k : ℕ) × (drop_stars ws ++ stars_of k ≡ ws)
drop_stars-append [] = (0, unfold drop_stars stars_of in refl)
drop_stars-append (w ∷ ws) = drop_stars-step w ws (drop_stars ws) refl (drop_stars-append ws)

IsCons-append : (us vs : List Text) → IsCons vs → IsCons (us ++ vs)
IsCons-append [] vs c = c
IsCons-append (u ∷ us) vs c = tt

anything-Matches :
    (us : List Text) → IsCons us → Matches (path_tests true) (lone_star ∷ double_star ∷ []) us
unfolding stars_of
anything-Matches [] c = elim c [ ]
anything-Matches (u ∷ us) c =
    Matches-append (path_tests true) (double_star ∷ []) us (lone_star-Matches u)
      (stars_of-Matches 0 us)

-- What a prefix and a run of `**` match, a pattern that ends in `**` has below it.
tree-Matches :
    (ws prefix path names : List Text) (k : ℕ)
    → IsCons prefix
    → prefix ++ stars_of (suc k) ≡ ws
    → Matches (path_tests true) prefix path
    → IsCons names
    → Matches (path_tests true) (pop_stars ws ++ lone_star ∷ double_star ∷ []) (path ++ names)
unfolding pop_stars
tree-Matches ws [] path names k c e d n = elim c [ ]
tree-Matches ws (s ∷ xs) path names k c e d n =
    let (i, q) = drop_stars-append xs in
    let parts =
      cut true (s ∷ drop_stars xs) (stars_of i) path
        (subst (λ (l : List Text). Matches (path_tests true) (s ∷ l) path) (sym q) d) in
    rw (← e, drop_stars-run xs (suc k), parts.whole, append_assoc parts.front parts.back names)
      (Matches-append (path_tests true) (lone_star ∷ double_star ∷ []) (parts.back ++ names)
        parts.in_front (anything-Matches (parts.back ++ names) (IsCons-append parts.back names n)))

last_segment-snoc : (ws : List Text) (s : Text) → last_segment (ws ++ s ∷ []) ≡ some s
unfolding last_segment
last_segment-snoc [] s = refl
last_segment-snoc (w ∷ []) s = refl
last_segment-snoc (w ∷ v ∷ ws) s = last_segment-snoc (v ∷ ws) s

-- A pattern that ends in `**` has no `*` to drop.
drop_star-stars : (ws : List Text) → ends_in_stars ws ≡ true → drop_star ws ≡ ws
unfolding ends_in_stars ◌=ₜ◌
drop_star-stars ws h = elim (drop_star-append ws) [
  | inl a ↦ a
  | inr a ↦
      let e : last_segment ws ≡ some lone_star =
        subst (λ (l : List Text). last_segment l ≡ some lone_star) a
          (last_segment-snoc (drop_star ws) lone_star) in
      cc ((&&_iff (ltb 1 (length ws)) (lone_star =ₜ double_star)).0 (rw (e, ends_in_stars) at h)).1
]

deep-IsCons : (ws : List Text) → ltb (min_depth ws) 2 ≡ false → IsCons ws
unfolding min_depth
deep-IsCons [] h = cc h
deep-IsCons (w ∷ ws) h = tt

-- A pattern that has a pruner does not end in a slash, and the prefix is not empty.
new-guards :
    (pattern : Text) (p : Pruner.Pruner)
    → Pruner.new pattern ≡ some p
    → (ends_with_slash pattern ≡ false) × IsCons p.prefix
unfolding Pruner.new
new-guards pattern p h = (ground arith, deep-IsCons p.prefix (ground arith))

module _ (is_dir : Text → Bool) (pattern dir rest : Text) (p : Pruner.Pruner)
    (made : Pruner.new pattern ≡ some p) (covered : covers p dir ≡ true) where
  abbrev path : Text
  path = dir ++ b'/' ∷ rest

  name-matched : match_segments (normalized pattern) (split dir ++ split rest) true ≡ true
  name-matched =
      unfold match_segments in
      (star_match_iff (path_tests true) (normalized pattern) (split dir ++ split rest)).1
        (covers-Matches pattern dir rest p made covered)

  tree-matched :
      ends_in_stars (normalized pattern) ≡ true
      → match_segments
          (pop_stars (normalized pattern) ++ lone_star ∷ double_star ∷ [])
          (split dir ++ split rest)
          true
        ≡ true
  unfolding match_segments covers
  tree-matched s =
      let (k, e) = new_inv pattern p made in
      (star_match_iff (path_tests true) _ (split dir ++ split rest)).1 (
        tree-Matches (normalized pattern) p.prefix (split dir) (split rest) k
          (new-guards pattern p made).1 (e ∙ drop_star-stars (normalized pattern) s)
          ((star_match_iff (path_tests true) p.prefix (split dir)).0 covered) (split-IsCons rest))

  plain-excludes :
      (pruned : Bool)
      → path_segments path ≡ split path
      → excludes_plain is_dir (new pattern false true pruned) (clean_path path) path false ≡ true
  unfolding excludes_plain new compile by_tail tail_test below_matches tail_of
  plain-excludes pruned spelled =
      let names : path_segments (clean_path path) ≡ split dir ++ split rest =
        (path_segments-clean_path path).0 ∙ spelled ∙ split-append dir rest in
      elim (Bool-cases (ends_in_stars (normalized pattern))) [
        | inl s ↦ rw ((new-guards pattern p made).0, s, names, tree-matched s) refl
        | inr s ↦ rw ((new-guards pattern p made).0, s, names, name-matched) refl
      ]

-- The exclusion compiled of a pattern that has a pruner excludes every path below a directory that
-- the pruner covers, dot names included, whether the path is a directory or not: what the pruned
-- walk leaves out is excluded, when it is asked about as a path that is not from that walk. The
-- path is spelled as the walk does, with its root and without empty segments, and the pattern is
-- not taken literally.
pub covers-excludes :
    (is_dir : Text → Bool) (pattern dir rest : Text) (p : Pruner.Pruner) (pruned : Bool)
    → Pruner.new pattern ≡ some p
    → covers p dir ≡ true
    → path_segments (dir ++ b'/' ∷ rest) ≡ split (dir ++ b'/' ∷ rest)
    → excludes_clean is_dir
        (new pattern false true pruned)
        (clean_path (dir ++ b'/' ∷ rest))
        (dir ++ b'/' ∷ rest)
        false
      ≡ true
covers-excludes is_dir pattern dir rest p pruned made covered spelled =
    excludes_clean-plain is_dir pattern false true pruned (dir ++ b'/' ∷ rest) false
    ∙ plain-excludes is_dir pattern dir rest p made covered pruned spelled
