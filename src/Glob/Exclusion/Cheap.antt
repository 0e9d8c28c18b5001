-- ===== src/Glob/Exclusion/Cheap.antt =====
-- The cheap tests of `Matcher::excludes_clean` reject no path that the segments match.
use task_rs.Base
use task_rs.Base.{
  ◌+◌, ◌≡◌, refl, sym, subst, ◌⊎◌, inl, inr, Bool, true, false, not, ◌&&◌, ◌||◌, none, List, [],
  ◌∷◌, ◌++◌, arith, if◌then◌else◌, Text, ◌=ₜ◌, Bool-cases, drop, all, is_some, append-nil, ||_iff,
  &&_iff, codes,
}
use task_rs.Glob.Star.{star_match_iff}
use task_rs.Glob.Path.{
  is_slash, path_tests, double_star, match_segments, join, starts_with, clean_path, path_segments,
  normalized,
}
use task_rs.Glob.Exclusion.{
  Tail, ends_in, fits_affix, tail_test, below_matches, name, dir, tree, new, compile, lead,
  needles_of, last_of, affix_of, below_of, segments_of, has_needle, last_fits, by_tail,
  excludes_clean, excludes_plain, after_last, is_tree, is_name, tail_of,
}
use task_rs.Glob.Path.Spelled.{path_segments-AllNames, path_segments-clean_path}
use task_rs.Glob.Exclusion.Rooted.{
  IsRooted, prefix-fits, needles-fit, normalized-IsRooted, segments_of-IsRooted,
}
use task_rs.Glob.Exclusion.Last.{last-fits, affix-fits}

-- The test of the last segment passes where the segments match.
last_fits-matched :
    (ws : List Text) (t : Tail) (literal d pruned : Bool) (path : Text)
    → IsRooted ws
    → path ≡ join (path_segments path)
    → match_segments ws (path_segments path) d ≡ true
    → last_fits (compile ws t literal d pruned) path ≡ true
unfolding last_fits compile match_segments
last_fits-matched ws t literal d pruned path h spelled m =
    let matched = (star_match_iff (path_tests d) ws (path_segments path)).0 m in
    (&&_iff (ends_in (last_of ws) path) _).1 (
      subst (λ (p : Text). ends_in (last_of ws) p ≡ true) (sym spelled)
          (last-fits d ws (path_segments path) h matched),
      subst (λ (p : Text). fits_affix (affix_of ws) (after_last is_slash p) ≡ true) (sym spelled)
          (affix-fits d ws (path_segments path) h (path_segments-AllNames path) matched),
    )

-- The tests in their order, on what they read.
gate-plain :
    (t : Tail) (starts is_base needles has_below fits whole below is_dir : Bool)
    → (whole ≡ true → ((starts || is_base) ≡ true) × (needles ≡ true) × (fits ≡ true))
    → (below ≡ true → ((starts || is_base) ≡ true) × (needles ≡ true) × (has_below ≡ true))
    → (if not starts && not is_base
        then false
        else if not needles
        then false
        else if not has_below && not fits
        then false
        else tail_test t whole below fits is_dir)
      ≡ tail_test t whole below true is_dir
unfolding tail_test
gate-plain name starts is_base needles has_below fits whole below is_dir hw hb =
    ground (arith, hw, hb)
gate-plain dir starts is_base needles has_below fits whole below is_dir hw hb =
    ground (arith, hw, hb)
gate-plain tree starts is_base needles has_below fits whole below is_dir hw hb =
    ground (arith, hw, hb)

matched-segments :
    (ws ts : List Text) (d : Bool) (path : Text)
    → IsRooted ws
    → path ≡ join (path_segments path)
    → match_segments (ws ++ ts) (path_segments path) d ≡ true
    → ((starts_with (join (Base.take (lead ws) ws) ++ b'/' ∷ []) path
          || path =ₜ join (Base.take (lead ws) ws))
        ≡ true)
      × (all (has_needle path) (needles_of (drop (lead ws) ws)) ≡ true)
unfolding match_segments
matched-segments ws ts d path h spelled m =
    let matched = (star_match_iff (path_tests d) (ws ++ ts) (path_segments path)).0 m in
    (
      (||_iff _ (path =ₜ join (Base.take (lead ws) ws))).1 (
          subst
            (λ (p : Text).
              (starts_with (join (Base.take (lead ws) ws) ++ b'/' ∷ []) p ≡ true)
              ⊎ ((p =ₜ join (Base.take (lead ws) ws)) ≡ true))
            (sym spelled) (prefix-fits d ws ts (path_segments path) h matched)),
      subst (λ (p : Text). all (has_needle p) (needles_of (drop (lead ws) ws)) ≡ true) (sym spelled)
          (needles-fit d ws ts (path_segments path) h matched),
    )

-- What is matched below comes from a trailing `**`.
below_matches-inv :
    (t : Tail) (ws path : List Text) (d off : Bool)
    → below_matches (if off then none else below_of t ws) path d ≡ true
    → (match_segments (ws ++ codes "*" ∷ double_star ∷ []) path d ≡ true)
      × (is_some (if off then none else below_of t ws) ≡ true)
unfolding below_matches
below_matches-inv t ws path d true h = cc h
below_matches-inv name ws path d false h = cc h
below_matches-inv dir ws path d false h = cc h
below_matches-inv tree ws path d false h = (h, refl)

module _ (is_dir : Text → Bool) where
  compiled-plain :
      (ws : List Text) (t : Tail) (literal d pruned : Bool) (path raw : Text) (walked : Bool)
      → IsRooted ws
      → path ≡ join (path_segments path)
      → excludes_clean is_dir (compile ws t literal d pruned) path raw walked
        ≡ excludes_plain is_dir (compile ws t literal d pruned) path raw walked
  unfolding excludes_clean excludes_plain compile by_tail
  compiled-plain ws t literal d pruned path raw walked h spelled =
      elim (Bool-cases (walked && (pruned && is_name t))) [
        | inl e ↦ rw e refl
        | inr e ↦ rw e (elim (Bool-cases (literal && not (is_tree t))) [
          | inl l ↦ rw l refl
          | inr l ↦ rw l (gate-plain t _ _ _ _ _ _ _ (is_dir raw) whole below)
        ])
      ]
    where
      whole :
          match_segments ws (path_segments path) d ≡ true
          → ((starts_with (join (Base.take (lead ws) ws) ++ b'/' ∷ []) path
                || path =ₜ join (Base.take (lead ws) ws))
              ≡ true)
            × (all (has_needle path) (needles_of (drop (lead ws) ws)) ≡ true)
            × (last_fits (compile ws t literal d pruned) path ≡ true)
      whole m =
          let s = matched-segments ws [] d path h spelled (rw (append-nil ws) m) in
          (s.0, s.1, last_fits-matched ws t literal d pruned path h spelled m)

      below :
          below_matches (if walked && pruned then none else below_of t ws) (path_segments path) d
            ≡ true
          → ((starts_with (join (Base.take (lead ws) ws) ++ b'/' ∷ []) path
                || path =ₜ join (Base.take (lead ws) ws))
              ≡ true)
            × (all (has_needle path) (needles_of (drop (lead ws) ws)) ≡ true)
            × (is_some (if walked && pruned then none else below_of t ws) ≡ true)
      below m =
          let b = below_matches-inv t ws (path_segments path) d (walked && pruned) m in
          let s = matched-segments ws (codes "*" ∷ double_star ∷ []) d path h spelled b.0 in
          (s.0, s.1, b.1)

  -- The cheap tests change no answer: for every exclusion that `new` compiles and every path, spelled
  -- as `clean_path` does, they reject only a path that the segments do not match.
  pub excludes_clean-plain :
      (pattern : Text) (literal dotglob pruned : Bool) (path : Text) (walked : Bool)
      → excludes_clean is_dir (new pattern literal dotglob pruned) (clean_path path) path walked
        ≡ excludes_plain is_dir (new pattern literal dotglob pruned) (clean_path path) path walked
  excludes_clean-plain pattern literal dotglob pruned path walked =
      unfold new in
      compiled-plain (segments_of (tail_of pattern (normalized pattern)) (normalized pattern))
        (tail_of pattern (normalized pattern)) literal dotglob pruned (clean_path path) path walked
        (segments_of-IsRooted (tail_of pattern (normalized pattern)) (normalized pattern)
          (normalized-IsRooted pattern))
        (sym (path_segments-clean_path path).1)
