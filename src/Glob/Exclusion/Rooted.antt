-- ===== src/Glob/Exclusion/Rooted.antt =====
-- A match begins with the leading literal segments of the pattern, and has the other literal ones.
use task_rs.Base
use task_rs.Base.{
  ◌+◌, ◌≡◌, refl, sym, subst, ap, ◌∙◌, ◌⊎◌, inl, inr, Bool, true, false, not, ◌&&◌, List, [], ◌∷◌,
  ◌++◌, Text, ◌=ₜ◌, Bool-cases, drop, all, append_assoc, &&_iff,
}
use task_rs.Glob.Star.{Matches}
use task_rs.Glob.Segment.{has_meta}
use task_rs.Glob.Path.{
  path_tests, join, starts_with, normalized, keep_past_root, rooted_segments, insert_root, split,
  is_empty,
}
use task_rs.Glob.Path.Clean.{IsCons}
use task_rs.Glob.Exclusion.{
  Tail, name, dir, tree, lead, needles_of, segments_of, pop_stars, has_needle,
}
use task_rs.Glob.Exclusion.Runs.{Cut, cut, literal-run, take-lead}
use task_rs.Glob.Exclusion.Joins.{join-starts, join-has_needle, slashed}

-- The segments begin with a literal one, the root marker.
abbrev pub IsRooted : List Text → Type 0
IsRooted [] = ⊥
IsRooted (w ∷ ws) = has_meta w ≡ false

take-drop-lead : (ws : List Text) → Base.take (lead ws) ws ++ drop (lead ws) ws ≡ ws
unfolding lead
take-drop-lead [] = refl
take-drop-lead (w ∷ ws) = elim (Bool-cases (has_meta w)) [
  | inl e ↦ rw e refl
  | inr e ↦ rw e (ap (λ (l : List Text). w ∷ l) (take-drop-lead ws))
]

lead-IsCons : (ws : List Text) → IsRooted ws → IsCons (Base.take (lead ws) ws)
unfolding lead
lead-IsCons [] h = absurd h
lead-IsCons (w ∷ ws) h = rw h tt

-- What is matched begins with the leading literal segments.
record Led (d : Bool) (ws ts us : List Text) : Type 0 where
  rest : List Text
  whole : us ≡ Base.take (lead ws) ws ++ rest
  matched : Matches (path_tests d) (drop (lead ws) ws ++ ts) rest

led : (d : Bool) (ws ts us : List Text) → Matches (path_tests d) (ws ++ ts) us → Led d ws ts us
led d ws ts us m =
    let c = cut d (Base.take (lead ws) ws) (drop (lead ws) ws ++ ts) us (
      subst (λ (l : List Text). Matches (path_tests d) l us)
        (sym (ap (λ (l : List Text). l ++ ts) (take-drop-lead ws))
          ∙ append_assoc (Base.take (lead ws) ws) (drop (lead ws) ws) ts)
        m) in
    record {
      rest = c.back;
      whole =
          c.whole
          ∙ ap (λ (l : List Text). l ++ c.back)
              (literal-run d (Base.take (lead ws) ws) c.front (take-lead ws) c.in_front);
      matched = c.in_back;
    }

pub prefix-fits :
    (d : Bool) (ws ts us : List Text)
    → IsRooted ws
    → Matches (path_tests d) (ws ++ ts) us
    → (starts_with (join (Base.take (lead ws) ws) ++ b'/' ∷ []) (join us) ≡ true)
      ⊎ ((join us =ₜ join (Base.take (lead ws) ws)) ≡ true)
prefix-fits d ws ts us h m =
    let l = led d ws ts us m in
    subst
      (λ (t : List Text).
        (starts_with (join (Base.take (lead ws) ws) ++ b'/' ∷ []) (join t) ≡ true)
        ⊎ ((join t =ₜ join (Base.take (lead ws) ws)) ≡ true))
      (sym l.whole) (join-starts (Base.take (lead ws) ws) l.rest (lead-IsCons ws h))

IsCons-append : (a b : List Text) → IsCons a → IsCons (a ++ b)
IsCons-append [] b h = elim h [ ]
IsCons-append (w ∷ a) b h = tt

found :
    (d : Bool) (a : List Text) (q : Text) (ts us : List Text)
    → IsCons a
    → Cut d (q ∷ []) ts us
    → has_meta q ≡ false
    → has_needle (join (a ++ us)) (slashed q) ≡ true
found d a q ts us h c e =
    subst (λ (l : List Text). has_needle (join (a ++ l)) (slashed q) ≡ true)
      (sym (
        c.whole
        ∙ ap (λ (l : List Text). l ++ c.back) (literal-run d (q ∷ []) c.front (e, tt) c.in_front)))
      (join-has_needle a q c.back h)

-- A literal segment of the pattern stands in the path.
needle-fits :
    (d : Bool) (a : List Text) (qs ts us : List Text)
    → IsCons a
    → Matches (path_tests d) (qs ++ ts) us
    → all (has_needle (join (a ++ us))) (needles_of qs) ≡ true
unfolding needles_of
needle-fits d a [] ts us h m = refl
needle-fits d a (q ∷ qs) ts us h m =
    let c : Cut d (q ∷ []) (qs ++ ts) us = cut d (q ∷ []) (qs ++ ts) us m in
    let later : all (has_needle (join (a ++ us))) (needles_of qs) ≡ true =
      subst (λ (l : List Text). all (has_needle (join l)) (needles_of qs) ≡ true)
        (append_assoc a c.front c.back ∙ ap (λ (l : List Text). a ++ l) (sym c.whole))
        (needle-fits d (a ++ c.front) qs ts c.back (IsCons-append a c.front h) c.in_back) in
    elim (Bool-cases (has_meta q)) [
      | inl e ↦ rw e later
      | inr e ↦ rw e (
          (&&_iff (has_needle (join (a ++ us)) (slashed q))
              (all (has_needle (join (a ++ us))) (needles_of qs))).1
            (found d a q (qs ++ ts) us h c e, later))
    ]

pub needles-fit :
    (d : Bool) (ws ts us : List Text)
    → IsRooted ws
    → Matches (path_tests d) (ws ++ ts) us
    → all (has_needle (join us)) (needles_of (drop (lead ws) ws)) ≡ true
needles-fit d ws ts us h m =
    let l = led d ws ts us m in
    subst (λ (t : List Text). all (has_needle (join t)) (needles_of (drop (lead ws) ws)) ≡ true)
      (sym l.whole)
      (needle-fits d (Base.take (lead ws) ws) (drop (lead ws) ws) ts l.rest (lead-IsCons ws h)
        l.matched)

keep_past_root-IsRooted :
    (p : Text → Bool) (ws : List Text) → IsRooted ws → IsRooted (keep_past_root p ws)
keep_past_root-IsRooted p [] h = h
keep_past_root-IsRooted p (w ∷ ws) h = h

insert_root-IsRooted : (ws : List Text) → IsRooted (insert_root ws)
unfolding insert_root has_meta
insert_root-IsRooted [] = refl
insert_root-IsRooted ([] ∷ ws) = refl
insert_root-IsRooted ((c ∷ w) ∷ ws) = refl

pub normalized-IsRooted : (pattern : Text) → IsRooted (normalized pattern)
unfolding normalized rooted_segments
normalized-IsRooted pattern =
    keep_past_root-IsRooted (λ s. not (is_empty s)) (insert_root (split pattern))
      (insert_root-IsRooted (split pattern))

pub segments_of-IsRooted : (t : Tail) (ws : List Text) → IsRooted ws → IsRooted (segments_of t ws)
unfolding pop_stars
segments_of-IsRooted name ws h = h
segments_of-IsRooted dir ws h = h
segments_of-IsRooted tree [] h = h
segments_of-IsRooted tree (w ∷ ws) h = h
