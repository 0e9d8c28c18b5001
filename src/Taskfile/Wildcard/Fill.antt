-- ===== src/Taskfile/Wildcard/Fill.antt =====
-- What captures are: put in place of the wildcards, they give the name back.
use task_rs.Base.{
  some-injective, take-length, drop-length, ends_with, ℕ, suc, ◌+◌, ◌-◌, ◌≡◌, refl, sym, subst, ap,
  ap₂, ◌∙◌, inl, inr, true, Option, none, some, List, [], ◌∷◌, ◌++◌, arith, ◌==◌, if◌then◌else◌,
  Text, ◌=ₜ◌, =ₜ_iff, is_some, length, length-append, take, drop, Bool-cases, Option-cases,
  append-nil, drop-add, ||_iff,
}
use task_rs.Taskfile.Names.{strip_prefix}
use task_rs.Taskfile.Wildcard.{
  split_star, rfind, find_segment, cons_capture, captures_loop, captures_after, captures_segments,
  wildcard_captures, stars,
}

-- The pattern with its wildcards replaced by the texts of a list, one after the other.
unfoldable pub fill : Text → List Text → Text
fill [] cs = []
fill (c ∷ pattern) [] = c ∷ fill pattern []
fill (c ∷ pattern) (t ∷ cs) = if c == b'*' then t ++ fill pattern cs else c ∷ fill pattern (t ∷ cs)

-- Captures and the segments after them.
abbrev weave : List Text → List Text → Text
weave [] cs = []
weave (w ∷ ws) [] = w ++ weave ws []
weave (w ∷ ws) (t ∷ cs) = t ++ (w ++ weave ws cs)

strip_prefix-inv : (p s r : Text) → strip_prefix p s ≡ some r → s ≡ p ++ r
unfolding strip_prefix
strip_prefix-inv [] s r h = ground (arith, h)
strip_prefix-inv (c ∷ p) [] r h = cc h
strip_prefix-inv (c ∷ p) (d ∷ s) r h = ground (arith, h, strip_prefix-inv p s r)

-- `sep` stands in `s` behind `i` characters.
record Occurs (sep s : Text) (i : ℕ) : Type 0 where
  before : Text
  after : Text
  split : s ≡ before ++ (sep ++ after)
  at_index : length before ≡ i

Occurs-head : (sep s : Text) → is_some (strip_prefix sep s) ≡ true → Occurs sep s 0
Occurs-head sep s h = elim (Option-cases (strip_prefix sep s)) [
  | inl n ↦ cc (h, ap is_some n)
  | inr r ↦ record {
    before = [];
    after = r.0;
    split = strip_prefix-inv sep s r.0 r.1;
    at_index = refl;
  }
]

Occurs-later : (c : ℕ) (sep s : Text) (i : ℕ) → Occurs sep s i → Occurs sep (c ∷ s) (suc i)
Occurs-later c sep s i o = record {
  before = c ∷ o.before;
  after = o.after;
  split = ap (λ (l : Text). c ∷ l) o.split;
  at_index = ap suc o.at_index;
}

rfind-Occurs : (sep s : Text) (i : ℕ) → rfind sep s ≡ some i → Occurs sep s i
unfolding rfind
rfind-Occurs [] [] i h =
    subst (λ n. Occurs [] [] n) (ground (arith, h))
      (record { before = []; after = []; split = refl; at_index = refl })
rfind-Occurs (c ∷ sep) [] i h = cc h
rfind-Occurs sep (c ∷ s) i h = elim (Option-cases (rfind sep s)) [
  | inr r ↦
      subst (λ n. Occurs sep (c ∷ s) n) (ground (arith, rw r.1 at h))
        (Occurs-later c sep s r.0 (rfind-Occurs sep s r.0 r.1))
  | inl n ↦ elim (Bool-cases (is_some (strip_prefix sep (c ∷ s)))) [
    | inl e ↦
        subst (λ n. Occurs sep (c ∷ s) n) (ground (arith, rw (n, e) at h))
          (Occurs-head sep (c ∷ s) e)
    | inr e ↦ cc (rw (n, e) at h)
  ]
]

pub ends_with-inv :
    (last s : Text) → ends_with last s ≡ true → (before : Text) × (s ≡ before ++ last)
unfolding ends_with
ends_with-inv last [] h = ([], sym ((=ₜ_iff last []).0 h))
ends_with-inv last (c ∷ s) h = elim ((||_iff (last =ₜ (c ∷ s)) (ends_with last s)).0 h) [
  | inl e ↦ ([], sym ((=ₜ_iff last (c ∷ s)).0 e))
  | inr e ↦ let found = ends_with-inv last s e in (c ∷ found.0, ap (λ (l : Text). c ∷ l) found.1)
]

-- What the last wildcard takes.
take-before :
    (last before s : Text) → s ≡ before ++ last → s ≡ take (length s - length last) s ++ last
take-before last before s e =
    subst (λ (t : Text). t ≡ take (length t - length last) t ++ last) (sym e)
      (ap (λ (l : Text). l ++ last)
        (sym (ap (λ (n : ℕ). take n (before ++ last)) count ∙ take-length before last)))
  where
    count : length (before ++ last) - length last ≡ length before
    count = omega (arith, length-append before last)

Occurs-split :
    (sep s : Text) (i : ℕ) → Occurs sep s i → s ≡ take i s ++ (sep ++ drop (i + length sep) s)
Occurs-split sep s i o = o.split ∙ ap₂ (λ (a b : Text). a ++ (sep ++ b)) (sym before) (sym after)
  where
    before : take i s ≡ o.before
    before = ap₂ take (sym o.at_index) o.split ∙ take-length o.before (sep ++ o.after)

    after : drop (i + length sep) s ≡ o.after
    after =
        ap₂ (λ (n : ℕ) (t : Text). drop (n + length sep) t) (sym o.at_index) o.split
        ∙ drop-add (length o.before) (length sep) (o.before ++ (sep ++ o.after))
        ∙ ap (drop (length sep)) (drop-length o.before (sep ++ o.after))
        ∙ drop-length sep o.after

find_segment-split :
    (sep s : Text) (i : ℕ)
    → find_segment sep s ≡ some i
    → s ≡ take i s ++ (sep ++ drop (i + length sep) s)
unfolding find_segment
find_segment-split [] s i h = Occurs-split [] s i (
    subst (λ n. Occurs [] s n) (some-injective h)
      (record { before = []; after = s; split = refl; at_index = refl }))
find_segment-split (c ∷ sep) s i h = Occurs-split (c ∷ sep) s i (rfind-Occurs (c ∷ sep) s i h)

captures_loop-weave :
    (w : Text) (ws : List Text) (rest : Text) (cs : List Text)
    → captures_loop w ws rest ≡ some cs
    → (rest ≡ weave (w ∷ ws) cs) × (length cs ≡ suc (length ws))
unfolding captures_loop
captures_loop-weave w [] rest cs h = elim (Bool-cases (ends_with w rest)) [
  | inr e ↦ cc (rw (e, captures_loop) at h)
  | inl e ↦
      let found = ends_with-inv w rest e in
      subst (λ (l : List Text). (rest ≡ weave (w ∷ []) l) × (length l ≡ 1))
        (some-injective (rw (e, captures_loop) at h))
        (
          take-before w found.0 rest found.1
              ∙ ap (λ (l : Text). take (length rest - length w) rest ++ l) (sym (append-nil w)),
          refl,
        )
]
captures_loop-weave w (v ∷ ws) rest cs h = elim (Option-cases (find_segment w rest)) [
  | inl n ↦ cc (rw (n, captures_loop) at h)
  | inr i ↦ elim (Option-cases (captures_loop v ws (drop (i.0 + length w) rest))) [
    | inl n ↦ cc (rw (i.1, captures_loop, n, cons_capture) at h)
    | inr k ↦
        let later = captures_loop-weave v ws (drop (i.0 + length w) rest) k.0 k.1 in
        subst
          (λ (l : List Text). (rest ≡ weave (w ∷ v ∷ ws) l) × (length l ≡ suc (suc (length ws))))
          (some-injective (rw (i.1, captures_loop, k.1, cons_capture) at h))
          (
            find_segment-split w rest i.0 i.1
                ∙ ap (λ (l : Text). take i.0 rest ++ (w ++ l)) later.0,
            ap suc later.1,
          )
  ]
]

fill-weave :
    (pattern : Text) (cs : List Text)
    → length cs ≡ length (split_star pattern).1
    → fill pattern cs ≡ (split_star pattern).0 ++ weave (split_star pattern).1 cs
unfolding fill split_star
fill-weave [] cs h = refl
fill-weave (c ∷ pattern) [] h = elim (Bool-cases (c == b'*')) [
  | inl e ↦ absurd (ground (arith, rw e at h))
  | inr e ↦ rw e (ap (λ (l : Text). c ∷ l) (fill-weave pattern [] (rw e at h)))
]
fill-weave (c ∷ pattern) (t ∷ cs) h = elim (Bool-cases (c == b'*')) [
  | inl e ↦ rw e (ap (λ (l : Text). t ++ l) (fill-weave pattern cs (ground (arith, rw e at h))))
  | inr e ↦ rw e (ap (λ (l : Text). c ∷ l) (fill-weave pattern (t ∷ cs) (rw e at h)))
]

stars-split : (pattern : Text) → length (split_star pattern).1 ≡ stars pattern
unfolding stars split_star
stars-split [] = refl
stars-split (c ∷ pattern) = ground (arith, stars-split pattern)

captures_after-weave :
    (w : Text) (ws : List Text) (name first : Text) (o : Option Text) (cs : List Text)
    → strip_prefix first name ≡ o
    → captures_after w ws o ≡ some cs
    → (name ≡ first ++ weave (w ∷ ws) cs) × (length cs ≡ suc (length ws))
unfolding captures_after
captures_after-weave w ws name first none cs e h = cc h
captures_after-weave w ws name first (some r) cs e h =
    let found = captures_loop-weave w ws r cs h in
    (strip_prefix-inv first name r e ∙ ap (λ (l : Text). first ++ l) found.0, found.1)

pub fill-nil : (pattern : Text) → fill pattern [] ≡ pattern
unfolding fill
fill-nil [] = refl
fill-nil (c ∷ pattern) = ap (λ (l : Text). c ∷ l) (fill-nil pattern)

captures_segments-Fills :
    (pattern name : Text) (segments : Text × List Text) (cs : List Text)
    → split_star pattern ≡ segments
    → captures_segments pattern name segments ≡ some cs
    → (fill pattern cs ≡ name) × (length cs ≡ length (split_star pattern).1)
unfolding captures_segments
captures_segments-Fills pattern name (first, []) cs e h = elim (Bool-cases (pattern =ₜ name)) [
  | inr q ↦ cc (rw (q, captures_segments) at h)
  | inl q ↦
      subst
        (λ (l : List Text). (fill pattern l ≡ name) × (length l ≡ length (split_star pattern).1))
        (some-injective (rw (q, captures_segments) at h))
        (fill-nil pattern ∙ (=ₜ_iff pattern name).0 q, rw e refl)
]
captures_segments-Fills pattern name (first, w ∷ ws) cs e h =
    let found = captures_after-weave w ws name first (strip_prefix first name) cs refl h in
    let count = found.1 ∙ sym (ap (λ (p : Text × List Text). length p.1) e) in
    (
      fill-weave pattern cs count
          ∙ ap (λ (p : Text × List Text). p.0 ++ weave p.1 cs) e
          ∙ sym found.0,
      count,
    )

-- What the captures of a pattern fill is the name, and there is one for each wildcard.
pub wildcard_captures-Fills :
    (pattern name : Text) (cs : List Text)
    → wildcard_captures pattern name ≡ some cs
    → (fill pattern cs ≡ name) × (length cs ≡ stars pattern)
unfolding wildcard_captures
wildcard_captures-Fills pattern name cs h =
    let found = captures_segments-Fills pattern name (split_star pattern) cs refl h in
    (found.0, found.1 ∙ stars-split pattern)
