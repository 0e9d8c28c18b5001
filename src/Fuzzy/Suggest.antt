-- ===== src/Fuzzy/Suggest.antt =====
-- `suggest` returns the first of the nearest candidates within the threshold.
use task_rs.Base.{
  ℕ, ◌≤◌, ◌<◌, ◌≡◌, refl, ap, ◌∙◌, inl, inr, Option, none, some, List, [], ◌∷◌, ◌++◌, arith, ltb,
  leb, if◌then◌else◌, Text, ltb→lt, not_ltb→le, leb→le, not_leb→lt, All, append-nil, append_assoc,
  Bool-cases,
}
use task_rs.Fuzzy.{levenshtein, threshold_for, consider, suggest_loop, suggest}

-- `name` is the first of the nearest among the candidates, and near enough.
pub record IsNearest (target : Text) (candidates : List Text) (name : Text) : Type 0 where
  before : List Text
  after : List Text
  split : candidates ≡ before ++ name ∷ after
  near : levenshtein target name ≤ threshold_for target
  farther : All (λ c. levenshtein target name < levenshtein target c) before
  no_nearer : All (λ c. levenshtein target name ≤ levenshtein target c) after

abbrev pub AllFar : Text → List Text → Type 0
AllFar target candidates = All (λ c. threshold_for target < levenshtein target c) candidates

-- What the loop holds after the candidates so far.
abbrev Best : Text → List Text → Option (ℕ × Text) → Type 0
Best target seen none = AllFar target seen
Best target seen (some (d, name)) = (d ≡ levenshtein target name) × IsNearest target seen name

All-snoc : (P : Text → Type 0) (xs : List Text) (y : Text) → All P xs → P y → All P (xs ++ y ∷ [])
All-snoc P [] y h p = (p, tt)
All-snoc P (x ∷ xs) y h p = (h.0, All-snoc P xs y h.1 p)

All-impl : (P Q : Text → Type 0) (xs : List Text) → ((x : Text) → P x → Q x) → All P xs → All Q xs
All-impl P Q [] f h = tt
All-impl P Q (x ∷ xs) f h = (f x h.0, All-impl P Q xs f h.1)

All-append : (P : Text → Type 0) (xs ys : List Text) → All P xs → All P ys → All P (xs ++ ys)
All-append P [] ys h k = k
All-append P (x ∷ xs) ys h k = (h.0, All-append P xs ys h.1 k)

module _ (target : Text) where
  IsNearest-far :
      {seen : List Text} {name : Text} (c : Text)
      → levenshtein target name ≤ levenshtein target c
      → IsNearest target seen name
      → IsNearest target (seen ++ c ∷ []) name
  IsNearest-far {name} c h n = record {
    before = n.before;
    after = n.after ++ c ∷ [];
    split =
        ap (λ (l : List Text). l ++ c ∷ []) n.split
        ∙ append_assoc n.before (name ∷ n.after) (c ∷ []);
    near = n.near;
    farther = n.farther;
    no_nearer =
        All-snoc (λ x. levenshtein target name ≤ levenshtein target x) n.after c n.no_nearer h;
  }

  IsNearest-new :
      (seen : List Text) (c : Text)
      → levenshtein target c ≤ threshold_for target
      → All (λ x. levenshtein target c < levenshtein target x) seen
      → IsNearest target (seen ++ c ∷ []) c
  IsNearest-new seen c h a = record {
    before = seen;
    after = [];
    split = refl;
    near = h;
    farther = a;
    no_nearer = tt;
  }

  -- The old best and all that was seen are farther than a nearer one.
  IsNearest-nearer :
      {seen : List Text} {name : Text} (c : Text)
      → levenshtein target c < levenshtein target name
      → IsNearest target seen name
      → All (λ x. levenshtein target c < levenshtein target x) seen
  IsNearest-nearer {seen} {name} c h n = rw n.split (
      All-append P n.before (name ∷ n.after) (All-impl _ P n.before (λ x k. omega arith) n.farther)
        (h, All-impl _ P n.after (λ x k. omega arith) n.no_nearer))
    where
      P : Text → Type 0
      P x = levenshtein target c < levenshtein target x

  -- A candidate beyond the threshold changes nothing.
  Best-far :
      (seen : List Text) (c : Text) (o : Option (ℕ × Text))
      → threshold_for target < levenshtein target c
      → Best target seen o
      → Best target (seen ++ c ∷ []) o
  Best-far seen c none far h = All-snoc _ seen c h far
  Best-far seen c (some (d, name)) far h = (h.0, IsNearest-far c (omega (arith, far, h.1.near)) h.1)

  -- The test of the old best against a candidate within the threshold.
  nearer : Text → Option (ℕ × Text) → Option (ℕ × Text)
  nearer c none = some (levenshtein target c, c)
  nearer c (some (d, name)) =
      if leb d (levenshtein target c) then some (d, name) else some (levenshtein target c, c)

  Best-near :
      (seen : List Text) (c : Text) (o : Option (ℕ × Text))
      → levenshtein target c ≤ threshold_for target
      → Best target seen o
      → Best target (seen ++ c ∷ []) (nearer c o)
  unfolding nearer
  Best-near seen c none near h =
      (refl, IsNearest-new seen c near (All-impl _ _ seen (λ x k. omega (arith, near)) h))
  Best-near seen c (some (d, name)) near h = elim (Bool-cases (leb d (levenshtein target c))) [
    | inl l ↦ rw l (h.0, IsNearest-far c (omega (arith, leb→le _ _ l)) h.1)
    | inr l ↦
        rw l (
          refl,
          IsNearest-new seen c near (IsNearest-nearer c (omega (arith, not_leb→lt _ _ l)) h.1),
        )
  ]

  consider-nearer :
      (best : Option (ℕ × Text)) (c : Text)
      → consider target best c
        ≡ (if ltb (threshold_for target) (levenshtein target c) then best else nearer c best)
  unfolding consider nearer
  consider-nearer none c = refl
  consider-nearer (some (d, name)) c = refl

  consider-Best :
      (seen : List Text) (best : Option (ℕ × Text)) (c : Text)
      → Best target seen best
      → Best target (seen ++ c ∷ []) (consider target best c)
  consider-Best seen best c b =
      rw consider-nearer (elim (Bool-cases (ltb (threshold_for target) (levenshtein target c))) [
        | inl far ↦ rw far (Best-far seen c best (ltb→lt _ _ far) b)
        | inr near ↦ rw near (Best-near seen c best (not_ltb→le _ _ near) b)
      ])

  suggest_loop-Best :
      (seen : List Text) (best : Option (ℕ × Text)) (rest : List Text)
      → Best target seen best
      → Best target (seen ++ rest) (suggest_loop target best rest)
  unfolding suggest_loop
  suggest_loop-Best seen best [] b = rw append-nil b
  suggest_loop-Best seen best (c ∷ rest) b = rw (← append_assoc seen (c ∷ []) rest) (
      suggest_loop-Best (seen ++ c ∷ []) (consider target best c) rest
        (consider-Best seen best c b))

-- What `suggest` promises: no candidate is near enough, or the first of the nearest.
abbrev pub Suggested : Text → List Text → Option Text → Type 0
Suggested target candidates none = AllFar target candidates
Suggested target candidates (some name) = IsNearest target candidates name

-- `suggest` answers the first of the candidates at the least distance, if that is within the
-- threshold, and none only where every candidate is farther than the threshold.
pub suggest-Suggested :
    (target : Text) (candidates : List Text)
    → Suggested target candidates (suggest target candidates)
unfolding suggest
suggest-Suggested target candidates =
    answer (suggest_loop target none candidates) (suggest_loop-Best target [] none candidates tt)
  where
    answer :
        (o : Option (ℕ × Text))
        → Best target candidates o
        → Suggested target candidates (elim o [ none ↦ none | some (d, name) ↦ some name ])
    answer none b = b
    answer (some (d, name)) b = b.1
