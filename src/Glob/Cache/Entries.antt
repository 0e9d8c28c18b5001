-- ===== src/Glob/Cache/Entries.antt =====
-- The cache matcher, entry by entry.
use task_rs.Base.{
  ℕ, ◌≡◌, refl, sym, ◌∙◌, subst, ◌↔◌, inl, inr, Bool, true, false, not, ◌&&◌, ◌||◌, List, [], ◌∷◌,
  ◌++◌, arith, ◌==◌, ==_iff, ltb, if◌then◌else◌, Text, codes, any, map, In, Bool-cases, &&_iff,
  ||_iff,
}
use task_rs.Glob.Path.{normalized_segments, match_segments, ends_with_slash, is_empty}
use task_rs.Glob.Exclusion.{ends_in_stars}
use task_rs.FilePath.{join_glob}
use task_rs.Glob.Cache.{
  Entry, is_named, has_wildcards, join_file, MatchGroup, add_exclusion, add_include, new_group,
  ◌=ₛ◌, excluded, names, removes, lists, of_group, insert_sorted, group_numbers, new_matcher,
  matches,
}

module _ (dir : Text) (path : List Text) where
  abbrev segments_of : Entry → List Text
  segments_of g = normalized_segments (join_glob dir g.glob)

  -- The entry includes the path by its pattern.
  pub includes_entry : Entry → Bool
  includes_entry g = not g.negate && match_segments (segments_of g) path true

  -- The entry names the path, itself or by its fingerprint.
  pub names_entry : Entry → Bool
  names_entry g =
      not g.negate
      && (is_named g
          && ((not (has_wildcards g) && segments_of g =ₛ path)
              || (not (is_empty g.fingerprint)
                  && normalized_segments (join_file dir g.fingerprint) =ₛ path)))

  -- The entry excludes paths that are not directories.
  pub is_exclusion : Entry → Bool
  is_exclusion g = g.negate && not (ends_with_slash (join_glob dir g.glob))

  pub names_excluded : Entry → Bool
  names_excluded g = is_exclusion g && (not (has_wildcards g) && segments_of g =ₛ path)

  pub excludes_entry : Entry → Bool
  excludes_entry g =
      is_exclusion g
      && match_segments
          (if ends_in_stars (segments_of g) then segments_of g ++ codes "*" ∷ [] else segments_of g)
          path true

  pub removed : List Entry → Bool
  removed globs =
      any names_excluded globs || (not (any names_entry globs) && any excludes_entry globs)

  pub listed : List Entry → Bool
  listed globs = (any names_entry globs || any includes_entry globs) && not (removed globs)

  includes-any :
      (globs : List Entry)
      → any (λ i. match_segments i path true) (new_group dir globs).includes
        ≡ any includes_entry globs
  unfolding new_group add_exclusion add_include includes_entry
  includes-any [] = refl
  includes-any (g ∷ globs) = ground (arith, includes-any globs)

  names-any : (globs : List Entry) → names (new_group dir globs) path ≡ any names_entry globs
  unfolding new_group add_exclusion add_include names_entry names
  names-any [] = refl
  names-any (g ∷ globs) = ground (arith, names-any globs)

  literal-any :
      (globs : List Entry)
      → any (λ l. l =ₛ path) (new_group dir globs).literal ≡ any names_excluded globs
  unfolding new_group add_exclusion add_include names_excluded is_exclusion
  literal-any [] = refl
  literal-any (g ∷ globs) = ground (arith, literal-any globs)

  excluded-any :
      (globs : List Entry) → excluded (new_group dir globs) path ≡ any excludes_entry globs
  unfolding new_group add_exclusion add_include excludes_entry is_exclusion excluded
  excluded-any [] = refl
  excluded-any (g ∷ globs) = ground (arith, excluded-any globs)

  removes-removed : (globs : List Entry) → removes (new_group dir globs) path ≡ removed globs
  unfolding removes removed
  removes-removed globs = rw (literal-any globs, names-any globs, excluded-any globs) refl

  lists-listed : (globs : List Entry) → lists (new_group dir globs) path ≡ listed globs
  unfolding lists listed
  lists-listed globs = ground (arith, names-any globs, includes-any globs, removes-removed globs)

insert_sorted-In : (n k : ℕ) (ks : List ℕ) → In k (n ∷ ks) → In k (insert_sorted n ks)
unfolding insert_sorted
insert_sorted-In n k [] i = i
insert_sorted-In n k (j ∷ ks) i = elim (Bool-cases (ltb n j)) [
  | inl e ↦ rw e i
  | inr e ↦ elim (Bool-cases (n == j)) [
    | inl q ↦ rw (e, q) (elim i [ inl a ↦ inl (a ∙ (==_iff n j).0 q) | inr l ↦ l ])
    | inr q ↦
        rw (e, q)
          (elim i [
            | inl a ↦ inr (insert_sorted-In n k ks (inl a))
            | inr (inl b) ↦ inl b
            | inr (inr l) ↦ inr (insert_sorted-In n k ks (inr l))
          ])
  ]
]

-- A group with an entry that passes a test has its number in the list.
group_numbers-In :
    (p : Entry → Bool) (n : ℕ) (globs : List Entry)
    → (n ≡ 0 → ⊥)
    → any p (of_group n globs) ≡ true
    → In n (group_numbers globs)
unfolding group_numbers
group_numbers-In p n [] k h = cc h
group_numbers-In p n (g ∷ globs) k h = elim (Bool-cases (g.group == 0)) [
  | inl z ↦ rw z (group_numbers-In p n globs k (rw (other z) at h))
  | inr z ↦ rw z (elim (Bool-cases (g.group == n)) [
    | inl e ↦ insert_sorted-In g.group n (group_numbers globs) (inl (sym ((==_iff g.group n).0 e)))
    | inr e ↦
        insert_sorted-In g.group n (group_numbers globs)
          (inr (group_numbers-In p n globs k (rw e at h)))
  ])
]
  where
    other : (g.group == 0) ≡ true → (g.group == n) ≡ false
    other z = elim (Bool-cases (g.group == n)) [
      | inr e ↦ e
      | inl e ↦ absurd (k (sym ((==_iff g.group n).0 e) ∙ (==_iff g.group 0).0 z))
    ]

listed-In :
    (dir : Text) (path : List Text) (n : ℕ) (globs : List Entry)
    → (n ≡ 0 → ⊥)
    → listed dir path (of_group n globs) ≡ true
    → In n (group_numbers globs)
unfolding listed
listed-In dir path n globs k h =
    elim ((||_iff (any (names_entry dir path) (of_group n globs))
        (any (includes_entry dir path) (of_group n globs))).0
      ((&&_iff _ _).0 h).0) [
        | inl a ↦ group_numbers-In (names_entry dir path) n globs k a
        | inr a ↦ group_numbers-In (includes_entry dir path) n globs k a
      ]

any-map :
    {A B : Type 0} (p : B → Bool) (f : A → B) (xs : List A)
    → any p (map f xs) ≡ true
    → (x : A) × (p (f x) ≡ true)
any-map p f [] h = cc h
any-map p f (x ∷ xs) h = elim ((||_iff (p (f x)) (any p (map f xs))).0 h) [
  | inl e ↦ (x, e)
  | inr e ↦ any-map p f xs e
]

any-map_In :
    {A B : Type 0} (p : B → Bool) (f : A → B) (x : A) (xs : List A)
    → In x xs
    → p (f x) ≡ true
    → any p (map f xs) ≡ true
any-map_In p f x [] i h = absurd i
any-map_In p f x (y ∷ xs) (inl e) h =
    (||_iff (p (f y)) (any p (map f xs))).1 (inl (subst (λ z. p (f z) ≡ true) e h))
any-map_In p f x (y ∷ xs) (inr i) h =
    (||_iff (p (f y)) (any p (map f xs))).1 (inr (any-map_In p f x xs i h))

module _ (dir : Text) (globs : List Entry) (path : List Text) where
  abbrev group : ℕ → MatchGroup
  group n = new_group dir (of_group n globs)

  abbrev accepts : Bool
  accepts =
      (lists (group 0) path || any (λ g. lists g path) (map (λ n. group n) (group_numbers globs)))
      && not (removes (group 0) path)

  accepts-listed :
      accepts ≡ true
      → ((n : ℕ) × (listed dir path (of_group n globs) ≡ true))
        × (removed dir path (of_group 0 globs) ≡ false)
  accepts-listed h =
      let parts =
        (&&_iff
            (lists (group 0) path
              || any (λ g. lists g path) (map (λ n. group n) (group_numbers globs)))
            (not (removes (group 0) path))).0
          h in
      (
        elim ((||_iff (lists (group 0) path) _).0 parts.0) [
          | inl a ↦ (0, sym (lists-listed dir path (of_group 0 globs)) ∙ a)
          | inr a ↦
              let found = any-map (λ g. lists g path) (λ n. group n) (group_numbers globs) a in
              (found.0, sym (lists-listed dir path (of_group found.0 globs)) ∙ found.1)
        ],
        sym (removes-removed dir path (of_group 0 globs)) ∙ ground (arith, parts.1),
      )

  listed-accepts :
      (n : ℕ)
      → listed dir path (of_group n globs) ≡ true
      → removed dir path (of_group 0 globs) ≡ false
      → accepts ≡ true
  listed-accepts n h k =
      (&&_iff
          (lists (group 0) path
            || any (λ g. lists g path) (map (λ n. group n) (group_numbers globs)))
          _).1
        (
          (||_iff (lists (group 0) path) _).1 (elim (Bool-cases (n == 0)) [
            | inl z ↦ inl (
                lists-listed dir path (of_group 0 globs)
                ∙ subst (λ m. listed dir path (of_group m globs) ≡ true) ((==_iff n 0).0 z) h)
            | inr z ↦ inr (
                any-map_In (λ g. lists g path) (λ n. group n) n (group_numbers globs)
                  (listed-In dir path n globs (λ e. ground (arith, z, e)) h)
                  (lists-listed dir path (of_group n globs) ∙ h))
          ]),
          rw (removes-removed dir path (of_group 0 globs), k) refl,
        )

-- The matcher accepts a path exactly when some group of the entries lists it, the task's own or
-- another task's, and the task's own exclusions do not remove it, where a group lists what an entry
-- names or includes unless an exclusion without wildcards is that path, or another exclusion
-- matches it and no entry names it.
pub matches_iff :
    (dir : Text) (globs : List Entry) (root rel : Text)
    → (matches (new_matcher dir globs) root rel ≡ true) ↔ (
        ((n : ℕ) × (listed dir (normalized_segments (join_glob root rel)) (of_group n globs)
            ≡ true))
        × (removed dir (normalized_segments (join_glob root rel)) (of_group 0 globs) ≡ false))
unfolding matches new_matcher
matches_iff dir globs root rel = (
  λ h. accepts-listed dir globs (normalized_segments (join_glob root rel)) h,
  λ p. listed-accepts dir globs (normalized_segments (join_glob root rel)) p.0.0 p.0.1 p.1,
)
