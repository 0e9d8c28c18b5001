-- ===== src/Executor/Cycle.antt =====
-- A task that would run below itself is refused, with the path from its first run to the repeat.
use mathlib.Core.List.{reverse_aux}
use task_rs.Base.{
  Option, lookup, insert, none, ◌≤◌, ◌<◌, arith, Option-cases, ℕ, suc, ◌≡◌, ◌≢◌, refl, sym, ap,
  subst, ap₂, ◌∙◌, ◌↔◌, ◌⊎◌, inl, inr, Bool, true, false, some, List, [], ◌∷◌, ◌++◌, min, leb, Text,
  ◌=ₜ◌, =ₜ_iff, ||_iff, Map, append_assoc, Bool-cases, tail_eq, head_eq,
}
use task_rs.Executor.{
  Ancestors, Level, run_name, keyed, call_count, Admission, cyclic_dependency,
  called_too_many_times, admitted, contains, names_up, to_path_through, extend, count_call, admit,
}

-- A text without a NUL.
abbrev pub NoNul : Text → Type 0
NoNul [] = Unit
NoNul (c ∷ s) = (c ≢ 0) × NoNul s

-- The name and the digest of a key are determined by it.
keyed-injective :
    (a b d e : Text) → NoNul a → NoNul b → keyed a (some d) ≡ keyed b (some e) → (a ≡ b) × (d ≡ e)
keyed-injective [] [] d e p q h = (refl, tail_eq h)
keyed-injective [] (c ∷ b) d e p q h = absurd (q.0 (sym (head_eq h)))
keyed-injective (c ∷ a) [] d e p q h = absurd (p.0 (head_eq h))
keyed-injective (c ∷ a) (x ∷ b) d e p q h =
    let (name, digest) = keyed-injective a b d e p.1 q.1 (tail_eq h) in
    (ap₂ (λ (y : ℕ) (s : Text). y ∷ s) (head_eq h) name, digest)

-- A task with this name and this digest runs on the path.
abbrev pub IsRunning : {L : Type 0} → Text → Text → Ancestors L → Type 0
IsRunning name digest [] = ⊥
IsRunning name digest (level ∷ path) =
    ((level.name ≡ name) × (level.key ≡ name ++ 0 ∷ digest)) ⊎ IsRunning name digest path

-- Every level of the path has the key of its name and of a digest.
abbrev pub IsKeyed : {L : Type 0} → Ancestors L → Type 0
IsKeyed [] = Unit
IsKeyed (level ∷ path) =
    (NoNul level.name × ((d : Text) × (level.key ≡ level.name ++ 0 ∷ d))) × IsKeyed path

-- No task of the same name and digest is on the path twice.
abbrev pub NoRepeat : {L : Type 0} → Ancestors L → Type 0
NoRepeat [] = Unit
NoRepeat (level ∷ path) =
    ((d : Text) → level.key ≡ level.name ++ 0 ∷ d → ¬ IsRunning level.name d path) × NoRepeat path

-- The path has one level more, of the name and the digest, innermost.
abbrev pub OneMore : {L : Type 0} → Text → Text → Ancestors L → Ancestors L → Type 0
OneMore {L = L} name digest ancestors path =
    (level : Level L) × (path ≡ level ∷ ancestors)
    × (level.name ≡ name)
    × (level.key ≡ name ++ 0 ∷ digest)

contains_iff :
    {L : Type 0} (path : Ancestors L) (name digest : Text)
    → IsKeyed path
    → NoNul name
    → (contains path (name ++ 0 ∷ digest) ≡ true) ↔ IsRunning name digest path
unfolding contains
contains_iff [] name digest k n = (λ h. cc h, λ h. absurd h)
contains_iff (level ∷ path) name digest k n =
    let (d, key) = k.0.1 in
    let rest = contains_iff path name digest k.1 n in
    let here = =ₜ_iff level.key (name ++ 0 ∷ digest) in
    (
      λ h.
          elim ((||_iff (level.key =ₜ (name ++ 0 ∷ digest)) (contains path (name ++ 0 ∷ digest))).0
            h) [
              | inl e ↦ inl (
                (keyed-injective level.name name d digest k.0.0 n (sym key ∙ here.0 e)).0,
                here.0 e,
              )
              | inr e ↦ inr (rest.0 e)
            ],
      λ r.
          (||_iff (level.key =ₜ (name ++ 0 ∷ digest)) (contains path (name ++ 0 ∷ digest))).1
            (elim r [ inl e ↦ inl (here.1 e.1) | inr e ↦ inr (rest.1 e) ]),
    )

reverse_aux-append : (xs acc : List Text) → reverse_aux xs acc ≡ reverse_aux xs [] ++ acc
reverse_aux-append [] acc = refl
reverse_aux-append (x ∷ xs) acc =
    reverse_aux-append xs (x ∷ acc)
    ∙ sym (append_assoc (reverse_aux xs []) (x ∷ []) acc)
    ∙ ap (λ (l : List Text). l ++ acc) (sym (reverse_aux-append xs (x ∷ [])))

-- The path goes through the name.
record Through (name : Text) (acc path : List Text) : Type 0 where
  before : List Text
  between : List Text
  through : path ≡ before ++ name ∷ (between ++ acc)

names_up-Through :
    {L : Type 0} (path : Ancestors L) (name digest : Text) (acc : List Text)
    → IsRunning name digest path
    → Through name acc (reverse_aux (names_up path) acc)
unfolding names_up
names_up-Through [] name digest acc r = absurd r
names_up-Through (level ∷ path) name digest acc (inl h) = record {
  before = reverse_aux (names_up path) [];
  between = [];
  through =
      reverse_aux-append (names_up path) (level.name ∷ acc)
      ∙ ap (λ (x : Text). reverse_aux (names_up path) [] ++ x ∷ acc) h.0;
}
names_up-Through (level ∷ path) name digest acc (inr r) =
    let t = names_up-Through path name digest (level.name ∷ acc) r in
    record {
      before = t.before;
      between = t.between ++ level.name ∷ [];
      through =
          t.through
          ∙ ap (λ (x : List Text). t.before ++ name ∷ x)
              (sym (append_assoc t.between (level.name ∷ []) acc));
    }

abbrev of_entry : Option ℕ → ℕ
of_entry none = 0
of_entry (some n) = n

-- The calls of a task so far: none when nothing is counted for it.
abbrev pub made : Map ℕ → Text → ℕ
made counts task = of_entry (lookup task counts)

-- The call is counted, in 31 bits, unless the run watches.
abbrev pub Counted : Bool → Map ℕ → Text → Map ℕ → Type 0
Counted true counts task after = after ≡ counts
Counted false counts task after =
    after ≡ insert task (min (suc (made counts task)) 2147483647) counts

-- What `admit` answers for a task of this name and digest.
abbrev pub Answers :
    {L : Type 0} → Bool → Map ℕ → Ancestors L → Text → Text → Text → Admission L × Map ℕ → Type 0
Answers watch counts ancestors task name digest (cyclic_dependency path, after) =
    IsRunning name digest ancestors
    × ((after ≡ counts)
        × ((before : List Text) × (between : List Text) × (path
              ≡ before ++ name ∷ (between ++ name ∷ []))))
Answers watch counts ancestors task name digest (called_too_many_times t, after) =
    (¬ IsRunning name digest ancestors)
    × ((t ≡ task)
        × ((watch ≡ false) × ((999 ≤ made counts task) × Counted watch counts task after)))
Answers watch counts ancestors task name digest (admitted path, after) =
    (¬ IsRunning name digest ancestors)
    × (OneMore name digest ancestors path
        × ((IsKeyed path × NoRepeat path)
            × (((watch ≡ true) ⊎ (made counts task < 999)) × Counted watch counts task after)))

call_count-made : (counts : Map ℕ) (task : Text) → call_count counts task ≡ made counts task
unfolding call_count
call_count-made counts task = elim (Option-cases (lookup task counts)) [
  | inl e ↦ rw e refl
  | inr n ↦ rw n.1 refl
]

worn : (n : ℕ) → leb 1000 (min (suc n) 2147483647) ≡ true → 999 ≤ n
worn n h = ground arith

fresh : (n : ℕ) → leb 1000 (min (suc n) 2147483647) ≡ false → n < 999
fresh n h = ground arith

count_call-Answers :
    {L : Type 0} (watch : Bool) (counts : Map ℕ) (ancestors path : Ancestors L)
    (task name digest : Text)
    → ¬ IsRunning name digest ancestors
    → OneMore name digest ancestors path
    → IsKeyed path × NoRepeat path
    → Answers watch counts ancestors task name digest (count_call watch counts task path)
unfolding count_call
count_call-Answers true counts ancestors path task name digest n o k =
    (n, (o, (k, (inl refl, refl))))
count_call-Answers false counts ancestors path task name digest n o k =
    rw (call_count-made counts task)
      (elim (Bool-cases (leb 1000 (min (suc (made counts task)) 2147483647))) [
        | inl e ↦ rw e (n, (refl, (refl, (worn (made counts task) e, refl))))
        | inr e ↦ rw e (n, (o, (k, (inr (fresh (made counts task) e), refl))))
      ])

not-IsRunning :
    {L : Type 0} (path : Ancestors L) (name digest d : Text)
    → NoNul name
    → ¬ IsRunning name digest path
    → name ++ 0 ∷ digest ≡ name ++ 0 ∷ d
    → ¬ IsRunning name d path
not-IsRunning path name digest d n h e =
    subst (λ (x : Text). ¬ IsRunning name x path) (keyed-injective name name digest d n n e).1 h

-- On a path of keys on which no task runs below itself, a task with a digest, whose name holds no
-- NUL: if its name and digest run already on the path of its call, it is refused, the counts stay,
-- and the path in the error leads through the name to the repeat of the name. Any other task is
-- counted unless the run watches, and it is refused from the thousandth call that is counted on.
-- The path of an admitted one is the path of the call, unchanged, below one level with its name and
-- digest, on which again no task runs below itself.
pub admit-Answers :
    {L : Type 0} (watch : Bool) (counts : Map ℕ) (ancestors : Ancestors L)
    (task full_name digest : Text)
    → IsKeyed ancestors
    → NoRepeat ancestors
    → NoNul (run_name (record { task = task; full_name = full_name; digest = some digest }))
    → Answers watch counts ancestors task
        (run_name (record { task = task; full_name = full_name; digest = some digest }))
        digest
        (admit watch counts ancestors
          (record { task = task; full_name = full_name; digest = some digest }))
unfolding admit to_path_through
admit-Answers watch counts ancestors task full_name digest k u n =
    let name = run_name (record { task = task; full_name = full_name; digest = some digest }) in
    let found = contains_iff ancestors name digest k n in
    elim (Bool-cases (contains ancestors (name ++ 0 ∷ digest))) [
      | inl e ↦ rw e (
          let t = names_up-Through ancestors name digest (name ∷ []) (found.0 e) in
          (found.0 e, (refl, (t.before, t.between, t.through))))
      | inr e ↦ rw e (
          count_call-Answers watch counts ancestors (extend ancestors (name ++ 0 ∷ digest) name)
            task name digest (λ r. cc (e, found.1 r)) (_, refl, refl, refl)
            (
              ((n, (digest, refl)), k),
              (λ d q. not-IsRunning ancestors name digest d n (λ r. cc (e, found.1 r)) q, u),
            ))
    ]
