-- ===== src/Executor/Calls/Found.antt =====
-- Which calls are found, and which are watched.
use task_rs.Base.{
  ◌≡◌, refl, sym, ap, ◌∙◌, ◌↔◌, inl, inr, Bool, true, false, ◌&&◌, ◌||◌, Option, none, some, List,
  [], ◌∷◌, if◌then◌else◌, Text, Map, lookup, any, All, ok, err, ◌>>=◌, >>=-ok, ok-injective,
  Bool-cases,
}
use task_rs.Taskfile.Task.{Task}
use task_rs.Taskfile.Wildcard.{wildcard_match}
use task_rs.Executor.Calls.{
  CallRest, Call, task_not_found, MatchingTask, values, has_alias, aliased, and_match,
  wildcard_matches, by_alias, by_name, find_matching_tasks, first_match, get_task, is_watched,
  will_watch, put, split_regular_and_watch,
}

module _ {V O : Type 0} where
  -- A task that neither an alias nor a pattern of it matches the name.
  abbrev pub IsOther : Text → Task V (CallRest O) → Type 0
  IsOther name t = (has_alias t name ≡ false) × ((wildcard_match t name).0 ≡ false)

  aliased-nil :
      (ts : List (Task V (CallRest O))) (name : Text)
      → (aliased ts name ≡ []) ↔ All (λ t. has_alias t name ≡ false) ts
  unfolding aliased
  aliased-nil [] name = (λ _. tt, λ _. refl)
  aliased-nil (t ∷ ts) name = elim (Bool-cases (has_alias t name)) [
    | inl e ↦ rw e (λ h. absurd (cc h), λ h. absurd (cc (h.0)))
    | inr e ↦ rw e (λ h. (refl, (aliased-nil ts name).0 h), λ h. (aliased-nil ts name).1 h.1)
  ]

  wildcard_matches-nil :
      (ts : List (Task V (CallRest O))) (name : Text)
      → (wildcard_matches ts name ≡ []) ↔ All (λ t. (wildcard_match t name).0 ≡ false) ts
  unfolding wildcard_matches
  wildcard_matches-nil [] name = (λ _. tt, λ _. refl)
  wildcard_matches-nil (t ∷ ts) name =
      matched (wildcard_match t name) (wildcard_matches-nil ts name)
    where
      matched :
          (r : Bool × List Text)
          → ((wildcard_matches ts name ≡ []) ↔ All (λ t. (wildcard_match t name).0 ≡ false) ts)
          → (and_match t r (wildcard_matches ts name) ≡ [])
            ↔ ((r.0 ≡ false) × All (λ t. (wildcard_match t name).0 ≡ false) ts)
      matched (true, w) rest = (λ h. absurd (cc h), λ h. absurd (cc (h.0)))
      matched (false, w) rest = (λ h. (refl, rest.0 h), λ h. rest.1 h.1)

  All-both :
      (P Q : Task V (CallRest O) → Type 0) (ts : List (Task V (CallRest O)))
      → (All P ts × All Q ts) ↔ All (λ t. P t × Q t) ts
  All-both P Q [] = (λ _. tt, λ _. (tt, tt))
  All-both P Q (t ∷ ts) =
      let rest = All-both P Q ts in
      (
        λ h. ((h.0.0, h.1.0), rest.0 (h.0.1, h.1.1)),
        λ h. ((h.0.0, (rest.1 h.1).0), (h.0.1, (rest.1 h.1).1)),
      )

  -- What `get_task` makes of its three searches.
  not_found-searches :
      (name : Text) (named : Option (Task V (CallRest O))) (with_alias : List (Task V (CallRest O)))
      (matches : List (MatchingTask V O))
      → ((first_match name (by_name named (by_alias name with_alias matches)) >>= λ m. ok m.task)
          ≡ err (task_not_found name))
        ↔ ((named ≡ none) × ((with_alias ≡ []) × (matches ≡ [])))
  not_found-searches name (some t) ts ms = (λ h. absurd (cc h), λ h. absurd (cc (h.0)))
  not_found-searches name none [] [] = (λ _. (refl, (refl, refl)), λ _. refl)
  not_found-searches name none [] (m ∷ ms) = (λ h. absurd (cc h), λ h. absurd (cc (h.1.1)))
  not_found-searches name none (t ∷ []) ms = (λ h. absurd (cc h), λ h. absurd (cc (h.1.0)))
  not_found-searches name none (t ∷ u ∷ ts) ms = (λ h. absurd (cc h), λ h. absurd (cc (h.1.0)))

  -- A call is reported as not found exactly when there is no task of its name, and no alias and no
  -- pattern of any task of the Taskfile matches it.
  pub get_task-not_found :
      (tasks : Map (Task V (CallRest O))) (name : Text)
      → (get_task (some tasks) name ≡ err (task_not_found name))
        ↔ ((lookup name tasks ≡ none) × All (IsOther name) (values tasks))
  unfolding get_task find_matching_tasks
  get_task-not_found tasks name =
      let searches =
        not_found-searches name (lookup name tasks) (aliased (values tasks) name)
          (wildcard_matches (values tasks) name) in
      let alias = aliased-nil (values tasks) name in
      let pattern = wildcard_matches-nil (values tasks) name in
      let both =
        All-both (λ t. has_alias t name ≡ false) (λ t. (wildcard_match t name).0 ≡ false)
          (values tasks) in
      (
        λ h.
            let (none_named, (none_aliased, none_matched)) = searches.0 h in
            (none_named, both.0 (alias.0 none_aliased, pattern.0 none_matched)),
        λ h. searches.1 (h.0, (alias.1 (both.1 h.1).0, pattern.1 (both.1 h.1).1)),
      )

module _ {V O W : Type 0} (tasks : Option (Map (Task V (CallRest O)))) where
  abbrev pub has_some : List (Call W) → Bool
  has_some [] = false
  has_some (call ∷ calls) = true

  has_some-put :
      (b : Bool) (call : Call W) (both : List (Call W) × List (Call W))
      → has_some (put b call both).1 ≡ (b || has_some both.1)
  has_some-put true call both = refl
  has_some-put false call both = refl

  -- Where the calls of a run can be split, one is left to watch exactly when there is a call and the
  -- run was to enter watch mode, whether the flag or a task asks for it.
  pub split_regular_and_watch-will_watch :
      (watch : Bool) (calls regular watched : List (Call W))
      → split_regular_and_watch tasks watch calls ≡ ok (regular, watched)
      → has_some watched ≡ (has_some calls && will_watch tasks watch calls)
  unfolding split_regular_and_watch will_watch
  split_regular_and_watch-will_watch watch [] regular watched e =
      ap (λ (b : List (Call W) × List (Call W)). has_some b.1) (sym (ok-injective e))
  split_regular_and_watch-will_watch watch (call ∷ calls) regular watched e =
      let (t, (found, e1)) =
        >>=-ok (get_task tasks call.task)
          (λ task. split_regular_and_watch tasks watch calls >>= λ both.
            ok (put (watch || task.other.watch) call both))
          (regular, watched) e in
      let (both, (split, e2)) =
        >>=-ok (split_regular_and_watch tasks watch calls)
          (λ both. ok (put (watch || t.other.watch) call both)) (regular, watched) e1 in
      ap (λ (b : List (Call W) × List (Call W)). has_some b.1) (sym (ok-injective e2))
      ∙ has_some-put (watch || t.other.watch) call both
      ∙ ap (λ (b : Bool). (watch || t.other.watch) || b)
          (split_regular_and_watch-will_watch watch calls both.0 both.1 split)
      ∙ joined watch t.other.watch
          (any (λ (call : Call W). is_watched (get_task tasks call.task)) calls) calls refl
      ∙ ap
          (λ (own : Bool).
            if watch
            then true
            else (own || any (λ (call : Call W). is_watched (get_task tasks call.task)) calls))
          (sym (ap is_watched found))
    where
      joined :
          (watch own rest : Bool) (calls : List (Call W))
          → any (λ (call : Call W). is_watched (get_task tasks call.task)) calls ≡ rest
          → ((watch || own) || (has_some calls && (if watch then true else rest)))
            ≡ (if watch then true else (own || rest))
      joined true own rest calls e = refl
      joined false true rest calls e = refl
      joined false false rest [] e = e
      joined false false rest (c ∷ calls) e = refl
