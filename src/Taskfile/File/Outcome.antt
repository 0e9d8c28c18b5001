-- ===== src/Taskfile/File/Outcome.antt =====
-- What `Taskfile::merge` returns.
use task_rs.Base.{
  some-injective, =ₜ_iff, ◌↔◌, ◌≢◌, ◌≡◌, refl, ap, inl, inr, Bool, true, false, Option, none, some,
  [], ◌∷◌, if◌then◌else◌, Text, ◌=ₜ◌, lookup, keys, List, Option-cases, Bool-cases,
}
use task_rs.Taskfile.Vars
use task_rs.Taskfile.Vars.{Vars, Include}
use task_rs.Taskfile.Task.{Task}
use task_rs.Taskfile.Merge
use task_rs.Taskfile.Merge.{Tasks, Merged, ok, multiple}
use task_rs.Taskfile.Merge.Tasks.{Clash}
use task_rs.Taskfile.Merge.Whole.{IsMerged, MergePost, merge-Post}
use task_rs.Taskfile.File.{
  Taskfile, versions_should_match, included_dotenvs, multiple_tasks, Result, done, failed,
  same_version, or_silent, silence, with_tasks, tasks_of, merge_matching, no_dotenvs, merge,
}

same_version_iff : (a b : Option Text) → (same_version a b ≡ true) ↔ (a ≡ b)
unfolding same_version
same_version_iff none none = (λ e. refl, λ e. refl)
same_version_iff none (some w) = (λ e. cc e, λ e. cc e)
same_version_iff (some v) none = (λ e. cc e, λ e. cc e)
same_version_iff (some v) (some w) =
    (λ e. ap (λ (s : Text). some s) ((=ₜ_iff v w).0 e), λ e. (=ₜ_iff v w).1 (some-injective e))

no_dotenvs_iff : (ds : List Text) → (no_dotenvs ds ≡ true) ↔ (ds ≡ [])
no_dotenvs_iff [] = (λ e. refl, λ e. refl)
no_dotenvs_iff (d ∷ ds) = (λ e. cc e, λ e. cc e)

module _ {V O : Type 0} where
  -- A task as it is merged: in a silent Taskfile it is silent unless it says otherwise itself.
  abbrev pub inherited : Bool → Option (Task V O) → Option (Task V O)
  inherited silent none = none
  inherited false (some t) = some t
  inherited true (some t) =
      some (record t { silent = some (elim t.silent [ none ↦ true | some own ↦ own ]) })

  silent-inherited :
      (t : Task V O) → some (record t { silent = or_silent t.silent }) ≡ inherited true (some t)
  silent-inherited t = elim (Option-cases t.silent) [ inl e ↦ rw e refl | inr x ↦ rw x.1 refl ]

  lookup-silence :
      (tasks : Tasks V O) (k : Text) → lookup k (silence tasks) ≡ inherited true (lookup k tasks)
  unfolding silence lookup
  lookup-silence [] k = refl
  lookup-silence ((n, u) ∷ tasks) k = elim (Bool-cases (n =ₜ k)) [
    | inr e ↦ rw e (lookup-silence tasks k)
    | inl e ↦ rw e (silent-inherited u)
  ]

  keys-silence : (tasks : Tasks V O) → keys (silence tasks) ≡ keys tasks
  unfolding silence
  keys-silence [] = refl
  keys-silence ((n, u) ∷ tasks) = ap (λ (l : List Text). n ∷ l) (keys-silence tasks)

  inherited-false : (o : Option (Task V O)) → o ≡ inherited false o
  inherited-false none = refl
  inherited-false (some t) = refl

module _ {V O W : Type 0} (output_is_set : W → Bool) (self other : Taskfile V O W)
    (include : Include V) where
  abbrev new_vars : Vars V
  new_vars = Vars.merge self.vars other.vars (some include)

  -- The merged Taskfile.
  pub record Success (r : Taskfile V O W) : Type 0 where
    pub matching : self.version ≡ other.version
    pub plain : other.dotenv ≡ []
    pub merged : IsMerged self.tasks (tasks_of other) include new_vars r.tasks
    pub variables : r.vars ≡ new_vars
    pub environment : r.env ≡ Vars.merge self.env other.env (some include)
    pub kept : (r.version ≡ self.version) × (r.dotenv ≡ self.dotenv) × (r.silent ≡ self.silent)
    pub printed : r.output ≡ (if output_is_set other.output then other.output else self.output)
    pub taken :
        (k : Text) → lookup k (tasks_of other) ≡ inherited other.silent (lookup k other.tasks)
    pub names : keys (tasks_of other) ≡ keys other.tasks

  abbrev pub FilePost : Result (Taskfile V O W) → Type 0
  FilePost (done r) = Success r
  FilePost (failed (versions_should_match a b)) =
      (self.version ≢ other.version) × (a ≡ self.version) × (b ≡ other.version)
  FilePost (failed included_dotenvs) = (self.version ≡ other.version) × (other.dotenv ≢ [])
  FilePost (failed (multiple_tasks n namespace)) =
      (self.version ≡ other.version)
      × (other.dotenv ≡ [])
      × Clash include new_vars self.tasks (tasks_of other) n
      × (namespace ≡ include.namespace)

  lookup-tasks_of :
      (k : Text) → lookup k (tasks_of other) ≡ inherited other.silent (lookup k other.tasks)
  lookup-tasks_of k = elim (Bool-cases other.silent) [
    | inl e ↦ rw e (lookup-silence other.tasks k)
    | inr e ↦ rw e (inherited-false (lookup k other.tasks))
  ]

  keys-tasks_of : keys (tasks_of other) ≡ keys other.tasks
  keys-tasks_of = elim (Bool-cases other.silent) [
    | inl e ↦ rw e (keys-silence other.tasks)
    | inr e ↦ rw e refl
  ]

  matching-Post :
      self.version ≡ other.version
      → other.dotenv ≡ []
      → (res : Merged V O) → MergePost self.tasks (tasks_of other) include new_vars res
      → FilePost (
          with_tasks
            (record self {
              output = if output_is_set other.output then other.output else self.output;
              vars = new_vars;
              env = Vars.merge self.env other.env (some include);
            })
            res)
  unfolding with_tasks
  matching-Post v d (ok r) m = record {
    matching = v;
    plain = d;
    merged = m;
    variables = refl;
    environment = refl;
    kept = (refl, refl, refl);
    printed = refl;
    taken = lookup-tasks_of;
    names = keys-tasks_of;
  }
  matching-Post v d (multiple n namespace) c = (v, d, c.0, c.1)

  -- `Taskfile::merge` fails where the versions differ, else where the included Taskfile has dotenvs,
  -- else where two tasks clash, and otherwise returns the Taskfile with the merged variables,
  -- environment and tasks, the included `output` where that is set, and its own version, dotenvs
  -- and silence. The tasks that are merged are those of the included Taskfile under the same names;
  -- where it is silent, each is silent that does not set `silent` itself, and nothing else of them
  -- changes.
  pub merge-FilePost : FilePost (merge output_is_set self other include)
  unfolding merge merge_matching
  merge-FilePost =
      let versions = same_version_iff self.version other.version in
      elim (Bool-cases (same_version self.version other.version)) [
        | inr v ↦ rw v ((λ e. cc (v, versions.1 e)), refl, refl)
        | inl v ↦ elim (Bool-cases (no_dotenvs other.dotenv)) [
          | inr d ↦ rw (v, d) (versions.0 v, (λ e. cc (d, (no_dotenvs_iff other.dotenv).1 e)))
          | inl d ↦
              rw (v, d)
                (matching-Post (versions.0 v) ((no_dotenvs_iff other.dotenv).0 d)
                  (Merge.merge self.tasks (tasks_of other) include new_vars)
                  (merge-Post self.tasks (tasks_of other) include new_vars))
        ]
      ]
