-- ===== src/Taskfile/Merge.antt =====
-- `Tasks::merge` and `resolve_root_refs` of crates/taskcore/src/ast/tasks.rs, and `Taskfile::merge`
-- of crates/taskcore/src/ast/taskfile.rs.
pub mod Placed
pub mod Brought
pub mod Tasks
pub mod Whole
pub mod Identity
use task_rs.Base.{
  Bool, true, false, not, ◌&&◌, ◌||◌, Option, none, some, List, [], ◌∷◌, ◌++◌, map, ◌==◌,
  if◌then◌else◌, Text, codes, ◌=ₜ◌, Map, lookup, insert, any, is_some,
}
use task_rs.Taskfile.Names.{
  strip_prefix, namespace_separator, root_prefix, task_name_with_namespace, ref_with_namespace,
}
use task_rs.Taskfile.Vars
use task_rs.Taskfile.Vars.{Vars, Include}
use task_rs.Taskfile.Task.{Dep, Cmd, Glob, Sandbox, Task, is_empty}

abbrev pub Tasks : Type 0 → Type 0 → Type 0
Tasks V O = Map (Task V O)

-- "Found multiple tasks (name) included by namespace"
pub data Merged (V O : Type 0) : Type 0 where
  ok : Tasks V O → Merged V O
  multiple : Text → Text → Merged V O

-- An empty reference is left alone.
unfoldable pub rename_ref : Text → Text → Text
unfolding ref_with_namespace
rename_ref namespace task = if is_empty task then task else ref_with_namespace task namespace

pub rename_deps : {O : Type 0} → (Text → Text) → List (Dep O) → List (Dep O)
rename_deps f [] = []
rename_deps f (d ∷ ds) = record d { task = f d.task } ∷ rename_deps f ds

pub rename_cmds : {O : Type 0} → (Text → Text) → List (Cmd O) → List (Cmd O)
rename_cmds f [] = []
rename_cmds f (c ∷ cs) = record c { task = f c.task } ∷ rename_cmds f cs

pub rename_globs : {O : Type 0} → (Text → Text) → List (Glob O) → List (Glob O)
rename_globs f [] = []
rename_globs f (g ∷ gs) = record g { task = f g.task } ∷ rename_globs f gs

pub rename_sandbox : {O : Type 0} → (Text → Text) → Option (Sandbox O) → Option (Sandbox O)
rename_sandbox f none = none
rename_sandbox f (some s) = some (record s { write_tasks = rename_globs f s.write_tasks })

pub flat_map : (Text → List Text) → List Text → List Text
flat_map f [] = []
flat_map f (x ∷ xs) = f x ++ flat_map f xs

-- `take().unwrap_or_default()`, then the include's own variables.
unfoldable pub merged_include_vars : {V : Type 0} → Option (Vars V) → Option (Vars V) → Vars V
unfolding Vars.merge
merged_include_vars none none = []
merged_include_vars none (some vars) = Vars.merge [] vars none
merged_include_vars (some own) none = own
merged_include_vars (some own) (some vars) = Vars.merge own vars none

abbrev pub excluded : {V : Type 0} → Include V → Text → Bool
excluded include name = any (λ e. e =ₜ name) include.excludes

abbrev pub resolve : Text → Text
resolve name = elim (strip_prefix root_prefix name) [ none ↦ name | some after ↦ after ]

module _ {V O : Type 0} where
  -- Every task reference of a task: of `setup`, `deps`, the glob entries and `cmds`.
  unfoldable pub map_refs : (Text → Text) → Task V O → Task V O
  unfolding rename_deps rename_cmds rename_globs rename_sandbox
  map_refs f t = record t {
    setup = rename_deps f t.setup;
    deps = rename_deps f t.deps;
    cmds = rename_cmds f t.cmds;
    sources = rename_globs f t.sources;
    generates = rename_globs f t.generates;
    sandbox = rename_sandbox f t.sandbox;
  }

  -- The aliases in the namespace, then under each alias of the include.
  unfoldable pub namespaced_aliases : Include V → Task V O → List Text
  unfolding flat_map task_name_with_namespace
  namespaced_aliases include source =
      map (λ a. task_name_with_namespace a include.namespace) source.aliases
      ++ flat_map
          (λ namespace_alias.
            task_name_with_namespace source.task namespace_alias
            ∷ map (λ a. task_name_with_namespace a namespace_alias) source.aliases)
          include.aliases

  -- The branch of an include that is not flattened.
  unfoldable pub namespaced : Include V → Text → Task V O → Task V O
  unfolding map_refs namespaced_aliases rename_ref task_name_with_namespace
  namespaced include name source =
      let renamed = map_refs (rename_ref include.namespace) source in
      record renamed {
        aliases = namespaced_aliases include source;
        namespace =
            if is_empty source.namespace
            then include.namespace
            else include.namespace ++ (namespace_separator ++ source.namespace);
        task = task_name_with_namespace name include.namespace;
      }

  -- The branch of an advanced import.
  unfoldable pub imported : Include V → Vars V → Task V O → Task V O
  unfolding merged_include_vars
  imported include taskfile_vars t = record t {
    dirs = include.dir ∷ t.dirs;
    include_vars = some (merged_include_vars t.include_vars include.vars);
    included_taskfile_vars = some taskfile_vars;
  }

  -- The task under its new name.
  unfoldable pub merge_task : Include V → Vars V → Text → Task V O → Text × Task V O
  unfolding namespaced imported task_name_with_namespace
  merge_task include taskfile_vars name source =
      let internal = source.internal || include.internal in
      let task = record source { internal = internal } in
      let renamed = if include.flatten then task else namespaced include name task in
      (
        if include.flatten then name else task_name_with_namespace name include.namespace,
        if include.advanced_import then imported include taskfile_vars renamed else renamed,
      )

  unfoldable pub merge_loop : Tasks V O → Include V → Vars V → Tasks V O → Merged V O
  merge_loop self include taskfile_vars [] = ok self
  merge_loop self include taskfile_vars ((name, source) ∷ other) =
      let task_name = (merge_task include taskfile_vars name source).0 in
      let task = (merge_task include taskfile_vars name source).1 in
      let skipped = merge_loop self include taskfile_vars other in
      let added = merge_loop (insert task_name task self) include taskfile_vars other in
      if excluded include name
      then skipped
      else if is_some (lookup task_name self)
      then multiple task_name include.namespace
      else added

  -- The default task can be run by the namespace and the include's aliases.
  unfoldable pub alias_default : Include V → Tasks V O → Tasks V O → Tasks V O
  unfolding insert lookup ◌=ₜ◌
  alias_default include other self =
      let default_task_name = include.namespace ++ codes ":default" in
      if is_some (lookup (codes "default") other)
        && (not (is_some (lookup include.namespace self)) && not include.flatten)
      then elim (lookup default_task_name self) [
        | none ↦ self
        | some t ↦
            insert default_task_name
              (record t { aliases = t.aliases ++ (include.namespace ∷ include.aliases) }) self
      ]
      else self

  -- What follows the loop, unless it failed.
  unfoldable pub after_loop : Include V → Tasks V O → Merged V O → Merged V O
  unfolding alias_default
  after_loop include other (ok merged) = ok (alias_default include other merged)
  after_loop include other (multiple name namespace) = multiple name namespace

  unfoldable pub merge : Tasks V O → Tasks V O → Include V → Vars V → Merged V O
  unfolding merge_loop after_loop
  merge self other include taskfile_vars =
      after_loop include other (merge_loop self include taskfile_vars other)

  -- `Tasks::resolve_root_refs`
  pub resolve_root_refs : Tasks V O → Tasks V O
  resolve_root_refs [] = []
  resolve_root_refs ((name, t) ∷ tasks) = (name, map_refs resolve t) ∷ resolve_root_refs tasks
