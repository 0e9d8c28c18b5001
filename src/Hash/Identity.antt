-- ===== src/Hash/Identity.antt =====
-- The encoding of a task determines every field that it reads.
use task_rs.Base.{
  ℕ, suc, ◌<◌, ◌≡◌, refl, sym, ap, ap₂, subst, ◌∙◌, List, [], ◌∷◌, ◌++◌, map, length, All,
}
use task_rs.Hash.Bytes.{◌⊳◌, Bytes, u64, str, bool, optional, sequence, items}
use task_rs.Hash.Code.{Code, u64_bound, str-Code, bool-Code}
use task_rs.Hash.Code.Combined.{
  ◌&◌, ◌⊗◌, via, weaken, optional-Code, sequence-Code, optional-Free, sequence-Free, OfOption,
}
use task_rs.Hash.Fields.{
  HashedGlob, encode_platform, encode_cmd, encode_dep, encode_precondition, encode_required,
  encode_some_cache, encode_glob, encode_some_location,
}
use task_rs.Hash.Determined.{
  platform-Code, cmd-Code, dep-Code, precondition-Code, required-Code, some_cache-Code,
  some_location-Code, IsPosition, whole,
}
use task_rs.Hash.Task.{HashedTask, encode_task_with, encode_task}
use task_rs.Hash.Slots.{GlobView, view, IsValidView, encode_view, view-Code, encode-slot_view}

-- What of a task the hash depends on.
abbrev pub task_view : HashedTask HashedGlob → HashedTask GlobView
task_view t = record {
  setup = t.setup;
  cmds = t.cmds;
  deps = t.deps;
  label = t.label;
  desc = t.desc;
  prompt = t.prompt;
  summary = t.summary;
  requires = t.requires;
  aliases = t.aliases;
  sources = map view t.sources;
  generates = map view t.generates;
  cache = t.cache;
  preconditions = t.preconditions;
  dirs = t.dirs;
  set = t.set;
  shopt = t.shopt;
  dotenv = t.dotenv;
  silent = t.silent;
  interactive = t.interactive;
  internal = t.internal;
  ignore_error = t.ignore_error;
  run = t.run;
  platforms = t.platforms;
  if_ = t.if_;
  watch = t.watch;
  location = t.location;
  failfast = t.failfast;
}

pub record IsSound (t : HashedTask GlobView) : Type 0 where
  pub valid_sources : All IsValidView t.sources
  pub valid_generates : All IsValidView t.generates
  pub valid_location : OfOption IsPosition t.location

task_view-Code : Code IsSound (encode_task_with encode_view)
unfolding encode_task_with
task_view-Code =
    weaken
      (via
        (sequence-Free dep-Code
          ⊗ sequence-Free cmd-Code
          ⊗ sequence-Free dep-Code
          ⊗ str-Code
          ⊗ str-Code
          ⊗ sequence-Free str-Code
          ⊗ str-Code
          ⊗ optional-Free (sequence-Free required-Code)
          ⊗ sequence-Free str-Code
          ⊗ sequence-Code view-Code
          ⊗ sequence-Code view-Code
          ⊗ optional-Free some_cache-Code
          ⊗ sequence-Free precondition-Code
          ⊗ sequence-Free str-Code
          ⊗ sequence-Free str-Code
          ⊗ sequence-Free str-Code
          ⊗ sequence-Free str-Code
          ⊗ optional-Free bool-Code
          ⊗ bool-Code
          ⊗ bool-Code
          ⊗ bool-Code
          ⊗ str-Code
          ⊗ sequence-Free platform-Code
          ⊗ str-Code
          ⊗ bool-Code
          ⊗ optional-Code some_location-Code
          ⊗ bool-Code)
        (λ (x : HashedTask GlobView).
          x.setup & x.cmds & x.deps & x.label & x.desc & x.prompt & x.summary & x.requires
          & x.aliases & x.sources & x.generates & x.cache & x.preconditions & x.dirs & x.set
          & x.shopt & x.dotenv & x.silent & x.interactive & x.internal & x.ignore_error & x.run
          & x.platforms & x.if_ & x.watch & x.location & x.failfast)
        (λ t. record {
          setup = t.0;
          cmds = t.1.0;
          deps = t.1.1.0;
          label = t.1.1.1.0;
          desc = t.1.1.1.1.0;
          prompt = t.1.1.1.1.1.0;
          summary = t.1.1.1.1.1.1.0;
          requires = t.1.1.1.1.1.1.1.0;
          aliases = t.1.1.1.1.1.1.1.1.0;
          sources = t.1.1.1.1.1.1.1.1.1.0;
          generates = t.1.1.1.1.1.1.1.1.1.1.0;
          cache = t.1.1.1.1.1.1.1.1.1.1.1.0;
          preconditions = t.1.1.1.1.1.1.1.1.1.1.1.1.0;
          dirs = t.1.1.1.1.1.1.1.1.1.1.1.1.1.0;
          set = t.1.1.1.1.1.1.1.1.1.1.1.1.1.1.0;
          shopt = t.1.1.1.1.1.1.1.1.1.1.1.1.1.1.1.0;
          dotenv = t.1.1.1.1.1.1.1.1.1.1.1.1.1.1.1.1.0;
          silent = t.1.1.1.1.1.1.1.1.1.1.1.1.1.1.1.1.1.0;
          interactive = t.1.1.1.1.1.1.1.1.1.1.1.1.1.1.1.1.1.1.0;
          internal = t.1.1.1.1.1.1.1.1.1.1.1.1.1.1.1.1.1.1.1.0;
          ignore_error = t.1.1.1.1.1.1.1.1.1.1.1.1.1.1.1.1.1.1.1.1.0;
          run = t.1.1.1.1.1.1.1.1.1.1.1.1.1.1.1.1.1.1.1.1.1.0;
          platforms = t.1.1.1.1.1.1.1.1.1.1.1.1.1.1.1.1.1.1.1.1.1.1.0;
          if_ = t.1.1.1.1.1.1.1.1.1.1.1.1.1.1.1.1.1.1.1.1.1.1.1.0;
          watch = t.1.1.1.1.1.1.1.1.1.1.1.1.1.1.1.1.1.1.1.1.1.1.1.1.0;
          location = t.1.1.1.1.1.1.1.1.1.1.1.1.1.1.1.1.1.1.1.1.1.1.1.1.1.0;
          failfast = t.1.1.1.1.1.1.1.1.1.1.1.1.1.1.1.1.1.1.1.1.1.1.1.1.1.1;
        })
        (λ x. refl))
      (λ x p.
        tt & tt & tt & tt & tt & tt & tt & tt & tt & p.valid_sources & p.valid_generates & tt & tt
        & tt & tt & tt & tt & tt & tt & tt & tt & tt & tt & tt & tt & p.valid_location & tt)

encode-view : (g : HashedGlob) → encode_glob g ≡ encode_view (view g)
unfolding encode_view
encode-view g =
    ap (λ (x : Bytes). str g.glob ⊳ bool g.negate ⊳ str g.fingerprint ++ x) (encode-slot_view g)

length-map : (gs : List HashedGlob) → length (map view gs) ≡ length gs
length-map [] = refl
length-map (g ∷ gs) = ap suc (length-map gs)

items-view : (gs : List HashedGlob) → items encode_glob gs ≡ items encode_view (map view gs)
unfolding items
items-view [] = refl
items-view (g ∷ gs) = ap₂ (λ (x y : Bytes). x ++ y) (encode-view g) (items-view gs)

sequence-view :
    (gs : List HashedGlob) → sequence encode_glob gs ≡ sequence encode_view (map view gs)
unfolding sequence
sequence-view gs = ap₂ (λ (n : ℕ) (x : Bytes). u64 n ++ x) (sym (length-map gs)) (items-view gs)

encode_task-view :
    (t : HashedTask HashedGlob) → encode_task t ≡ encode_task_with encode_view (task_view t)
unfolding encode_task encode_task_with
encode_task-view t =
    ap₂
      (λ (x y : Bytes).
        sequence encode_dep t.setup
        ⊳ sequence encode_cmd t.cmds
        ⊳ sequence encode_dep t.deps
        ⊳ str t.label
        ⊳ str t.desc
        ⊳ sequence str t.prompt
        ⊳ str t.summary
        ⊳ optional (sequence encode_required) t.requires
        ⊳ sequence str t.aliases
        ⊳ x
        ⊳ y
        ⊳ optional encode_some_cache t.cache
        ⊳ sequence encode_precondition t.preconditions
        ⊳ sequence str t.dirs
        ⊳ sequence str t.set
        ⊳ sequence str t.shopt
        ⊳ sequence str t.dotenv
        ⊳ optional bool t.silent
        ⊳ bool t.interactive
        ⊳ bool t.internal
        ⊳ bool t.ignore_error
        ⊳ str t.run
        ⊳ sequence encode_platform t.platforms
        ⊳ str t.if_
        ⊳ bool t.watch
        ⊳ optional encode_some_location t.location
        ⊳ bool t.failfast)
      (sequence-view t.sources) (sequence-view t.generates)

-- Tasks that are encoded to the same bytes have every hashed field in common, their `sources` and
-- `generates` as far as the hash reads an entry, when no `from` begins with a NUL, the numbers are
-- of 64 bits and so is the length of the encoding: the encoding alone never makes two identities
-- collide.
pub encode_task-injective :
    (t u : HashedTask HashedGlob)
    → IsSound (task_view t)
    → IsSound (task_view u)
    → length (encode_task t) < u64_bound
    → encode_task t ≡ encode_task u
    → task_view t ≡ task_view u
encode_task-injective t u p q l e =
    whole task_view-Code (task_view t) (task_view u) p q
      (subst (λ (x : Bytes). length x < u64_bound) (encode_task-view t) l)
      (sym (encode_task-view t) ∙ e ∙ encode_task-view u)
