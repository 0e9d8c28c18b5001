-- ===== src/Hash/Examples.antt =====
-- Runs of the encoders, and their theorems at concrete tasks.
use task_rs.Base.{
  ◌<◌, ◌≡◌, refl, true, false, Option, none, some, List, [], ◌∷◌, arith, length, codes,
}
use task_rs.Taskfile.Vars.{Dialect, go}
use task_rs.Hash.Bytes.{Bytes, le_bytes, u64, str, optional, items, sequence}
use task_rs.Hash.Code.{u64_bound}
use task_rs.Hash.Value.{
  null, boolean, number, mapping, cons_pair, nil_pair, pairs_len, encode_value,
}
use task_rs.Hash.Fields.{HashedVar, HashedVars, HashedGlob, encode_var, encode_slot, call_key}
use task_rs.Hash.Determined.{call_key-injective}
use task_rs.Hash.Task.{HashedTask, encode_task_with, encode_task}
use task_rs.Hash.Identity.{IsSound, task_view, encode_task-injective}

length_bytes : u64 258 ≡ 2 ∷ 1 ∷ 0 ∷ 0 ∷ 0 ∷ 0 ∷ 0 ∷ 0 ∷ []
unfolding u64 le_bytes
length_bytes = refl

nested :
    encode_value (mapping (cons_pair (boolean true) null nil_pair))
    ≡ 5 ∷ 1 ∷ 0 ∷ 0 ∷ 0 ∷ 0 ∷ 0 ∷ 0 ∷ 0 ∷ 1 ∷ 1 ∷ 0 ∷ []
unfolding encode_value pairs_len u64 le_bytes
nested = refl

abbrev one : HashedVar
one = record { value = some (number (codes "1")); live = none; sh = none; ref_ = []; dir = [] }

abbrev vars : List (Bytes × (HashedVar × Dialect))
vars = (codes "N", (one, go)) ∷ []

key_short : length (call_key (codes "build") (codes "x" ∷ []) vars) < u64_bound
unfolding call_key str u64 le_bytes sequence items encode_var optional encode_value
key_short = omega arith

call_key-injective_example :
    (codes "build" ≡ codes "build") × ((codes "x" ∷ [] ≡ codes "x" ∷ []) × (vars ≡ vars))
call_key-injective_example =
    call_key-injective (codes "build") (codes "build") (codes "x" ∷ []) (codes "x" ∷ []) vars vars
      key_short refl

-- The files of a task, called with no variables or with an empty map of them.
abbrev entry : Option HashedVars → HashedGlob
entry none_or_empty = record {
  glob = codes "*";
  negate = false;
  fingerprint = [];
  from = [];
  task = codes "gen";
  vars = none_or_empty;
  group = 0;
}

abbrev build : Option HashedVars → HashedTask HashedGlob
build vars = record {
  setup = [];
  cmds = [];
  deps = [];
  label = codes "build";
  desc = [];
  prompt = [];
  summary = [];
  requires = none;
  aliases = [];
  sources = entry vars ∷ [];
  generates = [];
  cache = none;
  preconditions = [];
  dirs = [];
  set = [];
  shopt = [];
  dotenv = [];
  silent = none;
  interactive = false;
  internal = false;
  ignore_error = false;
  run = [];
  platforms = [];
  if_ = [];
  watch = false;
  location = some (record { line = 3; column = 5; taskfile = codes "Taskfile.yml" });
  failfast = false;
}

build_same : encode_task (build none) ≡ encode_task (build (some []))
unfolding encode_task encode_task_with encode_slot sequence items
build_same = refl

build_short : length (encode_task (build none)) < u64_bound
unfolding encode_task encode_task_with encode_slot sequence items str u64 le_bytes optional
build_short = omega arith

build-IsSound : (vars : Option HashedVars) → IsSound (task_view (build vars))
build-IsSound vars = record {
  valid_sources = (tt, tt);
  valid_generates = tt;
  valid_location = (omega arith, omega arith);
}

encode_task-injective_example : task_view (build none) ≡ task_view (build (some []))
encode_task-injective_example =
    encode_task-injective (build none) (build (some [])) (build-IsSound none)
      (build-IsSound (some [])) build_short build_same
