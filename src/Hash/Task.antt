-- ===== src/Hash/Task.antt =====
-- `encode_task` of crates/taskcore/src/hash.rs: the fields of a task that are hashed.
use task_rs.Base.{Bool, Option, List}
use task_rs.Hash.Bytes.{◌⊳◌, Bytes, u64, str, bool, optional, sequence}
use task_rs.Hash.Value.{encode_value}
use task_rs.Hash.Fields.{
  HashedPlatform, HashedCmd, HashedDep, HashedGlob, Precondition, RequiredVar, HashedCache,
  Location, encode_var, encode_platform, encode_cmd, encode_dep, encode_slot, encode_glob,
  encode_precondition, encode_required, encode_some_cache, encode_some_location,
}

-- `G` is the type of the entries of `sources` and `generates`.
pub record HashedTask (G : Type 0) : Type 0 where
  pub setup : List HashedDep
  pub cmds : List HashedCmd
  pub deps : List HashedDep
  pub label : Bytes
  pub desc : Bytes
  pub prompt : List Bytes
  pub summary : Bytes
  pub requires : Option (List RequiredVar)
  pub aliases : List Bytes
  pub sources : List G
  pub generates : List G
  pub cache : Option HashedCache
  pub preconditions : List Precondition
  pub dirs : List Bytes
  pub set : List Bytes
  pub shopt : List Bytes
  pub dotenv : List Bytes
  pub silent : Option Bool
  pub interactive : Bool
  pub internal : Bool
  pub ignore_error : Bool
  pub run : Bytes
  pub platforms : List HashedPlatform
  pub if_ : Bytes
  pub watch : Bool
  pub location : Option Location
  pub failfast : Bool

unfoldable pub encode_task_with : {G : Type 0} → (G → Bytes) → HashedTask G → Bytes
unfolding str u64 optional sequence encode_value encode_var
encode_task_with encode_g t =
    sequence encode_dep t.setup
    ⊳ sequence encode_cmd t.cmds
    ⊳ sequence encode_dep t.deps
    ⊳ str t.label
    ⊳ str t.desc
    ⊳ sequence str t.prompt
    ⊳ str t.summary
    ⊳ optional (sequence encode_required) t.requires
    ⊳ sequence str t.aliases
    ⊳ sequence encode_g t.sources
    ⊳ sequence encode_g t.generates
    ⊳ optional encode_some_cache t.cache
    ⊳ sequence encode_precondition t.preconditions
    ⊳ sequence str t.dirs
    ⊳ sequence str t.set
    ⊳ sequence str t.shopt
    ⊳ sequence str t.dotenv
    ⊳ optional bool t.silent
    ⊳ bool t.interactive
    ⊳ bool t.internal
    ⊳ bool t.ignore_error
    ⊳ str t.run
    ⊳ sequence encode_platform t.platforms
    ⊳ str t.if_
    ⊳ bool t.watch
    ⊳ optional encode_some_location t.location
    ⊳ bool t.failfast

unfoldable pub encode_task : HashedTask HashedGlob → Bytes
unfolding encode_task_with encode_slot
encode_task t = encode_task_with encode_glob t
