-- ===== src/Hash/Fields.antt =====
-- The fields that crates/taskcore/src/hash.rs encodes, and their encoders. The types hold what is
-- hashed: a variable is without its dialect, a cache block without its credential and policy.
use task_rs.Base.{ℕ, Bool, not, Option, none, some, List, [], ◌∷◌, ◌==◌, if◌then◌else◌, codes}
use task_rs.Taskfile.Vars.{Dialect, jinja, go}
use task_rs.Taskfile.Task.{is_empty}
use task_rs.Hash.Bytes.{◌⊳◌, Bytes, tag, u64, str, bool, optional, sequence}
use task_rs.Hash.Value.{Value, encode_value}

pub record HashedVar : Type 0 where
  pub value : Option Value
  pub live : Option Value
  pub sh : Option Bytes
  pub ref_ : Bytes
  pub dir : Bytes

abbrev pub HashedVars : Type 0
HashedVars = List (Bytes × HashedVar)

pub record MatrixRow : Type 0 where
  pub ref_ : Bytes
  pub value : List Value

pub record For : Type 0 where
  pub from : Bytes
  pub list : List Value
  pub matrix : Option (List (Bytes × MatrixRow))
  pub var : Bytes
  pub split : Bytes
  pub as_ : Bytes

pub record HashedPlatform : Type 0 where
  pub os : Bytes
  pub arch : Bytes

pub record HashedCmd : Type 0 where
  pub cmd : Bytes
  pub task : Bytes
  pub for_ : Option For
  pub if_ : Bytes
  pub silent : Bool
  pub set : List Bytes
  pub shopt : List Bytes
  pub vars : Option HashedVars
  pub ignore_error : Bool
  pub defer : Bool
  pub platforms : List HashedPlatform

pub record HashedDep : Type 0 where
  pub task : Bytes
  pub for_ : Option For
  pub vars : Option HashedVars
  pub silent : Bool
  pub fingerprint : Option Bool

pub record HashedGlob : Type 0 where
  pub glob : Bytes
  pub negate : Bool
  pub fingerprint : Bytes
  pub from : Bytes
  pub task : Bytes
  pub vars : Option HashedVars
  pub group : ℕ

pub record Precondition : Type 0 where
  pub sh : Bytes
  pub msg : Bytes

pub record RequiredVar : Type 0 where
  pub name : Bytes
  pub enum_values : List Bytes

pub record HashedCache : Type 0 where
  pub inherit : Bytes
  pub enabled : Option Bool
  pub if_ : Bytes
  pub url : Bytes
  pub lock : Bytes
  pub vk : Bytes
  pub namespace : Bytes
  pub ttl : Bytes
  pub lock_timeout : Bytes

pub record Location : Type 0 where
  pub line : ℕ
  pub column : ℕ
  pub taskfile : Bytes

unfoldable pub encode_var : HashedVar → Bytes
unfolding optional str encode_value
encode_var v =
    optional encode_value v.value
    ⊳ optional encode_value v.live
    ⊳ optional str v.sh
    ⊳ str v.ref_
    ⊳ str v.dir

abbrev pub encode_entry : Bytes × HashedVar → Bytes
encode_entry e = str e.0 ⊳ encode_var e.1

abbrev pub encode_opt_vars : Option HashedVars → Bytes
encode_opt_vars vars = optional (sequence encode_entry) vars

-- No variables and an empty map are alike.
abbrev pub vars_or_empty : Option HashedVars → HashedVars
vars_or_empty none = []
vars_or_empty (some vars) = vars

abbrev pub encode_vars_flat : Option HashedVars → Bytes
encode_vars_flat vars = sequence encode_entry (vars_or_empty vars)

abbrev pub encode_row : Bytes × MatrixRow → Bytes
encode_row r = str r.0 ⊳ str r.1.ref_ ⊳ sequence encode_value r.1.value

abbrev pub encode_some_for : For → Bytes
encode_some_for f =
    str f.from
    ⊳ sequence encode_value f.list
    ⊳ optional (sequence encode_row) f.matrix
    ⊳ str f.var
    ⊳ str f.split
    ⊳ str f.as_

abbrev pub encode_for : Option For → Bytes
encode_for f = optional encode_some_for f

abbrev pub encode_platform : HashedPlatform → Bytes
encode_platform p = str p.os ⊳ str p.arch

abbrev pub encode_cmd : HashedCmd → Bytes
encode_cmd c =
    str c.cmd
    ⊳ str c.task
    ⊳ encode_for c.for_
    ⊳ str c.if_
    ⊳ bool c.silent
    ⊳ sequence str c.set
    ⊳ sequence str c.shopt
    ⊳ encode_opt_vars c.vars
    ⊳ bool c.ignore_error
    ⊳ bool c.defer
    ⊳ sequence encode_platform c.platforms

abbrev pub encode_dep : HashedDep → Bytes
encode_dep d =
    str d.task
    ⊳ encode_for d.for_
    ⊳ encode_opt_vars d.vars
    ⊳ bool d.silent
    ⊳ optional bool d.fingerprint

abbrev pub nul_group : Bytes
nul_group = 0 ∷ codes "group"

abbrev pub nul_task : Bytes
nul_task = 0 ∷ codes "task"

-- What an entry is, in the slot of `from`.
unfoldable pub encode_slot : HashedGlob → Bytes
unfolding str u64 sequence encode_var
encode_slot g =
    if not (g.group == 0)
    then str nul_group ⊳ u64 g.group
    else if is_empty g.task
    then str g.from
    else str nul_task ⊳ str g.task ⊳ encode_vars_flat g.vars

abbrev pub encode_glob : HashedGlob → Bytes
encode_glob g = str g.glob ⊳ bool g.negate ⊳ str g.fingerprint ⊳ encode_slot g

abbrev pub encode_precondition : Precondition → Bytes
encode_precondition p = str p.sh ⊳ str p.msg

abbrev pub encode_required : RequiredVar → Bytes
encode_required v = str v.name ⊳ sequence str v.enum_values

abbrev pub encode_some_cache : HashedCache → Bytes
encode_some_cache c =
    str c.inherit
    ⊳ optional bool c.enabled
    ⊳ str c.if_
    ⊳ str c.url
    ⊳ str c.lock
    ⊳ str c.vk
    ⊳ str c.namespace
    ⊳ str c.ttl
    ⊳ str c.lock_timeout

abbrev pub encode_some_location : Location → Bytes
encode_some_location l = u64 l.line ⊳ u64 l.column ⊳ str l.taskfile

-- A variable of a call, with the dialect that the callee renders it in.
abbrev pub dialect_tag : Dialect → Bytes
dialect_tag go = tag 0
dialect_tag jinja = tag 1

abbrev pub encode_call_var : Bytes × (HashedVar × Dialect) → Bytes
encode_call_var v = str v.0 ⊳ encode_var v.1.0 ⊳ dialect_tag v.1.1

unfoldable pub call_key : Bytes → List Bytes → List (Bytes × (HashedVar × Dialect)) → Bytes
unfolding str sequence encode_var
call_key task captures vars = str task ⊳ sequence str captures ⊳ sequence encode_call_var vars
