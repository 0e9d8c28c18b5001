-- ===== src/Hash/Determined.antt =====
-- The encoders of the fields can be read back.
use task_rs.Base.{
  ◌<◌, ◌≡◌, refl, sym, ap, subst, List, [], ◌++◌, append-nil, arith, length, tail_eq, head_eq,
}
use task_rs.Taskfile.Vars.{Dialect, jinja, go}
use task_rs.Hash.Bytes.{Bytes}
use task_rs.Hash.Code.{Code, Always, u64_bound, u64-Code, str-Code, bool-Code}
use task_rs.Hash.Code.Combined.{◌&◌, ◌⊗◌, ◌⊕◌, via, weaken, optional-Free, sequence-Free}
use task_rs.Hash.Value.Apart.{value-Code}
use task_rs.Hash.Fields.{
  HashedVar, MatrixRow, For, HashedPlatform, HashedCmd, HashedDep, Precondition, RequiredVar,
  HashedCache, Location, encode_var, encode_entry, encode_opt_vars, encode_row, encode_some_for,
  encode_for, encode_platform, encode_cmd, encode_dep, encode_precondition, encode_required,
  encode_some_cache, encode_some_location, dialect_tag, encode_call_var, call_key,
}

pub var-Code : Code Always encode_var
unfolding encode_var
var-Code =
    via
      (optional-Free value-Code
        ⊕ optional-Free value-Code
        ⊕ optional-Free str-Code
        ⊕ str-Code
        ⊕ str-Code)
      (λ (v : HashedVar). (v.value, (v.live, (v.sh, (v.ref_, v.dir)))))
      (λ t. record { value = t.0; live = t.1.0; sh = t.1.1.0; ref_ = t.1.1.1.0; dir = t.1.1.1.1 })
      (λ v. refl)

pub entry-Code : Code Always encode_entry
entry-Code = str-Code ⊕ var-Code

pub opt_vars-Code : Code Always encode_opt_vars
opt_vars-Code = optional-Free (sequence-Free entry-Code)

pub row-Code : Code Always encode_row
row-Code =
    via (str-Code ⊕ str-Code ⊕ sequence-Free value-Code)
      (λ (x : Bytes × MatrixRow). x.0 & x.1.ref_ & x.1.value)
      (λ t. (t.0, record { ref_ = t.1.0; value = t.1.1 })) (λ x. refl)

pub some_for-Code : Code Always encode_some_for
some_for-Code =
    via
      (str-Code
        ⊕ sequence-Free value-Code
        ⊕ optional-Free (sequence-Free row-Code)
        ⊕ str-Code
        ⊕ str-Code
        ⊕ str-Code)
      (λ (x : For). x.from & x.list & x.matrix & x.var & x.split & x.as_)
      (λ t. record {
        from = t.0;
        list = t.1.0;
        matrix = t.1.1.0;
        var = t.1.1.1.0;
        split = t.1.1.1.1.0;
        as_ = t.1.1.1.1.1;
      })
      (λ x. refl)

pub for-Code : Code Always encode_for
for-Code = optional-Free some_for-Code

pub platform-Code : Code Always encode_platform
platform-Code =
    via (str-Code ⊕ str-Code) (λ (x : HashedPlatform). x.os & x.arch)
      (λ t. record { os = t.0; arch = t.1 }) (λ x. refl)

pub cmd-Code : Code Always encode_cmd
cmd-Code =
    via
      (str-Code
        ⊕ str-Code
        ⊕ for-Code
        ⊕ str-Code
        ⊕ bool-Code
        ⊕ sequence-Free str-Code
        ⊕ sequence-Free str-Code
        ⊕ opt_vars-Code
        ⊕ bool-Code
        ⊕ bool-Code
        ⊕ sequence-Free platform-Code)
      (λ (x : HashedCmd).
        x.cmd & x.task & x.for_ & x.if_ & x.silent & x.set & x.shopt & x.vars & x.ignore_error
        & x.defer & x.platforms)
      (λ t. record {
        cmd = t.0;
        task = t.1.0;
        for_ = t.1.1.0;
        if_ = t.1.1.1.0;
        silent = t.1.1.1.1.0;
        set = t.1.1.1.1.1.0;
        shopt = t.1.1.1.1.1.1.0;
        vars = t.1.1.1.1.1.1.1.0;
        ignore_error = t.1.1.1.1.1.1.1.1.0;
        defer = t.1.1.1.1.1.1.1.1.1.0;
        platforms = t.1.1.1.1.1.1.1.1.1.1;
      })
      (λ x. refl)

pub dep-Code : Code Always encode_dep
dep-Code =
    via (str-Code ⊕ for-Code ⊕ opt_vars-Code ⊕ bool-Code ⊕ optional-Free bool-Code)
      (λ (x : HashedDep). x.task & x.for_ & x.vars & x.silent & x.fingerprint)
      (λ t. record {
        task = t.0;
        for_ = t.1.0;
        vars = t.1.1.0;
        silent = t.1.1.1.0;
        fingerprint = t.1.1.1.1;
      })
      (λ x. refl)

pub precondition-Code : Code Always encode_precondition
precondition-Code =
    via (str-Code ⊕ str-Code) (λ (x : Precondition). x.sh & x.msg)
      (λ t. record { sh = t.0; msg = t.1 }) (λ x. refl)

pub required-Code : Code Always encode_required
required-Code =
    via (str-Code ⊕ sequence-Free str-Code) (λ (x : RequiredVar). x.name & x.enum_values)
      (λ t. record { name = t.0; enum_values = t.1 }) (λ x. refl)

pub some_cache-Code : Code Always encode_some_cache
some_cache-Code =
    via
      (str-Code
        ⊕ optional-Free bool-Code
        ⊕ str-Code
        ⊕ str-Code
        ⊕ str-Code
        ⊕ str-Code
        ⊕ str-Code
        ⊕ str-Code
        ⊕ str-Code)
      (λ (x : HashedCache).
        x.inherit & x.enabled & x.if_ & x.url & x.lock & x.vk & x.namespace & x.ttl
        & x.lock_timeout)
      (λ t. record {
        inherit = t.0;
        enabled = t.1.0;
        if_ = t.1.1.0;
        url = t.1.1.1.0;
        lock = t.1.1.1.1.0;
        vk = t.1.1.1.1.1.0;
        namespace = t.1.1.1.1.1.1.0;
        ttl = t.1.1.1.1.1.1.1.0;
        lock_timeout = t.1.1.1.1.1.1.1.1;
      })
      (λ x. refl)

-- A position that the machine can hold.
abbrev pub IsPosition : Location → Type 0
IsPosition l = (l.line < u64_bound) × (l.column < u64_bound)

pub some_location-Code : Code IsPosition encode_some_location
some_location-Code =
    weaken
      (via (u64-Code ⊗ u64-Code ⊗ str-Code) (λ (x : Location). x.line & x.column & x.taskfile)
        (λ t. record { line = t.0; column = t.1.0; taskfile = t.1.1 }) (λ x. refl))
      (λ x p. p.0 & p.1 & tt)

pub dialect-Code : Code Always dialect_tag
dialect-Code = record { apart = apart; some_bytes = some_bytes }
  where
    apart :
        (a b : Dialect) (r s : Bytes)
        → Always a
        → Always b
        → length (dialect_tag a ++ r) < u64_bound
        → dialect_tag a ++ r ≡ dialect_tag b ++ s
        → (a ≡ b) × (r ≡ s)
    apart go go r s _ _ l e = (refl, tail_eq e)
    apart jinja jinja r s _ _ l e = (refl, tail_eq e)
    apart go jinja r s _ _ l e = absurd (let h : 0 ≡ 1 = head_eq e in omega (arith, h))
    apart jinja go r s _ _ l e = absurd (let h : 1 ≡ 0 = head_eq e in omega (arith, h))

    some_bytes : (a : Dialect) → 0 < length (dialect_tag a)
    some_bytes go = omega arith
    some_bytes jinja = omega arith

pub call_var-Code : Code Always encode_call_var
call_var-Code = str-Code ⊕ var-Code ⊕ dialect-Code

-- Nothing stands behind a whole encoding.
pub whole :
    {A : Type 0} {P : A → Type 0} {f : A → Bytes} (c : Code P f) (a b : A)
    → P a
    → P b
    → length (f a) < u64_bound
    → f a ≡ f b
    → a ≡ b
whole {f} c a b p q l e =
    (c.apart a b [] [] p q (subst (λ (x : Bytes). length x < u64_bound) (sym (append-nil (f a))) l)
      (ap (λ (x : Bytes). x ++ []) e)).0

-- Calls with the same key call the same task with the same captures and the same variables, each in
-- the same dialect and in the same order, as long as the key's length fits 64 bits.
pub call_key-injective :
    (task task' : Bytes) (captures captures' : List Bytes)
    (vars vars' : List (Bytes × (HashedVar × Dialect)))
    → length (call_key task captures vars) < u64_bound
    → call_key task captures vars ≡ call_key task' captures' vars'
    → (task ≡ task') × ((captures ≡ captures') × (vars ≡ vars'))
unfolding call_key
call_key-injective task task' captures captures' vars vars' l e =
    let same : (task, (captures, vars)) ≡ (task', (captures', vars')) =
      whole (str-Code ⊕ sequence-Free str-Code ⊕ sequence-Free call_var-Code)
        (task, (captures, vars)) (task', (captures', vars')) tt tt l e in
    (ap (λ t. t.0) same, (ap (λ t. t.1.0) same, ap (λ t. t.1.1) same))
