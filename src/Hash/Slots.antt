-- ===== src/Hash/Slots.antt =====
-- What the hash reads of an entry of `sources` or `generates`, and that it is determined.
use task_rs.Base.{
  ℕ, ◌<◌, ◌≡◌, ◌≢◌, refl, sym, ap, subst, Bool, not, [], ◌∷◌, ◌++◌, arith, ◌==◌, if◌then◌else◌,
  length, length-append, append_assoc, append-nil, inl, inr, tail_eq, head_eq, Bool-cases,
}
use task_rs.Taskfile.Task.{is_empty}
use task_rs.Hash.Bytes.{◌⊳◌, Bytes, u64, str, bool, sequence}
use task_rs.Hash.Code.{Code, Always, u64_bound, u64-Code, str-Code, bool-Code, regroup}
use task_rs.Hash.Code.Combined.{◌&◌, ◌⊗◌, ◌⊕◌, via, weaken, sequence-Free, recode}
use task_rs.Hash.Fields.{
  HashedVars, HashedGlob, vars_or_empty, encode_entry, nul_group, nul_task, encode_slot,
}
use task_rs.Hash.Determined.{entry-Code}

-- What an entry of `sources` is to the hash: the entry of a folded task by its group, an entry
-- `from` another place, or one of the files of a task.
pub data Slot : Type 0 where
  grouped : ℕ → Slot
  of_from : Bytes → Slot
  of_task : Bytes → HashedVars → Slot

pub record GlobView : Type 0 where
  pub glob : Bytes
  pub negate : Bool
  pub fingerprint : Bytes
  pub slot : Slot

abbrev pub slot_view : HashedGlob → Slot
slot_view g =
    if not (g.group == 0)
    then grouped g.group
    else if is_empty g.task
    then of_from g.from
    else of_task g.task (vars_or_empty g.vars)

abbrev pub view : HashedGlob → GlobView
view g = record {
  glob = g.glob;
  negate = g.negate;
  fingerprint = g.fingerprint;
  slot = slot_view g;
}

unfoldable pub slot_bytes : Slot → Bytes
slot_bytes (grouped n) = str nul_group ++ u64 n
slot_bytes (of_from s) = str s
slot_bytes (of_task t vars) = str nul_task ⊳ str t ++ sequence encode_entry vars

pub encode-slot_view : (g : HashedGlob) → encode_slot g ≡ slot_bytes (slot_view g)
unfolding encode_slot slot_bytes
encode-slot_view g = elim (Bool-cases (g.group == 0)) [
  | inr e ↦ rw e refl
  | inl e ↦ rw e (elim (Bool-cases (is_empty g.task)) [ inl e' ↦ rw e' refl | inr e' ↦ rw e' refl ])
]

-- A `from` without a NUL at its head, and a group that the machine can hold.
abbrev pub IsValidSlot : Slot → Type 0
IsValidSlot (grouped n) = n < u64_bound
IsValidSlot (of_from []) = Unit
IsValidSlot (of_from (c ∷ s)) = c ≢ 0
IsValidSlot (of_task t vars) = Unit

task-Code : Code Always (λ (p : Bytes × HashedVars). str p.0 ++ sequence encode_entry p.1)
task-Code = str-Code ⊕ sequence-Free entry-Code

-- The string that the bytes of a slot begin with, and what follows it.
marker : Slot → Bytes
marker (grouped n) = nul_group
marker (of_from s) = s
marker (of_task t vars) = nul_task

more : Slot → Bytes
more (grouped n) = u64 n
more (of_from s) = []
more (of_task t vars) = str t ++ sequence encode_entry vars

slot_bytes-marker : (s : Slot) → slot_bytes s ≡ str (marker s) ++ more s
unfolding slot_bytes marker more
slot_bytes-marker (grouped n) = refl
slot_bytes-marker (of_from s) = sym (append-nil (str s))
slot_bytes-marker (of_task t vars) = refl

not_nul : (m s : Bytes) → IsValidSlot (of_from s) → ¬ (Path Bytes (0 ∷ m) s)
not_nul m [] v e = cc e
not_nul m (c ∷ s) v e = v (sym (head_eq e))

not_same : ¬ (nul_group ≡ nul_task)
not_same e = let h : 103 ≡ 116 = head_eq (tail_eq e) in omega (arith, h)

-- Slots that begin alike, by what follows.
more-apart :
    (a b : Slot) (r s : Bytes)
    → IsValidSlot a
    → IsValidSlot b
    → length (more a ++ r) < u64_bound
    → marker a ≡ marker b
    → more a ++ r ≡ more b ++ s
    → (a ≡ b) × (r ≡ s)
unfolding marker more
more-apart (grouped n) (grouped m) r s p q l h e =
    let (same, rest) = u64-Code.apart n m r s p q l e in (ap grouped same, rest)
more-apart (of_from x) (of_from y) r s p q l h e = (ap of_from h, e)
more-apart (of_task t v) (of_task u w) r s p q l h e =
    let (same, rest) = task-Code.apart (t, v) (u, w) r s tt tt l e in
    (ap (λ (x : Bytes × HashedVars). of_task x.0 x.1) same, rest)
more-apart (grouped n) (of_from y) r s p q l h e = absurd (not_nul _ y q h)
more-apart (of_from x) (grouped n) r s p q l h e = absurd (not_nul _ x p (sym h))
more-apart (of_task t v) (of_from y) r s p q l h e = absurd (not_nul _ y q h)
more-apart (of_from x) (of_task t v) r s p q l h e = absurd (not_nul _ x p (sym h))
more-apart (grouped n) (of_task t v) r s p q l h e = absurd (not_same h)
more-apart (of_task t v) (grouped n) r s p q l h e = absurd (not_same (sym h))

marked-Code : Code IsValidSlot (λ s. str (marker s) ++ more s)
marked-Code = record {
  apart = λ a b r s p q l e.
      let (same, rest) =
        str-Code.apart (marker a) (marker b) (more a ++ r) (more b ++ s) tt tt
          (subst (λ (t : Bytes). length t < u64_bound) (append_assoc (str (marker a)) (more a) r) l)
          (regroup (str (marker a)) (more a) r (str (marker b)) (more b) s e) in
      more-apart a b r s p q
        (omega (
          arith,
          l,
          length-append (str (marker a) ++ more a) r,
          length-append (str (marker a)) (more a),
          length-append (more a) r,
        ))
        same rest;
  some_bytes =
      λ a. omega (arith, str-Code.some_bytes (marker a), length-append (str (marker a)) (more a));
}

pub slot-Code : Code IsValidSlot slot_bytes
slot-Code = recode marked-Code (λ s. sym (slot_bytes-marker s))

unfoldable pub encode_view : GlobView → Bytes
encode_view v = str v.glob ⊳ bool v.negate ⊳ str v.fingerprint ++ slot_bytes v.slot

abbrev pub IsValidView : GlobView → Type 0
IsValidView v = IsValidSlot v.slot

pub view-Code : Code IsValidView encode_view
unfolding encode_view
view-Code =
    weaken
      (via (str-Code ⊗ bool-Code ⊗ str-Code ⊗ slot-Code)
        (λ (x : GlobView). x.glob & x.negate & x.fingerprint & x.slot)
        (λ t. record { glob = t.0; negate = t.1.0; fingerprint = t.1.1.0; slot = t.1.1.1 })
        (λ x. refl))
      (λ x p. tt & tt & tt & p)
