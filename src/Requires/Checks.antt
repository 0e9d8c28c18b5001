-- ===== src/Requires/Checks.antt =====
-- What the checks of required variables report.
use task_rs.Base.{
  ◌≡◌, ◌≢◌, refl, ap, ◌∙◌, subst, ◌↔◌, inl, inr, Option, none, some, List, [], ◌∷◌, Text, In,
  Option-cases,
}
use task_rs.Taskfile.Vars.{Var}
use task_rs.Requires.Outside.{Bad, push_not_allowed-In, unless_pending_iff, NotOneOf, refused_iff}
use task_rs.Requires.{
  VarsWithValidation, MissingVar, NotAllowedVar, CompiledTask, required_vars, Checked, fine,
  missing_vars, not_allowed_vars, variable, missing_loop, missing_required_vars, report_missing,
  report_not_allowed, check_required_vars_set, string_value, not_allowed_loop, check_allowed_values,
  pending_checksum, value_of,
}

module _ {V : Type 0} (t : CompiledTask V) where
  -- The required variable is reported.
  abbrev pub Reported : MissingVar → List VarsWithValidation → Type 0
  Reported m vars =
      (v : VarsWithValidation) × In v vars
      × (variable t v.name ≡ none)
      × (m ≡ record { name = v.name; allowed_values = v.enum_values })

  missing_loop-Reported :
      (vars : List VarsWithValidation) (m : MissingVar)
      → In m (missing_loop t vars) ↔ Reported m vars
  unfolding missing_loop
  missing_loop-Reported [] m = (λ i. absurd i, λ r. absurd r.1)
  missing_loop-Reported (v ∷ vars) m = elim (Option-cases (variable t v.name)) [
    | inr x ↦ rw x.1 (
      (λ i. let r = (missing_loop-Reported vars m).0 i in (r.0, inr r.1, r.2, r.3)),
      (λ r. elim r.1 [
        | inl e ↦ cc (r.2, x.1, ap (λ (u : VarsWithValidation). variable t u.name) e)
        | inr i ↦ (missing_loop-Reported vars m).1 (r.0, i, r.2, r.3)
      ]),
    )
    | inl n ↦ rw n (
      (λ i. elim i [
        | inl e ↦ (v, inl refl, n, e)
        | inr i ↦ let r = (missing_loop-Reported vars m).0 i in (r.0, inr r.1, r.2, r.3)
      ]),
      (λ r. elim r.1 [
        | inl e ↦ inl (
            r.3
            ∙ ap
                (λ (u : VarsWithValidation). record {
                  name = u.name;
                  allowed_values = u.enum_values;
                })
                e)
        | inr i ↦ inr ((missing_loop-Reported vars m).1 (r.0, i, r.2, r.3))
      ]),
    )
  ]

  -- All required variables are there, or the error lists those that are not.
  abbrev pub SetPost : Checked → Type 0
  SetPost fine = (v : VarsWithValidation) → In v (required_vars t) → variable t v.name ≢ none
  SetPost (missing_vars name missing) =
      (name ≡ t.name)
      × (missing ≢ [])
      × ((m : MissingVar) → In m missing ↔ Reported m (required_vars t))
  SetPost (not_allowed_vars name not_allowed) = ⊥

  set-Post :
      (missing : List MissingVar)
      → ((m : MissingVar) → In m missing ↔ Reported m (required_vars t))
      → SetPost (report_missing t missing)
  unfolding report_missing
  set-Post [] h =
      λ v i n. (h (record { name = v.name; allowed_values = v.enum_values })).1 (v, i, n, refl)
  set-Post (m ∷ missing) h = (refl, λ e. cc e, h)

  missing-Reported :
      (m : MissingVar) → In m (missing_required_vars t) ↔ Reported m (required_vars t)
  missing-Reported m = unfold missing_required_vars in missing_loop-Reported (required_vars t) m

  -- The check passes only when every required variable has a value, and it fails with the name of the
  -- task and exactly the required variables that have none, each with its allowed values.
  pub check_required_vars_set-Post : SetPost (check_required_vars_set t)
  check_required_vars_set-Post =
      unfold check_required_vars_set in set-Post (missing_required_vars t) missing-Reported

  module _ (as_string : V → Option Text) where
    -- The task has a variable of this name whose value is this string, and no pending checksum.
    abbrev pub HasString : Text → Text → Type 0
    HasString name s =
        (var : Var V) × (x : V) × (variable t name ≡ some var)
        × (var.value ≡ some x)
        × (as_string x ≡ some s)
        × (s ≢ pending_checksum)

    value_of_inv :
        (o : Option V) (s : Text)
        → value_of as_string o ≡ some s
        → (x : V) × (o ≡ some x) × (as_string x ≡ some s) × (s ≢ pending_checksum)
    unfolding value_of
    value_of_inv none s e = cc e
    value_of_inv (some x) s e =
        let h = (unless_pending_iff (as_string x) s).0 e in (x, refl, h.0, h.1)

    string_value-HasString :
        (v : VarsWithValidation) (s : Text)
        → (string_value as_string t v ≡ some s) ↔ HasString v.name s
    unfolding string_value value_of
    string_value-HasString v s = (
      λ e. elim (Option-cases (variable t v.name)) [
        | inl n ↦ cc (rw (n, string_value) at e)
        | inr (var, q) ↦
            let h = value_of_inv var.value s (rw (q, string_value) at e) in
            (var, h.0, q, h.1, h.2, h.3)
      ],
      λ h. rw (h.2, string_value, h.3) ((unless_pending_iff (as_string h.1) s).1 (h.4, h.5)),
    )

    -- The value of a required variable is a string outside its allowed values.
    abbrev pub Forbidden : NotAllowedVar → List VarsWithValidation → Type 0
    Forbidden n vars =
        (v : VarsWithValidation) × In v vars
        × HasString v.name n.value
        × NotOneOf n.value v.enum_values
        × (n ≡ record { name = v.name; value = n.value; enum_values = v.enum_values })

    Bad-Forbidden :
        (v : VarsWithValidation) (n : NotAllowedVar)
        → Bad v (string_value as_string t v) n ↔ (
            HasString v.name n.value
            × NotOneOf n.value v.enum_values
            × (n ≡ record { name = v.name; value = n.value; enum_values = v.enum_values }))
    Bad-Forbidden v n =
        let value = string_value-HasString v n.value in
        let outside = refused_iff v n.value in
        (λ b. (value.0 b.0, outside.0 b.1, b.2), λ f. (value.1 f.0, outside.1 f.1, f.2))

    not_allowed_loop-Forbidden :
        (vars : List VarsWithValidation) (n : NotAllowedVar)
        → In n (not_allowed_loop as_string t vars) ↔ Forbidden n vars
    unfolding not_allowed_loop
    not_allowed_loop-Forbidden [] n = (λ i. absurd i, λ r. absurd r.1)
    not_allowed_loop-Forbidden (v ∷ vars) n =
        let pushed =
          push_not_allowed-In v (string_value as_string t v) (not_allowed_loop as_string t vars)
            n in
        let earlier = not_allowed_loop-Forbidden vars n in
        (
          λ i. elim (pushed.0 i) [
            | inl b ↦ let f = (Bad-Forbidden v n).0 b in (v, inl refl, f.0, f.1, f.2)
            | inr j ↦ let f = earlier.0 j in (f.0, inr f.1, f.2, f.3, f.4)
          ],
          λ f. elim f.1 [
            | inl e ↦ pushed.1 (
                inl (
                  subst (λ (u : VarsWithValidation). Bad u (string_value as_string t u) n) e
                    ((Bad-Forbidden f.0 n).1 (f.2, f.3, f.4))))
            | inr j ↦ pushed.1 (inr (earlier.1 (f.0, j, f.2, f.3, f.4)))
          ],
        )

    -- No required variable has a forbidden value, or the error lists those that have one.
    abbrev pub ValuesPost : Checked → Type 0
    ValuesPost fine = (n : NotAllowedVar) → Forbidden n (required_vars t) → ⊥
    ValuesPost (missing_vars name missing) = ⊥
    ValuesPost (not_allowed_vars name not_allowed) =
        (name ≡ t.name)
        × (not_allowed ≢ [])
        × ((n : NotAllowedVar) → In n not_allowed ↔ Forbidden n (required_vars t))

    values-Post :
        (all : List NotAllowedVar)
        → ((n : NotAllowedVar) → In n all ↔ Forbidden n (required_vars t))
        → ValuesPost (report_not_allowed t all)
    unfolding report_not_allowed
    values-Post [] h = λ n f. (h n).1 f
    values-Post (n ∷ all) h = (refl, λ e. cc e, h)

    -- The check passes only when no required variable is a string outside its allowed values, where
    -- there are any, other than a pending checksum; and it fails with the name of the task and
    -- exactly the required variables that are such a string, with their values.
    pub check_allowed_values-Post : ValuesPost (check_allowed_values as_string t)
    check_allowed_values-Post =
        unfold check_allowed_values in
        values-Post (not_allowed_loop as_string t (required_vars t))
          (λ n. not_allowed_loop-Forbidden (required_vars t) n)
