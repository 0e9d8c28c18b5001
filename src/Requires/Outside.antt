-- ===== src/Requires/Outside.antt =====
-- When a value of a required variable adds an entry to the error.
use task_rs.Base.{
  any-In, some-injective, ◌≡◌, ◌≢◌, refl, sym, ap, ◌∙◌, subst, ◌↔◌, ◌⊎◌, inl, inr, Bool, true,
  false, not, =ₜ_iff, &&_iff, ◌&&◌, Option, none, some, List, [], ◌∷◌, Text, ◌=ₜ◌, any, In,
  Bool-cases,
}
use task_rs.Requires.{
  VarsWithValidation, NotAllowedVar, push_not_allowed, is_nil, unless_pending, pending_checksum,
}

-- The entry that a required variable with this value adds.
abbrev pub Bad : VarsWithValidation → Option Text → NotAllowedVar → Type 0
Bad v o n =
    (o ≡ some n.value)
    × ((not (is_nil v.enum_values) && not (any (λ e. e =ₜ n.value) v.enum_values)) ≡ true)
    × (n ≡ record { name = v.name; value = n.value; enum_values = v.enum_values })

abbrev pub refused : VarsWithValidation → Text → Bool
refused v value = not (is_nil v.enum_values) && not (any (λ e. e =ₜ value) v.enum_values)

pub push_not_allowed-In :
    (v : VarsWithValidation) (o : Option Text) (rest : List NotAllowedVar) (n : NotAllowedVar)
    → In n (push_not_allowed v o rest) ↔ (Bad v o n ⊎ In n rest)
unfolding push_not_allowed
push_not_allowed-In v none rest n = (λ i. inr i, λ r. elim r [ inl b ↦ cc (b.0) | inr i ↦ i ])
push_not_allowed-In v (some value) rest n = elim (Bool-cases (refused v value)) [
  | inl e ↦ rw e (
    (λ i. elim i [
      | inl q ↦
          let same : n.value ≡ value = ap (λ (m : NotAllowedVar). m.value) q in
          inl (
            ap (λ (s : Text). some s) (sym same),
            subst (λ (s : Text). refused v s ≡ true) (sym same) e,
            q
                ∙ ap
                    (λ (s : Text). record { name = v.name; value = s; enum_values = v.enum_values })
                    (sym same),
          )
      | inr j ↦ inr j
    ]),
    (λ r. elim r [
      | inl b ↦ inl (
          b.2
          ∙ ap (λ (s : Text). record { name = v.name; value = s; enum_values = v.enum_values })
              (sym (some-injective b.0)))
      | inr i ↦ inr i
    ]),
  )
  | inr e ↦ rw e (
    (λ i. inr i),
    (λ r. elim r [
      | inl b ↦ cc (b.1, e, ap (λ (s : Text). refused v s) (some-injective b.0))
      | inr i ↦ i
    ]),
  )
]

pub unless_pending_iff :
    (o : Option Text) (s : Text)
    → (unless_pending o ≡ some s) ↔ ((o ≡ some s) × (s ≢ pending_checksum))
unfolding unless_pending
unless_pending_iff none s = (λ e. cc e, λ h. cc h.0)
unless_pending_iff (some w) s = elim (Bool-cases (w =ₜ pending_checksum)) [
  | inl p ↦ rw p (
    (λ e. cc e),
    (λ h. absurd (h.1 (some-injective (sym h.0) ∙ (=ₜ_iff w pending_checksum).0 p))),
  )
  | inr p ↦
      rw p
        ((λ e. (e, λ q. cc (p, (=ₜ_iff w pending_checksum).1 (some-injective e ∙ q)))), (λ h. h.0))
]

not_iff : (b : Bool) → (not b ≡ true) ↔ (b ≢ true)
not_iff true = (λ e. cc e, λ h. absurd (h refl))
not_iff false = (λ e q. cc q, λ h. refl)

is_nil_iff : (l : List Text) → (is_nil l ≡ true) ↔ (l ≡ [])
unfolding is_nil
is_nil_iff [] = (λ e. refl, λ e. refl)
is_nil_iff (w ∷ l) = (λ e. cc e, λ e. cc e)

-- There are allowed values, and this is none of them.
abbrev pub NotOneOf : Text → List Text → Type 0
NotOneOf s allowed = (allowed ≢ []) × (¬ In s allowed)

pub refused_iff :
    (v : VarsWithValidation) (s : Text) → (refused v s ≡ true) ↔ NotOneOf s v.enum_values
refused_iff v s =
    let both = &&_iff (not (is_nil v.enum_values)) (not (any (λ e. e =ₜ s) v.enum_values)) in
    (
      λ h. (
        λ e. (not_iff (is_nil v.enum_values)).0 (both.0 h).0 ((is_nil_iff v.enum_values).1 e),
        λ i.
            (not_iff (any (λ e. e =ₜ s) v.enum_values)).0 (both.0 h).1
              ((any-In s v.enum_values).1 i),
      ),
      λ h. both.1 (
        (not_iff (is_nil v.enum_values)).1 (λ e. h.0 ((is_nil_iff v.enum_values).0 e)),
        (not_iff (any (λ e. e =ₜ s) v.enum_values)).1 (λ e. h.1 ((any-In s v.enum_values).0 e)),
      ),
    )
