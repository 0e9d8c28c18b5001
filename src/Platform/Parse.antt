-- ===== src/Platform/Parse.antt =====
-- Which texts are platforms, and what they say.
use task_rs.Base.{
  some-injective, ◌≡◌, refl, sym, ap, ◌∙◌, subst, ◌⊎◌, inl, inr, Bool, true, false, not, ◌&&◌, none,
  some, List, [], ◌∷◌, ◌++◌, arith, Text, Bool-cases, Option-cases, any, all, ◌=ₜ◌, =ₜ_iff, ||_iff,
  &&_iff,
}
use task_rs.Glob.Path.{split, join, is_empty, is_slash}
use task_rs.Glob.Path.Clean.{join-split}
use task_rs.Glob.Path.Spelled.{split-join}
use task_rs.Platform.{
  Platform, known_os, known_arch, is_known_os, is_known_arch, parse_os_or_arch, parse_arch,
  parse_second, parse_parts, parse_platform,
}

abbrev pub default : Platform
default = record { os = []; arch = [] }

-- What a text says, read as `OS`, `Arch` or `OS/Arch`.
pub data Says : Text → Platform → Type 0 where
  an_os : {os : Text} → is_known_os os ≡ true → Says os (record { os = os; arch = [] })
  an_arch :
      {arch : Text}
      → is_known_os arch ≡ false
      → is_known_arch arch ≡ true
      → Says arch (record { os = []; arch = arch })
  both :
      {os arch : Text}
      → is_known_os os ≡ true
      → is_known_arch arch ≡ true
      → Says (os ++ b'/' ∷ arch) (record { os = os; arch = arch })

abbrev is_good : Text → Bool
is_good s = not (is_empty s) && not (any is_slash s)

-- A known name is neither empty nor holds a slash.
any-good :
    (ks : List Text) (s : Text)
    → all is_good ks ≡ true
    → any (λ k. k =ₜ s) ks ≡ true
    → is_good s ≡ true
any-good [] s g h = cc h
any-good (k ∷ ks) s g h = elim ((||_iff (k =ₜ s) (any (λ k. k =ₜ s) ks)).0 h) [
  | inl e ↦
      subst (λ (t : Text). is_good t ≡ true) ((=ₜ_iff k s).0 e)
        ((&&_iff (is_good k) (all is_good ks)).0 g).0
  | inr e ↦ any-good ks s ((&&_iff (is_good k) (all is_good ks)).0 g).1 e
]

os-good : (s : Text) → is_known_os s ≡ true → is_good s ≡ true
os-good s h = any-good known_os s refl (unfold is_known_os in h)

arch-good : (s : Text) → is_known_arch s ≡ true → is_good s ≡ true
arch-good s h = any-good known_arch s refl (unfold is_known_arch in h)

abbrev First : Text → Platform → Type 0
First s p =
    ((is_known_os s ≡ true) × (p ≡ record { os = s; arch = [] }))
    ⊎ ((is_known_os s ≡ false) × (is_known_arch s ≡ true) × (p ≡ record { os = []; arch = s }))

parse_os_or_arch-First : (s : Text) (p : Platform) → parse_os_or_arch default s ≡ some p → First s p
unfolding parse_os_or_arch
parse_os_or_arch-First s p h = elim (Bool-cases (is_empty s)) [
  | inl e ↦ cc (rw (e, parse_os_or_arch) at h)
  | inr e ↦ elim (Bool-cases (is_known_os s)) [
    | inl o ↦ inl (o, sym (some-injective (rw (e, parse_os_or_arch, o) at h)))
    | inr o ↦ elim (Bool-cases (is_known_arch s)) [
      | inl a ↦ inr (o, a, sym (some-injective (rw (e, parse_os_or_arch, o, a) at h)))
      | inr a ↦ cc (rw (e, parse_os_or_arch, o, a) at h)
    ]
  ]
]

First-Says : (s : Text) (p : Platform) → First s p → Says s p
First-Says s p (inl (o, e)) = subst (λ q. Says s q) (sym e) (an_os o)
First-Says s p (inr (o, a, e)) = subst (λ q. Says s q) (sym e) (an_arch o a)

parse_arch-Says :
    (s t : Text) (p : Platform)
    → is_known_os s ≡ true
    → parse_arch (record { os = s; arch = [] }) t ≡ some p
    → Says (s ++ b'/' ∷ t) p
unfolding parse_arch
parse_arch-Says s t p o h = elim (Bool-cases (is_empty t)) [
  | inl e ↦ cc (rw (e, parse_arch) at h)
  | inr e ↦ elim (Bool-cases (is_known_arch t)) [
    | inl a ↦
        subst (λ q. Says (s ++ b'/' ∷ t) q) (some-injective (rw (e, parse_arch, a) at h)) (both o a)
    | inr a ↦ cc (rw (e, parse_arch, a) at h)
  ]
]

parse_arch-twice :
    (s t : Text) → is_known_arch s ≡ true → parse_arch (record { os = []; arch = s }) t ≡ none
unfolding parse_arch
parse_arch-twice s t a = ground (arith, arch-good s a)

second-Says :
    (s t : Text) (q p : Platform) → First s q → parse_arch q t ≡ some p → Says (s ++ b'/' ∷ t) p
second-Says s t q p (inl (o, e)) h = parse_arch-Says s t p o (ap (λ r. parse_arch r t) (sym e) ∙ h)
second-Says s t q p (inr (o, a, e)) h =
    cc (sym (ap (λ r. parse_arch r t) (sym e) ∙ h) ∙ parse_arch-twice s t a)

parse_parts-Says :
    (parts : List Text) (p : Platform) → parse_parts default parts ≡ some p → Says (join parts) p
unfolding parse_parts parse_second join
parse_parts-Says [] p h = First-Says [] p (parse_os_or_arch-First [] p h)
parse_parts-Says (s ∷ []) p h = First-Says s p (parse_os_or_arch-First s p h)
parse_parts-Says (s ∷ t ∷ []) p h = elim (Option-cases (parse_os_or_arch default s)) [
  | inl n ↦ cc (rw (n, parse_second) at h)
  | inr q ↦ second-Says s t q.0 p (parse_os_or_arch-First s q.0 q.1) (rw (q.1, parse_second) at h)
]
parse_parts-Says (s ∷ t ∷ u ∷ parts) p h = cc h

not_empty : (s : Text) → is_good s ≡ true → is_empty s ≡ false
not_empty s h = ground (arith, h)

no_slash : (s : Text) → is_good s ≡ true → any is_slash s ≡ false
no_slash s h = elim (Bool-cases (any is_slash s)) [
  | inr e ↦ e
  | inl e ↦ cc (rw e at ((&&_iff (not (is_empty s)) (not (any is_slash s))).0 h).1)
]

Says-parse : (input : Text) (p : Platform) → Says input p → parse_platform default input ≡ some p
unfolding parse_platform join parse_parts parse_os_or_arch parse_second parse_arch
Says-parse input p (an_os {os} o) =
    ap (parse_parts default) (split-join (os ∷ []) tt (no_slash os (os-good os o), tt))
    ∙ rw (not_empty os (os-good os o), o) refl
Says-parse input p (an_arch {arch} o a) =
    ap (parse_parts default) (split-join (arch ∷ []) tt (no_slash arch (arch-good arch a), tt))
    ∙ rw (not_empty arch (arch-good arch a), o, a) refl
Says-parse input p (both {os} {arch} o a) =
    ap (parse_parts default) (
      split-join (os ∷ arch ∷ []) tt
        (no_slash os (os-good os o), (no_slash arch (arch-good arch a), tt)))
    ∙ rw (not_empty os (os-good os o), o)
        (rw (parse_second, parse_arch, not_empty arch (arch-good arch a), a) refl)

-- A text that is accepted says the platform that is returned, in one of three ways, and the other
-- way about: what a text says is returned.
pub parse_platform-Says :
    (input : Text) (p : Platform)
    → (parse_platform default input ≡ some p → Says input p)
      × (Says input p → parse_platform default input ≡ some p)
parse_platform-Says input p = (
  λ h.
      subst (λ (t : Text). Says t p) (join-split input)
        (parse_parts-Says (split input) p (unfold parse_platform in h)),
  λ h. Says-parse input p h,
)
