-- ===== src/Glob/Exclusion/Runs.antt =====
-- What a match of path segments says of the literal segments of the pattern.
use task_rs.Base.{
  ◌≡◌, refl, sym, ap, ap₂, ◌∙◌, Bool, true, false, not, List, [], ◌∷◌, ◌++◌, arith, if◌then◌else◌,
  Text, ◌=ₜ◌, =ₜ_iff, All, Bool-cases, inl, inr,
}
use task_rs.Base
use task_rs.Glob.Star.{Matches, done, one, leave, take, end_inv, one_inv, star_inv}
use task_rs.Glob.Segment.{has_meta}
use task_rs.Glob.Path.{path_tests, double_star}
use task_rs.Glob.Exclusion.{lead}

-- A literal segment is no star, and it matches itself alone.
pub literal_no_star : (d : Bool) (s : Text) → has_meta s ≡ false → (path_tests d).is_star s ≡ false
unfolding path_tests has_meta
literal_no_star d s h = elim (Bool-cases (s =ₜ double_star)) [
  | inr e ↦ e
  | inl e ↦ cc (h, ap has_meta ((=ₜ_iff s double_star).0 e))
]

literal_hit : (d : Bool) (s n : Text) → has_meta s ≡ false → (path_tests d).hit s n ≡ true → s ≡ n
unfolding path_tests
literal_hit d s n h e = (=ₜ_iff s n).0 (rw h at e)

-- A match of a pattern in two parts, cut where the first part ends.
pub record Cut (d : Bool) (a b us : List Text) : Type 0 where
  pub front : List Text
  pub back : List Text
  pub whole : us ≡ front ++ back
  pub in_front : Matches (path_tests d) a front
  pub in_back : Matches (path_tests d) b back

pub cut : (d : Bool) (a b us : List Text) → Matches (path_tests d) (a ++ b) us → Cut d a b us
cut d [] b us m = record { front = []; back = us; whole = refl; in_front = done; in_back = m }
cut d (t ∷ a) b [] m =
    let e = end_inv (path_tests d) m in
    let c = cut d a b [] e.1 in
    record {
      front = c.front;
      back = c.back;
      whole = c.whole;
      in_front = leave e.0 c.in_front;
      in_back = c.in_back;
    }
cut d (t ∷ a) b (u ∷ us) m = elim (Bool-cases ((path_tests d).is_star t)) [
  | inr n ↦
      let e = one_inv (path_tests d) m n in
      let c = cut d a b us e.1 in
      record {
        front = u ∷ c.front;
        back = c.back;
        whole = ap (λ (l : List Text). u ∷ l) c.whole;
        in_front = one n e.0 c.in_front;
        in_back = c.in_back;
      }
  | inl s ↦ elim (star_inv (path_tests d) m s) [
    | inl left ↦
        let c = cut d a b (u ∷ us) left in
        record {
          front = c.front;
          back = c.back;
          whole = c.whole;
          in_front = leave s c.in_front;
          in_back = c.in_back;
        }
    | inr taken ↦
        let c = cut d (t ∷ a) b us taken.1 in
        record {
          front = u ∷ c.front;
          back = c.back;
          whole = ap (λ (l : List Text). u ∷ l) c.whole;
          in_front = take s taken.0 c.in_front;
          in_back = c.in_back;
        }
  ]
]

abbrev pub AllLiteral : List Text → Type 0
AllLiteral ws = All (λ w. has_meta w ≡ false) ws

-- Literal segments match themselves.
pub literal-run :
    (d : Bool) (ws us : List Text) → AllLiteral ws → Matches (path_tests d) ws us → us ≡ ws
literal-run d [] us h done = refl
literal-run d (w ∷ ws) [] h m = cc ((end_inv (path_tests d) m).0, literal_no_star d w h.0)
literal-run d (w ∷ ws) (u ∷ us) h m =
    let e = one_inv (path_tests d) m (literal_no_star d w h.0) in
    ap₂ ◌∷◌ (sym (literal_hit d w u h.0 e.0)) (literal-run d ws us h.1 e.1)

-- The leading literal segments.
pub take-lead : (ws : List Text) → AllLiteral (Base.take (lead ws) ws)
unfolding lead
take-lead [] = tt
take-lead (w ∷ ws) = elim (Bool-cases (has_meta w)) [
  | inl e ↦ rw e tt
  | inr e ↦ rw e (e, take-lead ws)
]
