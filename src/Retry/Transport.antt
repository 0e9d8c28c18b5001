-- ===== src/Retry/Transport.antt =====
-- Which errors of a request are the transport's.
use task_rs.Base.{
  ◌≡◌, refl, inl, inr, Bool, true, false, not, ◌&&◌, ◌||◌, List, [], ◌∷◌, arith, any, take,
  Bool-cases,
}
use task_rs.Retry.{Cause, hyper, io, other, RequestError, causes_loop, is_transport, max_causes}

-- A cause that makes the error final.
pub is_final : Cause → Bool
is_final (hyper is_parse is_user) = is_parse || is_user
is_final (io is_invalid) = is_invalid
is_final other = false

pub is_known : Cause → Bool
is_known (hyper is_parse is_user) = true
is_known (io is_invalid) = true
is_known other = false

causes_loop-any :
    (transport : Bool) (causes : List Cause)
    → causes_loop transport causes
      ≡ (not (any is_final causes) && (transport || any is_known causes))
unfolding causes_loop is_final is_known
causes_loop-any transport [] = ground arith
causes_loop-any transport (hyper p u ∷ causes) = ground (arith, causes_loop-any true causes)
causes_loop-any transport (io v ∷ causes) = ground (arith, causes_loop-any true causes)
causes_loop-any transport (other ∷ causes) = causes_loop-any transport causes

-- An error is the transport's when it is one of connecting or of time, or when none of its first
-- eight causes is final, an error of hyper of parsing or of use or one of I/O of invalid input or
-- data, and either it is one of sending or one of those causes is of hyper or of I/O.
pub is_transport-any :
    (e : RequestError)
    → is_transport e ≡ (
        (e.is_connect || e.is_timeout)
        || (not (any is_final (take 8 e.causes))
            && (e.is_request || any is_known (take 8 e.causes))))
unfolding is_transport
is_transport-any e = elim (Bool-cases (e.is_connect || e.is_timeout)) [
  | inl c ↦ rw c refl
  | inr c ↦ rw c (causes_loop-any e.is_request (take max_causes e.causes))
]
