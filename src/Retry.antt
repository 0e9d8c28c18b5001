-- ===== src/Retry.antt =====
-- crates/ocicas/src/retry.rs: repeating a registry request whose transport failed. Each attempt's
-- outcome is what a parameter gives for its number.
pub mod Paced
pub mod Transport
mod Examples
use task_rs.Base.{
  ℕ, zero, suc, ◌+◌, ◌*◌, min, Bool, true, false, not, ◌&&◌, ◌||◌, Option, none, some, List, [],
  ◌∷◌, Text, if◌then◌else◌, take,
}

abbrev pub retries : ℕ
retries = 3

-- `Duration::from_secs(2)`, in nanoseconds.
abbrev pub first_pause : ℕ
first_pause = 2 * 1000000000

-- `Duration::MAX`, in nanoseconds: 64-bit seconds and what is below a second.
abbrev pub duration_max : ℕ
duration_max = 18446744073709551615 * 1000000000 + 999999999

unfoldable pub saturating_mul : ℕ → ℕ → ℕ
saturating_mul pause n = min (pause * n) duration_max

-- crates/ocicas/src/error.rs; the payloads of the libraries' errors are of a parameter type.
pub data StoreError (X : Type 0) : Type 0 where
  io_error json : X → StoreError X
  format network unrecoverable : Text → StoreError X

unfoldable pub is_unreachable : {X : Type 0} → StoreError X → Bool
is_unreachable (network message) = true
is_unreachable (io_error x) = false
is_unreachable (json x) = false
is_unreachable (format message) = false
is_unreachable (unrecoverable message) = false

pub data Outcome (T X : Type 0) : Type 0 where
  success : T → Outcome T X
  failure : StoreError X → Outcome T X

-- What the loop did: its result, the attempts made and the pauses between them.
pub record Run (T X : Type 0) : Type 0 where
  pub result : Outcome T X
  pub attempts : ℕ
  pub pauses : List ℕ

module _ {T X : Type 0} where
  unfoldable pub again : Outcome T X → Bool
  unfolding is_unreachable
  again (success t) = false
  again (failure e) = is_unreachable e

  abbrev pub prepend : ℕ → Run T X → Run T X
  prepend pause r = record {
    result = r.result;
    attempts = suc r.attempts;
    pauses = pause ∷ r.pauses;
  }

  -- The loop of `retry_paced`, at the attempt with number `n`.
  unfoldable pub retry_loop : (ℕ → Outcome T X) → ℕ → ℕ → ℕ → Run T X
  unfolding again saturating_mul
  retry_loop attempt zero pause n = record { result = attempt n; attempts = 1; pauses = [] }
  retry_loop attempt (suc left) pause n =
      let rest = retry_loop attempt left (saturating_mul pause 2) (suc n) in
      if again (attempt n)
      then prepend pause rest
      else record { result = attempt n; attempts = 1; pauses = [] }

  unfoldable pub retry_paced : ℕ → (ℕ → Outcome T X) → Run T X
  unfolding retry_loop
  retry_paced first attempt = retry_loop attempt retries first 0

  unfoldable pub with_retry : (ℕ → Outcome T X) → Run T X
  unfolding retry_paced
  with_retry attempt = retry_paced first_pause attempt

-- A cause below an error of reqwest, by what it is downcast to: an error of hyper, which may be one of
-- parsing or of use, an I/O error, which may be of invalid input or data, or neither.
pub data Cause : Type 0 where
  hyper : (is_parse is_user : Bool) → Cause
  io : (is_invalid : Bool) → Cause
  other : Cause

-- `reqwest::Error`
pub record RequestError : Type 0 where
  pub is_connect : Bool
  pub is_timeout : Bool
  pub is_request : Bool
  pub causes : List Cause

-- The loop over the causes.
unfoldable pub causes_loop : Bool → List Cause → Bool
causes_loop transport [] = transport
causes_loop transport (hyper is_parse is_user ∷ causes) =
    let rest = causes_loop true causes in if is_parse || is_user then false else rest
causes_loop transport (io is_invalid ∷ causes) =
    let rest = causes_loop true causes in if is_invalid then false else rest
causes_loop transport (other ∷ causes) = causes_loop transport causes

-- `MAX_CAUSES` of error.rs
abbrev pub max_causes : ℕ
max_causes = 8

unfoldable pub is_transport : RequestError → Bool
unfolding causes_loop
is_transport e =
    if e.is_connect || e.is_timeout
    then true
    else causes_loop e.is_request (take max_causes e.causes)
