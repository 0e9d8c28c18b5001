-- ===== src/Retry/Examples.antt =====
-- Runs of the retries, and their theorems at concrete attempts.
use task_rs.Base.{◌||◌, ◌&&◌, not, any, take, ℕ, suc, ◌≡◌, refl, false, [], ◌∷◌, codes}
use task_rs.Retry.{
  Outcome, success, failure, network, retry_paced, hyper, io, other, RequestError, is_transport,
}
use task_rs.Retry.Transport.{is_final, is_known, is_transport-any}
use task_rs.Retry.Paced.{IsPaced, retry_paced-IsPaced}

-- The registry answers the third attempt.
abbrev third : ℕ → Outcome ℕ ℕ
third (suc (suc n)) = success n
third n = failure (network (codes "reset"))

waits_twice : retry_paced 2 third ≡ record { result = success 0; attempts = 3; pauses = 2 ∷ 4 ∷ [] }
unfolding retry_paced
waits_twice = refl

retry_paced-IsPaced_example : IsPaced third 3 2 0 (retry_paced 2 third)
retry_paced-IsPaced_example = retry_paced-IsPaced third 2

abbrev cut_short : RequestError
cut_short = record {
  is_connect = false;
  is_timeout = false;
  is_request = false;
  causes = other ∷ hyper false false ∷ io false ∷ [];
}

is_transport-any_example : is_transport cut_short ≡ (
    (cut_short.is_connect || cut_short.is_timeout)
    || (not (any is_final (take 8 cut_short.causes))
        && (cut_short.is_request || any is_known (take 8 cut_short.causes))))
is_transport-any_example = is_transport-any cut_short
