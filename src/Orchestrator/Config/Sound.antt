-- ===== src/Orchestrator/Config/Sound.antt =====
-- The validation of retry policies in src/orchestrator/config.py, read as a predicate.
use mathlib.Core.Logic.{◌↔◌}
use xray_vision.Base.{refl, ℕ, ◌≤◌, ◌<◌, ◌≡◌, Option, none, some, ok, arith}
use xray_vision.Orchestrator.Config.{RetryPolicy, validate_retry, require_positive_if_set}

abbrev pub PositiveIfSet : Option ℕ → Type 0
PositiveIfSet none = Unit {0}
PositiveIfSet (some v) = 0 < v

pub record IsValidRetry (r : RetryPolicy) : Type 0 where
  pub min_positive : 0 < r.min_delay_ms
  pub delays : r.min_delay_ms ≤ r.max_delay_ms
  pub attempts : 0 < r.max_attempts
  pub elapsed : PositiveIfSet r.max_elapsed_ms

require_positive_if_set_iff : (o : Option ℕ) → (require_positive_if_set o ≡ ok tt) ↔ PositiveIfSet o
unfolding require_positive_if_set
require_positive_if_set_iff none = (λ _. tt, λ _. refl)
require_positive_if_set_iff (some v) = (λ h. ground arith, λ h. ground arith)

IsValidRetry-of_ok : (r : RetryPolicy) → validate_retry r ≡ ok tt → IsValidRetry r
unfolding validate_retry
IsValidRetry-of_ok r h = record {
  min_positive = ground arith;
  delays = ground arith;
  attempts = ground arith;
  elapsed = (require_positive_if_set_iff r.max_elapsed_ms).0 (ground arith);
}

ok-of_IsValidRetry : (r : RetryPolicy) → IsValidRetry r → validate_retry r ≡ ok tt
unfolding validate_retry
ok-of_IsValidRetry r v = ground (arith, (require_positive_if_set_iff r.max_elapsed_ms).1 v.elapsed)

-- A retry policy is accepted exactly if its least delay and its attempts are positive, the delays
-- do not cross, and the limit on the elapsed time, where one is set, is positive.
pub validate_retry_iff : (r : RetryPolicy) → (validate_retry r ≡ ok tt) ↔ IsValidRetry r
validate_retry_iff r = (IsValidRetry-of_ok r, ok-of_IsValidRetry r)
