-- ===== src/Orchestrator/Retry.antt =====
-- src/orchestrator/retry.py. An action changes the state of the world and returns or raises; the
-- Boolean is true where it returned. The sleeper is a function on the same state.
pub mod Delays
use xray_vision.Base.{
  ℕ, zero, suc, ◌+◌, ◌*◌, min, Option, none, some, List, [], ◌∷◌, Bool, true, false, ltb,
  if◌then◌else◌,
}
use xray_vision.Orchestrator.Config.{RetryPolicy}

pub record RetrySchedule : Type 0 where
  pub min_delay_ms : ℕ
  pub max_delay_ms : ℕ
  pub max_attempts : ℕ
  pub max_elapsed_ms : Option ℕ

unfoldable pub from_policy : RetryPolicy → RetrySchedule
from_policy p = record {
  min_delay_ms = p.min_delay_ms;
  max_delay_ms = p.max_delay_ms;
  max_attempts = p.max_attempts;
  max_elapsed_ms = p.max_elapsed_ms;
}

abbrev pub exceeds : ℕ → Option ℕ → Bool
exceeds n none = false
exceeds n (some limit) = ltb limit n

-- The loop of `delays`, over the attempts left, the next delay and the time that has elapsed.
unfoldable pub delay_loop : RetrySchedule → ℕ → ℕ → ℕ → List ℕ
delay_loop s zero delay elapsed = []
delay_loop s (suc n) delay elapsed =
    let rest = delay_loop s n (min (delay * 2) s.max_delay_ms) (elapsed + delay) in
    if exceeds (elapsed + delay) s.max_elapsed_ms then [] else delay ∷ rest

unfoldable pub delays : RetrySchedule → List ℕ
delays s = delay_loop s s.max_attempts s.min_delay_ms 0

-- `Retrier.run` over the delays.
unfoldable pub attempt {ℓ} : {S : Type ℓ} → (S → S × Bool) → (ℕ → S → S) → List ℕ → S → S × Bool
attempt action sleeper [] s = (s, false)
attempt action sleeper (d ∷ ds) s =
    let (s', done) = action s in
    let rest = attempt action sleeper ds (sleeper d s') in if done then (s', true) else rest

unfoldable pub run {ℓ} : {S : Type ℓ} → RetrySchedule → (S → S × Bool) → (ℕ → S → S) → S → S × Bool
run schedule action sleeper = attempt action sleeper (delays schedule)
