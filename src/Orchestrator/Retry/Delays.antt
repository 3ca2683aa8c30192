-- ===== src/Orchestrator/Retry/Delays.antt =====
-- The delays and the calls of src/orchestrator/retry.py.
use xray_vision.Base.{
  ℕ, zero, suc, ◌+◌, ◌*◌, ◌≤◌, ◌<◌, ◌≡◌, refl, min, none, some, List, [], ◌∷◌, Bool, false, arith,
  length, All, ok, Bool-cases, inl, inr,
}
use xray_vision.Orchestrator.Config.{RetryPolicy, validate_retry}
use xray_vision.Orchestrator.Config.Sound.{validate_retry_iff}
use xray_vision.Orchestrator.Retry.{RetrySchedule, from_policy, delay_loop, delays, attempt, run}

abbrev pub sum : List ℕ → ℕ
sum [] = 0
sum (x ∷ xs) = x + sum xs

-- Each delay doubles the one before it, up to the greatest delay.
abbrev pub Doubling : ℕ → List ℕ → Type 0
Doubling cap [] = Unit {0}
Doubling cap (x ∷ []) = Unit {0}
Doubling cap (x ∷ y ∷ ys) = (y ≡ min (x * 2) cap) × Doubling cap (y ∷ ys)

abbrev pub InBounds : ℕ → ℕ → ℕ → Type 0
InBounds lo hi d = (lo ≤ d) × (d ≤ hi)

module _ (s : RetrySchedule) where
  length-delay_loop-le : (n delay elapsed : ℕ) → length (delay_loop s n delay elapsed) ≤ n
  unfolding delay_loop
  length-delay_loop-le zero delay elapsed = omega arith
  length-delay_loop-le (suc n) delay elapsed =
      ground (arith, length-delay_loop-le n (min (delay * 2) s.max_delay_ms) (elapsed + delay))

  length-delay_loop-eq :
      (n delay elapsed : ℕ) → s.max_elapsed_ms ≡ none → length (delay_loop s n delay elapsed) ≡ n
  unfolding delay_loop
  length-delay_loop-eq zero delay elapsed h = omega arith
  length-delay_loop-eq (suc n) delay elapsed h =
      ground (arith, length-delay_loop-eq n (min (delay * 2) s.max_delay_ms) (elapsed + delay) h)

  sum-delay_loop :
      (n delay elapsed limit : ℕ)
      → s.max_elapsed_ms ≡ some limit
      → elapsed ≤ limit
      → elapsed + sum (delay_loop s n delay elapsed) ≤ limit
  unfolding delay_loop
  sum-delay_loop zero delay elapsed limit e h = omega arith
  sum-delay_loop (suc n) delay elapsed limit e h =
      ground (arith, sum-delay_loop n (min (delay * 2) s.max_delay_ms) (elapsed + delay) limit e)

  All-delay_loop :
      (n delay elapsed : ℕ)
      → s.min_delay_ms ≤ delay
      → delay ≤ s.max_delay_ms
      → All (InBounds s.min_delay_ms s.max_delay_ms) (delay_loop s n delay elapsed)
  unfolding delay_loop
  All-delay_loop zero delay elapsed p q = tt
  All-delay_loop (suc n) delay elapsed p q = ground (
    arith,
    All-delay_loop n (min (delay * 2) s.max_delay_ms) (elapsed + delay) (omega arith) (omega arith),
  )

  Doubling-delay_loop :
      (n delay elapsed : ℕ) → Doubling s.max_delay_ms (delay_loop s n delay elapsed)
  unfolding delay_loop
  Doubling-delay_loop zero delay elapsed = tt
  Doubling-delay_loop (suc zero) delay elapsed = ground arith
  Doubling-delay_loop (suc (suc n)) delay elapsed =
      ground (arith, Doubling-delay_loop (suc n) (min (delay * 2) s.max_delay_ms) (elapsed + delay))

-- With a policy that validation accepts there are at most `max_attempts` delays, all of them where
-- no time limit is set; each lies between the least and the greatest delay; each doubles the one
-- before it up to the greatest; and together they do not exceed the time limit.
pub delays_bounds :
    (p : RetryPolicy)
    → validate_retry p ≡ ok tt
    → let ds = delays (from_policy p) in
      (length ds ≤ p.max_attempts)
      × (p.max_elapsed_ms ≡ none → length ds ≡ p.max_attempts)
      × All (InBounds p.min_delay_ms p.max_delay_ms) ds
      × Doubling p.max_delay_ms ds
      × ((limit : ℕ) → p.max_elapsed_ms ≡ some limit → sum ds ≤ limit)
unfolding delays from_policy
delays_bounds p h =
    let v = (validate_retry_iff p).0 h in
    let s = from_policy p in
    (
      length-delay_loop-le s p.max_attempts p.min_delay_ms 0,
      (λ e. length-delay_loop-eq s p.max_attempts p.min_delay_ms 0 e),
      All-delay_loop s p.max_attempts p.min_delay_ms 0 (omega arith) v.delays,
      Doubling-delay_loop s p.max_attempts p.min_delay_ms 0,
      λ limit e.
          omega (arith, sum-delay_loop s p.max_attempts p.min_delay_ms 0 limit e (omega arith)),
    )

delay_loop-none :
    (s : RetrySchedule) (n delay limit : ℕ)
    → s.max_elapsed_ms ≡ some limit
    → limit < delay
    → delay_loop s n delay 0 ≡ []
unfolding delay_loop
delay_loop-none s zero delay limit e h = refl
delay_loop-none s (suc n) delay limit e h = ground arith

-- An accepted policy whose time limit lies below its least delay makes no attempt at all: the run
-- fails and leaves the state on which the action works as it was.
pub run_no_attempt {ℓ} :
    {S : Type ℓ} (p : RetryPolicy) (limit : ℕ) (action : S → S × Bool) (sleeper : ℕ → S → S) (s : S)
    → validate_retry p ≡ ok tt
    → p.max_elapsed_ms ≡ some limit
    → limit < p.min_delay_ms
    → run (from_policy p) action sleeper s ≡ (s, false)
unfolding run delays from_policy attempt
run_no_attempt p limit action sleeper s h e lt =
    rw (delay_loop-none (from_policy p) p.max_attempts p.min_delay_ms limit e lt, attempt) refl

-- The action with a count of its calls, and the sleeper beside it.
abbrev pub counted {ℓ} : {S : Type ℓ} → (S → S × Bool) → ℕ × S → (ℕ × S) × Bool
counted action (n, s) = let (s', done) = action s in ((suc n, s'), done)

abbrev pub beside {ℓ} : {S : Type ℓ} → (ℕ → S → S) → ℕ → ℕ × S → ℕ × S
beside sleeper d (n, s) = (n, sleeper d s)

attempt-calls {ℓ} :
    {S : Type ℓ} (action : S → S × Bool) (sleeper : ℕ → S → S) (ds : List ℕ) (n : ℕ) (s : S)
    → let r = attempt (counted action) (beside sleeper) ds (n, s) in
      (r.0.0 ≤ n + length ds) × (r.1 ≡ false → r.0.0 ≡ n + length ds)
unfolding attempt
attempt-calls action sleeper [] n s = (omega arith, λ _. omega arith)
attempt-calls action sleeper (d ∷ ds) n s =
    let ih = attempt-calls action sleeper ds (suc n) (sleeper d (action s).0) in
    elim (Bool-cases (action s).1) [
      | inl e ↦ rw e (omega arith, λ q. cc)
      | inr e ↦ rw e (omega (arith, ih.0), λ q. omega (arith, ih.1 q))
    ]

-- A run calls its action at most `max_attempts` times, and where it fails, it has called it once
-- for each delay of the schedule.
pub run-calls {ℓ} :
    {S : Type ℓ} (p : RetryPolicy) (action : S → S × Bool) (sleeper : ℕ → S → S) (s : S)
    → let r = run (from_policy p) (counted action) (beside sleeper) (0, s) in
      (r.0.0 ≤ p.max_attempts) × (r.1 ≡ false → r.0.0 ≡ length (delays (from_policy p)))
unfolding run delays from_policy
run-calls p action sleeper s =
    let ds = delays (from_policy p) in
    let c = attempt-calls action sleeper ds 0 s in
    let l = length-delay_loop-le (from_policy p) p.max_attempts p.min_delay_ms 0 in
    (omega (arith, c.0, l), λ q. omega (arith, c.1 q))
