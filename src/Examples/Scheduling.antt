-- ===== src/Examples/Scheduling.antt =====
-- The scheduler, the retries, the lifecycle and the configuration on concrete values.
use xray_vision.Base.{
  ℕ, suc, ◌≡◌, ◌≤◌, refl, Option, none, some, List, [], ◌∷◌, map, Bool, true, false, ok, arith,
  length, All,
}
use xray_vision.Orchestrator.Config.{
  RetryPolicy, validate_retry, require_positive, require_positive_if_set,
}
use xray_vision.Orchestrator.Scheduler.{
  Scheduler, ticked, next_timer_tick, next_tick_ms, ticks, engine_timestamp_ms,
}
use xray_vision.Orchestrator.Scheduler.Ticks.{
  progression, next_boundary, ticks-progression, boundary_timestamps,
}
use xray_vision.Orchestrator.Retry.{from_policy, delays, run, attempt, delay_loop}
use xray_vision.Orchestrator.Retry.Delays.{sum, Doubling, InBounds, delays_bounds, run_no_attempt}
use xray_vision.Orchestrator.Lifecycle.{running}
use xray_vision.Orchestrator.Failure.{
  FailureHandler, Task, ingestion, buffer_append, publish, handle_all,
}
use xray_vision.Orchestrator.Failure.Effects.{IsMarked, outcomes, handle_all-IsMarked}

abbrev boundary_scheduler : Scheduler
boundary_scheduler = record {
  config = record {
    mode = "boundary";
    timer_interval_ms = none;
    boundary_interval_ms = some 100;
    boundary_delay_ms = some 7;
  };
  last_tick_ms = none;
}

boundary_timestamps_example :
    (ts : List ℕ) × (ticks boundary_scheduler (250 ∷ 900 ∷ []) ≡ ok ts)
    × (map (engine_timestamp_ms boundary_scheduler.config) ts
        ≡ progression (next_boundary 250 7 100) 100 2)
boundary_timestamps_example =
    boundary_timestamps boundary_scheduler 250 (900 ∷ []) 100 7 refl refl refl (omega arith) refl

abbrev timer_scheduler : Scheduler
timer_scheduler = record {
  config = record {
    mode = "timer";
    timer_interval_ms = some 50;
    boundary_interval_ms = none;
    boundary_delay_ms = none;
  };
  last_tick_ms = none;
}

first_tick : next_tick_ms timer_scheduler 13 ≡ ok (ticked timer_scheduler 13)
unfolding next_tick_ms next_timer_tick
first_tick = refl

ticks-progression_example : ticks timer_scheduler (13 ∷ 70 ∷ 900 ∷ []) ≡ ok (progression 13 50 3)
ticks-progression_example =
    ticks-progression timer_scheduler 13 (70 ∷ 900 ∷ []) 13 50 refl first_tick

abbrev policy : Option ℕ → RetryPolicy
policy limit = record {
  min_delay_ms = 100;
  max_delay_ms = 300;
  max_attempts = 4;
  max_elapsed_ms = limit;
}

policy_accepted : validate_retry (policy (some 50)) ≡ ok tt
unfolding validate_retry require_positive require_positive_if_set
policy_accepted = refl

longer_accepted : validate_retry (policy (some 500)) ≡ ok tt
unfolding validate_retry require_positive require_positive_if_set
longer_accepted = refl

delays_bounds_example :
    (length (delays (from_policy (policy (some 500)))) ≤ 4)
    × ((policy (some 500)).max_elapsed_ms ≡ none
        → length (delays (from_policy (policy (some 500)))) ≡ 4)
    × All (InBounds 100 300) (delays (from_policy (policy (some 500))))
    × Doubling 300 (delays (from_policy (policy (some 500))))
    × ((limit : ℕ)
        → (policy (some 500)).max_elapsed_ms ≡ some limit
        → sum (delays (from_policy (policy (some 500)))) ≤ limit)
delays_bounds_example = delays_bounds (policy (some 500)) longer_accepted

-- An action that counts and always raises.
abbrev failing : ℕ → ℕ × Bool
failing n = (suc n, false)

abbrev no_sleep : ℕ → ℕ → ℕ
no_sleep d n = n

run_no_attempt_example : run (from_policy (policy (some 50))) failing no_sleep 0 ≡ (0, false)
run_no_attempt_example =
    run_no_attempt (policy (some 50)) 50 failing no_sleep 0 policy_accepted refl (omega arith)

abbrev handler : FailureHandler
handler = record {
  lifecycle = running;
  backpressure = record { ingestion_paused = false; scheduling_paused = false };
}

exhausted : (run (from_policy (policy none)) failing no_sleep 0).1 ≡ false
unfolding run attempt delays delay_loop from_policy
exhausted = refl

abbrev tasks : List (Task ℕ)
tasks =
    record { handler = ingestion; action = failing }
    ∷ record { handler = buffer_append; action = failing }
    ∷ record { handler = publish; action = λ n. (n, true) }
    ∷ []

handle_all-IsMarked_example :
    IsMarked handler
      (outcomes (from_policy (policy none)) no_sleep 0 tasks)
      (handle_all (from_policy (policy none)) no_sleep handler 0 tasks).0
      (handle_all (from_policy (policy none)) no_sleep handler 0 tasks).2
handle_all-IsMarked_example =
    handle_all-IsMarked (from_policy (policy none)) no_sleep tasks handler 0
