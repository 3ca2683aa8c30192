-- ===== src/Orchestrator/Failure.antt =====
-- src/orchestrator/failure_handling.py. The handler's own state is beside that of the world on
-- which the actions run; a handler that raises has written what it wrote before.
pub mod Effects
use xray_vision.Base.{ℕ, List, [], ◌∷◌, Bool, true, false, Result, ok, err}
use xray_vision.Orchestrator.Errors.{
  Error, ingestion_failure, buffer_append_failure, engine_run_failure, publish_failure,
}
use xray_vision.Orchestrator.Lifecycle.{OrchestratorState, degrade}
use xray_vision.Orchestrator.Retry.{RetrySchedule, run}

pub record BackpressureState : Type 0 where
  pub ingestion_paused : Bool
  pub scheduling_paused : Bool

pub record FailureHandler : Type 0 where
  pub lifecycle : OrchestratorState
  pub backpressure : BackpressureState

-- The handlers, and an action that is given to one of them.
pub data Handler : Type 0 where
  ingestion buffer_append engine_run publish : Handler

pub record Task {ℓ} (S : Type ℓ) : Type ℓ where
  pub handler : Handler
  pub action : S → S × Bool

-- What a handler leaves: its state, the world, and whether it raised.
abbrev pub Outcome {ℓ} : Type ℓ → Type ℓ
Outcome S = FailureHandler × S × Result Error Unit

module _ {ℓ} {S : Type ℓ} (schedule : RetrySchedule) (sleeper : ℕ → S → S) where
  abbrev pub settle :
      (FailureHandler → FailureHandler) → Error → FailureHandler → S × Bool → Outcome S
  settle on_failure e h (s, true) = (h, s, ok tt)
  settle on_failure e h (s, false) = (on_failure h, s, err e)

  unfoldable pub handle_ingestion : (S → S × Bool) → FailureHandler → S → Outcome S
  handle_ingestion action h s = settle (λ h. h) ingestion_failure h (run schedule action sleeper s)

  unfoldable pub handle_buffer_append : (S → S × Bool) → FailureHandler → S → Outcome S
  handle_buffer_append action h s =
      settle
        (λ h. record {
          lifecycle = degrade h.lifecycle;
          backpressure = record h.backpressure { ingestion_paused = true };
        })
        buffer_append_failure h (run schedule action sleeper s)

  unfoldable pub handle_engine_run : (S → S × Bool) → FailureHandler → S → Outcome S
  handle_engine_run action h s =
      settle (λ h. h) engine_run_failure h (run schedule action sleeper s)

  unfoldable pub handle_publish : (S → S × Bool) → FailureHandler → S → Outcome S
  handle_publish action h s =
      settle (λ h. record h { backpressure = record h.backpressure { scheduling_paused = true } })
        publish_failure h (run schedule action sleeper s)

  abbrev pub handle : Task S → FailureHandler → S → Outcome S
  handle t = elim t.handler [
    | ingestion ↦ handle_ingestion t.action
    | buffer_append ↦ handle_buffer_append t.action
    | engine_run ↦ handle_engine_run t.action
    | publish ↦ handle_publish t.action
  ]

  -- Tasks one after the other, with what each call gave or raised.
  unfoldable pub handle_all :
      FailureHandler → S → List (Task S) → FailureHandler × S × List (Result Error Unit)
  handle_all h s [] = (h, s, [])
  handle_all h s (t ∷ ts) =
      let (h', s', r) = handle t h s in
      let (h'', s'', rs) = handle_all h' s' ts in (h'', s'', r ∷ rs)
