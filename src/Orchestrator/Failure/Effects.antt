-- ===== src/Orchestrator/Failure/Effects.antt =====
-- What the handlers of src/orchestrator/failure_handling.py leave behind.
use xray_vision.Base.{
  ℕ, ◌≡◌, refl, List, [], ◌∷◌, Bool, true, false, ◌||◌, Result, ok, err, if◌then◌else◌, arith, map,
  ap, inl, inr, Bool-cases,
}
use xray_vision.Orchestrator.Errors.{
  Error, ingestion_failure, buffer_append_failure, engine_run_failure, publish_failure,
}
use xray_vision.Orchestrator.Lifecycle.{degraded, degrade}
use xray_vision.Orchestrator.Retry.{RetrySchedule, run}
use xray_vision.Orchestrator.Failure.{
  FailureHandler, Handler, ingestion, buffer_append, engine_run, publish, Task, handle_all,
  handle_ingestion, handle_buffer_append, handle_engine_run, handle_publish,
}

-- What a call raises, by whether its retries have succeeded.
abbrev pub raised_by : Handler × Bool → Result Error Unit
raised_by (h, true) = ok tt
raised_by (ingestion, false) = err ingestion_failure
raised_by (buffer_append, false) = err buffer_append_failure
raised_by (engine_run, false) = err engine_run_failure
raised_by (publish, false) = err publish_failure

-- Whether some buffer append, or some publish, has failed.
abbrev pub append_failed : List (Handler × Bool) → Bool
append_failed [] = false
append_failed ((buffer_append, false) ∷ rs) = true
append_failed (r ∷ rs) = append_failed rs

abbrev pub publish_failed : List (Handler × Bool) → Bool
publish_failed [] = false
publish_failed ((publish, false) ∷ rs) = true
publish_failed (r ∷ rs) = publish_failed rs

-- The handler `o` with its results, after calls with the given outcomes on `h`.
abbrev pub IsMarked :
    FailureHandler → List (Handler × Bool) → FailureHandler → List (Result Error Unit) → Type 0
IsMarked h outcomes o results =
    (results ≡ map raised_by outcomes)
    × (o.lifecycle ≡ (if append_failed outcomes then degraded else h.lifecycle))
    × (o.backpressure.ingestion_paused
        ≡ (append_failed outcomes || h.backpressure.ingestion_paused))
    × (o.backpressure.scheduling_paused
        ≡ (publish_failed outcomes || h.backpressure.scheduling_paused))

IsMarked-cons :
    (k : Handler) (b : Bool) (h h' o : FailureHandler) (outcomes : List (Handler × Bool))
    (results : List (Result Error Unit))
    → IsMarked h ((k, b) ∷ []) h' (raised_by (k, b) ∷ [])
    → IsMarked h' outcomes o results
    → IsMarked h ((k, b) ∷ outcomes) o (raised_by (k, b) ∷ results)
IsMarked-cons ingestion b h h' o outcomes results (r, l, i, p) (rs, ls, is, ps) =
    (ap (λ l. raised_by (ingestion, b) ∷ l) rs, ground arith, ground arith, ground arith)
IsMarked-cons buffer_append true h h' o outcomes results (r, l, i, p) (rs, ls, is, ps) =
    (ap (λ l. raised_by (buffer_append, true) ∷ l) rs, ground arith, ground arith, ground arith)
IsMarked-cons buffer_append false h h' o outcomes results (r, l, i, p) (rs, ls, is, ps) =
    (ap (λ l. raised_by (buffer_append, false) ∷ l) rs, ground arith, ground arith, ground arith)
IsMarked-cons engine_run b h h' o outcomes results (r, l, i, p) (rs, ls, is, ps) =
    (ap (λ l. raised_by (engine_run, b) ∷ l) rs, ground arith, ground arith, ground arith)
IsMarked-cons publish true h h' o outcomes results (r, l, i, p) (rs, ls, is, ps) =
    (ap (λ l. raised_by (publish, true) ∷ l) rs, ground arith, ground arith, ground arith)
IsMarked-cons publish false h h' o outcomes results (r, l, i, p) (rs, ls, is, ps) =
    (ap (λ l. raised_by (publish, false) ∷ l) rs, ground arith, ground arith, ground arith)

module _ {ℓ} {S : Type ℓ} (schedule : RetrySchedule) (sleeper : ℕ → S → S) where
  -- The outcomes of the retries, task by task.
  abbrev pub outcomes : S → List (Task S) → List (Handler × Bool)
  outcomes s [] = []
  outcomes s (t ∷ ts) =
      let (s', b) = run schedule t.action sleeper s in (t.handler, b) ∷ outcomes s' ts

  abbrev AreMarked : List (Task S) → FailureHandler → S → Type 0
  AreMarked ts h s =
      let o = handle_all schedule sleeper h s ts in IsMarked h (outcomes s ts) o.0 o.2

  handle-AreMarked :
      (k : Handler) (f : S → S × Bool) (ts : List (Task S)) (h : FailureHandler) (s : S)
      → ((h' : FailureHandler) → AreMarked ts h' (run schedule f sleeper s).0)
      → AreMarked (record { handler = k; action = f } ∷ ts) h s
  unfolding handle_all handle_ingestion handle_buffer_append handle_engine_run handle_publish
      degrade
  handle-AreMarked ingestion f ts h s later = elim (Bool-cases (run schedule f sleeper s).1) [
    | inl b ↦ rw b (IsMarked-cons ingestion true h h _ _ _ (refl, refl, refl, refl) (later h))
    | inr b ↦ rw b (IsMarked-cons ingestion false h (h) _ _ _ (refl, refl, refl, refl) (later (h)))
  ]
  handle-AreMarked buffer_append f ts h s later = elim (Bool-cases (run schedule f sleeper s).1) [
    | inl b ↦ rw b (IsMarked-cons buffer_append true h h _ _ _ (refl, refl, refl, refl) (later h))
    | inr b ↦ rw b (
        IsMarked-cons buffer_append false h
          (record {
            lifecycle = degraded;
            backpressure = record h.backpressure { ingestion_paused = true };
          })
          _ _ _ (refl, refl, refl, refl)
          (later (record {
            lifecycle = degraded;
            backpressure = record h.backpressure { ingestion_paused = true };
          })))
  ]
  handle-AreMarked engine_run f ts h s later = elim (Bool-cases (run schedule f sleeper s).1) [
    | inl b ↦ rw b (IsMarked-cons engine_run true h h _ _ _ (refl, refl, refl, refl) (later h))
    | inr b ↦ rw b (IsMarked-cons engine_run false h (h) _ _ _ (refl, refl, refl, refl) (later (h)))
  ]
  handle-AreMarked publish f ts h s later = elim (Bool-cases (run schedule f sleeper s).1) [
    | inl b ↦ rw b (IsMarked-cons publish true h h _ _ _ (refl, refl, refl, refl) (later h))
    | inr b ↦ rw b (
        IsMarked-cons publish false h
          (record h { backpressure = record h.backpressure { scheduling_paused = true } }) _ _ _
          (refl, refl, refl, refl)
          (later (record h { backpressure = record h.backpressure { scheduling_paused = true } })))
  ]

  -- Whatever actions are given to the four handlers, one after the other: a call raises the
  -- exception of its handler exactly where its retries fail. Afterwards the orchestrator is
  -- degraded if a buffer append has failed, and else as it was; ingestion is paused if it was or a
  -- buffer append has failed, and scheduling if it was or a publish has failed.
  pub handle_all-IsMarked :
      (ts : List (Task S)) (h : FailureHandler) (s : S)
      → let o = handle_all schedule sleeper h s ts in IsMarked h (outcomes s ts) o.0 o.2
  unfolding handle_all
  handle_all-IsMarked [] h s = (refl, refl, refl, refl)
  handle_all-IsMarked (t ∷ ts) h s =
      handle-AreMarked t.handler t.action ts h s
        (λ h'. handle_all-IsMarked ts h' (run schedule t.action sleeper s).0)
