-- ===== src/Runtime/Due/Replayed.antt =====
-- The runs of src/runtime/wiring.py against their replay by src/orchestrator/replay.py.
use xray_vision.Base.{
  ◌≡◌, ◌≢◌, refl, sym, ◌∙◌, ℕ, String, Option, none, some, List, [], ◌∷◌, true, Result, ok, err,
  inl, inr, Result-cases, Holds, is_some, ◌>>=◌, ◌⊎◌,
}
use xray_vision.Base.Dict.{Dict}
use xray_vision.MarketData.Contracts.{RawMarketEvent}
use xray_vision.RegimeEngine.Contracts.{RegimeOutput, HysteresisState}
use xray_vision.Orchestrator.Errors.{Error}
use xray_vision.Orchestrator.Contracts.{
  EngineMode, truth, hysteresis, mode_eq, EngineRunRecord, started, OrchestratorEvent,
}
use xray_vision.Orchestrator.EngineRunner.{
  EngineRunResult, RunError, store_required, monotonicity_violation, persistence_failure,
  unsupported_mode, pipeline_failed,
}
use xray_vision.Orchestrator.Publisher.{build_engine_run_completed, build_engine_run_failed}
use xray_vision.Orchestrator.Sequencing.{Publisher, publish}
use xray_vision.Orchestrator.Replay.{
  EngineReturn, run_result, ReplayError, Replayed, lift, raw_events_for_cut, counts_by_event_type,
  fields_of, complete, decide, with_return, after_engine, fail, after_snapshot, by_status,
}
use xray_vision.Runtime.Publishing.{
  RunOutcome, snapshot_failed, untrusted, engine_failed, returned, decision_events, outcome_events,
}
use xray_vision.Runtime.Due.{
  OrchestratorRuntime, Flow, goes_on, returns, raises, Services, engine_outcome, publish_each,
  end_run, finish_run, with_raw, with_started, snapshot_outcome,
}
use xray_vision.Runtime.Due.Failures.{has_engine_failure, HasFailed, failure-right, sink-publish}

-- The engine gives a hysteresis state in hysteresis mode, and none in truth mode.
abbrev pub IsFit : EngineMode → Result RunError EngineRunResult → Type 0
IsFit mode r = Holds (λ x. is_some x.hysteresis_state ≡ mode_eq mode hysteresis) r

abbrev returned_as : Result RunError EngineRunResult → Result RunError EngineReturn
returned_as (ok x) = ok (run_result x)
returned_as (err e) = err e

raised : (x : Error) → raises x ≢ goes_on
raised x h = cc

stopped : returns ≢ goes_on
stopped h = cc

reported :
    (p : Publisher) (e : OrchestratorEvent) (q : Publisher)
    → publish p e ≡ ok q
    → has_engine_failure (e ∷ []) ≡ true
    → HasFailed q
reported p e q g h = rw (sink-publish p e q g) (failure-right p.sink (e ∷ []) h)

module _ {S Snapshot : Type 0} (services : Services S Snapshot) where
  -- The engine of the runtime as the callable of the replay.
  abbrev pub callable : S → Snapshot → S × Result RunError EngineReturn
  callable s snapshot = let (t, r) = services.run_engine s snapshot in (t, returned_as r)

  -- The replay has come to the state of the runtime, or the runtime has reported a failure.
  abbrev IsMatched : OrchestratorRuntime S → Result ReplayError (Replayed S) → Type 0
  IsMatched o r =
      (r ≡ ok (record { engine = o.engine; published = o.publisher })) ⊎ HasFailed o.publisher

  -- Where the runtime goes on, it is matched.
  abbrev Follows : OrchestratorRuntime S × Flow → Result ReplayError (Replayed S) → Type 0
  Follows x r = x.1 ≡ goes_on → IsMatched x.0 r

  abbrev GoesOn : RunOutcome → Type 0
  GoesOn outcome =
      (o : OrchestratorRuntime S) (p : Publisher)
      → end_run services o outcome (p, none) ≡ (record o { publisher = p }, goes_on)

  refused :
      (o : OrchestratorRuntime S) (outcome : RunOutcome) (p : Publisher) (x : Error)
      → (end_run services o outcome (p, some x)).1 ≡ raises x
  refused o (snapshot_failed d) p x = refl
  refused o untrusted p x = refl
  refused o (engine_failed d) p x = refl
  refused o (returned y h) p x = refl

  -- An event that is refused ends the call.
  refused-Follows :
      (o : OrchestratorRuntime S) (outcome : RunOutcome) (p : Publisher) (x : Error)
      (r : Result ReplayError (Replayed S))
      → Follows (end_run services o outcome (p, some x)) r
  refused-Follows o outcome p x r h = absurd (raised x (sym (refused o outcome p x) ∙ h))

  one-Follows :
      (o : OrchestratorRuntime S) (p : Publisher) (e : OrchestratorEvent) (outcome : RunOutcome)
      → GoesOn outcome
      → Follows
          (end_run services o outcome (publish_each p (e ∷ [])))
          (lift (publish p e) >>= λ q. ok (record { engine = o.engine; published = q }))
  unfolding publish_each
  one-Follows o p e outcome h = elim (Result-cases (publish p e)) [
    | inl (q, g) ↦ rw (g, publish_each, h o q) (λ _. inl refl)
    | inr (x, g) ↦ rw (g, publish_each) (refused-Follows o outcome p x _)
  ]

  two-Follows :
      (o : OrchestratorRuntime S) (p : Publisher) (d e : OrchestratorEvent) (outcome : RunOutcome)
      → GoesOn outcome
      → Follows (end_run services o outcome (publish_each p (d ∷ e ∷ []))) (
          lift (publish p d) >>= λ q.
          (lift (publish q e) >>= λ u. ok (record { engine = o.engine; published = u })))
  unfolding publish_each
  two-Follows o p d e outcome h = elim (Result-cases (publish p d)) [
    | inl (q, g) ↦ rw (g, publish_each) (one-Follows o q e outcome h)
    | inr (x, g) ↦ rw (g, publish_each) (refused-Follows o outcome p x _)
  ]

  -- A failure of the engine is reported.
  failing :
      (o : OrchestratorRuntime S) (p : Publisher) (r : EngineRunRecord) (counts : Dict ℕ)
      (detail : String) (y : Result ReplayError (Replayed S))
      → Follows
          (end_run services o (engine_failed detail) (
            publish_each p (
              build_engine_run_failed
                (fields_of r)
                r.engine_mode
                "engine_failure"
                detail
                (some counts)
              ∷ [])))
          y
  unfolding publish_each has_engine_failure build_engine_run_failed
  failing o p r counts detail y =
      let e =
        build_engine_run_failed (fields_of r) r.engine_mode "engine_failure" detail (some counts) in
      elim (Result-cases (publish p e)) [
        | inl (q, g) ↦ rw (g, publish_each) (λ _. inr (reported p e q g refl))
        | inr (x, g) ↦ rw (g, publish_each) (refused-Follows o (engine_failed detail) p x y)
      ]

  -- What follows the return of the engine, by its mode and its state.
  return-Follows :
      (mode : EngineMode) (h : Option HysteresisState) (o : OrchestratorRuntime S) (p : Publisher)
      (r : EngineRunRecord) (counts : Dict ℕ) (output : RegimeOutput)
      → is_some h ≡ mode_eq mode hysteresis
      → Follows
          (end_run services o (returned output h) (
            publish_each p (
              decision_events (fields_of r) (some counts) h (
                build_engine_run_completed (fields_of r) r.engine_mode output (some counts) ∷ []))))
          (with_return services.build_snapshot callable mode o.engine p r counts
            (run_result (record { regime_output = output; hysteresis_state = h })))
  unfolding complete decide
  return-Follows truth none o p r counts output fit =
      one-Follows o p _ (returned output none) (λ _ _. refl)
  return-Follows truth (some h) o p r counts output fit = absurd cc
  return-Follows hysteresis none o p r counts output fit = absurd cc
  return-Follows hysteresis (some h) o p r counts output fit =
      two-Follows o p _ _ (returned output (some h)) (λ _ _. refl)

  engine-Follows :
      (o : OrchestratorRuntime S) (p : Publisher) (r : EngineRunRecord) (counts : Dict ℕ)
      (x : Result RunError EngineRunResult)
      → IsFit r.engine_mode x
      → Follows
          (end_run services o (engine_outcome x) (
            publish_each p
              (outcome_events (fields_of r) r.engine_mode (some counts) (engine_outcome x))))
          (after_engine services.build_snapshot callable p r counts (o.engine, returned_as x))
  unfolding outcome_events publish_each
  engine-Follows o p r counts (ok x) fit =
      return-Follows r.engine_mode x.hysteresis_state o p r counts x.regime_output fit
  engine-Follows o p r counts (err persistence_failure) fit = λ h. absurd (stopped h)
  engine-Follows o p r counts (err monotonicity_violation) fit = λ h. absurd (stopped h)
  engine-Follows o p r counts (err store_required) fit = failing o p r counts _ _
  engine-Follows o p r counts (err unsupported_mode) fit = failing o p r counts _ _
  engine-Follows o p r counts (err (pipeline_failed detail)) fit = failing o p r counts _ _

  snapshot-Follows :
      (o : OrchestratorRuntime S) (r : EngineRunRecord) (raw : List RawMarketEvent)
      (x : Result String Snapshot)
      → ((y : Snapshot) → IsFit r.engine_mode (services.run_engine o.engine y).1)
      → Follows (finish_run services o r raw (snapshot_outcome services o.engine x)) (
          after_snapshot services.build_snapshot callable o.engine o.publisher r
            (counts_by_event_type raw)
            x)
  unfolding finish_run outcome_events fail
  snapshot-Follows o r raw (err detail) fit =
      one-Follows o o.publisher _ (snapshot_failed detail) (λ _ _. refl)
  snapshot-Follows o r raw (ok y) fit =
      engine-Follows (record o { engine = (services.run_engine o.engine y).0 }) o.publisher r
        (counts_by_event_type raw) (services.run_engine o.engine y).1 (fit y)

  raw-Follows :
      (o : OrchestratorRuntime S) (r : EngineRunRecord) (raw : Result Error (List RawMarketEvent))
      → ((y : Snapshot) → IsFit r.engine_mode (services.run_engine o.engine y).1)
      → Follows (with_raw services o r raw) (
          lift raw >>= λ w.
          by_status services.build_snapshot callable started o.engine o.publisher r w)
  raw-Follows o r (err x) fit = λ h. absurd (raised x h)
  raw-Follows o r (ok raw) fit = snapshot-Follows o r raw _ fit

  pub started-Follows :
      (o : OrchestratorRuntime S) (r : EngineRunRecord) (p : Result Error Publisher)
      → ((y : Snapshot) → IsFit r.engine_mode (services.run_engine o.engine y).1)
      → Follows (with_started services o r p) (
          lift (raw_events_for_cut o.buffer r.symbol r.cut_start_ingest_seq r.cut_end_ingest_seq)
          >>= λ w.
              (lift p >>= λ q. by_status services.build_snapshot callable started o.engine q r w))
  started-Follows o r (err x) fit = λ h. absurd (raised x h)
  started-Follows o r (ok p) fit = raw-Follows (record o { publisher = p }) r _ fit
