-- ===== src/AnalysisEngine/Engine/Summary.antt =====
-- The event that ends a run in src/consumers/analysis_engine/engine.py.
use xray_vision.Base.{
  ◌≡◌, ◌≢◌, refl, sym, String, Option, none, some, List, [], ◌∷◌, All, All-append, All-imp,
}
use xray_vision.Base.Sorting.{sorted_by}
use xray_vision.StateGate.Contracts.{StateGateEvent}
use xray_vision.AnalysisEngine.Contracts.{
  AnalysisEngineEvent, analysis_run_skipped, analysis_run_failed, analysis_run_completed,
  status_payload, AnalysisError, RunStatus, success, partial, failed,
}
use xray_vision.AnalysisEngine.Planning.{stage_order}
use xray_vision.AnalysisEngine.Run.{Run}
use xray_vision.AnalysisEngine.Run.Log.{failed_ids, failed_ids-append, append_nil}
use xray_vision.AnalysisEngine.Run.Failures.{IsCounted, IsUnfinished, run_stages-IsCounted}
use xray_vision.AnalysisEngine.Engine.{
  mark, AnalysisEngine, Outcome, status_of, completed_event, complete, given, consume,
}
use xray_vision.AnalysisEngine.Engine.Cases.{stages_of, consume-cases}

-- Success is a run without failures, and partial is one with some.
abbrev pub StatusFits : RunStatus → List String → Type 0
StatusFits success ids = ids ≡ []
StatusFits partial ids = ids ≢ []
StatusFits failed ids = ⊥

status_of-StatusFits : (ids : List String) → StatusFits (status_of ids) ids
status_of-StatusFits [] = refl
status_of-StatusFits (k ∷ ks) = λ q. cc

-- The summary of a run whose failures are the given ones.
abbrev pub IsSummary : List String → AnalysisEngineEvent → Type 0
IsSummary ids x =
    x.event_type ≡ analysis_run_completed
    → (status : RunStatus) × (x.payload
        ≡ some
            (status_payload (record { status = status; module_failures = sorted_by (λ k. k) ids })))
      × StatusFits status ids

abbrev IsSummed : AnalysisEngine × Outcome → Type 0
IsSummed r = All (IsSummary (failed_ids (given r.1))) (given r.1)

not_ended :
    (ids : List String) (xs : List AnalysisEngineEvent) → IsUnfinished xs → All (IsSummary ids) xs
not_ended ids xs h = All-imp xs (λ x n q. absurd (n q)) h

complete-IsSummed :
    (a : AnalysisEngine) (e : StateGateEvent) (o : Run × Option AnalysisError)
    → IsCounted o.0
    → IsSummed (complete a e o)
unfolding failed_ids completed_event
complete-IsSummed a e (run, some error) c = tt
complete-IsSummed a e (run, none) c =
    rw
      (
        failed_ids-append run.events (completed_event e run.module_failures ∷ []),
        append_nil (failed_ids run.events),
        sym c.0,
      )
      (All-append (IsSummary run.module_failures) run.events _
        (not_ended run.module_failures run.events c.1)
        (
          (λ _. (status_of run.module_failures, refl, status_of-StatusFits run.module_failures)),
          tt,
        ))

skipped_type : analysis_run_skipped ≢ analysis_run_completed
skipped_type h = cc

failed_type : analysis_run_failed ≢ analysis_run_completed
failed_type h = cc

-- In what one call of the engine gives out, an event that completes a run lists the ids of exactly
-- those modules, sorted, for which the call has given out a failure, and its status is success if
-- there are none and partial otherwise.
pub consume-IsSummary :
    (a : AnalysisEngine) (e : StateGateEvent)
    → All (IsSummary (failed_ids (given (consume a e).1))) (given (consume a e).1)
unfolding failed_ids
consume-IsSummary a e =
    consume-cases a e IsSummed tt (λ h t. ((λ q. absurd (failed_type q)), tt))
      (λ f s. ((λ q. absurd (skipped_type q)), tt)) (λ f. ((λ q. absurd (failed_type q)), tt))
      (λ f s plan p.
        complete-IsSummed (mark a e.run_id) e (stages_of a e plan)
          (run_stages-IsCounted a.registry e plan stage_order a.state.module_state_store))
