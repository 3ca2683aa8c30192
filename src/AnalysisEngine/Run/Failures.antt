-- ===== src/AnalysisEngine/Run/Failures.antt =====
-- The list `module_failures` of a run under src/consumers/analysis_engine/engine.py.
use xray_vision.Base.{◌≡◌, ◌≢◌, refl, ap, List, [], ◌∷◌, ◌++◌, All, All-append}
use xray_vision.StateGate.Contracts.{StateGateEvent}
use xray_vision.AnalysisEngine.Contracts.{
  AnalysisEngineEvent, analysis_run_started, artifact_emitted, module_failed,
  analysis_run_completed, ModuleKind,
}
use xray_vision.AnalysisEngine.Registry.{ModuleRegistry}
use xray_vision.AnalysisEngine.Persistence.{ModuleStateStore}
use xray_vision.AnalysisEngine.Planning.{ExecutionPlan}
use xray_vision.AnalysisEngine.Run.{Run, fail_module, emit_artifact, start_run, run_stages}
use xray_vision.AnalysisEngine.Run.Closed.{IsClosed, run_module-closed, run_stages-kept}
use xray_vision.AnalysisEngine.Run.Log.{failed_ids, failed_ids-append, append_nil}

abbrev pub IsUnfinished : List AnalysisEngineEvent → Type 0
IsUnfinished xs = All (λ x. x.event_type ≢ analysis_run_completed) xs

-- The list has the failures of the log, and the log has no end yet.
abbrev pub IsCounted : Run → Type 0
IsCounted run = (run.module_failures ≡ failed_ids run.events) × IsUnfinished run.events

failed_first : module_failed ≢ analysis_run_completed
failed_first h = cc

emitted_first : artifact_emitted ≢ analysis_run_completed
emitted_first h = cc

started_first : analysis_run_started ≢ analysis_run_completed
started_first h = cc

IsCounted-closed : (e : StateGateEvent) → IsClosed e IsCounted
unfolding fail_module emit_artifact failed_ids
IsCounted-closed e = record {
  on_fail = λ d kind detail run p. (
    rw (failed_ids-append run.events _) (ap (λ ids. ids ++ (d.module_id ∷ [])) p.0),
    All-append _ run.events _ p.1 (failed_first, tt),
  );
  on_emit = λ a run p. (
    rw (failed_ids-append run.events _, append_nil (failed_ids run.events)) p.0,
    All-append _ run.events _ p.1 (emitted_first, tt),
  );
  on_store = λ s run p. p;
}

pub run_stages-IsCounted :
    (registry : ModuleRegistry) (e : StateGateEvent) (plan : ExecutionPlan)
    (stages : List ModuleKind) (records : ModuleStateStore)
    → IsCounted (run_stages registry e plan stages (start_run e records)).0
unfolding failed_ids
run_stages-IsCounted registry e plan stages records =
    run_stages-kept registry e IsCounted (run_module-closed e IsCounted (IsCounted-closed e)) plan
      stages (start_run e records) (refl, (started_first, tt))
