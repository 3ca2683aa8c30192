-- ===== src/AnalysisEngine/Run/Decisions.antt =====
-- The first event of a run, and the symbol and the run id of all of its events, in
-- src/consumers/analysis_engine/engine.py.
use xray_vision.Base.{
  ◌≡◌, refl, List, [], ◌∷◌, ◌++◌, none, Bool, true, false, keep, keep-append, All, All-append,
}
use xray_vision.StateGate.Contracts.{StateGateEvent}
use xray_vision.AnalysisEngine.Contracts.{
  AnalysisEngineEvent, AnalysisEventType, analysis_run_started, analysis_run_skipped,
  artifact_emitted, module_failed, analysis_run_completed, analysis_run_failed, ModuleKind,
}
use xray_vision.AnalysisEngine.Registry.{ModuleRegistry}
use xray_vision.AnalysisEngine.Persistence.{ModuleStateStore}
use xray_vision.AnalysisEngine.Planning.{ExecutionPlan}
use xray_vision.AnalysisEngine.Run.{
  Run, fail_module, emit_artifact, start_run, run_stages, analysis_event,
}
use xray_vision.AnalysisEngine.Run.Closed.{IsClosed, run_module-closed, run_stages-kept}
use xray_vision.AnalysisEngine.Run.Log.{append_nil}

-- An event that starts a run or skips it.
abbrev decides : AnalysisEventType → Bool
decides analysis_run_started = true
decides analysis_run_skipped = true
decides artifact_emitted = false
decides module_failed = false
decides analysis_run_completed = false
decides analysis_run_failed = false

unfoldable pub decisions : List AnalysisEngineEvent → List AnalysisEngineEvent
decisions xs = keep (λ x. decides x.event_type) xs

pub decisions-append :
    (xs ys : List AnalysisEngineEvent) → decisions (xs ++ ys) ≡ decisions xs ++ decisions ys
unfolding decisions
decisions-append xs ys = keep-append (λ x. decides x.event_type) xs ys

-- An event about the run of a gate event.
abbrev pub IsAbout : StateGateEvent → AnalysisEngineEvent → Type 0
IsAbout e x = (x.symbol ≡ e.symbol) × (x.run_id ≡ e.run_id)

abbrev pub IsBegun : StateGateEvent → Run → Type 0
IsBegun e run =
    (decisions run.events ≡ analysis_event e analysis_run_started none ∷ [])
    × All (IsAbout e) run.events

IsBegun-closed : (e : StateGateEvent) → IsClosed e (IsBegun e)
unfolding fail_module emit_artifact decisions keep
IsBegun-closed e = record {
  on_fail = λ d kind detail run p. (
    rw (decisions-append run.events _, append_nil (decisions run.events)) p.0,
    All-append (IsAbout e) run.events _ p.1 ((refl, refl), tt),
  );
  on_emit = λ a run p. (
    rw (decisions-append run.events _, append_nil (decisions run.events)) p.0,
    All-append (IsAbout e) run.events _ p.1 ((refl, refl), tt),
  );
  on_store = λ s run p. p;
}

pub run_stages-IsBegun :
    (registry : ModuleRegistry) (e : StateGateEvent) (plan : ExecutionPlan)
    (stages : List ModuleKind) (records : ModuleStateStore)
    → IsBegun e (run_stages registry e plan stages (start_run e records)).0
unfolding decisions keep
run_stages-IsBegun registry e plan stages records =
    run_stages-kept registry e (IsBegun e) (run_module-closed e (IsBegun e) (IsBegun-closed e)) plan
      stages (start_run e records) (refl, ((refl, refl), tt))
