-- ===== src/AnalysisEngine/Run/Closed.antt =====
-- Induction over the stages of a run of src/consumers/analysis_engine/engine.py.
use xray_vision.Base.{
  String, Option, none, some, List, [], ◌∷◌, Result, ok, err, inl, inr, Bool-cases, Option-cases,
}
use xray_vision.Base.Sorting.{sorted_by}
use xray_vision.Base.Values.{Value}
use xray_vision.Base.Dict
use xray_vision.StateGate.Contracts.{StateGateEvent}
use xray_vision.AnalysisEngine.Contracts.{
  ModuleKind, ModuleDefinition, ArtifactEmittedPayload, ErrorKind, missing_dependency, exception,
  ModuleResult, AnalysisModule, AnalysisError,
}
use xray_vision.AnalysisEngine.Registry.{ModuleRegistry}
use xray_vision.AnalysisEngine.Artifacts.{dependencies_available}
use xray_vision.AnalysisEngine.Persistence.{ModuleStateStore}
use xray_vision.AnalysisEngine.Planning.{ExecutionStep, ExecutionPlan}
use xray_vision.AnalysisEngine.Run.{
  Run, fail_module, emit_artifact, emit_artifacts, store_state, execute_module, after_execute,
  run_module, run_steps, next_stages, run_stages,
}

module _ (registry : ModuleRegistry) (e : StateGateEvent) (P : Run → Type 0) where
  -- What a module does to a run keeps the property.
  abbrev pub IsKept : Type 0
  IsKept =
      (stage : ModuleKind) (m : AnalysisModule) (run : Run) → P run → P (run_module e stage m run)

  pub run_steps-kept :
      (stage : ModuleKind) (ss : List ExecutionStep) (run : Run)
      → ((m : AnalysisModule) (r : Run) → P r → P (run_module e stage m r))
      → P run
      → P (run_steps registry e stage ss run).0
  unfolding run_steps
  run_steps-kept stage [] run kept p = p
  run_steps-kept stage (s ∷ ss) run kept p = elim (Option-cases (Dict.get registry s.module_id)) [
    | inl q ↦ rw (q, run_steps) p
    | inr (m, q) ↦
        rw (q, run_steps) (run_steps-kept stage ss (run_module e stage m run) kept (kept m run p))
  ]

  next_stages-kept :
      (plan : ExecutionPlan) (next : Run → Run × Option AnalysisError)
      (o : Run × Option AnalysisError)
      → ((r : Run) → P r → P (next r).0)
      → P o.0
      → P (next_stages registry e next o).0
  next_stages-kept plan next (run, none) f p = f run p
  next_stages-kept plan next (run, some error) f p = p

  pub run_stages-kept :
      IsKept
      → (plan : ExecutionPlan) (stages : List ModuleKind) (run : Run) → P run
      → P (run_stages registry e plan stages run).0
  unfolding run_stages
  run_stages-kept kept plan [] run p = p
  run_stages-kept kept plan (stage ∷ rest) run p =
      next_stages-kept plan (run_stages registry e plan rest)
        (run_steps registry e stage (plan.steps_by_stage stage) run)
        (run_stages-kept kept plan rest)
        (run_steps-kept stage (plan.steps_by_stage stage) run (kept stage) p)

-- A property that each of the writes keeps is kept by a module.
pub record IsClosed (e : StateGateEvent) (P : Run → Type 0) : Type 0 where
  pub on_fail :
      (d : ModuleDefinition) (kind : ErrorKind) (detail : String) (run : Run)
      → P run
      → P (fail_module e d kind detail run)
  pub on_emit : (a : ArtifactEmittedPayload) (run : Run) → P run → P (emit_artifact e a run)
  pub on_store :
      (s : ModuleStateStore) (run : Run) → P run → P (record run { module_state_store = s })

module _ (e : StateGateEvent) (P : Run → Type 0) (closed : IsClosed e P) where
  emit_artifacts-closed :
      (xs : List ArtifactEmittedPayload) (run : Run) → P run → P (emit_artifacts e xs run)
  unfolding emit_artifacts
  emit_artifacts-closed [] run p = p
  emit_artifacts-closed (a ∷ xs) run p =
      emit_artifacts-closed xs (emit_artifact e a run) (closed.on_emit a run p)

  pub store_state-closed :
      (d : ModuleDefinition) (i : Option String) (v : Option Value) (run : Run)
      → P run
      → P (store_state e d i v run)
  store_state-closed d none v run p = p
  store_state-closed d (some i) none run p = p
  store_state-closed d (some i) (some v) run p = closed.on_store _ run p

  after_execute-closed :
      (d : ModuleDefinition) (r : Result String ModuleResult) (run : Run)
      → P run
      → P (after_execute e d r run)
  unfolding after_execute
  after_execute-closed d (err detail) run p = closed.on_fail d exception detail run p
  after_execute-closed d (ok r) run p =
      store_state-closed d d.state_schema_id r.state_payload _
        (emit_artifacts-closed (sorted_by (λ a. a.artifact_name) r.artifacts) run p)

  pub run_module-closed :
      (stage : ModuleKind) (m : AnalysisModule) (run : Run) → P run → P (run_module e stage m run)
  unfolding run_module
  run_module-closed stage m run p =
      elim (Bool-cases (dependencies_available run.artifact_store m.definition.dependencies)) [
        | inl b ↦ rw b (after_execute-closed m.definition (execute_module e stage m run) run p)
        | inr b ↦ rw b (closed.on_fail m.definition missing_dependency _ run p)
      ]
