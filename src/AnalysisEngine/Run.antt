-- ===== src/AnalysisEngine/Run.antt =====
-- One run of src/consumers/analysis_engine/engine.py, from its context to the end of its stages.
pub mod Closed
pub mod Log
pub mod Order
pub mod Decisions
pub mod Failures
use Prim.Native.String.{◌++◌ as append_str}
use xray_vision.Base.{
  ℕ, ◌==◌, String, Option, none, some, List, [], ◌∷◌, ◌++◌, Bool, true, false, if◌then◌else◌,
  get_or, Result, ok, err, ◌>>=◌, ◌>>◌,
}
use mathlib.Core.Option.{map as option_map}
use xray_vision.Base.Sorting.{sorted_by}
use xray_vision.Base.Values.{Value}
use xray_vision.Base.Dict
use xray_vision.Base.Dict.{Dict}
use xray_vision.RegimeEngine.Contracts.{RegimeOutput, HysteresisState}
use xray_vision.StateGate.Contracts.{StateGateEvent, GatePayload, evaluated_payload}
use xray_vision.AnalysisEngine.Contracts.{
  AnalysisEventType, artifact_emitted, analysis_run_started, module_failed, ArtifactKind,
  signal_artifact, detection, evaluation, output_artifact, ModuleKind, signal, detector, rule,
  output, ModuleDefinition, ArtifactEmittedPayload, ErrorKind, missing_dependency, exception,
  AnalysisEnginePayload, artifact_payload, failure_payload, AnalysisEngineEvent, RunContext,
  ModuleResult, AnalysisModule, AnalysisError, key_error,
}
use xray_vision.AnalysisEngine.Registry.{ModuleRegistry}
use xray_vision.AnalysisEngine.Artifacts
use xray_vision.AnalysisEngine.Artifacts.{
  ArtifactStore, dependencies_available, dependency_payloads,
}
use xray_vision.AnalysisEngine.Persistence.{ModuleStateStore, append, latest_by_symbol_and_module}
use xray_vision.AnalysisEngine.Planning.{ExecutionStep, ExecutionPlan}

-- A run under way: the locals of `consume`, and the store that its modules append to.
pub record Run : Type 0 where
  pub artifact_store : ArtifactStore
  pub module_failures : List String
  pub events : List AnalysisEngineEvent
  pub module_state_store : ModuleStateStore

abbrev pub analysis_event :
    StateGateEvent → AnalysisEventType → Option AnalysisEnginePayload → AnalysisEngineEvent
analysis_event e event_type payload = record {
  schema = "analysis_engine_event";
  schema_version = "1";
  event_type = event_type;
  symbol = e.symbol;
  run_id = e.run_id;
  engine_timestamp_ms = e.engine_timestamp_ms;
  payload = payload;
  engine_mode = e.engine_mode;
  source_gate_reasons = some e.reasons;
}

abbrev payload_output : Option GatePayload → Option RegimeOutput
payload_output (some (evaluated_payload o h)) = o
payload_output _ = none

abbrev payload_hysteresis : Option GatePayload → Option HysteresisState
payload_hysteresis (some (evaluated_payload o h)) = h
payload_hysteresis _ = none

abbrev pub start_run : StateGateEvent → ModuleStateStore → Run
start_run e records = record {
  artifact_store = [];
  module_failures = [];
  events = analysis_event e analysis_run_started none ∷ [];
  module_state_store = records;
}

unfoldable pub build_run_context : StateGateEvent → RunContext
build_run_context e = record {
  symbol = e.symbol;
  run_id = e.run_id;
  engine_timestamp_ms = e.engine_timestamp_ms;
  engine_mode = e.engine_mode;
  gate_status = e.gate_status;
  gate_reasons = e.reasons;
  regime_output = payload_output e.payload;
  hysteresis_state = payload_hysteresis e.payload;
}

abbrev pub expected_artifact_kind : ModuleKind → ArtifactKind
expected_artifact_kind signal = signal_artifact
expected_artifact_kind detector = detection
expected_artifact_kind rule = evaluation
expected_artifact_kind output = output_artifact

abbrev pub kind_text : ArtifactKind → String
kind_text signal_artifact = "signal"
kind_text detection = "detection"
kind_text evaluation = "evaluation"
kind_text output_artifact = "output"

-- The place of a kind in `ARTIFACT_KINDS`, by which two of them are compared.
abbrev pub kind_index : ArtifactKind → ℕ
kind_index signal_artifact = 0
kind_index detection = 1
kind_index evaluation = 2
kind_index output_artifact = 3

abbrev pub is_kind : ArtifactKind → ArtifactKind → Bool
is_kind a b = kind_index a == kind_index b

abbrev invalid_kind : ModuleKind → ArtifactKind → String → String
invalid_kind stage kind module_id = append_str "invalid artifact kind for " (
    append_str module_id (
      append_str ": " (
        append_str (kind_text kind) (
          append_str " (expected ('"
            (append_str (kind_text (expected_artifact_kind stage)) "',))")))))

unfoldable pub validate_artifacts :
    ModuleKind → List ArtifactEmittedPayload → String → Result String Unit
validate_artifacts stage [] module_id = ok tt
validate_artifacts stage (a ∷ others) module_id =
    let rest = validate_artifacts stage others module_id in
    if is_kind a.artifact_kind (expected_artifact_kind stage)
    then rest
    else err (invalid_kind stage a.artifact_kind module_id)

unfoldable pub fail_module : StateGateEvent → ModuleDefinition → ErrorKind → String → Run → Run
fail_module e d kind detail run = record run {
  module_failures = run.module_failures ++ (d.module_id ∷ []);
  events =
      run.events
      ++ (analysis_event e module_failed (
            some (
              failure_payload (record {
                module_id = d.module_id;
                module_kind = d.module_kind;
                error_kind = kind;
                error_detail = detail;
              })))
          ∷ []);
}

unfoldable pub emit_artifact : StateGateEvent → ArtifactEmittedPayload → Run → Run
emit_artifact e a run = record run {
  artifact_store = Artifacts.add run.artifact_store a;
  events = run.events ++ (analysis_event e artifact_emitted (some (artifact_payload a)) ∷ []);
}

unfoldable pub emit_artifacts : StateGateEvent → List ArtifactEmittedPayload → Run → Run
emit_artifacts e [] run = run
emit_artifacts e (a ∷ rest) run = emit_artifacts e rest (emit_artifact e a run)

abbrev pub store_state :
    StateGateEvent → ModuleDefinition → Option String → Option Value → Run → Run
store_state e d (some schema_id) (some payload) run = record run {
  module_state_store = append run.module_state_store (record {
    symbol = e.symbol;
    module_id = d.module_id;
    run_id = e.run_id;
    engine_timestamp_ms = e.engine_timestamp_ms;
    state_schema_id = schema_id;
    state_schema_version = get_or d.state_schema_version "";
    state_payload = payload;
  });
}
store_state e d _ _ run = run

-- The result of a module whose artifacts are of the stage's kind.
unfoldable pub execute_module :
    StateGateEvent → ModuleKind → AnalysisModule → Run → Result String ModuleResult
execute_module e stage m run =
    m.execute (build_run_context e)
      (dependency_payloads run.artifact_store m.definition.dependencies)
      (option_map (λ r. r.state_payload)
        (latest_by_symbol_and_module run.module_state_store e.symbol m.definition.module_id))
    >>= λ r. validate_artifacts stage r.artifacts m.definition.module_id >> ok r

unfoldable pub after_execute :
    StateGateEvent → ModuleDefinition → Result String ModuleResult → Run → Run
after_execute e d (err detail) run = fail_module e d exception detail run
after_execute e d (ok r) run =
    store_state e d d.state_schema_id r.state_payload
      (emit_artifacts e (sorted_by (λ a. a.artifact_name) r.artifacts) run)

unfoldable pub run_module : StateGateEvent → ModuleKind → AnalysisModule → Run → Run
run_module e stage m run =
    if dependencies_available run.artifact_store m.definition.dependencies
    then after_execute e m.definition (execute_module e stage m run) run
    else fail_module e m.definition missing_dependency "dependency not available" run

-- The steps of a stage; the second component is the error that ends the call.
module _ (registry : ModuleRegistry) (e : StateGateEvent) where
  unfoldable pub run_steps : ModuleKind → List ExecutionStep → Run → Run × Option AnalysisError
  run_steps stage [] run = (run, none)
  run_steps stage (s ∷ ss) run = elim (Dict.get registry s.module_id) [
    | none ↦ (run, some (key_error s.module_id))
    | some m ↦ run_steps stage ss (run_module e stage m run)
  ]

  abbrev pub next_stages :
      (Run → Run × Option AnalysisError) → Run × Option AnalysisError → Run × Option AnalysisError
  next_stages next (run, none) = next run
  next_stages next (run, some error) = (run, some error)

  unfoldable pub run_stages : ExecutionPlan → List ModuleKind → Run → Run × Option AnalysisError
  run_stages plan [] run = (run, none)
  run_stages plan (stage ∷ rest) run =
      next_stages (run_stages plan rest) (run_steps stage (plan.steps_by_stage stage) run)
