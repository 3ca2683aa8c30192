-- ===== src/Examples/Analysis.antt =====
-- The analysis engine on concrete modules and events.
use xray_vision.Base.{
  ℕ, suc, contains, add, keep, to_set, ◌≡◌, ◌≢◌, refl, String, Option, none, some, List, [], ◌∷◌,
  true, Result, ok, err, All,
}
use xray_vision.Base.Dict
use xray_vision.Base.Sorting.{sorted_by, insert_by}
use xray_vision.Base.Dict.{Dict}
use xray_vision.Base.Values.{Value}
use xray_vision.Orchestrator.Contracts.{truth}
use xray_vision.StateGate.Contracts.{
  StateGateEvent, GateEventType, gate_evaluated, state_gate_halted, GateStatus, gate_open,
  gate_closed, ready, completed_input,
}
use xray_vision.StateGate.Assembly.Once.{Pairwise}
use xray_vision.StateGate.Processor.{process_assembled}
use xray_vision.StateGate.Processor
use xray_vision.StateGate.Store.{open_store}
use xray_vision.AnalysisEngine.Contracts.{
  ArtifactKind, signal_artifact, ModuleKind, signal, detector, ModuleDependency, ModuleDefinition,
  ArtifactEmittedPayload, RunContext, ModuleResult, AnalysisModule, out_of_fuel,
}
use xray_vision.AnalysisEngine.Registry.{
  ModuleRegistry, build_registry, register_all, default_ids, check_ids, check_dependencies,
  validate_missing_dependencies,
}
use xray_vision.AnalysisEngine.Cycles.{
  validate_cycles, validate_dependencies, dfs, visit_dependencies, visit_ids,
}
use xray_vision.AnalysisEngine.Cycles.Verdict.{IsVerdict, validate_cycles-IsVerdict}
use xray_vision.AnalysisEngine.Config.{
  AnalysisEngineConfig, validate_config, require_known, validate_module_configs,
  validate_symbol_configs,
}
use xray_vision.AnalysisEngine.Planning.{
  ExecutionPlan, build_execution_plan, build_stage, build_stages, by_id, check_stages,
  dependents_of, free_ids, indegree_of, lookup_all, order_loop, order_stage, release, select,
  stage_dependencies, validate_stage_dependencies, step_of, stages, stage_order, order_ids,
}
use xray_vision.AnalysisEngine.Planning.Queue.{order_ids-total}
use xray_vision.AnalysisEngine.Run.{
  run_stages, start_run, run_steps, run_module, after_execute, execute_module, validate_artifacts,
  fail_module, emit_artifacts, emit_artifact, build_run_context,
}
use xray_vision.AnalysisEngine.Artifacts
use xray_vision.AnalysisEngine.Artifacts.{dependencies_available, dependency_payloads, same_key}
use xray_vision.AnalysisEngine.Persistence.{
  has_processed, mark_processed, latest_by_symbol_and_module, append,
}
use xray_vision.AnalysisEngine.Engine.Cases.{IsFresh}
use xray_vision.AnalysisEngine.Run.Log.{emitted, failed_ids, IsLogged, run_stages-IsLogged}
use xray_vision.AnalysisEngine.Run.Order.{NotLater, emitted-in_order}
use xray_vision.AnalysisEngine.Run.Decisions.{decisions}
use xray_vision.AnalysisEngine.Engine.{
  AnalysisEngine, build_plans, symbol_plans, mark, plan_for_symbol, run_plan, completed_event,
  start, given, consume, consume_all,
}
use xray_vision.AnalysisEngine.Engine.Summary.{IsSummary, consume-IsSummary}
use xray_vision.AnalysisEngine.Engine.Sequences.{IsOtherRun, decided_once, silent_after_halt}
use xray_vision.AnalysisEngine.Engine.Gating.{IsCleared, Starts, gated_run-Starts}
use xray_vision.AnalysisEngine.Engine.Completion.{IsAnswered, fresh-IsAnswered}
use xray_vision.Runtime.Subscriptions.{DashboardOps, RuntimeWiring, deliver_all}
use xray_vision.Runtime.Subscriptions.Quiet.{IsQuiet}
use xray_vision.Runtime.Subscriptions.Pipeline.{deliver_all-in_turn}
use xray_vision.Runtime.Due.{create_runtime}
use xray_vision.Orchestrator.Config.{SchedulerConfig}
use xray_vision.Orchestrator.Contracts.{truth}
use xray_vision.Examples.Gate

abbrev definition_of : String → ModuleKind → List ModuleDependency → ModuleDefinition
definition_of id kind deps = record {
  module_id = id;
  module_kind = kind;
  module_version = "1";
  dependencies = deps;
  artifact_schemas = [];
  config_schema_id = "c";
  config_schema_version = "1";
  enabled_by_default = true;
  state_schema_id = some "s";
  state_schema_version = none;
}

abbrev emitting :
    String
    → ArtifactKind
    → RunContext
    → Dict ArtifactEmittedPayload
    → Option Value
    → Result String ModuleResult
emitting id kind context deps state = ok (record {
  artifacts =
      record {
        artifact_kind = kind;
        module_id = id;
        artifact_name = "a";
        artifact_schema = "x";
        artifact_schema_version = "1";
        payload = Value.null;
      }
      ∷ [];
  state_payload = some (Value.bool true);
})

-- The artifact that the second module waits for.
abbrev on_trend : ModuleDependency
on_trend = record { module_id = "trend"; artifact_name = "a" }

abbrev trend : AnalysisModule
trend = record {
  definition = definition_of "trend" signal [];
  execute = emitting "trend" signal_artifact;
}

-- A detector that emits an artifact of a wrong kind.
abbrev breakout : AnalysisModule
breakout = record {
  definition = definition_of "breakout" detector (on_trend ∷ []);
  execute = emitting "breakout" signal_artifact;
}

abbrev registry : ModuleRegistry
registry = ("breakout", breakout) ∷ ("trend", trend) ∷ []

abbrev config : AnalysisEngineConfig
config = record { enabled_modules = []; module_configs = []; symbols = none }

abbrev plan : ExecutionPlan
plan = record {
  steps_by_stage = stages (step_of trend.definition ∷ []) (step_of breakout.definition ∷ []) [] [];
}

abbrev engine : AnalysisEngine
engine = record {
  registry = registry;
  config = config;
  plan_by_symbol = ("__default__", plan) ∷ [];
  state = record { idempotency = []; module_state_store = []; halted_symbols = [] };
}

abbrev gate_event : String → GateEventType → GateStatus → StateGateEvent
gate_event run_id event_type status = record {
  schema = "state_gate_event";
  schema_version = "1";
  event_type = event_type;
  symbol = "BTC";
  engine_timestamp_ms = 100;
  run_id = run_id;
  state_status = ready;
  gate_status = status;
  reasons = [];
  payload = none;
  input_event_type = some completed_input;
  engine_mode = some truth;
}

abbrev opened : StateGateEvent
opened = gate_event "r1" gate_evaluated gate_open

abbrev events : List StateGateEvent
events = opened ∷ opened ∷ gate_event "r2" gate_evaluated gate_closed ∷ []

built : build_registry (trend ∷ breakout ∷ []) ≡ ok registry
unfolding build_registry register_all Dict.get Dict.put sorted_by insert_by
built = refl

started : start registry config [] [] ≡ ok engine
unfolding start validate_config require_known validate_module_configs validate_symbol_configs
    build_plans build_execution_plan validate_dependencies validate_missing_dependencies check_ids
    check_dependencies to_set default_ids keep add contains Dict.get Dict.put validate_cycles dfs
    visit_dependencies visit_ids symbol_plans build_stage build_stages by_id check_stages
    dependents_of free_ids indegree_of lookup_all order_ids order_loop order_stage release select
    stage_dependencies step_of validate_stage_dependencies sorted_by insert_by
started = refl

fresh : IsFresh (consume_all engine []).0 opened
unfolding consume_all contains has_processed
fresh = (refl, refl, refl)

fresh-IsAnswered_example : IsAnswered opened (consume (consume_all engine []).0 opened).1
fresh-IsAnswered_example =
    fresh-IsAnswered (trend ∷ breakout ∷ []) registry config [] [] engine [] opened built started
      fresh refl

-- The run of the two modules: the detector fails, since its artifact is a signal.
failing : failed_ids (given (consume engine opened).1) ≡ "breakout" ∷ []
unfolding failed_ids consume contains has_processed mark mark_processed add plan_for_symbol run_plan
    run_stages run_steps run_module dependencies_available Artifacts.get Artifacts.add Artifacts.put
    same_key after_execute execute_module validate_artifacts fail_module emit_artifacts
    emit_artifact sorted_by insert_by Dict.get completed_event build_run_context dependency_payloads
    latest_by_symbol_and_module append keep Dict.put step_of
failing = refl

consume-IsSummary_example :
    All (IsSummary (failed_ids (given (consume engine opened).1))) (given (consume engine opened).1)
consume-IsSummary_example = consume-IsSummary engine opened

decided_once_example : Pairwise IsOtherRun (decisions (consume_all engine events).1)
decided_once_example = decided_once engine events

silent_after_halt_example :
    All
      (λ x. x.symbol ≢ "BTC")
      (consume_all (consume engine (gate_event "r0" state_gate_halted gate_closed)).0 events).1
silent_after_halt_example =
    silent_after_halt engine (gate_event "r0" state_gate_halted gate_closed) events refl

gated_run-Starts_example :
    All
      (Starts (IsCleared Gate.config Gate.stale_run))
      (consume_all engine
        (process_assembled (Processor.start Gate.config (open_store [])) Gate.stale_run).1).1
unfolding Processor.start
gated_run-Starts_example =
    gated_run-Starts (Processor.start Gate.config (open_store [])) Gate.stale_run engine

run_stages-IsLogged_example :
    IsLogged (run_stages registry opened plan stage_order (start_run opened [])).0
run_stages-IsLogged_example = run_stages-IsLogged registry opened plan stage_order []

emitted-in_order_example :
    Pairwise NotLater
      (emitted (run_stages registry opened plan stage_order (start_run opened [])).0.events)
emitted-in_order_example = emitted-in_order registry opened plan []

validate_cycles-IsVerdict_example :
    IsVerdict registry
      ("trend" ∷ "breakout" ∷ [])
      (validate_cycles registry ("trend" ∷ "breakout" ∷ []))
validate_cycles-IsVerdict_example = validate_cycles-IsVerdict registry ("trend" ∷ "breakout" ∷ [])

order_ids-total_example :
    order_ids (("breakout", breakout.definition) ∷ ("trend", trend.definition) ∷ [])
    ≢ err out_of_fuel
order_ids-total_example =
    order_ids-total (("breakout", breakout.definition) ∷ ("trend", trend.definition) ∷ [])

-- Dashboards that count what they are shown, and what they have drawn.
abbrev counting : DashboardOps ℕ ℕ ℕ
counting = record {
  ingest_orchestrator_event = λ n e. (suc n, none);
  ingest_state_gate_event = λ n e. (suc n, none);
  ingest_analysis_engine_event = λ n e. (suc n, none);
  build_snapshot = λ n. (n, ok n);
  start = λ n. (n, none);
  stop = λ n. (n, none);
  render = λ n s. (suc n, none);
}

counting-IsQuiet : IsQuiet counting
counting-IsQuiet = record {
  orchestrator = λ b e. refl;
  state_gate = λ b e. refl;
  analysis_engine = λ b e. refl;
  snapshot = λ b. (b, refl);
  renders = λ r s. refl;
}

abbrev every_second : SchedulerConfig
every_second = record {
  mode = "timer";
  timer_interval_ms = some 1000;
  boundary_interval_ms = none;
  boundary_delay_ms = none;
}

abbrev wired : RuntimeWiring ℕ ℕ ℕ
wired = record {
  orchestrator = create_runtime truth every_second 0;
  state_gate = Processor.start Gate.config (open_store []);
  analysis_engine = engine;
  dashboards = record { builder = 0; renderer = 0 };
}

deliver_all-in_turn_example :
    ((deliver_all counting wired Gate.events).state_gate
      ≡ (Processor.consume_all wired.state_gate Gate.events).0)
    × ((deliver_all counting wired Gate.events).analysis_engine
        ≡ (consume_all engine (Processor.consume_all wired.state_gate Gate.events).1).0)
deliver_all-in_turn_example =
    deliver_all-in_turn counting counting-IsQuiet (trend ∷ breakout ∷ []) registry config [] []
      engine wired.state_gate wired.orchestrator wired.dashboards Gate.events built started
