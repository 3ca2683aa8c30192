-- ===== src/AnalysisEngine/Engine.antt =====
-- src/consumers/analysis_engine/engine.py, without its logs and metrics.
pub mod Cases
pub mod Summary
pub mod Effect
pub mod Sequences
pub mod Gating
pub mod Ready
pub mod Completion
use xray_vision.Base.{
  String, Option, none, some, List, [], ◌∷◌, ◌++◌, Bool, true, false, contains, add, get_or, Result,
  ok, err, ◌>>=◌, ◌>>◌,
}
use xray_vision.Base.Sorting.{sorted_by}
use xray_vision.Base.Dict
use xray_vision.Base.Dict.{Dict}
use xray_vision.StateGate.Contracts.{
  StateGateEvent, GateStatus, gate_open, gate_closed, GateEventType, gate_evaluated, state_reset,
  state_gate_halted,
}
use xray_vision.AnalysisEngine.Contracts.{
  analysis_run_started, analysis_run_skipped, analysis_run_completed, analysis_run_failed,
  RunStatus, success, partial, failed, status_payload, AnalysisEngineEvent, AnalysisError,
}
use xray_vision.AnalysisEngine.Registry.{ModuleRegistry, default_ids}
use xray_vision.AnalysisEngine.Persistence.{
  IdempotencyStore, has_processed, mark_processed, ModuleStateStore,
}
use xray_vision.AnalysisEngine.Config.{AnalysisEngineConfig, SymbolConfig, validate_config}
use xray_vision.AnalysisEngine.Planning.{ExecutionPlan, stage_order, build_execution_plan}
use xray_vision.AnalysisEngine.Run.{Run, start_run, analysis_event, run_stages}

pub record EngineState : Type 0 where
  pub idempotency : IdempotencyStore
  pub module_state_store : ModuleStateStore
  pub halted_symbols : List String

pub record AnalysisEngine : Type 0 where
  pub registry : ModuleRegistry
  pub config : AnalysisEngineConfig
  pub plan_by_symbol : Dict ExecutionPlan
  pub state : EngineState

abbrev pub status_of : List String → RunStatus
status_of [] = success
status_of (k ∷ ks) = partial

unfoldable pub completed_event : StateGateEvent → List String → AnalysisEngineEvent
completed_event e failures = analysis_event e analysis_run_completed (
    some (
      status_payload
        (record { status = status_of failures; module_failures = sorted_by (λ k. k) failures })))

abbrev pub failed_event : StateGateEvent → AnalysisEngineEvent
failed_event e =
    analysis_event e analysis_run_failed
      (some (status_payload (record { status = failed; module_failures = [] })))

abbrev pub Outcome : Type 0
Outcome = Result AnalysisError (List AnalysisEngineEvent)

abbrev pub with_records : AnalysisEngine → ModuleStateStore → AnalysisEngine
with_records a records = record a { state = record a.state { module_state_store = records } }

abbrev pub complete :
    AnalysisEngine → StateGateEvent → Run × Option AnalysisError → AnalysisEngine × Outcome
complete a e (run, some error) = (with_records a run.module_state_store, err error)
complete a e (run, none) = (
  with_records a run.module_state_store,
  ok (run.events ++ (completed_event e run.module_failures ∷ [])),
)

unfoldable pub plan_for_symbol : Dict ExecutionPlan → String → Option ExecutionPlan
plan_for_symbol plans symbol = elim (Dict.get plans symbol) [
  | some plan ↦ some plan
  | none ↦ Dict.get plans "__default__"
]

unfoldable pub run_plan :
    AnalysisEngine → StateGateEvent → Option ExecutionPlan → AnalysisEngine × Outcome
run_plan a e none = (a, ok (failed_event e ∷ []))
run_plan a e (some plan) =
    complete a e (run_stages a.registry e plan stage_order (start_run e a.state.module_state_store))

abbrev pub when_open : AnalysisEngine → StateGateEvent → GateStatus → AnalysisEngine × Outcome
when_open a e gate_closed = (a, ok (analysis_event e analysis_run_skipped none ∷ []))
when_open a e gate_open = run_plan a e (plan_for_symbol a.plan_by_symbol e.symbol)

unfoldable pub mark : AnalysisEngine → String → AnalysisEngine
mark a run_id = record a {
  state = record a.state { idempotency = mark_processed a.state.idempotency run_id };
}

abbrev pub unless_processed : Bool → AnalysisEngine → StateGateEvent → AnalysisEngine × Outcome
unless_processed true a e = (a, ok [])
unless_processed false a e = when_open (mark a e.run_id) e e.gate_status

unfoldable pub halt : AnalysisEngine → String → AnalysisEngine
halt a symbol = record a {
  state = record a.state { halted_symbols = add symbol a.state.halted_symbols };
}

abbrev pub by_type : GateEventType → AnalysisEngine → StateGateEvent → AnalysisEngine × Outcome
by_type state_gate_halted a e = (halt a e.symbol, ok (failed_event e ∷ []))
by_type state_reset a e = (a, ok [])
by_type gate_evaluated a e = unless_processed (has_processed a.state.idempotency e.run_id) a e

abbrev pub unless_halted : Bool → AnalysisEngine → StateGateEvent → AnalysisEngine × Outcome
unless_halted true a e = (a, ok [])
unless_halted false a e = by_type e.event_type a e

unfoldable pub consume : AnalysisEngine → StateGateEvent → AnalysisEngine × Outcome
consume a e = unless_halted (contains e.symbol a.state.halted_symbols) a e

abbrev pub given : Outcome → List AnalysisEngineEvent
given (ok events) = events
given (err e) = []

-- The engine after some events, with all that it gave out.
unfoldable pub consume_all :
    AnalysisEngine → List StateGateEvent → AnalysisEngine × List AnalysisEngineEvent
consume_all a [] = (a, [])
consume_all a (e ∷ es) =
    let (b, outcome) = consume a e in
    let (c, events) = consume_all b es in (c, given outcome ++ events)

abbrev pub or_default : List String → ModuleRegistry → List String
or_default [] registry = default_ids registry
or_default (k ∷ ks) registry = k ∷ ks

unfoldable pub symbol_plans :
    ModuleRegistry
    → Dict ExecutionPlan
    → List SymbolConfig
    → Result AnalysisError (Dict ExecutionPlan)
symbol_plans registry plans [] = ok plans
symbol_plans registry plans (c ∷ cs) = build_execution_plan registry c.enabled_modules >>= λ plan.
    symbol_plans registry (Dict.put plans c.symbol plan) cs

unfoldable pub build_plans :
    ModuleRegistry → AnalysisEngineConfig → Result AnalysisError (Dict ExecutionPlan)
build_plans registry config =
    build_execution_plan registry (or_default config.enabled_modules registry) >>= λ plan.
    symbol_plans registry (("__default__", plan) ∷ []) (get_or config.symbols [])

-- The constructor.
unfoldable pub start :
    ModuleRegistry
    → AnalysisEngineConfig
    → IdempotencyStore
    → ModuleStateStore
    → Result AnalysisError AnalysisEngine
start registry config processed records =
    validate_config registry config
    >> (build_plans registry config >>= λ plans. ok (record {
      registry = registry;
      config = config;
      plan_by_symbol = plans;
      state = record { idempotency = processed; module_state_store = records; halted_symbols = [] };
    }))
