-- ===== src/AnalysisEngine/Contracts.antt =====
-- src/consumers/analysis_engine/contracts.py and modules.py. What a module computes is a parameter,
-- its `execute`, which returns a result or raises with a text.
use xray_vision.Base.{ℕ, String, Option, List, Bool, Result}
use xray_vision.Base.Dict.{Dict}
use xray_vision.Base.Values.{Value}
use xray_vision.RegimeEngine.Contracts.{RegimeOutput, HysteresisState}
use xray_vision.Orchestrator.Contracts.{EngineMode}
use xray_vision.StateGate.Contracts.{GateStatus}

pub data AnalysisEventType : Type 0 where
  analysis_run_started analysis_run_skipped artifact_emitted : AnalysisEventType
  module_failed analysis_run_completed analysis_run_failed : AnalysisEventType

pub data ArtifactKind : Type 0 where
  signal_artifact detection evaluation output_artifact : ArtifactKind

pub data ModuleKind : Type 0 where
  signal detector rule output : ModuleKind

pub data RunStatus : Type 0 where
  success partial failed : RunStatus

pub record ArtifactSchema : Type 0 where
  pub artifact_name : String
  pub artifact_schema : String
  pub artifact_schema_version : String

pub record ModuleDependency : Type 0 where
  pub module_id : String
  pub artifact_name : String

pub record ModuleDefinition : Type 0 where
  pub module_id : String
  pub module_kind : ModuleKind
  pub module_version : String
  pub dependencies : List ModuleDependency
  pub artifact_schemas : List ArtifactSchema
  pub config_schema_id : String
  pub config_schema_version : String
  pub enabled_by_default : Bool
  pub state_schema_id : Option String
  pub state_schema_version : Option String

pub record ArtifactEmittedPayload : Type 0 where
  pub artifact_kind : ArtifactKind
  pub module_id : String
  pub artifact_name : String
  pub artifact_schema : String
  pub artifact_schema_version : String
  pub payload : Value

pub data ErrorKind : Type 0 where
  missing_dependency exception : ErrorKind

pub record ModuleFailedPayload : Type 0 where
  pub module_id : String
  pub module_kind : ModuleKind
  pub error_kind : ErrorKind
  pub error_detail : String

pub record AnalysisRunStatusPayload : Type 0 where
  pub status : RunStatus
  pub module_failures : List String

pub data AnalysisEnginePayload : Type 0 where
  artifact_payload : ArtifactEmittedPayload → AnalysisEnginePayload
  failure_payload : ModuleFailedPayload → AnalysisEnginePayload
  status_payload : AnalysisRunStatusPayload → AnalysisEnginePayload

pub record AnalysisEngineEvent : Type 0 where
  pub schema : String
  pub schema_version : String
  pub event_type : AnalysisEventType
  pub symbol : String
  pub run_id : String
  pub engine_timestamp_ms : ℕ
  pub payload : Option AnalysisEnginePayload
  pub engine_mode : Option EngineMode
  pub source_gate_reasons : Option (List String)

pub record RunContext : Type 0 where
  pub symbol : String
  pub run_id : String
  pub engine_timestamp_ms : ℕ
  pub engine_mode : Option EngineMode
  pub gate_status : GateStatus
  pub gate_reasons : List String
  pub regime_output : Option RegimeOutput
  pub hysteresis_state : Option HysteresisState

pub record AnalysisModuleStateRecord : Type 0 where
  pub symbol : String
  pub module_id : String
  pub run_id : String
  pub engine_timestamp_ms : ℕ
  pub state_schema_id : String
  pub state_schema_version : String
  pub state_payload : Value

pub record ModuleResult : Type 0 where
  pub artifacts : List ArtifactEmittedPayload
  pub state_payload : Option Value

-- A module: what it declares, and what it does with a context, the artifacts that it depends on and
-- its latest state.
pub record AnalysisModule : Type 0 where
  pub definition : ModuleDefinition
  pub execute : RunContext → Dict ArtifactEmittedPayload → Option Value → Result String ModuleResult

-- The `ValueError`s and `KeyError`s of the registry, of the planner and of the engine.
pub data AnalysisError : Type 0 where
  duplicate_module_id unknown_module_id key_error dependency_cycle : String → AnalysisError
  unmet_dependency : String → String → String → AnalysisError
  invalid_ordering : String → String → AnalysisError
  stage_cycle out_of_fuel : AnalysisError
  unknown_enabled unknown_configured duplicate_config : String → AnalysisError
  duplicate_symbol unknown_symbol_module : String → AnalysisError
