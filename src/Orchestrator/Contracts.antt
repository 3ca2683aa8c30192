-- ===== src/Orchestrator/Contracts.antt =====
-- src/orchestrator/contracts.py: the events that the orchestrator publishes. `payload` is an
-- `object | None`: one of the payloads of the module, or something else (`foreign`).
use xray_vision.Base.{ℕ, String, Option, Bool, true, false}
use xray_vision.Base.Dict.{Dict}
use xray_vision.Base.Values.{Value}
use xray_vision.RegimeEngine.Contracts.{RegimeOutput, HysteresisState}

pub data EngineMode : Type 0 where
  truth hysteresis : EngineMode

pub data CutKind : Type 0 where
  timer boundary : CutKind

pub data EventType : Type 0 where
  engine_run_started engine_run_completed engine_run_failed hysteresis_state_published : EventType

pub data Payload : Type 0 where
  run_failed : String → String → Payload
  run_completed : RegimeOutput → Payload
  hysteresis_payload : HysteresisState → Payload
  foreign : Value → Payload

pub record OrchestratorEvent : Type 0 where
  pub schema : String
  pub schema_version : String
  pub event_type : EventType
  pub run_id : String
  pub symbol : String
  pub engine_timestamp_ms : ℕ
  pub cut_start_ingest_seq : ℕ
  pub cut_end_ingest_seq : ℕ
  pub cut_kind : CutKind
  pub engine_mode : Option EngineMode
  pub attempt : Option ℕ
  pub published_ts_ms : Option ℕ
  pub counts_by_event_type : Option (Dict ℕ)
  pub payload : Option Payload

abbrev pub mode_eq : EngineMode → EngineMode → Bool
mode_eq truth truth = true
mode_eq hysteresis hysteresis = true
mode_eq _ _ = false

pub data EngineRunStatus : Type 0 where
  started completed failed : EngineRunStatus

pub record EngineRunRecord : Type 0 where
  pub run_id : String
  pub symbol : String
  pub engine_timestamp_ms : ℕ
  pub engine_mode : EngineMode
  pub cut_kind : CutKind
  pub cut_start_ingest_seq : ℕ
  pub cut_end_ingest_seq : ℕ
  pub planned_ts_ms : ℕ
  pub started_ts_ms : Option ℕ
  pub completed_ts_ms : Option ℕ
  pub status : EngineRunStatus
  pub attempts : ℕ
  pub error_kind : Option String
  pub error_detail : Option String
