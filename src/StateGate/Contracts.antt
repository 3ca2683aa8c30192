-- ===== src/StateGate/Contracts.antt =====
-- src/consumers/state_gate/contracts.py.
use xray_vision.Base.{ℕ, String, Option, none, List, []}
use xray_vision.RegimeEngine.Contracts.{RegimeOutput, HysteresisState}
use xray_vision.Orchestrator.Contracts.{EngineMode}

pub data GateStatus : Type 0 where
  gate_open gate_closed : GateStatus

pub data StateStatus : Type 0 where
  bootstrap ready hold degraded halted : StateStatus

pub data GateEventType : Type 0 where
  gate_evaluated state_reset state_gate_halted : GateEventType

pub data InputEventType : Type 0 where
  completed_input failed_input hysteresis_input : InputEventType

pub data ResetReason : Type 0 where
  reset_timestamp_gap reset_engine_gap : ResetReason

abbrev pub reset_text : ResetReason → String
reset_text reset_timestamp_gap = "reset_timestamp_gap"
reset_text reset_engine_gap = "reset_engine_gap"

pub data GatePayload : Type 0 where
  evaluated_payload : Option RegimeOutput → Option HysteresisState → GatePayload
  reset_payload : ResetReason → GatePayload
  halted_payload : String → String → GatePayload

pub record StateGateEvent : Type 0 where
  pub schema : String
  pub schema_version : String
  pub event_type : GateEventType
  pub symbol : String
  pub engine_timestamp_ms : ℕ
  pub run_id : String
  pub state_status : StateStatus
  pub gate_status : GateStatus
  pub reasons : List String
  pub payload : Option GatePayload
  pub input_event_type : Option InputEventType
  pub engine_mode : Option EngineMode

pub record StateGateStateRecord : Type 0 where
  pub symbol : String
  pub engine_timestamp_ms : ℕ
  pub run_id : String
  pub state_status : StateStatus
  pub gate_status : GateStatus
  pub reasons : List String
  pub engine_mode : Option EngineMode
  pub source_event_type : Option InputEventType
  pub regime_output : Option RegimeOutput
  pub hysteresis_state : Option HysteresisState
  pub reset_reason : Option ResetReason
  pub error_kind : Option String
  pub error_detail : Option String

pub record StateGateSnapshot : Type 0 where
  pub symbol : String
  pub last_run_id : Option String
  pub last_engine_timestamp_ms : Option ℕ
  pub state_status : StateStatus
  pub gate_status : GateStatus
  pub reasons : List String
  pub engine_mode : Option EngineMode
  pub source_event_type : Option InputEventType

-- `_bootstrap_snapshot`, the same in state_machine.py and state_store.py.
abbrev pub bootstrap_snapshot : String → StateGateSnapshot
bootstrap_snapshot symbol = record {
  symbol = symbol;
  last_run_id = none;
  last_engine_timestamp_ms = none;
  state_status = bootstrap;
  gate_status = gate_closed;
  reasons = [];
  engine_mode = none;
  source_event_type = none;
}

-- What `RunAssembler.ingest` raises.
pub data GateError : Type 0 where
  inconsistent_symbol inconsistent_engine_timestamp_ms inconsistent_engine_mode : GateError
  unexpected_payload : GateError
