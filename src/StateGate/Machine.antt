-- ===== src/StateGate/Machine.antt =====
-- src/consumers/state_gate/state_machine.py.
use xray_vision.Base.{ℕ, ◌-◌, Option, none, some, List, [], ◌∷◌, ltb, if◌then◌else◌, get_or}
use xray_vision.Base.Dict
use xray_vision.Base.Dict.{Dict}
use xray_vision.RegimeEngine.Contracts.{RegimeOutput, HysteresisState}
use xray_vision.Orchestrator.Contracts.{EngineMode}
use xray_vision.StateGate.Contracts.{
  StateGateEvent, StateGateSnapshot, gate_evaluated, state_reset, bootstrap, gate_closed,
  ResetReason, reset_timestamp_gap, reset_text, GatePayload, evaluated_payload, reset_payload,
  bootstrap_snapshot,
}
use xray_vision.StateGate.Config.{StateGateConfig}
use xray_vision.StateGate.Assembly.{AssembledRunInput}
use xray_vision.StateGate.Evaluation.{GateEvaluation}

pub record StateMachine : Type 0 where
  pub config : StateGateConfig
  pub snapshots : Dict StateGateSnapshot

-- `run.engine_timestamp_ms - last_timestamp > max_gap_ms`; where the difference is negative, it is not
-- greater than a limit that is 0 or more, nor is the difference on ℕ.
abbrev pub gap_reason : StateGateConfig → ℕ → Option ℕ → Option ResetReason
gap_reason config ts none = none
gap_reason config ts (some last) =
    if ltb config.max_gap_ms (ts - last) then some reset_timestamp_gap else none

unfoldable pub detect_reset :
    StateGateConfig → AssembledRunInput → StateGateSnapshot → Option ResetReason
detect_reset config run snapshot =
    gap_reason config run.engine_timestamp_ms snapshot.last_engine_timestamp_ms

unfoldable pub build_reset_event :
    AssembledRunInput → ResetReason → Option EngineMode → StateGateEvent
build_reset_event run reason mode = record {
  schema = "state_gate_event";
  schema_version = "1";
  event_type = state_reset;
  symbol = run.symbol;
  engine_timestamp_ms = run.engine_timestamp_ms;
  run_id = run.run_id;
  state_status = bootstrap;
  gate_status = gate_closed;
  reasons = reset_text reason ∷ [];
  payload = some (reset_payload reason);
  input_event_type = some run.input_event_type;
  engine_mode = mode;
}

abbrev pub gate_payload : Option RegimeOutput → Option HysteresisState → Option GatePayload
gate_payload none none = none
gate_payload output h = some (evaluated_payload output h)

unfoldable pub build_gate_event : AssembledRunInput → GateEvaluation → StateGateEvent
build_gate_event run e = record {
  schema = "state_gate_event";
  schema_version = "1";
  event_type = gate_evaluated;
  symbol = run.symbol;
  engine_timestamp_ms = run.engine_timestamp_ms;
  run_id = run.run_id;
  state_status = e.state_status;
  gate_status = e.gate_status;
  reasons = e.reasons;
  payload = gate_payload e.regime_output e.hysteresis_state;
  input_event_type = some e.input_event_type;
  engine_mode = e.engine_mode;
}

abbrev pub snapshot_after : AssembledRunInput → GateEvaluation → StateGateSnapshot
snapshot_after run e = record {
  symbol = run.symbol;
  last_run_id = some run.run_id;
  last_engine_timestamp_ms = some run.engine_timestamp_ms;
  state_status = e.state_status;
  gate_status = e.gate_status;
  reasons = e.reasons;
  engine_mode = e.engine_mode;
  source_event_type = some e.input_event_type;
}

abbrev pub reset_snapshots :
    Dict StateGateSnapshot → AssembledRunInput → Option ResetReason → Dict StateGateSnapshot
reset_snapshots d run none = d
reset_snapshots d run (some reason) = Dict.put d run.symbol (bootstrap_snapshot run.symbol)

abbrev pub reset_events :
    AssembledRunInput
    → GateEvaluation
    → Option ResetReason
    → List StateGateEvent
    → List StateGateEvent
reset_events run e none events = events
reset_events run e (some reason) events = build_reset_event run reason e.engine_mode ∷ events

unfoldable pub process_run :
    StateMachine → AssembledRunInput → GateEvaluation → StateMachine × List StateGateEvent
process_run m run e =
    let snapshot = get_or (Dict.get m.snapshots run.symbol) (bootstrap_snapshot run.symbol) in
    let reason = detect_reset m.config run snapshot in
    (
      record m {
        snapshots =
            Dict.put (reset_snapshots m.snapshots run reason) run.symbol (snapshot_after run e);
      },
      reset_events run e reason (build_gate_event run e ∷ []),
    )
