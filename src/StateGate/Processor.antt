-- ===== src/StateGate/Processor.antt =====
-- src/consumers/state_gate/processor.py, without its logs and metrics. What an append to the store
-- raises is a part of the store (Store).
pub mod Storing
pub mod Records
pub mod Agreement
pub mod Denylist
use xray_vision.Base.{
  ℕ, String, Option, none, some, List, [], ◌∷◌, ◌++◌, map, Bool, true, false, not, Result, ok, err,
  ltb, if◌then◌else◌, length, ◌&&◌, is_some,
}
use xray_vision.Orchestrator.Contracts.{EngineMode, OrchestratorEvent}
use xray_vision.StateGate.Contracts.{
  StateGateEvent, StateGateStateRecord, state_gate_halted, halted, gate_closed, halted_payload,
  InputEventType, GateError,
}
use xray_vision.StateGate.Config.{StateGateConfig}
use xray_vision.StateGate.Assembly.{AssembledRunInput, RunAssembler, Ingested, ingest}
use xray_vision.StateGate.Evaluation.{evaluate}
use xray_vision.StateGate.Machine.{StateMachine, process_run}
use xray_vision.StateGate.Store.{
  StateStore, append_event, open_store, processed_run_ids, latest_engine_timestamps,
}

pub record Processor : Type 0 where
  pub config : StateGateConfig
  pub store : StateStore
  pub assembler : RunAssembler
  pub state_machine : StateMachine
  pub is_halted : Bool
  pub publish_healthy : Bool
  pub persistence_healthy : Bool

-- The constructor, over a store.
unfoldable pub start : StateGateConfig → StateStore → Processor
start config store = record {
  config = config;
  store = store;
  assembler = record {
    assemblies = [];
    processed_run_ids = processed_run_ids store;
    latest_engine_timestamp_ms = latest_engine_timestamps store.snapshots;
  };
  state_machine = record { config = config; snapshots = store.snapshots };
  is_halted = false;
  publish_healthy = true;
  persistence_healthy = true;
}

unfoldable pub publish_blocked : StateGateConfig → ℕ → Bool
publish_blocked config count = ltb config.publish_limits.max_pending count

abbrev pub halt_event : AssembledRunInput → String → String → StateGateEvent
halt_event run kind detail = record {
  schema = "state_gate_event";
  schema_version = "1";
  event_type = state_gate_halted;
  symbol = run.symbol;
  engine_timestamp_ms = run.engine_timestamp_ms;
  run_id = run.run_id;
  state_status = halted;
  gate_status = gate_closed;
  reasons = "internal_failure" ∷ [];
  payload = some (halted_payload kind detail);
  input_event_type = some run.input_event_type;
  engine_mode = run.engine_mode;
}

-- The halt for an event that could not be stored.
abbrev pub halt_of_event : StateGateEvent → String → StateGateEvent
halt_of_event e detail = record {
  schema = "state_gate_event";
  schema_version = "1";
  event_type = state_gate_halted;
  symbol = e.symbol;
  engine_timestamp_ms = e.engine_timestamp_ms;
  run_id = e.run_id;
  state_status = halted;
  gate_status = gate_closed;
  reasons = "internal_failure" ∷ [];
  payload = some (halted_payload "persistence_failure" detail);
  input_event_type = e.input_event_type;
  engine_mode = e.engine_mode;
}

-- `_enter_halted` with `persist=True`.
unfoldable pub enter_halted :
    Processor → AssembledRunInput → String → String → Processor × StateGateEvent
enter_halted p run kind detail =
    let event = halt_event run kind detail in
    let (store, fault) = append_event p.store event in
    (
      record p {
        store = store;
        is_halted = true;
        publish_healthy = false;
        persistence_healthy = p.persistence_healthy && not (is_some fault);
      },
      event,
    )

-- `_enter_halted` with `persist=False`.
abbrev pub halt_unstored : Processor → Processor
halt_unstored p = record p {
  is_halted = true;
  publish_healthy = false;
  persistence_healthy = false;
}

abbrev pub unless_fault :
    Processor
    → StateGateEvent
    → Processor × Option StateGateEvent
    → Option String
    → Processor × Option StateGateEvent
unless_fault p e rest none = rest
unless_fault p e rest (some detail) = (halt_unstored p, some (halt_of_event e detail))

-- The loop over the events of a run; the first that cannot be stored ends it, with a halt.
unfoldable pub append_all : Processor → List StateGateEvent → Processor × Option StateGateEvent
append_all p [] = (p, none)
append_all p (e ∷ es) =
    let (store, fault) = append_event p.store e in
    let q = record p { store = store } in unless_fault q e (append_all q es) fault

abbrev pub unless_unstored :
    List StateGateEvent → Processor × Option StateGateEvent → Processor × List StateGateEvent
unless_unstored events (p, none) = (p, events)
unless_unstored events (p, some halt) = (p, halt ∷ [])

-- The end of `consume`, with the events of the run.
unfoldable pub publish_run :
    Processor → AssembledRunInput → List StateGateEvent → Processor × List StateGateEvent
publish_run p run events =
    if publish_blocked p.config (length events)
    then (let (q, event) =
          enter_halted p run "publish_blocked" "output publish backpressure exceeded" in
        (q, event ∷ []))
    else unless_unstored events (append_all p events)

unfoldable pub process_assembled : Processor → AssembledRunInput → Processor × List StateGateEvent
process_assembled p run =
    let (m, events) = process_run p.state_machine run (evaluate p.config run) in
    publish_run (record p { state_machine = m }) run events

abbrev pub after_ingest :
    Processor
    → Result GateError (Option AssembledRunInput)
    → Processor × Result GateError (List StateGateEvent)
after_ingest p (err e) = (p, err e)
after_ingest p (ok none) = (p, ok [])
after_ingest p (ok (some run)) = let (q, events) = process_assembled p run in (q, ok events)

abbrev pub unless_halted :
    Bool → Processor → Ingested → Processor × Result GateError (List StateGateEvent)
unless_halted true p _ = (p, ok [])
unless_halted false p (a, result) = after_ingest (record p { assembler = a }) result

unfoldable pub consume :
    Processor → OrchestratorEvent → Processor × Result GateError (List StateGateEvent)
consume p event = unless_halted p.is_halted p (ingest p.assembler event)

-- `health_status().ready`; `input_healthy` stays true.
abbrev pub is_ready : Processor → Bool
is_ready p = if p.is_halted then false else p.publish_healthy && p.persistence_healthy

abbrev pub given : Result GateError (List StateGateEvent) → List StateGateEvent
given (ok events) = events
given (err e) = []

-- The processor after some events, with all that it gave out.
unfoldable pub consume_all : Processor → List OrchestratorEvent → Processor × List StateGateEvent
consume_all p [] = (p, [])
consume_all p (e ∷ es) =
    let (q, result) = consume p e in
    let (r, events) = consume_all q es in (r, given result ++ events)
