-- ===== src/Runtime/Publishing/Gate.antt =====
-- The events of one run of src/runtime/wiring.py at the assembler of the state gate.
use xray_vision.StateGate.Assembly.Once.{contains-add_self}
use xray_vision.Base.{
  ℕ, ◌≡◌, refl, ap, ◌∙◌, String, Option, none, some, List, [], ◌∷◌, true, false, contains,
}
use xray_vision.Base.Dict
use xray_vision.Base.Dict.{Dict}
use xray_vision.RegimeEngine.Contracts.{RegimeOutput, HysteresisState}
use xray_vision.Orchestrator.Contracts.{EngineMode, truth, hysteresis, OrchestratorEvent}
use xray_vision.Orchestrator.Publisher.{
  RunFields, build_engine_run_started, build_engine_run_completed, build_engine_run_failed,
  build_hysteresis_state_published,
}
use xray_vision.Runtime.Publishing.{
  RunOutcome, snapshot_failed, untrusted, engine_failed, returned, outcome_events, run_events,
}
use xray_vision.StateGate.Contracts.{
  InputEventType, completed_input, failed_input, hysteresis_input,
}
use xray_vision.StateGate.Assembly.{
  AssembledRunInput, RunAssembler, not_after, apply_event, ready_event_type, assemble, ingest,
  ingest_all,
}

abbrev pub run_input :
    RunFields
    → EngineMode
    → InputEventType
    → Option RegimeOutput
    → Option HysteresisState
    → AssembledRunInput
run_input f mode t output h = record {
  run_id = f.run_id;
  symbol = f.symbol;
  engine_timestamp_ms = f.engine_timestamp_ms;
  engine_mode = some mode;
  input_event_type = t;
  regime_output = output;
  hysteresis_state = h;
}

-- What the gate is to evaluate for an outcome.
abbrev pub gate_inputs : RunFields → EngineMode → RunOutcome → List AssembledRunInput
gate_inputs f mode (snapshot_failed detail) = run_input f mode failed_input none none ∷ []
gate_inputs f mode untrusted = []
gate_inputs f mode (engine_failed detail) = run_input f mode failed_input none none ∷ []
gate_inputs f mode (returned output (some h)) =
    run_input f hysteresis hysteresis_input none (some h) ∷ []
gate_inputs f truth (returned output none) =
    run_input f truth completed_input (some output) none ∷ []
gate_inputs f hysteresis (returned output none) = []

failed_event :
    (f : RunFields) (mode : EngineMode) (counts : Option (Dict ℕ)) (kind detail : String)
    (a : RunAssembler)
    → contains f.run_id a.processed_run_ids ≡ false
    → not_after f.engine_timestamp_ms (Dict.get a.latest_engine_timestamp_ms f.symbol) ≡ false
    → Dict.get a.assemblies f.run_id ≡ none
    → ingest_all a (build_engine_run_failed f mode kind detail counts ∷ [])
      ≡ run_input f mode failed_input none none ∷ []
unfolding build_engine_run_failed ingest_all ingest apply_event ready_event_type
failed_event f mode counts kind detail a c n g = rw (c, n, assemble, g) refl

completed_event :
    (f : RunFields) (counts : Option (Dict ℕ)) (output : RegimeOutput) (a : RunAssembler)
    → contains f.run_id a.processed_run_ids ≡ false
    → not_after f.engine_timestamp_ms (Dict.get a.latest_engine_timestamp_ms f.symbol) ≡ false
    → Dict.get a.assemblies f.run_id ≡ none
    → ingest_all a (build_engine_run_completed f truth output counts ∷ [])
      ≡ run_input f truth completed_input (some output) none ∷ []
unfolding build_engine_run_completed ingest_all ingest apply_event ready_event_type
completed_event f counts output a c n g = rw (c, n, assemble, g) refl

completed_only :
    (f : RunFields) (counts : Option (Dict ℕ)) (output : RegimeOutput) (a : RunAssembler)
    → contains f.run_id a.processed_run_ids ≡ false
    → not_after f.engine_timestamp_ms (Dict.get a.latest_engine_timestamp_ms f.symbol) ≡ false
    → Dict.get a.assemblies f.run_id ≡ none
    → ingest_all a (build_engine_run_completed f hysteresis output counts ∷ []) ≡ []
unfolding build_engine_run_completed ingest_all ingest apply_event ready_event_type
completed_only f counts output a c n g = rw (c, n, assemble, g) refl

completed_after :
    (f : RunFields) (mode : EngineMode) (counts : Option (Dict ℕ)) (output : RegimeOutput)
    (a : RunAssembler)
    → contains f.run_id a.processed_run_ids ≡ true
    → ingest_all a (build_engine_run_completed f mode output counts ∷ []) ≡ []
unfolding build_engine_run_completed ingest_all ingest
completed_after f mode counts output a c = rw c refl

hysteresis_events :
    (f : RunFields) (mode : EngineMode) (counts : Option (Dict ℕ)) (h : HysteresisState)
    (output : RegimeOutput) (a : RunAssembler)
    → contains f.run_id a.processed_run_ids ≡ false
    → not_after f.engine_timestamp_ms (Dict.get a.latest_engine_timestamp_ms f.symbol) ≡ false
    → Dict.get a.assemblies f.run_id ≡ none
    → ingest_all a (
        build_hysteresis_state_published f h counts
        ∷ build_engine_run_completed f mode output counts
        ∷ [])
      ≡ run_input f hysteresis hysteresis_input none (some h) ∷ []
unfolding build_hysteresis_state_published ingest_all ingest apply_event ready_event_type
hysteresis_events f mode counts h output a c n g =
    rw (c, n, assemble, g)
      (ap (λ l. run_input f hysteresis hysteresis_input none (some h) ∷ l)
        (completed_after f mode counts output _ (contains-add_self f.run_id a.processed_run_ids)))

-- The start of a run is no input of the gate.
started_event :
    (f : RunFields) (mode : EngineMode) (a : RunAssembler) (es : List OrchestratorEvent)
    → ingest_all a (build_engine_run_started f mode ∷ es) ≡ ingest_all a es
unfolding build_engine_run_started ingest_all ingest
started_event f mode a es = refl

outcome_events-inputs :
    (f : RunFields) (mode : EngineMode) (counts : Option (Dict ℕ)) (o : RunOutcome)
    (a : RunAssembler)
    → contains f.run_id a.processed_run_ids ≡ false
    → not_after f.engine_timestamp_ms (Dict.get a.latest_engine_timestamp_ms f.symbol) ≡ false
    → Dict.get a.assemblies f.run_id ≡ none
    → ingest_all a (outcome_events f mode counts o) ≡ gate_inputs f mode o
unfolding outcome_events
outcome_events-inputs f mode counts (snapshot_failed detail) a c n g =
    failed_event f mode counts "snapshot_build_failure" detail a c n g
outcome_events-inputs f mode counts untrusted a c n g = unfold ingest_all in refl
outcome_events-inputs f mode counts (engine_failed detail) a c n g =
    failed_event f mode counts "engine_failure" detail a c n g
outcome_events-inputs f mode counts (returned output (some h)) a c n g =
    hysteresis_events f mode counts h output a c n g
outcome_events-inputs f truth counts (returned output none) a c n g =
    completed_event f counts output a c n g
outcome_events-inputs f hysteresis counts (returned output none) a c n g =
    completed_only f counts output a c n g

-- Of the events that the runtime publishes for one run, with an id that is new to the assembler
-- and a timestamp after what it has seen of the symbol, the gate gets: one failed run where the
-- snapshot or the engine fails, the regime output alone in truth mode, the hysteresis state alone,
-- without the output, where there is one, and nothing where the scheduler stops or where
-- hysteresis mode has no state.
pub run_events-inputs :
    (f : RunFields) (mode : EngineMode) (counts : Option (Dict ℕ)) (o : RunOutcome)
    (a : RunAssembler)
    → contains f.run_id a.processed_run_ids ≡ false
    → not_after f.engine_timestamp_ms (Dict.get a.latest_engine_timestamp_ms f.symbol) ≡ false
    → Dict.get a.assemblies f.run_id ≡ none
    → ingest_all a (run_events f mode counts o) ≡ gate_inputs f mode o
unfolding run_events
run_events-inputs f mode counts o a c n g =
    started_event f mode a (outcome_events f mode counts o)
    ∙ outcome_events-inputs f mode counts o a c n g
