-- ===== src/Examples/Gate.antt =====
-- The state gate on concrete events.
use mathlib.Core.Logic.{◌↔◌}
use xray_vision.Base.{
  ◌≡◌, ◌≢◌, ◌<◌, refl, String, none, some, List, [], ◌∷◌, ◌++◌, map, true, ok, contains,
}
use xray_vision.Base.Dict
use xray_vision.Orchestrator.Contracts.{truth, hysteresis, OrchestratorEvent}
use xray_vision.Orchestrator.Publisher.{
  build_engine_run_completed, build_engine_run_failed, build_hysteresis_state_published,
}
use xray_vision.Runtime.Publishing.{returned, run_events}
use xray_vision.Runtime.Publishing.Gate.{gate_inputs, run_events-inputs}
use xray_vision.StateGate.Contracts.{gate_open, completed_input, failed_input}
use xray_vision.StateGate.Config.{OperationLimits, StateGateConfig}
use xray_vision.StateGate.Assembly.{AssembledRunInput, RunAssembler, ingest, ingest_all}
use xray_vision.StateGate.Assembly.Once.{Pairwise, Precedes, ingest_all-Precedes}
use xray_vision.StateGate.Evaluation.{denylisted_reason, evaluate}
use xray_vision.StateGate.Evaluation.Decision.{IsDenylisted, IsBlocked, evaluate-open}
use xray_vision.StateGate.Evaluation.Reasons.{evaluate-IsDenylisted_reasons}
use xray_vision.StateGate.Store.{open_store, record_from_event, append_event, append_record}
use xray_vision.StateGate.Processor.{
  start, consume, consume_all, process_assembled, publish_run, publish_blocked, append_all,
}
use xray_vision.StateGate.Processor.Records.{consume_all-records}
use xray_vision.StateGate.Processor.Agreement.{IsSynced, started-IsSynced}
use xray_vision.StateGate.Processor.Denylist.{hysteresis_first}
use xray_vision.Examples.Data.{output_with, state_at, fields_of}
use xray_vision.StateGate.Assembly.{
  ensure_consistent, update_engine_mode, apply_event, ready_event_type,
}
use xray_vision.StateGate.Evaluation.{
  insert, sorted, distinct, matched, maybe_failure, maybe_denylisted, maybe_transition_hold,
  open_gate,
}
use xray_vision.StateGate.Machine.{detect_reset, build_reset_event, build_gate_event, process_run}
use xray_vision.StateGate.Store.{snapshots_of, latest_engine_timestamps}
use xray_vision.Base.{keep, add}

abbrev limits : OperationLimits
limits = record { max_pending = 5; max_block_ms = none; max_failures = some 3 }

abbrev pub config : StateGateConfig
config = record {
  max_gap_ms = 1000;
  denylisted_invalidations = "stale" ∷ [];
  block_during_transition = true;
  input_limits = limits;
  persistence_limits = limits;
  publish_limits = limits;
}

abbrev empty_assembler : RunAssembler
empty_assembler = record {
  assemblies = [];
  processed_run_ids = [];
  latest_engine_timestamp_ms = [];
}

abbrev published : OrchestratorEvent
published = build_hysteresis_state_published (fields_of "r1" 100) (state_at 100 0) none

abbrev pub events : List OrchestratorEvent
events =
    build_engine_run_completed (fields_of "r0" 90) truth (output_with ("stale" ∷ [])) none
    ∷ published
    ∷ build_engine_run_failed (fields_of "r2" 5000) truth "engine_failure" "" none
    ∷ []

abbrev pub stale_run : AssembledRunInput
stale_run = record {
  run_id = "r0";
  symbol = "BTC";
  engine_timestamp_ms = 90;
  engine_mode = some truth;
  input_event_type = completed_input;
  regime_output = some (output_with ("stale" ∷ []));
  hysteresis_state = none;
}

ingest_all-Precedes_example : Pairwise Precedes (ingest_all empty_assembler events)
ingest_all-Precedes_example = ingest_all-Precedes events empty_assembler

evaluate-open_example : ((evaluate config stale_run).gate_status ≡ gate_open) ↔ (
    ¬ (completed_input ≡ failed_input)
    × ¬ ((v : String) × IsDenylisted config stale_run v)
    × ¬ IsBlocked config stale_run)
evaluate-open_example = evaluate-open config stale_run

not_failed : completed_input ≢ failed_input
not_failed h = cc

stale-IsDenylisted : IsDenylisted config stale_run "stale"
stale-IsDenylisted =
    (output_with ("stale" ∷ []), refl, unfold contains in refl, unfold contains in refl)

evaluate-IsDenylisted_reasons_example :
    ((v : String)
      → IsDenylisted config stale_run v
      → contains (denylisted_reason v) (evaluate config stale_run).reasons ≡ true)
    × ((r : String)
        → contains r (evaluate config stale_run).reasons ≡ true
        → (v : String) × IsDenylisted config stale_run v × (r ≡ denylisted_reason v))
evaluate-IsDenylisted_reasons_example =
    evaluate-IsDenylisted_reasons config stale_run "stale" not_failed stale-IsDenylisted

run_events-inputs_example :
    ingest_all empty_assembler (
      run_events
        (fields_of "r1" 100)
        hysteresis
        none
        (returned (output_with ("stale" ∷ [])) (some (state_at 100 0))))
    ≡ gate_inputs
        (fields_of "r1" 100)
        hysteresis
        (returned (output_with ("stale" ∷ [])) (some (state_at 100 0)))
run_events-inputs_example =
    run_events-inputs (fields_of "r1" 100) hysteresis none
      (returned (output_with ("stale" ∷ [])) (some (state_at 100 0))) empty_assembler
      (unfold contains in refl) (unfold Dict.get in refl) (unfold Dict.get in refl)

hysteresis_first_example :
    (run : AssembledRunInput) × ((ingest empty_assembler published).1 ≡ ok (some run))
    × (((evaluate config run).gate_status ≡ gate_open) ↔ ¬ ((true ≡ true) × (0 < 0)))
    × ((later : OrchestratorEvent)
        → later.run_id ≡ published.run_id
        → (ingest (ingest empty_assembler published).0 later).1 ≡ ok none)
hysteresis_first_example =
    hysteresis_first config empty_assembler published (state_at 100 0)
      (unfold build_hysteresis_state_published in refl)
      (unfold build_hysteresis_state_published in refl) (unfold contains in refl)
      (unfold Dict.get in refl) (unfold Dict.get in refl)

healthy : (consume_all (start config (open_store [])) events).0.persistence_healthy ≡ true
unfolding ensure_consistent update_engine_mode apply_event ready_event_type ingest insert sorted
    distinct matched maybe_failure maybe_denylisted maybe_transition_hold open_gate evaluate
    detect_reset build_reset_event build_gate_event process_run record_from_event append_record
    append_event snapshots_of open_store latest_engine_timestamps start publish_blocked append_all
    publish_run process_assembled consume consume_all keep contains add Dict.get Dict.put
    Dict.remove build_engine_run_completed build_hysteresis_state_published build_engine_run_failed
healthy = refl

consume_all-records_example :
    (consume_all (start config (open_store [])) events).0.store.records
    ≡ (start config (open_store [])).store.records
      ++ map record_from_event (consume_all (start config (open_store [])) events).1
consume_all-records_example = consume_all-records events (start config (open_store [])) healthy

started-IsSynced_example : IsSynced (consume_all (start config (open_store [])) events).0
started-IsSynced_example = started-IsSynced config (open_store []) events
