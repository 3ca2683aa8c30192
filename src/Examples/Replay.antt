-- ===== src/Examples/Replay.antt =====
-- A session of the runtime with a concrete engine, and its replay.
use xray_vision.Base.{
  ◌≡◌, refl, ℕ, suc, none, some, List, [], ◌∷◌, Result, ok, err, length, add, contains, keep,
}
use xray_vision.Base.Dict
use xray_vision.Base.Sorting.{sorted_by, insert_by}
use xray_vision.Orchestrator.Buffer
use xray_vision.Orchestrator.RunLog
use xray_vision.Orchestrator.RunLog.{derive_run_id}
use xray_vision.Orchestrator.Buffer.{last_ingest_seq, range_by_seq, range_by_symbol}
use xray_vision.Orchestrator.Cuts.{
  latest_ingest_seq, next_cut, start_of, first_seq_for_symbol, first_seq,
}
use xray_vision.Orchestrator.Publisher.{
  build_engine_run_started, build_engine_run_completed, build_engine_run_failed,
  build_hysteresis_state_published,
}
use xray_vision.Orchestrator.Replay.{
  counts_by_event_type, raw_events_for_cut, fields_of, replay_events, replay_from, engine_raised,
}
use xray_vision.Orchestrator.Scheduler.{engine_timestamp_ms}
use xray_vision.Orchestrator.Sequencing.{Publisher, ensure_next, publish}
use xray_vision.Runtime.Publishing.{outcome_events}
use xray_vision.Orchestrator.Config.{SchedulerConfig}
use xray_vision.Orchestrator.Contracts.{truth, OrchestratorEvent}
use xray_vision.Orchestrator.Cuts.{Cut}
use xray_vision.Orchestrator.EngineRunner.{EngineRunResult, RunError, pipeline_failed}
use xray_vision.Runtime.Due.{
  OrchestratorRuntime, goes_on, Services, create_runtime, Input, raw_event, tick, run_session,
  handle_raw_event, run_due, run_symbols, run_symbol, guard_hysteresis_monotonic, finish_run,
  publish_each, run_cut, run_record_of,
}
use xray_vision.Runtime.Due.Replayed.{callable}
use xray_vision.Runtime.Due.Steps.{IsReplayed}
use xray_vision.Runtime.Due.Aborted.{failed_run-aborts}
use xray_vision.Examples.Data.{trade, output_with}

abbrev counted : ℕ → ℕ → ℕ × Result RunError EngineRunResult
counted n snapshot =
    (suc n, ok (record { regime_output = output_with []; hysteresis_state = none }))

abbrev services : Services ℕ ℕ
services = record {
  build_snapshot = λ events symbol ts. ok ts;
  run_engine = counted;
  state_for = λ n symbol. none;
  hashing = record { decimal = λ n. "0"; sha256 = λ t. t };
}

abbrev every_second : SchedulerConfig
every_second = record {
  mode = "timer";
  timer_interval_ms = some 1000;
  boundary_interval_ms = none;
  boundary_delay_ms = none;
}

abbrev inputs : List Input
inputs = raw_event (trade "BTC") 5 ∷ tick 1000 (λ k. 1001) ∷ tick 2000 (λ k. 2001) ∷ []

-- One run has been published: its start and its completion.
published :
    length (run_session services (create_runtime truth every_second 0) inputs).0.publisher.sink ≡ 2
unfolding run_session handle_raw_event Buffer.append run_due latest_ingest_seq last_ingest_seq
    run_symbols sorted_by add insert_by run_symbol guard_hysteresis_monotonic next_cut start_of
    Dict.get first_seq_for_symbol range_by_seq Dict.put contains keep range_by_symbol first_seq
    build_engine_run_completed build_engine_run_failed build_engine_run_started
    build_hysteresis_state_published counts_by_event_type raw_events_for_cut RunLog.append
    derive_run_id engine_timestamp_ms ensure_next publish finish_run publish_each run_cut
    run_record_of outcome_events
published = refl

-- An engine that raises.
abbrev broken : Services ℕ ℕ
broken = record services { run_engine = λ n snapshot. (n, err (pipeline_failed "no evidence")) }

abbrev ingested : OrchestratorRuntime ℕ
ingested = record (create_runtime truth every_second 0) {
  buffer = record {
    max_records = 50000;
    records = record { ingest_seq = 1; ingest_ts_ms = 5; event = trade "BTC" } ∷ [];
    next_seq = 2;
  };
  symbols = "BTC" ∷ [];
}

abbrev first_cut : Cut
first_cut = record {
  symbol = "BTC";
  cut_start_ingest_seq = 1;
  cut_end_ingest_seq = 1;
  cut_kind = "timer";
}

abbrev begun : OrchestratorEvent
begun =
    build_engine_run_started (fields_of (run_record_of broken ingested first_cut 1000 1001)) truth

abbrev told : OrchestratorEvent
told =
    build_engine_run_failed (fields_of (run_record_of broken ingested first_cut 1000 1001)) truth
      "engine_failure" "no evidence" (some (counts_by_event_type (trade "BTC" ∷ [])))

abbrev after : List OrchestratorEvent → Publisher
after events = record {
  sink = events;
  sequencer = record { last_timestamp_by_symbol = ("BTC", 1000) ∷ [] };
}

empty_replay : IsReplayed broken 0 ingested
unfolding replay_events replay_from
empty_replay = refl

read : raw_events_for_cut ingested.buffer "BTC" 1 1 ≡ ok (trade "BTC" ∷ [])
unfolding raw_events_for_cut range_by_symbol range_by_seq keep
read = refl

built :
    broken.build_snapshot
      (trade "BTC" ∷ [])
      "BTC"
      (run_record_of broken ingested first_cut 1000 1001).engine_timestamp_ms
    ≡ ok 1000
unfolding run_record_of engine_timestamp_ms
built = refl

begins : publish ingested.publisher begun ≡ ok (after (begun ∷ []))
unfolding publish ensure_next Dict.get Dict.put build_engine_run_started run_record_of
    engine_timestamp_ms
begins = refl

tells : publish (after (begun ∷ [])) told ≡ ok (after (begun ∷ told ∷ []))
unfolding publish ensure_next Dict.get Dict.put build_engine_run_failed run_record_of
    engine_timestamp_ms
tells = refl

failed_run-aborts_example :
    ((run_cut broken ingested (run_record_of broken ingested first_cut 1000 1001)).1 ≡ goes_on)
    × (replay_events broken.build_snapshot
          (callable broken)
          ingested.buffer
          0
          (run_cut broken ingested (run_record_of broken ingested first_cut 1000 1001)).0.run_log
        ≡ err (engine_raised (pipeline_failed "no evidence")))
failed_run-aborts_example =
    failed_run-aborts broken 0 ingested first_cut 1000 1001 (trade "BTC" ∷ []) 1000 0 "no evidence"
      (after (begun ∷ [])) (after (begun ∷ told ∷ [])) empty_replay read built refl begins tells
