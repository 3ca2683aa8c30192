-- ===== src/Orchestrator/Publisher.antt =====
-- The builders of src/orchestrator/publisher.py. The arguments that all of them take are one record.
use xray_vision.Base.{ℕ, String, Option, none, some}
use xray_vision.Base.Dict.{Dict}
use xray_vision.RegimeEngine.Contracts.{RegimeOutput, HysteresisState}
use xray_vision.Orchestrator.Contracts.{
  EngineMode, hysteresis, CutKind, engine_run_started, engine_run_completed, engine_run_failed,
  hysteresis_state_published, run_failed, run_completed, hysteresis_payload, OrchestratorEvent,
}

pub record RunFields : Type 0 where
  pub run_id : String
  pub symbol : String
  pub engine_timestamp_ms : ℕ
  pub cut_start_ingest_seq : ℕ
  pub cut_end_ingest_seq : ℕ
  pub cut_kind : CutKind
  pub attempt : Option ℕ
  pub published_ts_ms : Option ℕ

unfoldable pub build_engine_run_started : RunFields → EngineMode → OrchestratorEvent
build_engine_run_started f mode = record {
  schema = "orchestrator_event";
  schema_version = "1";
  event_type = engine_run_started;
  run_id = f.run_id;
  symbol = f.symbol;
  engine_timestamp_ms = f.engine_timestamp_ms;
  cut_start_ingest_seq = f.cut_start_ingest_seq;
  cut_end_ingest_seq = f.cut_end_ingest_seq;
  cut_kind = f.cut_kind;
  engine_mode = some mode;
  attempt = f.attempt;
  published_ts_ms = f.published_ts_ms;
  counts_by_event_type = none;
  payload = none;
}

unfoldable pub build_engine_run_completed :
    RunFields → EngineMode → RegimeOutput → Option (Dict ℕ) → OrchestratorEvent
build_engine_run_completed f mode output counts = record {
  schema = "orchestrator_event";
  schema_version = "1";
  event_type = engine_run_completed;
  run_id = f.run_id;
  symbol = f.symbol;
  engine_timestamp_ms = f.engine_timestamp_ms;
  cut_start_ingest_seq = f.cut_start_ingest_seq;
  cut_end_ingest_seq = f.cut_end_ingest_seq;
  cut_kind = f.cut_kind;
  engine_mode = some mode;
  attempt = f.attempt;
  published_ts_ms = f.published_ts_ms;
  counts_by_event_type = counts;
  payload = some (run_completed output);
}

unfoldable pub build_engine_run_failed :
    RunFields → EngineMode → String → String → Option (Dict ℕ) → OrchestratorEvent
build_engine_run_failed f mode error_kind error_detail counts = record {
  schema = "orchestrator_event";
  schema_version = "1";
  event_type = engine_run_failed;
  run_id = f.run_id;
  symbol = f.symbol;
  engine_timestamp_ms = f.engine_timestamp_ms;
  cut_start_ingest_seq = f.cut_start_ingest_seq;
  cut_end_ingest_seq = f.cut_end_ingest_seq;
  cut_kind = f.cut_kind;
  engine_mode = some mode;
  attempt = f.attempt;
  published_ts_ms = f.published_ts_ms;
  counts_by_event_type = counts;
  payload = some (run_failed error_kind error_detail);
}

unfoldable pub build_hysteresis_state_published :
    RunFields → HysteresisState → Option (Dict ℕ) → OrchestratorEvent
build_hysteresis_state_published f h counts = record {
  schema = "orchestrator_event";
  schema_version = "1";
  event_type = hysteresis_state_published;
  run_id = f.run_id;
  symbol = f.symbol;
  engine_timestamp_ms = f.engine_timestamp_ms;
  cut_start_ingest_seq = f.cut_start_ingest_seq;
  cut_end_ingest_seq = f.cut_end_ingest_seq;
  cut_kind = f.cut_kind;
  engine_mode = some hysteresis;
  attempt = f.attempt;
  published_ts_ms = f.published_ts_ms;
  counts_by_event_type = counts;
  payload = some (hysteresis_payload h);
}
