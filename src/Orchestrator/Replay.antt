-- ===== src/Orchestrator/Replay.antt =====
-- src/orchestrator/replay.py. The snapshot of the raw events (src/composer) and the engine are
-- parameters; the engine may keep a state. `_publish` fills the list of events as the publisher
-- fills its sink (Sequencing).
use xray_vision.Base.{
  ℕ, ◌+◌, String, Option, none, some, List, [], ◌∷◌, map, Result, ok, err, get_or, ◌>>=◌,
}
use xray_vision.Base.Dict
use xray_vision.Base.Dict.{Dict}
use xray_vision.MarketData.Contracts.{RawMarketEvent}
use xray_vision.RegimeEngine.Contracts.{RegimeOutput, HysteresisState}
use xray_vision.Orchestrator.Errors.{Error}
use xray_vision.Orchestrator.Contracts.{
  EngineMode, truth, hysteresis, EngineRunRecord, EngineRunStatus, started, completed, failed,
}
use xray_vision.Orchestrator.Buffer.{RawInputBuffer, range_by_symbol}
use xray_vision.Orchestrator.EngineRunner.{EngineRunResult, RunError}
use xray_vision.Orchestrator.Publisher.{
  RunFields, build_engine_run_started, build_engine_run_completed, build_engine_run_failed,
  build_hysteresis_state_published,
}
use xray_vision.Orchestrator.Sequencing.{Publisher, empty_sequencer, publish}

-- `RegimeOutput | EngineRunResult`.
pub data EngineReturn : Type 0 where
  plain : RegimeOutput → EngineReturn
  run_result : EngineRunResult → EngineReturn

pub data ReplayError : Type 0 where
  orchestrator_error : Error → ReplayError
  engine_raised : RunError → ReplayError
  result_expected state_expected : ReplayError

pub record Replayed (S : Type 0) : Type 0 where
  pub engine : S
  pub published : Publisher

abbrev pub lift : {A : Type 0} → Result Error A → Result ReplayError A
lift (ok a) = ok a
lift (err e) = err (orchestrator_error e)

-- The same in src/runtime/wiring.py.
unfoldable pub raw_events_for_cut :
    RawInputBuffer → String → ℕ → ℕ → Result Error (List RawMarketEvent)
raw_events_for_cut b symbol start_seq end_seq = do
  records ← range_by_symbol b symbol start_seq end_seq
  ok (map (λ r. r.event) records)

abbrev count_all : Dict ℕ → List RawMarketEvent → Dict ℕ
count_all counts [] = counts
count_all counts (e ∷ es) =
    count_all (Dict.put counts e.event_type (get_or (Dict.get counts e.event_type) 0 + 1)) es

-- The same in src/runtime/wiring.py.
unfoldable pub counts_by_event_type : List RawMarketEvent → Dict ℕ
counts_by_event_type es = count_all [] es

-- The arguments that the builders take from a record.
abbrev pub fields_of : EngineRunRecord → RunFields
fields_of r = record {
  run_id = r.run_id;
  symbol = r.symbol;
  engine_timestamp_ms = r.engine_timestamp_ms;
  cut_start_ingest_seq = r.cut_start_ingest_seq;
  cut_end_ingest_seq = r.cut_end_ingest_seq;
  cut_kind = r.cut_kind;
  attempt = some r.attempts;
  published_ts_ms = none;
}

abbrev plain_output : EngineReturn → RegimeOutput
plain_output (plain output) = output
plain_output (run_result r) = r.regime_output

module _ {S Snapshot : Type 0}
    (build_snapshot : List RawMarketEvent → String → ℕ → Result String Snapshot)
    (engine : S → Snapshot → S × Result RunError EngineReturn) where
  unfoldable pub complete :
      S → Publisher → EngineRunRecord → Dict ℕ → RegimeOutput → Result ReplayError (Replayed S)
  complete s p r counts output = do
    q ←
        lift
          (publish p (build_engine_run_completed (fields_of r) r.engine_mode output (some counts)))
    ok (record { engine = s; published = q })

  unfoldable pub decide :
      S
      → Publisher
      → EngineRunRecord
      → Dict ℕ
      → RegimeOutput
      → Option HysteresisState
      → Result ReplayError (Replayed S)
  decide s p r counts output none = err state_expected
  decide s p r counts output (some h) = do
    q ← lift (publish p (build_hysteresis_state_published (fields_of r) h (some counts)))
    complete s q r counts output

  abbrev pub with_return :
      EngineMode
      → S
      → Publisher
      → EngineRunRecord
      → Dict ℕ
      → EngineReturn
      → Result ReplayError (Replayed S)
  with_return hysteresis s p r counts (plain output) = err result_expected
  with_return hysteresis s p r counts (run_result x) =
      decide s p r counts x.regime_output x.hysteresis_state
  with_return truth s p r counts x = complete s p r counts (plain_output x)

  abbrev pub after_engine :
      Publisher
      → EngineRunRecord
      → Dict ℕ
      → S × Result RunError EngineReturn
      → Result ReplayError (Replayed S)
  after_engine p r counts (s, err e) = err (engine_raised e)
  after_engine p r counts (s, ok x) = with_return r.engine_mode s p r counts x

  unfoldable pub fail :
      S → Publisher → EngineRunRecord → Dict ℕ → String → String → Result ReplayError (Replayed S)
  fail s p r counts kind detail = do
    q ←
        lift (
          publish p (build_engine_run_failed (fields_of r) r.engine_mode kind detail (some counts)))
    ok (record { engine = s; published = q })

  abbrev pub after_snapshot :
      S
      → Publisher
      → EngineRunRecord
      → Dict ℕ
      → Result String Snapshot
      → Result ReplayError (Replayed S)
  after_snapshot s p r counts (err detail) = fail s p r counts "snapshot_build_failure" detail
  after_snapshot s p r counts (ok snapshot) = after_engine p r counts (engine s snapshot)

  abbrev pub by_status :
      EngineRunStatus
      → S
      → Publisher
      → EngineRunRecord
      → List RawMarketEvent
      → Result ReplayError (Replayed S)
  by_status failed s p r raw =
      fail s p r (counts_by_event_type raw) (get_or r.error_kind "engine_failure")
        (get_or r.error_detail "engine failure")
  by_status started s p r raw =
      after_snapshot s p r (counts_by_event_type raw)
        (build_snapshot raw r.symbol r.engine_timestamp_ms)
  by_status completed s p r raw =
      after_snapshot s p r (counts_by_event_type raw)
        (build_snapshot raw r.symbol r.engine_timestamp_ms)

  unfoldable pub replay_record :
      RawInputBuffer → Replayed S → EngineRunRecord → Result ReplayError (Replayed S)
  replay_record b x r = do
    raw ← lift (raw_events_for_cut b r.symbol r.cut_start_ingest_seq r.cut_end_ingest_seq)
    p ← lift (publish x.published (build_engine_run_started (fields_of r) r.engine_mode))
    by_status r.status x.engine p r raw

  unfoldable pub replay_from :
      RawInputBuffer → Replayed S → List EngineRunRecord → Result ReplayError (Replayed S)
  replay_from b x [] = ok x
  replay_from b x (r ∷ rs) = replay_record b x r >>= λ y. replay_from b y rs

  unfoldable pub replay_events :
      RawInputBuffer → S → List EngineRunRecord → Result ReplayError (Replayed S)
  replay_events b s records =
      replay_from b
        (record { engine = s; published = record { sink = []; sequencer = empty_sequencer } })
        records
