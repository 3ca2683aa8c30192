-- ===== src/Runtime/Due.antt =====
-- `OrchestratorRuntime._run_due` of src/runtime/wiring.py, which runs all the symbols of one tick. The
-- snapshot of the raw events (src/composer) and the engine with its store are parameters, and so are
-- the clock and the functions behind run ids. The sink is the list of what it was given.
pub mod Failures
pub mod Replayed
pub mod Growth
pub mod Frame
pub mod Steps
pub mod Session
pub mod Aborted
use xray_vision.Base.{
  ℕ, String, Option, none, some, List, [], ◌∷◌, Bool, true, false, Result, ok, err, ltb, str_eq,
  if◌then◌else◌, add, ◌>>=◌,
}
use xray_vision.Base.Sorting.{sorted_by}
use xray_vision.MarketData.Contracts.{RawMarketEvent}
use xray_vision.RegimeEngine.Contracts.{HysteresisState}
use xray_vision.Orchestrator.Errors.{Error}
use xray_vision.Orchestrator.Config.{SchedulerConfig}
use xray_vision.Orchestrator.Contracts.{
  EngineMode, truth, hysteresis, CutKind, timer, boundary, EngineRunRecord, started,
  OrchestratorEvent,
}
use xray_vision.Orchestrator.Buffer
use xray_vision.Orchestrator.Buffer.{RawInputBuffer}
use xray_vision.Orchestrator.Cuts.{Cut, CutSelector, empty_selector, next_cut, latest_ingest_seq}
use xray_vision.Orchestrator.Scheduler.{engine_timestamp_ms}
use xray_vision.Orchestrator.EngineRunner.{
  EngineRunResult, RunError, store_required, monotonicity_violation, persistence_failure,
  unsupported_mode, pipeline_failed,
}
use xray_vision.Orchestrator.Publisher.{build_engine_run_started}
use xray_vision.Orchestrator.Sequencing.{Publisher, empty_sequencer, publish}
use xray_vision.Orchestrator.RunLog.{EngineRunLog, Hashing, append, derive_run_id}
use xray_vision.Orchestrator.Replay.{raw_events_for_cut, counts_by_event_type, fields_of}
use xray_vision.Runtime.Publishing.{
  RunOutcome, snapshot_failed, untrusted, engine_failed, returned, outcome_events,
}

-- The state of the runtime, with an engine whose state is in `S`.
pub record OrchestratorRuntime (S : Type 0) : Type 0 where
  pub buffer : RawInputBuffer
  pub cut_selector : CutSelector
  pub engine_mode : EngineMode
  pub symbols : List String
  pub engine : S
  pub publisher : Publisher
  pub scheduler_config : SchedulerConfig
  pub run_log : EngineRunLog
  pub scheduler_running : Bool

-- How a part of `_run_due` ends: it goes on with what follows it, stops the scheduler and returns, or
-- raises.
pub data Flow : Type 0 where
  goes_on returns : Flow
  raises : Error → Flow

pub data Input : Type 0 where
  raw_event : RawMarketEvent → ℕ → Input
  tick : ℕ → (String → ℕ) → Input

-- The constructor, and `start`.
abbrev pub create_runtime : {S : Type 0} → EngineMode → SchedulerConfig → S → OrchestratorRuntime S
create_runtime mode config engine = record {
  buffer = record { max_records = 50000; records = []; next_seq = 1 };
  cut_selector = empty_selector;
  engine_mode = mode;
  symbols = [];
  engine = engine;
  publisher = record { sink = []; sequencer = empty_sequencer };
  scheduler_config = config;
  run_log = [];
  scheduler_running = true;
}

-- What `_run_due` calls outside of src/orchestrator.
pub record Services (S Snapshot : Type 0) : Type 0 where
  pub build_snapshot : List RawMarketEvent → String → ℕ → Result String Snapshot
  pub run_engine : S → Snapshot → S × Result RunError EngineRunResult
  -- `hysteresis_store.store.state_for`, and none where there is no store.
  pub state_for : S → String → Option HysteresisState
  pub hashing : Hashing

-- `str(exc)`.
abbrev pub error_text : RunError → String
error_text store_required = "hysteresis_store is required for hysteresis mode"
error_text monotonicity_violation = "hysteresis monotonicity violation"
error_text persistence_failure = ""
error_text unsupported_mode = "unsupported engine_mode"
error_text (pipeline_failed detail) = detail

abbrev pub engine_outcome : Result RunError EngineRunResult → RunOutcome
engine_outcome (ok x) = returned x.regime_output x.hysteresis_state
engine_outcome (err persistence_failure) = untrusted
engine_outcome (err monotonicity_violation) = untrusted
engine_outcome (err store_required) = engine_failed (error_text store_required)
engine_outcome (err unsupported_mode) = engine_failed (error_text unsupported_mode)
engine_outcome (err (pipeline_failed detail)) = engine_failed detail

-- Events in order, up to the first one that is refused.
unfoldable pub publish_each : Publisher → List OrchestratorEvent → Publisher × Option Error
publish_each p [] = (p, none)
publish_each p (e ∷ es) = elim (publish p e) [ err x ↦ (p, some x) | ok q ↦ publish_each q es ]

abbrev pub cut_kind_of : SchedulerConfig → CutKind
cut_kind_of c = if str_eq c.mode "boundary" then boundary else timer

abbrev pub cut_kind_text : CutKind → String
cut_kind_text timer = "timer"
cut_kind_text boundary = "boundary"

abbrev pub is_behind : EngineMode → Option HysteresisState → ℕ → Bool
is_behind truth h ts = false
is_behind hysteresis none ts = false
is_behind hysteresis (some h) ts = ltb ts h.engine_timestamp_ms

module _ {S Snapshot : Type 0} (services : Services S Snapshot) where
  -- `handle_raw_event`.
  unfoldable pub handle_raw_event :
      OrchestratorRuntime S → RawMarketEvent → ℕ → Result Error (OrchestratorRuntime S)
  handle_raw_event o event now_ms = do
    (b, r) ← Buffer.append o.buffer event none now_ms
    ok (record o { buffer = b; symbols = add event.symbol o.symbols })

  unfoldable pub guard_hysteresis_monotonic : OrchestratorRuntime S → String → ℕ → Bool
  guard_hysteresis_monotonic o symbol ts =
      is_behind o.engine_mode (services.state_for o.engine symbol) ts

  unfoldable pub run_record_of : OrchestratorRuntime S → Cut → ℕ → ℕ → EngineRunRecord
  run_record_of o c planned_ts_ms now_ms =
      let ts = engine_timestamp_ms o.scheduler_config planned_ts_ms in
      record {
        run_id = derive_run_id services.hashing c.symbol ts c.cut_end_ingest_seq o.engine_mode;
        symbol = c.symbol;
        engine_timestamp_ms = ts;
        engine_mode = o.engine_mode;
        cut_kind = cut_kind_of o.scheduler_config;
        cut_start_ingest_seq = c.cut_start_ingest_seq;
        cut_end_ingest_seq = c.cut_end_ingest_seq;
        planned_ts_ms = planned_ts_ms;
        started_ts_ms = some now_ms;
        completed_ts_ms = none;
        status = started;
        attempts = 1;
        error_kind = none;
        error_detail = none;
      }

  -- The snapshot and the engine.
  abbrev pub snapshot_outcome : S → Result String Snapshot → S × RunOutcome
  snapshot_outcome s (err detail) = (s, snapshot_failed detail)
  snapshot_outcome s (ok snapshot) =
      let (t, x) = services.run_engine s snapshot in (t, engine_outcome x)

  -- The scheduler stops where the stored state can no longer be trusted.
  abbrev pub end_run :
      OrchestratorRuntime S → RunOutcome → Publisher × Option Error → OrchestratorRuntime S × Flow
  end_run o untrusted (p, none) = (record o { publisher = p; scheduler_running = false }, returns)
  end_run o (snapshot_failed detail) (p, none) = (record o { publisher = p }, goes_on)
  end_run o (engine_failed detail) (p, none) = (record o { publisher = p }, goes_on)
  end_run o (returned output h) (p, none) = (record o { publisher = p }, goes_on)
  end_run o outcome (p, some x) = (record o { publisher = p }, raises x)

  unfoldable pub finish_run :
      OrchestratorRuntime S
      → EngineRunRecord
      → List RawMarketEvent
      → S × RunOutcome
      → OrchestratorRuntime S × Flow
  finish_run o r events (s, outcome) =
      end_run (record o { engine = s }) outcome
        (publish_each o.publisher
          (outcome_events (fields_of r) r.engine_mode (some (counts_by_event_type events)) outcome))

  abbrev pub with_raw :
      OrchestratorRuntime S
      → EngineRunRecord
      → Result Error (List RawMarketEvent)
      → OrchestratorRuntime S × Flow
  with_raw o r (err x) = (o, raises x)
  with_raw o r (ok events) =
      finish_run o r events
        (snapshot_outcome o.engine (services.build_snapshot events r.symbol r.engine_timestamp_ms))

  abbrev pub with_started :
      OrchestratorRuntime S
      → EngineRunRecord
      → Result Error Publisher
      → OrchestratorRuntime S × Flow
  with_started o r (err x) = (o, raises x)
  with_started o r (ok p) =
      with_raw (record o { publisher = p }) r
        (raw_events_for_cut o.buffer r.symbol r.cut_start_ingest_seq r.cut_end_ingest_seq)

  unfoldable pub run_cut : OrchestratorRuntime S → EngineRunRecord → OrchestratorRuntime S × Flow
  run_cut o r =
      with_started (record o { run_log = append o.run_log r }) r
        (publish o.publisher (build_engine_run_started (fields_of r) r.engine_mode))

  abbrev pub or_continue :
      OrchestratorRuntime S
      → ℕ
      → ℕ
      → Result Error (CutSelector × Cut)
      → OrchestratorRuntime S × Flow
  or_continue o planned now (err x) = (o, goes_on)
  or_continue o planned now (ok (sel, c)) =
      let o' = record o { cut_selector = sel } in run_cut o' (run_record_of o' c planned now)

  unfoldable pub run_symbol :
      OrchestratorRuntime S → ℕ → ℕ → ℕ → String → OrchestratorRuntime S × Flow
  run_symbol o latest planned now symbol =
      if guard_hysteresis_monotonic o symbol (engine_timestamp_ms o.scheduler_config planned)
      then (record o { scheduler_running = false }, returns)
      else or_continue o planned now (
          next_cut o.cut_selector o.buffer symbol latest
            (cut_kind_text (cut_kind_of o.scheduler_config)))

  abbrev pub and_next :
      (OrchestratorRuntime S → OrchestratorRuntime S × Flow)
      → OrchestratorRuntime S × Flow
      → OrchestratorRuntime S × Flow
  and_next next (o, goes_on) = next o
  and_next next (o, returns) = (o, returns)
  and_next next (o, raises x) = (o, raises x)

  -- The loop; `clock` gives the time that is read for each symbol.
  unfoldable pub run_symbols :
      OrchestratorRuntime S → ℕ → ℕ → (String → ℕ) → List String → OrchestratorRuntime S × Flow
  run_symbols o latest planned clock [] = (o, goes_on)
  run_symbols o latest planned clock (k ∷ ks) =
      and_next (λ q. run_symbols q latest planned clock ks)
        (run_symbol o latest planned (clock k) k)

  abbrev pub from_latest :
      OrchestratorRuntime S → ℕ → (String → ℕ) → Option ℕ → OrchestratorRuntime S × Flow
  from_latest o planned clock none = (o, goes_on)
  from_latest o planned clock (some latest) =
      run_symbols o latest planned clock (sorted_by (λ k. k) o.symbols)

  unfoldable pub run_due : OrchestratorRuntime S → ℕ → (String → ℕ) → OrchestratorRuntime S × Flow
  run_due o planned clock = from_latest o planned clock (latest_ingest_seq o.buffer)

  abbrev pub taken :
      OrchestratorRuntime S → Result Error (OrchestratorRuntime S) → OrchestratorRuntime S × Flow
  taken o (ok q) = (q, goes_on)
  taken o (err x) = (o, raises x)

  -- What reaches the runtime: a raw event, or a tick of the loop of `_run_scheduler`.
  abbrev pub take : OrchestratorRuntime S → Input → OrchestratorRuntime S × Flow
  take o (raw_event event now_ms) = taken o (handle_raw_event o event now_ms)
  take o (tick planned clock) = run_due o planned clock

  unfoldable pub run_session : OrchestratorRuntime S → List Input → OrchestratorRuntime S × Flow
  run_session o [] = (o, goes_on)
  run_session o (i ∷ is) = and_next (λ q. run_session q is) (take o i)
