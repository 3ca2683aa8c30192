-- ===== src/Runtime/Due/Aborted.antt =====
-- A run of src/runtime/wiring.py whose engine raises, and the replay of its record by
-- src/orchestrator/replay.py. The record keeps the status that it was appended with.
use xray_vision.Base.{◌≡◌, refl, ap, ◌∙◌, ℕ, String, some, List, [], ◌∷◌, ok, err, ◌>>=◌}
use xray_vision.MarketData.Contracts.{RawMarketEvent}
use xray_vision.Orchestrator.Contracts.{OrchestratorEvent}
use xray_vision.Orchestrator.Cuts.{Cut}
use xray_vision.Orchestrator.EngineRunner.{pipeline_failed}
use xray_vision.Orchestrator.Publisher.{build_engine_run_started, build_engine_run_failed}
use xray_vision.Orchestrator.Sequencing.{Publisher, publish}
use xray_vision.Orchestrator.RunLog.{append}
use xray_vision.Orchestrator.Replay.{
  engine_raised, raw_events_for_cut, counts_by_event_type, fields_of, replay_record, replay_events,
}
use xray_vision.Runtime.Publishing.{engine_failed, outcome_events}
use xray_vision.Runtime.Due.{
  OrchestratorRuntime, end_run, goes_on, Services, publish_each, finish_run, run_cut, run_record_of,
}
use xray_vision.Runtime.Due.Replayed.{callable}
use xray_vision.Runtime.Due.Frame.{replay_from-append}
use xray_vision.Runtime.Due.Steps.{IsReplayed}

module _ {S Snapshot : Type 0} (services : Services S Snapshot) (initial : S) where
  ended :
      (o : OrchestratorRuntime S) (detail : String) (p q : Publisher) (e : OrchestratorEvent)
      → publish p e ≡ ok q
      → end_run services o (engine_failed detail) (publish_each p (e ∷ []))
        ≡ (record o { publisher = q }, goes_on)
  unfolding publish_each
  ended o detail p q e h = rw (h, publish_each) refl

  -- Where the replay of the log has come to the state of the runtime and the engine raises on the
  -- next cut, whose snapshot can be built and whose two events are in order: the runtime goes on,
  -- and the replay of its new log raises the error of the engine.
  pub failed_run-aborts :
      (o : OrchestratorRuntime S) (c : Cut) (planned now : ℕ) (raw : List RawMarketEvent)
      (x : Snapshot) (t : S) (detail : String) (p q : Publisher)
      → IsReplayed services initial o
      → raw_events_for_cut o.buffer c.symbol c.cut_start_ingest_seq c.cut_end_ingest_seq ≡ ok raw
      → services.build_snapshot raw c.symbol
          (run_record_of services o c planned now).engine_timestamp_ms
        ≡ ok x
      → services.run_engine o.engine x ≡ (t, err (pipeline_failed detail))
      → publish o.publisher (
          build_engine_run_started
            (fields_of (run_record_of services o c planned now))
            o.engine_mode)
        ≡ ok p
      → publish p (
          build_engine_run_failed
            (fields_of (run_record_of services o c planned now))
            o.engine_mode
            "engine_failure"
            detail
            (some (counts_by_event_type raw)))
        ≡ ok q
      → ((run_cut services o (run_record_of services o c planned now)).1 ≡ goes_on)
        × (replay_events services.build_snapshot
              (callable services)
              o.buffer
              initial
              (run_cut services o (run_record_of services o c planned now)).0.run_log
            ≡ err (engine_raised (pipeline_failed detail)))
  unfolding run_cut run_record_of finish_run outcome_events replay_events replay_record append
  failed_run-aborts o c planned now raw x t detail p q h events built run started failed =
      let r = run_record_of services o c planned now in
      let end = record o { run_log = append o.run_log r; engine = t; publisher = p } in
      (
        rw (started, events, built, run) (ap (λ z. z.1) (ended end detail p q _ failed)),
        rw (started, events, built, run)
            (ap
                (λ z.
                  replay_events services.build_snapshot (callable services) o.buffer initial
                    z.0.run_log)
                (ended end detail p q _ failed)
              ∙ replay_from-append services o.buffer o.run_log _ r
              ∙ ap
                  (λ z. z >>= λ y.
                    replay_record services.build_snapshot (callable services) o.buffer y r)
                  h
              ∙ rw (events, started, built, run) refl),
      )
