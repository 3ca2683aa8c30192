-- ===== src/Runtime/Due/Frame.antt =====
-- What a run of src/runtime/wiring.py leaves alone, and one more record for src/orchestrator/replay.py.
use xray_vision.Base.{
  ◌≡◌, refl, Option, none, some, List, [], ◌∷◌, ◌++◌, Result, ok, err, inl, inr, Result-cases,
  ◌>>=◌,
}
use xray_vision.MarketData.Contracts.{RawMarketEvent}
use xray_vision.Orchestrator.Errors.{Error}
use xray_vision.Orchestrator.Contracts.{EngineRunRecord}
use xray_vision.Orchestrator.Buffer.{RawInputBuffer}
use xray_vision.Orchestrator.Sequencing.{Publisher}
use xray_vision.Orchestrator.Replay.{Replayed, replay_record, replay_from}
use xray_vision.Runtime.Publishing.{RunOutcome, snapshot_failed, untrusted, engine_failed, returned}
use xray_vision.Runtime.Due.{
  OrchestratorRuntime, Services, end_run, finish_run, with_raw, with_started, snapshot_outcome,
}
use xray_vision.Runtime.Due.Replayed.{callable}

module _ {S Snapshot : Type 0} (services : Services S Snapshot) where
  -- What a run leaves alone.
  abbrev pub SameFrame : OrchestratorRuntime S → OrchestratorRuntime S → Type 0
  SameFrame o q = (q.buffer ≡ o.buffer) × (q.run_log ≡ o.run_log) × (q.engine_mode ≡ o.engine_mode)

  end_run-SameFrame :
      (o : OrchestratorRuntime S) (outcome : RunOutcome) (r : Publisher × Option Error)
      → SameFrame o (end_run services o outcome r).0
  end_run-SameFrame o (snapshot_failed d) (p, none) = (refl, refl, refl)
  end_run-SameFrame o untrusted (p, none) = (refl, refl, refl)
  end_run-SameFrame o (engine_failed d) (p, none) = (refl, refl, refl)
  end_run-SameFrame o (returned x h) (p, none) = (refl, refl, refl)
  end_run-SameFrame o (snapshot_failed d) (p, some x) = (refl, refl, refl)
  end_run-SameFrame o untrusted (p, some x) = (refl, refl, refl)
  end_run-SameFrame o (engine_failed d) (p, some x) = (refl, refl, refl)
  end_run-SameFrame o (returned y h) (p, some x) = (refl, refl, refl)

  with_raw-SameFrame :
      (o : OrchestratorRuntime S) (r : EngineRunRecord) (raw : Result Error (List RawMarketEvent))
      → SameFrame o (with_raw services o r raw).0
  unfolding finish_run
  with_raw-SameFrame o r (err x) = (refl, refl, refl)
  with_raw-SameFrame o r (ok raw) =
      let (s, outcome) =
        snapshot_outcome services o.engine
          (services.build_snapshot raw r.symbol r.engine_timestamp_ms) in
      end_run-SameFrame (record o { engine = s }) outcome _

  pub with_started-SameFrame :
      (o : OrchestratorRuntime S) (r : EngineRunRecord) (p : Result Error Publisher)
      → SameFrame o (with_started services o r p).0
  with_started-SameFrame o r (err x) = (refl, refl, refl)
  with_started-SameFrame o r (ok p) = with_raw-SameFrame (record o { publisher = p }) r _

  same_result : {A E : Type 0} (r : Result E A) → (r >>= λ a. ok a) ≡ r
  same_result (ok a) = refl
  same_result (err e) = refl

  pub replay_from-append :
      (b : RawInputBuffer) (rs : List EngineRunRecord) (x : Replayed S) (r : EngineRunRecord)
      → replay_from services.build_snapshot (callable services) b x (rs ++ (r ∷ [])) ≡ (
          replay_from services.build_snapshot (callable services) b x rs >>= λ y.
          replay_record services.build_snapshot (callable services) b y r)
  unfolding replay_from
  replay_from-append b [] x r = same_result _
  replay_from-append b (q ∷ rs) x r =
      elim (Result-cases (replay_record services.build_snapshot (callable services) b x q)) [
        | inl (y, h) ↦ rw h (replay_from-append b rs y r)
        | inr (e, h) ↦ rw h refl
      ]
