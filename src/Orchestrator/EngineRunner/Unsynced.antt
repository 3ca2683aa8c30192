-- ===== src/Orchestrator/EngineRunner/Unsynced.antt =====
-- An append of src/orchestrator/engine_runner.py that fails when all of its text is on the file.
use xray_vision.Base.{ℕ, ◌≡◌, String, Option, some, ok, err, Result, get_or}
use xray_vision.Base.Dict
use xray_vision.Base.Floats.{FloatOps}
use xray_vision.RegimeEngine.Contracts.{HysteresisState}
use xray_vision.RegimeEngine.Hysteresis.Rules.{
  RegimeState, HysteresisConfig, default_config, advance_hysteresis,
}
use xray_vision.RegimeEngine.Hysteresis.Store.{state_for}
use xray_vision.RegimeEngine.Hysteresis.Persistence.{Codec, build_record, restore_state}
use xray_vision.RegimeEngine.Hysteresis.Persistence.Restore.{IsCodec}
use xray_vision.Orchestrator.EngineRunner.{
  HysteresisStatePersistence, EngineRunner, EngineRunResult, RunError, persistence_failure,
  Pipeline, restore,
}

-- A run on `p` that has failed: the store in memory is as it was, and a restore gives the symbol the
-- state `h`.
abbrev pub HasDiverged :
    Codec
    → HysteresisConfig
    → HysteresisStatePersistence
    → HysteresisState
    → EngineRunner × Result RunError EngineRunResult
    → Type 0
HasDiverged codec config p h (r, result) =
    (result ≡ err persistence_failure)
    × (q : HysteresisStatePersistence) × (r.hysteresis_store ≡ some q)
    × ((j : String) → Dict.get q.store.states j ≡ Dict.get p.store.states j)
    × (next : HysteresisStatePersistence) × (restore codec config q.file ≡ ok next)
    × (Dict.get next.store.states h.symbol ≡ some (restore_state config (build_record h)))

module _ {Snapshot : Type 0} (pipeline : Pipeline Snapshot) (ops : FloatOps) (codec : Codec)
    (laws : IsCodec codec) (config : HysteresisConfig) where
  -- The state that a run with the belief `s` comes to.
  abbrev pub next_state :
      ℕ → HysteresisStatePersistence → Option HysteresisConfig → RegimeState → HysteresisState
  next_state now_ms p active s =
      advance_hysteresis ops now_ms (state_for p.store s.symbol) s (get_or active default_config)
