-- ===== src/Orchestrator/EngineRunner.antt =====
-- src/orchestrator/engine_runner.py. The regime pipeline (`run_pipeline_with_state`, which `run` and
-- `run_with_hysteresis` both call) is a function of the snapshot that returns or raises; how the append
-- to the file goes, if there is one, is the argument `w`. The log lines are left out.
pub mod Writes
pub mod Agreement
pub mod Restart
pub mod Unsynced
use xray_vision.Base.{
  ℕ, String, Option, none, some, List, [], ◌∷◌, Bool, true, false, not, ◌||◌, Result, ok, err, ltb,
  str_eq, ◌==◌, if◌then◌else◌, get_or, ◌>>=◌,
}
use xray_vision.Base.Dict
use xray_vision.Base.Floats.{FloatOps}
use xray_vision.RegimeEngine.Contracts.{Regime, regime_eq, RegimeOutput, HysteresisState}
use xray_vision.RegimeEngine.Hysteresis.Rules.{RegimeState, HysteresisConfig}
use xray_vision.RegimeEngine.Hysteresis.Store.{HysteresisStore, state_for, update, process_state}
use xray_vision.RegimeEngine.Hysteresis.Persistence.{
  Codec, StoreFile, WriteOutcome, returns, file_after, RestoreError, restore_store,
}

pub record HysteresisStatePersistence : Type 0 where
  pub store : HysteresisStore
  pub file : Option StoreFile

pub record EngineRunner : Type 0 where
  pub engine_mode : String
  pub hysteresis_store : Option HysteresisStatePersistence
  pub hysteresis_config : Option HysteresisConfig

pub record EngineRunResult : Type 0 where
  pub regime_output : RegimeOutput
  pub hysteresis_state : Option HysteresisState

pub data RunError : Type 0 where
  store_required monotonicity_violation persistence_failure unsupported_mode : RunError
  pipeline_failed : String → RunError

-- `HysteresisStatePersistence.restore`.
unfoldable pub restore :
    Codec → HysteresisConfig → Option StoreFile → Result RestoreError HysteresisStatePersistence
restore codec config file = do
  store ← restore_store codec config file
  ok (record { store = store; file = file })

abbrev pub option_eq : Option Regime → Option Regime → Bool
option_eq none none = true
option_eq (some a) (some b) = regime_eq a b
option_eq _ _ = false

unfoldable pub state_advanced : Option HysteresisState → HysteresisState → Bool
state_advanced none next = true
state_advanced (some p) next =
    not (regime_eq p.anchor_regime next.anchor_regime)
    || not (option_eq p.candidate_regime next.candidate_regime)
    || not (p.progress_current == next.progress_current)

-- `_restore_state`: the entry of the symbol as it was.
abbrev pub put_back : HysteresisStore → String → Option HysteresisState → HysteresisStore
put_back store symbol none = record { states = Dict.remove store.states symbol }
put_back store symbol (some p) = update store symbol p

-- `_guard_monotonic`.
abbrev pub goes_back : Option HysteresisState → ℕ → Bool
goes_back none ts = false
goes_back (some p) ts = ltb ts p.engine_timestamp_ms

-- What the runner reads of a snapshot, and the pipeline over it.
pub record Pipeline (Snapshot : Type 0) : Type 0 where
  pub symbol : Snapshot → String
  pub timestamp : Snapshot → ℕ
  pub run_pipeline_with_state : Snapshot → Result String (RegimeOutput × RegimeState)

module _ {Snapshot : Type 0} (pipeline : Pipeline Snapshot) (ops : FloatOps) (codec : Codec) where
  -- The end of a run in hysteresis mode, with the next state `h` in the store.
  unfoldable pub persist :
      WriteOutcome
      → EngineRunner
      → HysteresisStatePersistence
      → String
      → RegimeOutput
      → HysteresisStore
      → HysteresisState
      → EngineRunner × Result RunError EngineRunResult
  persist w r p symbol output store h =
      let prev = state_for p.store symbol in
      let result = ok (record { regime_output = output; hysteresis_state = some h }) in
      let file = file_after codec w p.file h in
      if state_advanced prev h
      then (if returns w
          then (
            record r { hysteresis_store = some (record { store = store; file = file }) },
            result,
          )
          else (
            record r {
              hysteresis_store = some (record { store = put_back store symbol prev; file = file });
            },
            err persistence_failure,
          ))
      else (record r { hysteresis_store = some (record { store = store; file = p.file }) }, result)

  unfoldable pub run_hysteresis :
      WriteOutcome
      → ℕ
      → EngineRunner
      → HysteresisStatePersistence
      → Snapshot
      → EngineRunner × Result RunError EngineRunResult
  run_hysteresis w now_ms r p snapshot = elim (pipeline.run_pipeline_with_state snapshot) [
    | err e ↦ (r, err (pipeline_failed e))
    | ok (output, s) ↦
        let (store, h) = process_state ops now_ms s p.store r.hysteresis_config in
        persist w r p (pipeline.symbol snapshot) output store h
  ]

  unfoldable pub run_truth :
      EngineRunner → Snapshot → EngineRunner × Result RunError EngineRunResult
  run_truth r snapshot = elim (pipeline.run_pipeline_with_state snapshot) [
    | err e ↦ (r, err (pipeline_failed e))
    | ok (output, s) ↦ (r, ok (record { regime_output = output; hysteresis_state = none }))
  ]

  -- `run_engine` over the store that the runner has.
  abbrev pub run_with_store :
      WriteOutcome
      → ℕ
      → EngineRunner
      → Option HysteresisStatePersistence
      → Snapshot
      → EngineRunner × Result RunError EngineRunResult
  run_with_store w now_ms r none snapshot = (r, err store_required)
  run_with_store w now_ms r (some p) snapshot =
      if goes_back (state_for p.store (pipeline.symbol snapshot)) (pipeline.timestamp snapshot)
      then (r, err monotonicity_violation)
      else run_hysteresis w now_ms r p snapshot

  unfoldable pub run_engine :
      WriteOutcome → ℕ → EngineRunner → Snapshot → EngineRunner × Result RunError EngineRunResult
  run_engine w now_ms r snapshot =
      if str_eq r.engine_mode "hysteresis"
      then run_with_store w now_ms r r.hysteresis_store snapshot
      else if str_eq r.engine_mode "truth"
      then run_truth r snapshot
      else (r, err unsupported_mode)

  -- Runs one after the other, each with how its append goes and the clock.
  unfoldable pub run_all : EngineRunner → List (WriteOutcome × ℕ × Snapshot) → EngineRunner
  run_all r [] = r
  run_all r ((w, now_ms, x) ∷ cs) = run_all (run_engine w now_ms r x).0 cs
