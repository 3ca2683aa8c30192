-- ===== src/Examples/Stored.antt =====
-- A state is written, restored, and kept in step with the file.
use xray_vision.Base.{
  ℕ, ◌≡◌, ◌≢◌, refl, String, none, some, List, [], ◌∷◌, ok, str_eq, if◌then◌else◌, Result,
}
use mathlib.Core.Option
use xray_vision.Base.Dict
use xray_vision.RegimeEngine.Contracts.{chop_balanced, squeeze_up, RegimeOutput, HysteresisState}
use xray_vision.RegimeEngine.Hysteresis.Rules.{RegimeState, advance_hysteresis}
use xray_vision.RegimeEngine.Hysteresis.Store.{HysteresisStore, empty_store, update, process_state}
use xray_vision.RegimeEngine.Hysteresis.Persistence.{
  HysteresisStoreRecord, build_record, serialize_record, parse_record, append_record, restore_state,
  restore_store, WriteOutcome, written, not_opened, file_after,
}
use xray_vision.RegimeEngine.Hysteresis.Persistence.RoundTrip.{parse_record-serialize}
use xray_vision.RegimeEngine.Hysteresis.Persistence.Restore.{on_file, restore_after_append}
use xray_vision.Orchestrator.EngineRunner.{
  HysteresisStatePersistence, EngineRunner, Pipeline, run_engine, run_all, restore, run_hysteresis,
  persist, state_advanced,
}
use xray_vision.Orchestrator.EngineRunner.Writes.{AgreesIn}
use xray_vision.Orchestrator.EngineRunner.Agreement.{Faithful, run_engine-Agree}
use xray_vision.Orchestrator.EngineRunner.Restart.{SameProgress, restart_after_runs}
use xray_vision.Examples.Data.{by_bits, state_at, window_two, squeeze_at, output_with}
use xray_vision.Examples.Codecs.{letters, letters-IsCodec}

abbrev stored : HysteresisStoreRecord
stored = record {
  symbol = "BTC";
  engine_timestamp_ms = 4;
  anchor_regime = chop_balanced;
  candidate_regime = some squeeze_up;
  progress_current = 1;
  last_commit_timestamp_ms = none;
}

btc_not_empty : stored.symbol ≢ ""
btc_not_empty h = cc

parse_record-serialize_example : parse_record (serialize_record stored) ≡ ok stored
parse_record-serialize_example =
    parse_record-serialize stored (serialize_record stored) btc_not_empty (λ k. refl)

restore_after_append_example :
    (store : HysteresisStore) × (restore_store letters window_two
        (append_record letters none (state_at 4 1))
      ≡ ok store)
    × ((j : String)
        → Dict.get store.states j ≡ (
            if str_eq "BTC" j
            then some (restore_state window_two (build_record (state_at 4 1)))
            else Option.map (restore_state window_two) (on_file letters none j)))
restore_after_append_example =
    restore_after_append letters window_two none (state_at 4 1) letters-IsCodec btc_not_empty tt tt

-- A pipeline that always sees the squeeze at its timestamp.
abbrev seen : ℕ → Result String (RegimeOutput × RegimeState)
seen ts = ok (output_with [], squeeze_at ts)

abbrev squeezing : Pipeline ℕ
squeezing = record { symbol = λ ts. "BTC"; timestamp = λ ts. ts; run_pipeline_with_state = seen }

squeezing-Faithful : Faithful squeezing
squeezing-Faithful x output s e = let same : squeeze_at x ≡ s = cc in rw (← same) (refl, refl)

abbrev fresh_runner : EngineRunner
fresh_runner = record {
  engine_mode = "hysteresis";
  hysteresis_store = some (record { store = empty_store; file = none });
  hysteresis_config = some window_two;
}

run_engine-Agree_example :
    AgreesIn letters (run_engine squeezing by_bits letters written 50 fresh_runner 4)
run_engine-Agree_example =
    run_engine-Agree squeezing by_bits letters letters-IsCodec written 50 fresh_runner 4 tt
      squeezing-Faithful btc_not_empty (tt, λ j. unfold Dict.get in tt)

abbrev fresh : HysteresisStatePersistence
fresh = record { store = empty_store; file = none }

fresh_restored : restore letters window_two none ≡ ok fresh
unfolding restore restore_store
fresh_restored = refl

-- Two runs, of which the first cannot open the file.
abbrev runs : List (WriteOutcome × ℕ × ℕ)
runs = (not_opened, 40, 3) ∷ (written, 50, 4) ∷ []

-- The state after the second, and what the runner has then.
abbrev squeezed : HysteresisState
squeezed = advance_hysteresis by_bits 50 none (squeeze_at 4) window_two

abbrev after_runs : HysteresisStatePersistence
after_runs = record {
  store = update empty_store "BTC" squeezed;
  file = append_record letters none squeezed;
}

left : (run_all squeezing by_bits letters fresh_runner runs).hysteresis_store ≡ some after_runs
unfolding run_all run_engine run_hysteresis persist file_after process_state state_advanced Dict.get
    Dict.put Dict.remove
left = refl

restart_after_runs_example :
    (next : HysteresisStatePersistence) × (restore letters window_two after_runs.file ≡ ok next)
    × ((j : String)
        → SameProgress (Dict.get after_runs.store.states j) (Dict.get next.store.states j))
restart_after_runs_example =
    restart_after_runs squeezing by_bits letters letters-IsCodec window_two none fresh after_runs
      "hysteresis" (some window_two) runs "BTC" squeezed squeezing-Faithful tt fresh_restored
      ((tt, btc_not_empty), ((tt, btc_not_empty), tt)) left (Dict.get-put_self [] "BTC" squeezed)
