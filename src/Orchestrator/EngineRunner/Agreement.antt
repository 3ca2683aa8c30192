-- ===== src/Orchestrator/EngineRunner/Agreement.antt =====
-- The runs of src/orchestrator/engine_runner.py beside the file of the hysteresis store.
use mathlib.Core.Path.{subst}
use xray_vision.Base.{
  ℕ, ◌≡◌, ◌≢◌, refl, String, Option, none, some, false, ok, str_eq, Bool-cases, Result-cases, inl,
  inr, get_or,
}
use xray_vision.Base.Floats.{FloatOps}
use xray_vision.RegimeEngine.Contracts.{HysteresisState, RegimeOutput}
use xray_vision.RegimeEngine.Hysteresis.Rules.{RegimeState, default_config, advance_hysteresis}
use xray_vision.RegimeEngine.Hysteresis.Store.{state_for, update, process_state}
use xray_vision.RegimeEngine.Hysteresis.Persistence.{
  Codec, WriteOutcome, written, not_opened, not_synced, torn, file_after,
}
use xray_vision.RegimeEngine.Hysteresis.Persistence.Restore.{IsCodec}
use xray_vision.Orchestrator.EngineRunner.{
  HysteresisStatePersistence, EngineRunner, state_advanced, goes_back, Pipeline, persist,
  run_hysteresis, run_truth, run_with_store, run_engine,
}
use xray_vision.Orchestrator.EngineRunner.Writes.{
  Agree, StoreAgrees, AgreesIn, stay-Agree, written-Agree, failed-Agree,
}

-- An append that returns, or one that raises before any text is on the file.
abbrev pub IsClean : WriteOutcome → Type 0
IsClean written = Unit {0}
IsClean not_opened = Unit {0}
IsClean not_synced = ⊥
IsClean (torn part) = ⊥

-- What is relied on of the pipeline: the state that it returns carries the symbol and the timestamp
-- of the snapshot.
abbrev pub Faithful : {Snapshot : Type 0} → Pipeline Snapshot → Type 0
Faithful {Snapshot} pipeline =
    (x : Snapshot) (output : RegimeOutput) (s : RegimeState)
    → pipeline.run_pipeline_with_state x ≡ ok (output, s)
    → (s.symbol ≡ pipeline.symbol x) × (s.engine_timestamp_ms ≡ pipeline.timestamp x)

module _ {Snapshot : Type 0} (pipeline : Pipeline Snapshot) (ops : FloatOps) (codec : Codec)
    (laws : IsCodec codec) where
  persist-Agree :
      (w : WriteOutcome) (r : EngineRunner) (p : HysteresisStatePersistence) (symbol : String)
      (output : RegimeOutput) (h : HysteresisState)
      → IsClean w
      → h.symbol ≡ symbol
      → symbol ≢ ""
      → goes_back (state_for p.store symbol) h.engine_timestamp_ms ≡ false
      → Agree codec p
      → AgreesIn codec (persist pipeline ops codec w r p symbol output (update p.store symbol h) h)
  unfolding persist file_after
  persist-Agree written r p symbol output h clean same ne g agree =
      elim (Bool-cases (state_advanced (state_for p.store symbol) h)) [
        | inr e ↦ rw e (stay-Agree codec p symbol h g e agree)
        | inl e ↦ rw e (written-Agree codec p symbol h laws same ne g agree)
      ]
  persist-Agree not_opened r p symbol output h clean same ne g agree =
      elim (Bool-cases (state_advanced (state_for p.store symbol) h)) [
        | inr e ↦ rw e (stay-Agree codec p symbol h g e agree)
        | inl e ↦ rw e (failed-Agree codec p symbol h agree)
      ]
  persist-Agree (torn part) r p symbol output h clean same ne g agree = absurd clean
  persist-Agree not_synced r p symbol output h clean same ne g agree = absurd clean

  run_hysteresis-Agree :
      (w : WriteOutcome) (now_ms : ℕ) (r : EngineRunner) (p : HysteresisStatePersistence)
      (x : Snapshot)
      → IsClean w
      → Faithful pipeline
      → r.hysteresis_store ≡ some p
      → pipeline.symbol x ≢ ""
      → goes_back (state_for p.store (pipeline.symbol x)) (pipeline.timestamp x) ≡ false
      → Agree codec p
      → AgreesIn codec (run_hysteresis pipeline ops codec w now_ms r p x)
  unfolding run_hysteresis
  run_hysteresis-Agree w now_ms r p x clean faithful has ne g agree =
      elim (Result-cases (pipeline.run_pipeline_with_state x)) [
        | inr (e, q) ↦ rw (q, run_hysteresis, has) agree
        | inl ((output, s), q) ↦
            let (symbol, ts) = faithful x output s q in
            let h =
              advance_hysteresis ops now_ms (state_for p.store s.symbol) s
                (get_or r.hysteresis_config default_config) in
            let named : h.symbol ≡ s.symbol = unfold advance_hysteresis in refl in
            let dated : h.engine_timestamp_ms ≡ pipeline.timestamp x =
              unfold advance_hysteresis in ts in
            rw (q, run_hysteresis)
              (unfold process_state in
                subst
                  (λ k.
                    AgreesIn codec
                      (persist pipeline ops codec w r p k output (update p.store s.symbol h) h))
                  symbol
                  (persist-Agree w r p s.symbol output h clean named (rw symbol ne)
                    (rw (dated, symbol) g) agree))
      ]

  run_truth-Agree :
      (r : EngineRunner) (x : Snapshot)
      → StoreAgrees codec r.hysteresis_store
      → AgreesIn codec (run_truth pipeline ops codec r x)
  unfolding run_truth
  run_truth-Agree r x agree = elim (Result-cases (pipeline.run_pipeline_with_state x)) [
    | inr (e, q) ↦ rw (q, run_truth) agree
    | inl (a, q) ↦ rw (q, run_truth) agree
  ]

  run_with_store-Agree :
      (w : WriteOutcome) (now_ms : ℕ) (r : EngineRunner) (x : Snapshot)
      (o : Option HysteresisStatePersistence)
      → r.hysteresis_store ≡ o
      → IsClean w
      → Faithful pipeline
      → pipeline.symbol x ≢ ""
      → StoreAgrees codec o
      → AgreesIn codec (run_with_store pipeline ops codec w now_ms r o x)
  run_with_store-Agree w now_ms r x none has clean faithful ne agree = rw has agree
  run_with_store-Agree w now_ms r x (some p) has clean faithful ne agree =
      elim (Bool-cases (goes_back (state_for p.store (pipeline.symbol x)) (pipeline.timestamp x))) [
        | inl g ↦ rw (g, has) agree
        | inr g ↦ rw g (run_hysteresis-Agree w now_ms r p x clean faithful has ne g agree)
      ]

  -- Let an append that fails fail before any text is on the file. Whatever the mode and the
  -- outcome of a run, the failure of the pipeline or of the append included, the store in memory
  -- and the file show for every symbol one anchor, candidate and progress afterwards, if they did
  -- before the record was not the newer one and the file ended in a newline; these hold afterwards
  -- too. Conditions: what the codec writes for a record it loads again, the state of the pipeline
  -- carries the symbol and the timestamp of the snapshot, and the symbol is not empty.
  pub run_engine-Agree :
      (w : WriteOutcome) (now_ms : ℕ) (r : EngineRunner) (x : Snapshot)
      → IsClean w
      → Faithful pipeline
      → pipeline.symbol x ≢ ""
      → StoreAgrees codec r.hysteresis_store
      → AgreesIn codec (run_engine pipeline ops codec w now_ms r x)
  unfolding run_engine
  run_engine-Agree w now_ms r x clean faithful ne agree =
      elim (Bool-cases (str_eq r.engine_mode "hysteresis")) [
        | inl e ↦
            rw e (run_with_store-Agree w now_ms r x r.hysteresis_store refl clean faithful ne agree)
        | inr e ↦ rw e (elim (Bool-cases (str_eq r.engine_mode "truth")) [
          | inl t ↦ rw t (run_truth-Agree r x agree)
          | inr t ↦ rw t agree
        ])
      ]
