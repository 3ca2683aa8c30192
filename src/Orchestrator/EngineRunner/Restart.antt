-- ===== src/Orchestrator/EngineRunner/Restart.antt =====
-- `HysteresisStatePersistence.restore` of src/orchestrator/engine_runner.py beside the store in
-- memory.
use mathlib.Core.Option
use mathlib.Core.Path.{subst}
use xray_vision.Base.{
  ◌>>=◌, ◌≡◌, ◌≢◌, ℕ, Result, refl, ap, All, [], ◌∷◌, err, String, Option, none, some, List, ok,
  arith,
}
use xray_vision.Base.Dict
use xray_vision.Base.Dict.{Dict}
use xray_vision.Base.Floats.{FloatOps}
use xray_vision.RegimeEngine.Contracts.{HysteresisState}
use xray_vision.RegimeEngine.Hysteresis.Rules.{HysteresisConfig}
use xray_vision.RegimeEngine.Hysteresis.Store.{HysteresisStore, empty_store}
use xray_vision.RegimeEngine.Hysteresis.Persistence.{
  Codec, StoreFile, file_lines, HysteresisStoreRecord, restore_loaded, WriteOutcome, RestoreError,
  load_records, restore_state, restore_states, restore_store,
}
use xray_vision.RegimeEngine.Hysteresis.Persistence.Restore.{
  IsCodec, IsEnded, on_file, ne-nil_of_get, get-map, restore_loaded-some,
}
use xray_vision.Orchestrator.EngineRunner.{
  HysteresisStatePersistence, EngineRunner, Pipeline, restore, run_engine, run_all,
}
use xray_vision.Orchestrator.EngineRunner.Writes.{Matches, Agree, StoreAgrees}
use xray_vision.Orchestrator.EngineRunner.Agreement.{IsClean, Faithful, run_engine-Agree}

-- Two stores show one anchor, candidate and progress for a symbol, or nothing both.
abbrev pub SameProgress : Option HysteresisState → Option HysteresisState → Type 0
SameProgress none none = Unit {0}
SameProgress (some h) (some k) =
    (k.anchor_regime ≡ h.anchor_regime)
    × (k.candidate_regime ≡ h.candidate_regime)
    × (k.progress_current ≡ h.progress_current)
SameProgress _ _ = ⊥

Matches-SameProgress :
    (config : HysteresisConfig) (o : Option HysteresisState) (r : Option HysteresisStoreRecord)
    → Matches o r
    → SameProgress o (Option.map (restore_state config) r)
unfolding restore_state
Matches-SameProgress config none none m = tt
Matches-SameProgress config none (some r) m = m
Matches-SameProgress config (some h) none m = m
Matches-SameProgress config (some h) (some r) (a, c, p, t) = (a, c, p)

Matches-found :
    (o : Option HysteresisState) (h : HysteresisState) (r : Option HysteresisStoreRecord)
    → o ≡ some h
    → Matches o r
    → (x : HysteresisStoreRecord) × (r ≡ some x)
Matches-found none h r e m = absurd (ground arith)
Matches-found (some k) h none e m = absurd m
Matches-found (some k) h (some x) e m = (x, refl)

restore-SameProgress :
    (codec : Codec) (config : HysteresisConfig) (p : HysteresisStatePersistence)
    (file : Option StoreFile) (symbol : String) (x : HysteresisStoreRecord)
    → ((j : String) → Matches (Dict.get p.store.states j) (on_file codec file j))
    → on_file codec file symbol ≡ some x
    → (store : HysteresisStore) × (restore_store codec config file ≡ ok store)
      × ((j : String) → SameProgress (Dict.get p.store.states j) (Dict.get store.states j))
unfolding restore_store
restore-SameProgress codec config p none symbol x agree e = absurd (ground arith)
restore-SameProgress codec config p (some f) symbol x agree e =
    let records = load_records codec (file_lines f) in
    (
      record { states = restore_states config records },
      restore_loaded-some config records (ne-nil_of_get records symbol x e),
      λ j.
          rw (get-map config records j) (
            Matches-SameProgress config (Dict.get p.store.states j) (Dict.get records j) (agree j)),
    )

-- Where the store in memory and the file agree, with a state for some symbol in memory, a restart
-- succeeds: for every symbol the restored store shows the anchor, the candidate and the progress
-- that the store in memory has, and it has a state for no other symbol.
restart-SameProgress :
    (codec : Codec) (config : HysteresisConfig) (p : HysteresisStatePersistence) (symbol : String)
    (h : HysteresisState)
    → Agree codec p
    → Dict.get p.store.states symbol ≡ some h
    → (store : HysteresisStore) × (restore_store codec config p.file ≡ ok store)
      × ((j : String) → SameProgress (Dict.get p.store.states j) (Dict.get store.states j))
restart-SameProgress codec config p symbol h agree e =
    let (x, q) =
      Matches-found (Dict.get p.store.states symbol) h (on_file codec p.file symbol) e
        (agree.1 symbol) in
    restore-SameProgress codec config p p.file symbol x agree.1 q

-- A restored state matches the record that it was restored from.
Matches-restored :
    (config : HysteresisConfig) (o : Option HysteresisStoreRecord)
    → Matches (Option.map (restore_state config) o) o
unfolding restore_state
Matches-restored config none = tt
Matches-restored config (some r) = (refl, refl, refl, omega arith)

restore_loaded-states :
    (config : HysteresisConfig) (d : Dict HysteresisStoreRecord) (store : HysteresisStore)
    → restore_loaded config d ≡ ok store
    → record { states = restore_states config d } ≡ store
restore_loaded-states config [] store e = absurd cc
restore_loaded-states config (r ∷ d) store e = cc

restored-Matches :
    (codec : Codec) (config : HysteresisConfig) (file : Option StoreFile) (store : HysteresisStore)
    (j : String)
    → restore_store codec config file ≡ ok store
    → Matches (Dict.get store.states j) (on_file codec file j)
unfolding restore_store
restored-Matches codec config none store j e =
    let same : empty_store ≡ store = cc in rw (← same) (unfold Dict.get in tt)
restored-Matches codec config (some f) store j e =
    let records = load_records codec (file_lines f) in
    let same = restore_loaded-states config records store e in
    rw (← same, get-map config records j) (Matches-restored config (Dict.get records j))

loaded-Agree :
    (codec : Codec) (config : HysteresisConfig) (file : Option StoreFile)
    (p : HysteresisStatePersistence) (loaded : Result RestoreError HysteresisStore)
    → restore_store codec config file ≡ loaded
    → IsEnded file
    → (loaded >>= λ store. ok (record { store = store; file = file })) ≡ ok p
    → Agree codec p
loaded-Agree codec config file p (err x) q ended e = absurd cc
loaded-Agree codec config file p (ok store) q ended e =
    let made : HysteresisStatePersistence = record { store = store; file = file } in
    let same : made ≡ p = cc in
    subst (Agree codec) same (ended, λ j. restored-Matches codec config file store j q)

restored-Agree :
    (codec : Codec) (config : HysteresisConfig) (file : Option StoreFile)
    (p : HysteresisStatePersistence)
    → IsEnded file
    → restore codec config file ≡ ok p
    → Agree codec p
unfolding restore
restored-Agree codec config file p ended e =
    loaded-Agree codec config file p (restore_store codec config file) refl ended e

module _ {Snapshot : Type 0} (pipeline : Pipeline Snapshot) (ops : FloatOps) (codec : Codec)
    (laws : IsCodec codec) where
  -- What is asked of a run.
  abbrev pub IsSound : WriteOutcome × ℕ × Snapshot → Type 0
  IsSound (w, now_ms, x) = IsClean w × (pipeline.symbol x ≢ "")

  run_all-Agree :
      (cs : List (WriteOutcome × ℕ × Snapshot)) (r : EngineRunner)
      → Faithful pipeline
      → All IsSound cs
      → StoreAgrees codec r.hysteresis_store
      → StoreAgrees codec (run_all pipeline ops codec r cs).hysteresis_store
  unfolding run_all
  run_all-Agree [] r faithful sound agree = agree
  run_all-Agree ((w, now_ms, x) ∷ cs) r faithful sound agree =
      run_all-Agree cs (run_engine pipeline ops codec w now_ms r x).0 faithful sound.1
        (run_engine-Agree pipeline ops codec laws w now_ms r x sound.0.0 faithful sound.0.1 agree)

  -- Let a runner start with the store that is restored from a file, or from none, and run any
  -- snapshots in any mode, where an append that fails fails before any text is on the file. If it
  -- then has a state for some symbol, a restore from the file that the runs have left succeeds,
  -- and shows for every symbol the anchor, the candidate and the progress that the runner has, and
  -- no other symbol. Conditions: the file that was there ends in a newline, the codec loads what
  -- it writes for a record, the state of the pipeline carries the symbol and the timestamp of the
  -- snapshot, and no symbol is empty.
  pub restart_after_runs :
      (config : HysteresisConfig) (file : Option StoreFile) (p q : HysteresisStatePersistence)
      (mode : String) (active : Option HysteresisConfig) (cs : List (WriteOutcome × ℕ × Snapshot))
      (symbol : String) (h : HysteresisState)
      → Faithful pipeline
      → IsEnded file
      → restore codec config file ≡ ok p
      → All IsSound cs
      → (run_all pipeline ops codec
          (record { engine_mode = mode; hysteresis_store = some p; hysteresis_config = active })
          cs).hysteresis_store
        ≡ some q
      → Dict.get q.store.states symbol ≡ some h
      → (next : HysteresisStatePersistence) × (restore codec config q.file ≡ ok next)
        × ((j : String) → SameProgress (Dict.get q.store.states j) (Dict.get next.store.states j))
  unfolding restore
  restart_after_runs config file p q mode active cs symbol h faithful ended restored sound left
        has =
      let start : EngineRunner = record {
        engine_mode = mode;
        hysteresis_store = some p;
        hysteresis_config = active;
      } in
      let agree = subst (StoreAgrees codec) left (
        run_all-Agree cs start faithful sound
          (restored-Agree codec config file p ended restored)) in
      let (store, e, same) = restart-SameProgress codec config q symbol h agree has in
      let next : HysteresisStatePersistence = record { store = store; file = q.file } in
      (next, ap (λ r. r >>= λ t. ok (record { store = t; file = q.file })) e, same)
