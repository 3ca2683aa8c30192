-- ===== src/StateGate/Processor/Agreement.antt =====
-- The two maps of snapshots under src/consumers/state_gate/processor.py.
use xray_vision.Base.{
  ◌≡◌, refl, sym, ◌∙◌, String, Option, none, some, List, [], ◌∷◌, Bool, true, false, Result, ok,
  err, inl, inr, Bool-cases, length, arith, get_or,
}
use xray_vision.Base.Dict
use xray_vision.Base.Dict.{Dict, get-put}
use xray_vision.Orchestrator.Contracts.{OrchestratorEvent}
use xray_vision.StateGate.Contracts.{
  StateGateEvent, StateGateSnapshot, GateError, ResetReason, bootstrap_snapshot,
}
use xray_vision.StateGate.Config.{StateGateConfig}
use xray_vision.StateGate.Assembly.{AssembledRunInput, Ingested, ingest}
use xray_vision.StateGate.Evaluation.{GateEvaluation, evaluate}
use xray_vision.StateGate.Machine.{
  detect_reset, build_reset_event, build_gate_event, snapshot_after, reset_snapshots, reset_events,
  process_run,
}
use xray_vision.StateGate.Store.{StateStore, record_from_event, append_record}
use xray_vision.StateGate.Processor.Storing.{stored, IsStored, append_all-IsStored}
use xray_vision.StateGate.Processor.{
  Processor, start, publish_blocked, enter_halted, append_all, unless_unstored, publish_run,
  process_assembled, after_ingest, unless_halted, consume, consume_all,
}

-- The same entry for every symbol.
abbrev pub SameSnapshots : Dict StateGateSnapshot → Dict StateGateSnapshot → Type 0
SameSnapshots d e = (j : String) → Dict.get d j ≡ Dict.get e j

-- The invariant of a processor.
abbrev pub IsSynced : Processor → Type 0
IsSynced p = p.is_halted ≡ false → SameSnapshots p.state_machine.snapshots p.store.snapshots

get-put-put :
    {V : Type 0} (d : Dict V) (k j : String) (v w : V)
    → Dict.get (Dict.put (Dict.put d k v) k w) j ≡ Dict.get (Dict.put d k w) j
get-put-put d k j v w =
    ground (arith, get-put (Dict.put d k v) k j w, get-put d k j v, get-put d k j w)

put-SameSnapshots :
    (d e : Dict StateGateSnapshot) (k : String) (v : StateGateSnapshot)
    → SameSnapshots d e
    → SameSnapshots (Dict.put d k v) (Dict.put e k v)
put-SameSnapshots d e k v same j = rw (get-put d k j v, get-put e k j v, same j) refl

-- What the events of a run do to the two maps.
run-SameSnapshots :
    (d : Dict StateGateSnapshot) (s : StateStore) (run : AssembledRunInput) (e : GateEvaluation)
    (reason : Option ResetReason)
    → SameSnapshots d s.snapshots
    → SameSnapshots
        (Dict.put (reset_snapshots d run reason) run.symbol (snapshot_after run e))
        ((stored s (reset_events run e reason (build_gate_event run e ∷ []))).snapshots)
unfolding stored append_record record_from_event build_gate_event build_reset_event
run-SameSnapshots d s run e none same =
    put-SameSnapshots d s.snapshots run.symbol (snapshot_after run e) same
run-SameSnapshots d s run e (some reason) same = λ j.
    get-put-put d run.symbol j (bootstrap_snapshot run.symbol) (snapshot_after run e)
    ∙ put-SameSnapshots d s.snapshots run.symbol (snapshot_after run e) same j
    ∙ sym (get-put-put s.snapshots run.symbol j _ (snapshot_after run e))

unstored-IsSynced :
    (p : Processor) (es : List StateGateEvent) (r : Processor × Option StateGateEvent)
    → SameSnapshots p.state_machine.snapshots ((stored p.store es).snapshots)
    → IsStored p es r
    → IsSynced (unless_unstored es r).0
unstored-IsSynced p es (q, none) same h k = rw h same
unstored-IsSynced p es (q, some halt) same h k = absurd (let n = h.0 in ground arith)

publish_run-IsSynced :
    (p : Processor) (run : AssembledRunInput) (es : List StateGateEvent)
    → SameSnapshots p.state_machine.snapshots ((stored p.store es).snapshots)
    → IsSynced (publish_run p run es).0
unfolding publish_run enter_halted
publish_run-IsSynced p run es same = elim (Bool-cases (publish_blocked p.config (length es))) [
  | inl b ↦ rw b (λ h. absurd (ground arith))
  | inr b ↦ rw b (unstored-IsSynced p es (append_all p es) same (append_all-IsStored es p))
]

process_assembled-IsSynced :
    (p : Processor) (run : AssembledRunInput)
    → SameSnapshots p.state_machine.snapshots p.store.snapshots
    → IsSynced (process_assembled p run).0
unfolding process_assembled process_run
process_assembled-IsSynced p run same =
    let m = p.state_machine in
    let e = evaluate p.config run in
    let reason =
      detect_reset m.config run
        (get_or (Dict.get m.snapshots run.symbol) (bootstrap_snapshot run.symbol)) in
    publish_run-IsSynced (record p { state_machine = (process_run m run e).0 }) run
      (process_run m run e).1 (run-SameSnapshots m.snapshots p.store run e reason same)

after_ingest-IsSynced :
    (p : Processor) (r : Result GateError (Option AssembledRunInput))
    → SameSnapshots p.state_machine.snapshots p.store.snapshots
    → IsSynced (after_ingest p r).0
after_ingest-IsSynced p (err e) same = λ _. same
after_ingest-IsSynced p (ok none) same = λ _. same
after_ingest-IsSynced p (ok (some run)) same = process_assembled-IsSynced p run same

unless_halted-IsSynced :
    (b : Bool) (p : Processor) (i : Ingested)
    → p.is_halted ≡ b
    → IsSynced p
    → IsSynced (unless_halted b p i).0
unless_halted-IsSynced true p i h synced = synced
unless_halted-IsSynced false p (a, r) h synced =
    after_ingest-IsSynced (record p { assembler = a }) r (synced h)

consume-IsSynced : (p : Processor) (e : OrchestratorEvent) → IsSynced p → IsSynced (consume p e).0
unfolding consume
consume-IsSynced p e synced =
    unless_halted-IsSynced p.is_halted p (ingest p.assembler e) refl synced

consume_all-IsSynced :
    (es : List OrchestratorEvent) (p : Processor) → IsSynced p → IsSynced (consume_all p es).0
unfolding consume_all
consume_all-IsSynced [] p synced = synced
consume_all-IsSynced (e ∷ es) p synced =
    consume_all-IsSynced es (consume p e).0 (consume-IsSynced p e synced)

-- A processor that was started over any store and has consumed any events shows, unless it is
-- halted, for every symbol one snapshot in its state machine and in its store.
pub started-IsSynced :
    (config : StateGateConfig) (store : StateStore) (es : List OrchestratorEvent)
    → IsSynced (consume_all (start config store) es).0
unfolding start
started-IsSynced config store es = consume_all-IsSynced es (start config store) (λ h j. refl)
