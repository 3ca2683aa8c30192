-- ===== src/StateGate/Processor/Records.antt =====
-- The records of the store under src/consumers/state_gate/processor.py.
use xray_vision.Base.{
  ◌≡◌, refl, sym, ap, ◌∙◌, Option, none, some, List, [], ◌∷◌, ◌++◌, map, Bool, true, false, Result,
  ok, err, inl, inr, Bool-cases, Option-cases, String, arith, length,
}
use xray_vision.Orchestrator.Contracts.{OrchestratorEvent}
use xray_vision.StateGate.Contracts.{StateGateEvent, StateGateStateRecord, GateError}
use xray_vision.StateGate.Assembly.{AssembledRunInput, Ingested, ingest}
use xray_vision.StateGate.Evaluation.{evaluate}
use xray_vision.StateGate.Machine.{process_run}
use xray_vision.StateGate.Store.{StateStore, record_from_event, append_record, append_event}
use xray_vision.StateGate.Processor.Storing.{
  stored, append_event-returned, IsStored, append_all-IsStored,
}
use xray_vision.StateGate.Processor.{
  Processor, publish_blocked, halt_event, enter_halted, append_all, unless_unstored, publish_run,
  process_assembled, after_ingest, unless_halted, consume, given, consume_all,
}

append_assoc : (xs ys zs : List StateGateStateRecord) → (xs ++ ys) ++ zs ≡ xs ++ (ys ++ zs)
append_assoc [] ys zs = refl
append_assoc (x ∷ xs) ys zs = ap (λ l. x ∷ l) (append_assoc xs ys zs)

append_nil : (xs : List StateGateStateRecord) → xs ++ [] ≡ xs
append_nil [] = refl
append_nil (x ∷ xs) = ap (λ l. x ∷ l) (append_nil xs)

map-append_records :
    (xs ys : List StateGateEvent)
    → map record_from_event (xs ++ ys) ≡ map record_from_event xs ++ map record_from_event ys
map-append_records [] ys = refl
map-append_records (x ∷ xs) ys = ap (λ l. record_from_event x ∷ l) (map-append_records xs ys)

stored-records :
    (s : StateStore) (es : List StateGateEvent)
    → (stored s es).records ≡ s.records ++ map record_from_event es
unfolding stored append_record
stored-records s [] = sym (append_nil s.records)
stored-records s (e ∷ es) =
    stored-records (append_record s (record_from_event e)) es
    ∙ append_assoc s.records (record_from_event e ∷ []) (map record_from_event es)

-- If the store is healthy after a call, it was before, and has the records of what was given out.
abbrev IsRecorded : Processor → Processor → List StateGateEvent → Type 0
IsRecorded p q events =
    q.persistence_healthy ≡ true
    → (p.persistence_healthy ≡ true)
      × (q.store.records ≡ p.store.records ++ map record_from_event events)

unstored-IsRecorded :
    (p : Processor) (es : List StateGateEvent) (r : Processor × Option StateGateEvent)
    → IsStored p es r
    → IsRecorded p (unless_unstored es r).0 (unless_unstored es r).1
unstored-IsRecorded p es (q, none) h k =
    (ap (λ t. t.persistence_healthy) (sym h) ∙ k, rw h (stored-records p.store es))
unstored-IsRecorded p es (q, some halt) h k = absurd (let n = h.1 in ground arith)

halted-IsRecorded :
    (p : Processor) (run : AssembledRunInput) (kind detail : String)
    → let (q, event) = enter_halted p run kind detail in IsRecorded p q (event ∷ [])
unfolding enter_halted append_record
halted-IsRecorded p run kind detail k =
    let e = halt_event run kind detail in
    elim (Option-cases (append_event p.store e).1) [
      | inl none_raised ↦ (ground arith, rw (append_event-returned p.store e none_raised) refl)
      | inr (x, raised) ↦ absurd (ground arith)
    ]

publish_run-IsRecorded :
    (p : Processor) (run : AssembledRunInput) (es : List StateGateEvent)
    → IsRecorded p (publish_run p run es).0 (publish_run p run es).1
unfolding publish_run
publish_run-IsRecorded p run es = elim (Bool-cases (publish_blocked p.config (length es))) [
  | inl b ↦ rw b (halted-IsRecorded p run "publish_blocked" "output publish backpressure exceeded")
  | inr b ↦ rw b (unstored-IsRecorded p es (append_all p es) (append_all-IsStored es p))
]

same-IsRecorded : (p : Processor) → IsRecorded p p []
same-IsRecorded p k = (k, sym (append_nil p.store.records))

after_ingest-IsRecorded :
    (p : Processor) (r : Result GateError (Option AssembledRunInput))
    → IsRecorded p (after_ingest p r).0 (given (after_ingest p r).1)
unfolding process_assembled
after_ingest-IsRecorded p (err e) = same-IsRecorded p
after_ingest-IsRecorded p (ok none) = same-IsRecorded p
after_ingest-IsRecorded p (ok (some run)) =
    let (m, events) = process_run p.state_machine run (evaluate p.config run) in
    publish_run-IsRecorded (record p { state_machine = m }) run events

unless_halted-IsRecorded :
    (b : Bool) (p : Processor) (i : Ingested)
    → IsRecorded p (unless_halted b p i).0 (given (unless_halted b p i).1)
unless_halted-IsRecorded true p i = same-IsRecorded p
unless_halted-IsRecorded false p (a, r) = after_ingest-IsRecorded (record p { assembler = a }) r

all-IsRecorded :
    (es : List OrchestratorEvent) (p : Processor)
    → IsRecorded p (consume_all p es).0 (consume_all p es).1
unfolding consume_all consume
all-IsRecorded [] p k = same-IsRecorded p k
all-IsRecorded (e ∷ es) p k =
    let q = (consume p e).0 in
    let new = given (consume p e).1 in
    let later = (consume_all q es).1 in
    let (healthy, rest) = all-IsRecorded es q k in
    let (was, first) = unless_halted-IsRecorded p.is_halted p (ingest p.assembler e) healthy in
    (
      was,
      rest
          ∙ ap (λ l. l ++ map record_from_event later) first
          ∙ append_assoc p.store.records (map record_from_event new) (map record_from_event later)
          ∙ ap (λ l. p.store.records ++ l) (sym (map-append_records new later)),
    )

-- For any sequence of events after which the persistence is healthy, so that no append has raised:
-- the records of the store are those that were there, followed by one for each event given out, in
-- that order. This includes a halt for a blocked publish and the events that raise.
pub consume_all-records :
    (es : List OrchestratorEvent) (p : Processor)
    → (consume_all p es).0.persistence_healthy ≡ true
    → (consume_all p es).0.store.records
      ≡ p.store.records ++ map record_from_event (consume_all p es).1
consume_all-records es p healthy = (all-IsRecorded es p healthy).1
