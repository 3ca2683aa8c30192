-- ===== src/StateGate/Processor/Storing.antt =====
-- The appends of src/consumers/state_gate/processor.py to its store.
use mathlib.Core.Path.{subst}
use xray_vision.Base.{
  ◌≡◌, refl, String, Option, none, some, List, [], ◌∷◌, true, false, Option-cases, inl, inr, arith,
}
use xray_vision.StateGate.Contracts.{StateGateEvent, gate_closed}
use xray_vision.StateGate.Store.{StateStore, record_from_event, append_record, append_event}
use xray_vision.StateGate.Processor.{Processor, unless_fault, append_all}

-- The store after appends that return.
unfoldable pub stored : StateStore → List StateGateEvent → StateStore
stored s [] = s
stored s (e ∷ es) = stored (append_record s (record_from_event e)) es

-- An append that returns has kept the record.
pub append_event-returned :
    (s : StateStore) (e : StateGateEvent)
    → (append_event s e).1 ≡ none
    → (append_event s e).0 ≡ append_record s (record_from_event e)
unfolding append_event
append_event-returned s e h = elim (Option-cases (s.fault e s.records)) [
  | inl q ↦ rw (append_event, q) refl
  | inr (x, q) ↦ absurd (let n = rw (append_event, q) at h in ground arith)
]

-- What the loop leaves: all stored, or a halted processor that is not healthy.
abbrev pub IsStored : Processor → List StateGateEvent → Processor × Option StateGateEvent → Type 0
IsStored p es (q, none) = q ≡ record p { store = stored p.store es }
IsStored p es (q, some halt) =
    (q.is_halted ≡ true) × (q.persistence_healthy ≡ false) × (halt.gate_status ≡ gate_closed)

first-IsStored :
    (p : Processor) (e : StateGateEvent) (es : List StateGateEvent)
    (r : Processor × Option StateGateEvent)
    → IsStored (record p { store = append_record p.store (record_from_event e) }) es r
    → IsStored p (e ∷ es) r
unfolding stored
first-IsStored p e es (q, none) h = h
first-IsStored p e es (q, some halt) h = h

step-IsStored :
    (p : Processor) (e : StateGateEvent) (es : List StateGateEvent) (s : StateStore)
    (fault : Option String)
    → (fault ≡ none → s ≡ append_record p.store (record_from_event e))
    → IsStored (record p { store = s }) es (append_all (record p { store = s }) es)
    → IsStored p
        (e ∷ es)
        (unless_fault (record p { store = s }) e (append_all (record p { store = s }) es) fault)
step-IsStored p e es s (some detail) same rest = (refl, refl, refl)
step-IsStored p e es s none same rest =
    first-IsStored p e es (append_all (record p { store = s }) es) (
      subst (λ t. IsStored (record p { store = t }) es (append_all (record p { store = s }) es))
        (same refl) rest)

pub append_all-IsStored :
    (es : List StateGateEvent) (p : Processor) → IsStored p es (append_all p es)
unfolding append_all
append_all-IsStored [] p = unfold stored in refl
append_all-IsStored (e ∷ es) p =
    let (s, fault) = append_event p.store e in
    step-IsStored p e es s fault (append_event-returned p.store e)
      (append_all-IsStored es (record p { store = s }))
