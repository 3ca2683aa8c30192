-- ===== src/StateGate/Assembly/Effect.antt =====
-- One call of `RunAssembler.ingest` in src/consumers/state_gate/assembly.py.
use mathlib.Core.Path.{subst}
use xray_vision.Base.{
  ◌≡◌, refl, ◌⊎◌, inl, inr, Option, none, some, false, Result, ok, err, arith, eq_iff, Bool-cases,
  Result-cases, contains, add,
}
use xray_vision.Base.Dict
use xray_vision.Orchestrator.Contracts.{
  EngineMode, EventType, engine_run_started, engine_run_completed, engine_run_failed,
  hysteresis_state_published, Payload, run_failed, run_completed, hysteresis_payload,
  OrchestratorEvent,
}
use xray_vision.StateGate.Contracts.{InputEventType, GateError}
use xray_vision.StateGate.Assembly.{
  AssembledRunInput, RunAssembly, RunAssembler, Ingested, ensure_consistent, merge_mode,
  update_engine_mode, apply_event, ready_event_type, assembled, is_input, not_after, assembly_for,
  release, apply_to, assemble, ingest_new, ingest,
}

-- The symbol and the timestamp of a run.
abbrev pub IsOf : RunAssembly → OrchestratorEvent → Type 0
IsOf x event = (x.symbol ≡ event.symbol) × (x.engine_timestamp_ms ≡ event.engine_timestamp_ms)

abbrev pub IsSilent : Result GateError (Option AssembledRunInput) → Type 0
IsSilent (ok (some run)) = ⊥
IsSilent _ = Unit {0}

-- Nothing is assembled, and at most the run's id is noted.
abbrev pub IsKept : RunAssembler → OrchestratorEvent → Ingested → Type 0
IsKept a event (b, result) =
    IsSilent result
    × (b.latest_engine_timestamp_ms ≡ a.latest_engine_timestamp_ms)
    × ((b.processed_run_ids ≡ a.processed_run_ids)
        ⊎ (b.processed_run_ids ≡ add event.run_id a.processed_run_ids))

abbrev pub IsEmitted : RunAssembler → OrchestratorEvent → Ingested → Type 0
IsEmitted a event (b, result) =
    (run : AssembledRunInput) × (result ≡ ok (some run))
    × (run.run_id ≡ event.run_id)
    × (run.symbol ≡ event.symbol)
    × (run.engine_timestamp_ms ≡ event.engine_timestamp_ms)
    × (b.processed_run_ids ≡ add event.run_id a.processed_run_ids)
    × (b.latest_engine_timestamp_ms
        ≡ Dict.put a.latest_engine_timestamp_ms event.symbol event.engine_timestamp_ms)

abbrev pub ResultIsOf : OrchestratorEvent → Result GateError RunAssembly → Type 0
ResultIsOf event (ok x) = IsOf x event
ResultIsOf event (err e) = Unit {0}

update_engine_mode-IsOf :
    (x : RunAssembly) (event : OrchestratorEvent) (mode : Option EngineMode)
    → IsOf x event
    → ResultIsOf event (update_engine_mode x mode)
unfolding update_engine_mode
update_engine_mode-IsOf x event mode h = elim (Result-cases (merge_mode x.engine_mode mode)) [
  | inl (m, q) ↦ rw q h
  | inr (m, q) ↦ rw q tt
]

apply_event-IsOf :
    (x : RunAssembly) (event : OrchestratorEvent) (t : EventType) (p : Option Payload)
    → IsOf x event
    → ResultIsOf event (apply_event x t p)
unfolding apply_event
apply_event-IsOf x event engine_run_started p h = h
apply_event-IsOf x event engine_run_completed none h = tt
apply_event-IsOf x event engine_run_completed (some (run_completed output)) h = h
apply_event-IsOf x event engine_run_completed (some _) h = tt
apply_event-IsOf x event engine_run_failed none h = h
apply_event-IsOf x event engine_run_failed (some (run_failed kind detail)) h = h
apply_event-IsOf x event engine_run_failed (some _) h = tt
apply_event-IsOf x event hysteresis_state_published none h = tt
apply_event-IsOf x event hysteresis_state_published (some (hysteresis_payload s)) h = h
apply_event-IsOf x event hysteresis_state_published (some _) h = tt

ensure_consistent-ok :
    (x : RunAssembly) (event : OrchestratorEvent) (u : Unit)
    → ensure_consistent x event.symbol event.engine_timestamp_ms ≡ ok u
    → IsOf x event
unfolding ensure_consistent
ensure_consistent-ok x event u e = ground (arith, eq_iff event.symbol x.symbol)

assembly_for-IsOf :
    (o : Option RunAssembly) (event : OrchestratorEvent) → ResultIsOf event (assembly_for o event)
assembly_for-IsOf none event = (refl, refl)
assembly_for-IsOf (some x) event =
    elim (Result-cases (ensure_consistent x event.symbol event.engine_timestamp_ms)) [
      | inl (u, q) ↦
          rw q
            (update_engine_mode-IsOf x event event.engine_mode (ensure_consistent-ok x event u q))
      | inr (e, q) ↦ rw q tt
    ]

release-effect :
    (a : RunAssembler) (event : OrchestratorEvent) (x : RunAssembly) (t : Option InputEventType)
    → IsOf x event
    → IsKept a event (release a event.run_id x t) ⊎ IsEmitted a event (release a event.run_id x t)
release-effect a event x none h = inl (tt, refl, inl refl)
release-effect a event x (some t) (hs, ht) =
    inr (assembled event.run_id x t, refl, refl, hs, ht, refl, rw (hs, ht) refl)

apply_to-effect :
    (a : RunAssembler) (event : OrchestratorEvent) (x : RunAssembly)
    → IsOf x event
    → IsKept a event (apply_to a event x) ⊎ IsEmitted a event (apply_to a event x)
apply_to-effect a event x h = elim (Result-cases (apply_event x event.event_type event.payload)) [
  | inl (y, q) ↦
      let yh : IsOf y event =
        subst (ResultIsOf event) q (apply_event-IsOf x event event.event_type event.payload h) in
      rw (q, apply_to) (release-effect a event y (ready_event_type y) yh)
  | inr (e, q) ↦ rw (q, apply_to) (inl (tt, refl, inl refl))
]

assemble-effect :
    (a : RunAssembler) (event : OrchestratorEvent)
    → IsKept a event (assemble a event) ⊎ IsEmitted a event (assemble a event)
assemble-effect a event =
    let o = Dict.get a.assemblies event.run_id in
    elim (Result-cases (assembly_for o event)) [
      | inl (x, q) ↦
          rw (q, assemble)
            (apply_to-effect a event x (subst (ResultIsOf event) q (assembly_for-IsOf o event)))
      | inr (e, q) ↦ rw (q, assemble) (inl (tt, refl, inl refl))
    ]

-- The condition under which `ingest` looks at the event.
abbrev pub IsNew : RunAssembler → OrchestratorEvent → Type 0
IsNew a event =
    (contains event.run_id a.processed_run_ids ≡ false)
    × (not_after event.engine_timestamp_ms (Dict.get a.latest_engine_timestamp_ms event.symbol)
        ≡ false)

ingest_new-effect :
    (a : RunAssembler) (event : OrchestratorEvent)
    → contains event.run_id a.processed_run_ids ≡ false
    → IsKept a event (ingest_new a event) ⊎ (IsNew a event × IsEmitted a event (ingest_new a event))
ingest_new-effect a event c =
    elim (Bool-cases
      (not_after event.engine_timestamp_ms (Dict.get a.latest_engine_timestamp_ms event.symbol))) [
        | inl n ↦ rw n (inl (tt, refl, inr refl))
        | inr n ↦
            rw n (elim (assemble-effect a event) [ inl k ↦ inl k | inr m ↦ inr ((c, refl), m) ])
      ]

pub ingest-effect :
    (a : RunAssembler) (event : OrchestratorEvent)
    → IsKept a event (ingest a event) ⊎ (IsNew a event × IsEmitted a event (ingest a event))
unfolding ingest
ingest-effect a event = elim (Bool-cases (is_input event.event_type)) [
  | inr i ↦ rw i (inl (tt, refl, inl refl))
  | inl i ↦ rw i (elim (Bool-cases (contains event.run_id a.processed_run_ids)) [
    | inl c ↦ rw c (inl (tt, refl, inl refl))
    | inr c ↦ rw c (elim (ingest_new-effect a event c) [
      | inl k ↦ inl k
      | inr ((_, n), m) ↦ inr ((refl, n), m)
    ])
  ])
]
