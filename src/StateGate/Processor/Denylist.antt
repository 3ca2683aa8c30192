-- ===== src/StateGate/Processor/Denylist.antt =====
-- The denylist and the order of a run's events in src/consumers/state_gate.
use mathlib.Core.Logic.{◌↔◌}
use mathlib.Core.Path.{subst}
use xray_vision.StateGate.Assembly.Effect.{IsSilent, ingest-effect}
use xray_vision.StateGate.Assembly.Once.{contains-add_self}
use xray_vision.Base.{◌<◌, ◌≡◌, refl, none, some, true, false, ok, inl, inr, contains, arith}
use xray_vision.Base.Dict
use xray_vision.RegimeEngine.Contracts.{HysteresisState}
use xray_vision.Orchestrator.Contracts.{
  hysteresis_state_published, hysteresis_payload, OrchestratorEvent,
}
use xray_vision.StateGate.Contracts.{gate_open, hysteresis_input}
use xray_vision.StateGate.Config.{StateGateConfig}
use xray_vision.StateGate.Assembly.{
  AssembledRunInput, RunAssembler, new_assembly, apply_event, ready_event_type, assembled,
  not_after, apply_to, assemble, ingest,
}
use xray_vision.StateGate.Evaluation.{evaluate}
use xray_vision.StateGate.Evaluation.Decision.{evaluate-open}

-- The run that is assembled from its first event, where this is the hysteresis state.
abbrev pub first_run : OrchestratorEvent → HysteresisState → AssembledRunInput
first_run event h =
    assembled event.run_id (record (new_assembly event) { hysteresis_state = some h })
      hysteresis_input

ingest_first :
    (a : RunAssembler) (event : OrchestratorEvent) (h : HysteresisState)
    → event.event_type ≡ hysteresis_state_published
    → event.payload ≡ some (hysteresis_payload h)
    → contains event.run_id a.processed_run_ids ≡ false
    → not_after event.engine_timestamp_ms (Dict.get a.latest_engine_timestamp_ms event.symbol)
      ≡ false
    → Dict.get a.assemblies event.run_id ≡ none
    → (ingest a event).1 ≡ ok (some (first_run event h))
unfolding ingest apply_event ready_event_type
ingest_first a event h t p c n g = rw (t, c, n, assemble, g, apply_to, p, t) refl

-- An event of a run that is done gives nothing.
ingest_done :
    (a : RunAssembler) (event : OrchestratorEvent)
    → contains event.run_id a.processed_run_ids ≡ true
    → (ingest a event).1 ≡ ok none
unfolding ingest
ingest_done a event c = ground (arith, c)

first_run-open :
    (config : StateGateConfig) (event : OrchestratorEvent) (h : HysteresisState)
    → ((evaluate config (first_run event h)).gate_status ≡ gate_open)
      ↔ ¬ ((config.block_during_transition ≡ true) × (0 < h.progress_current))
first_run-open config event h =
    let decided = evaluate-open config (first_run event h) in
    (
      λ o (b, p). (decided.0 o).2 (h, refl, p, b),
      λ free.
          decided.1 (
            (λ e. cc),
            (λ (v, d). cc),
            λ (k, q, p, b). let same : h ≡ k = cc in free (b, rw same p),
          ),
    )

ingest-processed :
    (a : RunAssembler) (event : OrchestratorEvent) (run : AssembledRunInput)
    → (ingest a event).1 ≡ ok (some run)
    → contains event.run_id (ingest a event).0.processed_run_ids ≡ true
ingest-processed a event run e = elim (ingest-effect a event) [
  | inl k ↦ absurd (subst IsSilent e k.0)
  | inr (_, (r, q, i, s, t, ids, l)) ↦ rw ids (contains-add_self event.run_id a.processed_run_ids)
]

-- Where the first event of a run is the hysteresis state, and the run is new to the assembler and
-- later than what it has seen of the symbol: the event alone assembles the run, the gate opens for
-- it unless a blocked transition is under way, whatever invalidations are on the denylist, and
-- every later event of the run, its output too, gives nothing.
pub hysteresis_first :
    (config : StateGateConfig) (a : RunAssembler) (event : OrchestratorEvent) (h : HysteresisState)
    → event.event_type ≡ hysteresis_state_published
    → event.payload ≡ some (hysteresis_payload h)
    → contains event.run_id a.processed_run_ids ≡ false
    → not_after event.engine_timestamp_ms (Dict.get a.latest_engine_timestamp_ms event.symbol)
      ≡ false
    → Dict.get a.assemblies event.run_id ≡ none
    → (run : AssembledRunInput) × ((ingest a event).1 ≡ ok (some run))
      × (((evaluate config run).gate_status ≡ gate_open)
          ↔ ¬ ((config.block_during_transition ≡ true) × (0 < h.progress_current)))
      × ((later : OrchestratorEvent)
          → later.run_id ≡ event.run_id
          → (ingest (ingest a event).0 later).1 ≡ ok none)
hysteresis_first config a event h t p c n g =
    let e = ingest_first a event h t p c n g in
    (
      first_run event h,
      e,
      first_run-open config event h,
      λ later same.
          ingest_done (ingest a event).0 later
            (rw same (ingest-processed a event (first_run event h) e)),
    )
