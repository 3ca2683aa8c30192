-- ===== src/Runtime/Subscriptions/Quiet.antt =====
-- `DashboardRuntime` of src/runtime/wiring.py over a builder and a renderer that do not raise.
use xray_vision.Base.{◌≡◌, String, Option, none, some, ok}
use xray_vision.Orchestrator.Contracts.{OrchestratorEvent}
use xray_vision.StateGate.Contracts.{StateGateEvent}
use xray_vision.AnalysisEngine.Contracts.{AnalysisEngineEvent}
use xray_vision.Runtime.Subscriptions.{
  DashboardOps, DashboardRuntime, render_built, render_once, render_ingested,
}

-- The builder and the renderer never raise.
pub record IsQuiet {B R S : Type 0} (ops : DashboardOps B R S) : Type 0 where
  pub orchestrator : (b : B) (e : OrchestratorEvent) → (ops.ingest_orchestrator_event b e).1 ≡ none
  pub state_gate : (b : B) (e : StateGateEvent) → (ops.ingest_state_gate_event b e).1 ≡ none
  pub analysis_engine :
      (b : B) (e : AnalysisEngineEvent) → (ops.ingest_analysis_engine_event b e).1 ≡ none
  pub snapshot : (b : B) → (s : S) × ((ops.build_snapshot b).1 ≡ ok s)
  pub renders : (r : R) (s : S) → (ops.render r s).1 ≡ none

module _ {B R S : Type 0} (ops : DashboardOps B R S) (quiet : IsQuiet ops) where
  render_once-none : (d : DashboardRuntime B R) → (render_once ops d).1 ≡ none
  unfolding render_once
  render_once-none d =
      let (s, built) = quiet.snapshot d.builder in
      rw (built, render_built) (quiet.renders d.renderer s)

  pub render_ingested-none :
      (d : DashboardRuntime B R) (b : B × Option String)
      → b.1 ≡ none
      → (render_ingested ops d b).1 ≡ none
  render_ingested-none d (b, none) h = render_once-none (record d { builder = b })
  render_ingested-none d (b, some x) h = h
