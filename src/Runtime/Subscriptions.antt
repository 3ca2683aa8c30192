-- ===== src/Runtime/Subscriptions.antt =====
-- `register_subscriptions` of src/runtime/wiring.py with src/runtime/bus.py, whose `publish` calls the
-- one handler of the event's type, and returns when that handler has. The builder of the dashboards and
-- the renderer are parameters, each call of which can raise.
pub mod Quiet
pub mod Pipeline
use xray_vision.Base.{String, Option, none, some, List, [], ◌∷◌, Result, ok, err}
use mathlib.Core.Option
use xray_vision.Runtime.Due.{OrchestratorRuntime}
use xray_vision.Orchestrator.Contracts.{OrchestratorEvent}
use xray_vision.StateGate.Contracts.{StateGateEvent, GateError}
use xray_vision.StateGate.Processor.{Processor}
use xray_vision.StateGate.Processor
use xray_vision.AnalysisEngine.Contracts.{AnalysisEngineEvent, AnalysisError}
use xray_vision.AnalysisEngine.Engine.{AnalysisEngine, Outcome}
use xray_vision.AnalysisEngine.Engine

-- The calls of the builder `B` and the renderer `R`, with the text of what they raise.
pub record DashboardOps (B R S : Type 0) : Type 0 where
  pub ingest_orchestrator_event : B → OrchestratorEvent → B × Option String
  pub ingest_state_gate_event : B → StateGateEvent → B × Option String
  pub ingest_analysis_engine_event : B → AnalysisEngineEvent → B × Option String
  pub build_snapshot : B → B × Result String S
  pub start : R → R × Option String
  pub stop : R → R × Option String
  pub render : R → S → R × Option String

pub record DashboardRuntime (B R : Type 0) : Type 0 where
  pub builder : B
  pub renderer : R

pub record RuntimeWiring (E B R : Type 0) : Type 0 where
  pub orchestrator : OrchestratorRuntime E
  pub state_gate : Processor
  pub analysis_engine : AnalysisEngine
  pub dashboards : DashboardRuntime B R

-- What a handler raises.
pub data HandlerError : Type 0 where
  gate_raised : GateError → HandlerError
  analysis_raised : AnalysisError → HandlerError
  dashboard_raised : String → HandlerError

module _ {B R S : Type 0} (ops : DashboardOps B R S) where
  abbrev pub with_renderer :
      DashboardRuntime B R → R × Option String → DashboardRuntime B R × Option String
  with_renderer d (r, raised) = (record d { renderer = r }, raised)

  unfoldable pub start : DashboardRuntime B R → DashboardRuntime B R × Option String
  start d = with_renderer d (ops.start d.renderer)

  unfoldable pub stop : DashboardRuntime B R → DashboardRuntime B R × Option String
  stop d = with_renderer d (ops.stop d.renderer)

  abbrev pub render_built :
      DashboardRuntime B R → B × Result String S → DashboardRuntime B R × Option String
  render_built d (b, err x) = (record d { builder = b }, some x)
  render_built d (b, ok s) = with_renderer (record d { builder = b }) (ops.render d.renderer s)

  -- `_render`, which is `render_once` too.
  unfoldable pub render_once : DashboardRuntime B R → DashboardRuntime B R × Option String
  render_once d = render_built d (ops.build_snapshot d.builder)

  abbrev pub render_ingested :
      DashboardRuntime B R → B × Option String → DashboardRuntime B R × Option String
  render_ingested d (b, none) = render_once (record d { builder = b })
  render_ingested d (b, some x) = (record d { builder = b }, some x)

  -- The handlers of the dashboards.
  unfoldable pub show_orchestrator :
      DashboardRuntime B R → OrchestratorEvent → DashboardRuntime B R × Option String
  show_orchestrator d e = render_ingested d (ops.ingest_orchestrator_event d.builder e)

  unfoldable pub show_state_gate :
      DashboardRuntime B R → StateGateEvent → DashboardRuntime B R × Option String
  show_state_gate d e = render_ingested d (ops.ingest_state_gate_event d.builder e)

  unfoldable pub show_analysis_engine :
      DashboardRuntime B R → AnalysisEngineEvent → DashboardRuntime B R × Option String
  show_analysis_engine d e = render_ingested d (ops.ingest_analysis_engine_event d.builder e)

-- A runtime after a call, with what the call raised.
abbrev pub Handled : Type 0 → Type 0 → Type 0 → Type 0
Handled E B R = RuntimeWiring E B R × Option HandlerError

module _ {E B R S : Type 0} (ops : DashboardOps B R S) where
  abbrev pub with_dashboards :
      RuntimeWiring E B R → DashboardRuntime B R × Option String → Handled E B R
  with_dashboards w (d, raised) = (record w { dashboards = d }, Option.map dashboard_raised raised)

  abbrev pub unless_raised : (RuntimeWiring E B R → Handled E B R) → Handled E B R → Handled E B R
  unless_raised next (w, none) = next w
  unless_raised next (w, some x) = (w, some x)

  unfoldable pub handle_analysis_engine : RuntimeWiring E B R → AnalysisEngineEvent → Handled E B R
  handle_analysis_engine w e = with_dashboards w (show_analysis_engine ops w.dashboards e)

  unfoldable pub publish_analysis : RuntimeWiring E B R → List AnalysisEngineEvent → Handled E B R
  publish_analysis w [] = (w, none)
  publish_analysis w (e ∷ es) =
      unless_raised (λ u. publish_analysis u es) (handle_analysis_engine w e)

  abbrev pub show_gate : StateGateEvent → RuntimeWiring E B R → Handled E B R
  show_gate e w = with_dashboards w (show_state_gate ops w.dashboards e)

  abbrev pub after_analysis : RuntimeWiring E B R → StateGateEvent → Outcome → Handled E B R
  after_analysis w e (err x) = (w, some (analysis_raised x))
  after_analysis w e (ok events) = unless_raised (show_gate e) (publish_analysis w events)

  unfoldable pub handle_state_gate : RuntimeWiring E B R → StateGateEvent → Handled E B R
  handle_state_gate w e =
      let (a, outcome) = Engine.consume w.analysis_engine e in
      after_analysis (record w { analysis_engine = a }) e outcome

  unfoldable pub publish_gate : RuntimeWiring E B R → List StateGateEvent → Handled E B R
  publish_gate w [] = (w, none)
  publish_gate w (e ∷ es) = unless_raised (λ u. publish_gate u es) (handle_state_gate w e)

  abbrev pub show_event : OrchestratorEvent → RuntimeWiring E B R → Handled E B R
  show_event e w = with_dashboards w (show_orchestrator ops w.dashboards e)

  abbrev pub after_gate :
      RuntimeWiring E B R
      → OrchestratorEvent
      → Result GateError (List StateGateEvent)
      → Handled E B R
  after_gate w e (err x) = (w, some (gate_raised x))
  after_gate w e (ok events) = unless_raised (show_event e) (publish_gate w events)

  unfoldable pub handle_orchestrator : RuntimeWiring E B R → OrchestratorEvent → Handled E B R
  handle_orchestrator w e =
      let (p, result) = Processor.consume w.state_gate e in
      after_gate (record w { state_gate = p }) e result

  -- Events that are published one after the other.
  unfoldable pub deliver_all : RuntimeWiring E B R → List OrchestratorEvent → RuntimeWiring E B R
  deliver_all w [] = w
  deliver_all w (e ∷ es) = deliver_all (handle_orchestrator w e).0 es
