-- ===== src/Runtime/Subscriptions/Pipeline.antt =====
-- The nested calls of src/runtime/wiring.py against the two consumers one after the other.
use mathlib.Core.Path.{subst}
use xray_vision.Base.{
  ◌≡◌, refl, sym, String, ap, ◌∙◌, Option, none, some, List, [], ◌∷◌, ◌++◌, Result, ok, err,
}
use xray_vision.Orchestrator.Contracts.{OrchestratorEvent}
use xray_vision.StateGate.Contracts.{StateGateEvent, GateError}
use xray_vision.StateGate.Processor.{Processor}
use xray_vision.StateGate.Processor
use xray_vision.AnalysisEngine.Contracts.{AnalysisEngineEvent}
use xray_vision.AnalysisEngine.Engine.{AnalysisEngine, Outcome, complete}
use xray_vision.AnalysisEngine.Engine
use xray_vision.AnalysisEngine.Engine.Ready.{
  IsReady, consume-IsReady, consume_all-IsReady, started-IsReady, Returns, consume-Returns,
}
use xray_vision.AnalysisEngine.Contracts.{AnalysisModule}
use xray_vision.AnalysisEngine.Registry.{ModuleRegistry, build_registry}
use xray_vision.AnalysisEngine.Config.{AnalysisEngineConfig}
use xray_vision.AnalysisEngine.Persistence.{IdempotencyStore, ModuleStateStore}
use mathlib.Core.Option
use xray_vision.Runtime.Due.{OrchestratorRuntime}
use xray_vision.Runtime.Subscriptions.Quiet.{IsQuiet, render_ingested-none}
use xray_vision.Runtime.Subscriptions.{
  DashboardOps, DashboardRuntime, RuntimeWiring, dashboard_raised, Handled, show_orchestrator,
  show_state_gate, show_analysis_engine, with_dashboards, unless_raised, handle_analysis_engine,
  publish_analysis, show_gate, after_analysis, handle_state_gate, publish_gate, show_event,
  after_gate, handle_orchestrator, deliver_all,
}

consume_all-append :
    (xs ys : List StateGateEvent) (a : AnalysisEngine)
    → (Engine.consume_all a (xs ++ ys)).0 ≡ (Engine.consume_all (Engine.consume_all a xs).0 ys).0
unfolding Engine.consume_all
consume_all-append [] ys a = refl
consume_all-append (x ∷ xs) ys a = consume_all-append xs ys (Engine.consume a x).0

module _ {E B R S : Type 0} (ops : DashboardOps B R S) (quiet : IsQuiet ops) where
  -- The gate and the engine of a runtime.
  abbrev IsAt : RuntimeWiring E B R → Processor → AnalysisEngine → Type 0
  IsAt w p a = (w.state_gate ≡ p) × (w.analysis_engine ≡ a)

  -- A handler that has returned.
  abbrev IsHandled : Handled E B R → Processor → AnalysisEngine → Type 0
  IsHandled r p a = (r.1 ≡ none) × IsAt r.0 p a

  with_dashboards-IsHandled :
      (w : RuntimeWiring E B R) (d : DashboardRuntime B R × Option String)
      → d.1 ≡ none
      → IsHandled (with_dashboards ops w d) w.state_gate w.analysis_engine
  with_dashboards-IsHandled w d h = (ap (Option.map dashboard_raised) h, (refl, refl))

  unless-IsHandled :
      (p : Processor) (a b : AnalysisEngine) (r : Handled E B R)
      (next : RuntimeWiring E B R → Handled E B R)
      → IsHandled r p a
      → ((u : RuntimeWiring E B R) → IsAt u p a → IsHandled (next u) p b)
      → IsHandled (unless_raised ops next r) p b
  unless-IsHandled p a b (w, none) next h f = f w h.1
  unless-IsHandled p a b (w, some x) next h f = absurd cc

  -- A handler that leaves the gate and the engine as they are.
  moved-IsHandled :
      (p : Processor) (a : AnalysisEngine) (u : RuntimeWiring E B R) (r : Handled E B R)
      → IsAt u p a
      → IsHandled r u.state_gate u.analysis_engine
      → IsHandled r p a
  moved-IsHandled p a u r at h = (h.0, (h.1.0 ∙ at.0, h.1.1 ∙ at.1))

  publish_analysis-IsHandled :
      (es : List AnalysisEngineEvent) (w : RuntimeWiring E B R)
      → IsHandled (publish_analysis ops w es) w.state_gate w.analysis_engine
  unfolding publish_analysis handle_analysis_engine show_analysis_engine
  publish_analysis-IsHandled [] w = (refl, (refl, refl))
  publish_analysis-IsHandled (e ∷ es) w =
      unless-IsHandled w.state_gate w.analysis_engine w.analysis_engine
        (handle_analysis_engine ops w e) (λ u. publish_analysis ops u es)
        (with_dashboards-IsHandled w (show_analysis_engine ops w.dashboards e) (
          render_ingested-none ops quiet w.dashboards
            (ops.ingest_analysis_engine_event w.dashboards.builder e)
            (quiet.analysis_engine w.dashboards.builder e)))
        (λ u at.
          moved-IsHandled w.state_gate w.analysis_engine u (publish_analysis ops u es) at
            (publish_analysis-IsHandled es u))

  show_gate-IsHandled :
      (e : StateGateEvent) (w : RuntimeWiring E B R)
      → IsHandled (show_gate ops e w) w.state_gate w.analysis_engine
  unfolding show_state_gate
  show_gate-IsHandled e w = with_dashboards-IsHandled w (show_state_gate ops w.dashboards e) (
      render_ingested-none ops quiet w.dashboards
        (ops.ingest_state_gate_event w.dashboards.builder e)
        (quiet.state_gate w.dashboards.builder e))

  show_event-IsHandled :
      (e : OrchestratorEvent) (w : RuntimeWiring E B R)
      → IsHandled (show_event ops e w) w.state_gate w.analysis_engine
  unfolding show_orchestrator
  show_event-IsHandled e w = with_dashboards-IsHandled w (show_orchestrator ops w.dashboards e) (
      render_ingested-none ops quiet w.dashboards
        (ops.ingest_orchestrator_event w.dashboards.builder e)
        (quiet.orchestrator w.dashboards.builder e))

  after_analysis-IsHandled :
      (w : RuntimeWiring E B R) (e : StateGateEvent) (o : Outcome)
      → Returns o
      → IsHandled (after_analysis ops w e o) w.state_gate w.analysis_engine
  after_analysis-IsHandled w e (ok events) h =
      unless-IsHandled w.state_gate w.analysis_engine w.analysis_engine
        (publish_analysis ops w events) (show_gate ops e) (publish_analysis-IsHandled events w)
        (λ u at.
          moved-IsHandled w.state_gate w.analysis_engine u (show_gate ops e u) at
            (show_gate-IsHandled e u))
  after_analysis-IsHandled w e (err x) h = absurd h

  publish_gate-IsHandled :
      (es : List StateGateEvent) (w : RuntimeWiring E B R)
      → IsReady w.analysis_engine
      → IsHandled (publish_gate ops w es) w.state_gate (Engine.consume_all w.analysis_engine es).0
  unfolding publish_gate Engine.consume_all handle_state_gate
  publish_gate-IsHandled [] w ready = (refl, (refl, refl))
  publish_gate-IsHandled (e ∷ es) w ready =
      let a = (Engine.consume w.analysis_engine e).0 in
      unless-IsHandled w.state_gate a (Engine.consume_all a es).0 (handle_state_gate ops w e)
        (λ u. publish_gate ops u es)
        (after_analysis-IsHandled (record w { analysis_engine = a }) e
          (Engine.consume w.analysis_engine e).1 (consume-Returns w.analysis_engine e ready))
        (λ u at.
          let h =
            publish_gate-IsHandled es u
              (subst IsReady (sym at.1) (consume-IsReady w.analysis_engine e ready)) in
          (h.0, (h.1.0 ∙ at.0, h.1.1 ∙ ap (λ x. (Engine.consume_all x es).0) at.1)))

  after_gate-IsAt :
      (w : RuntimeWiring E B R) (e : OrchestratorEvent) (r : Result GateError (List StateGateEvent))
      → IsReady w.analysis_engine
      → IsAt
          (after_gate ops w e r).0
          w.state_gate
          (Engine.consume_all w.analysis_engine (Processor.given r)).0
  unfolding Engine.consume_all
  after_gate-IsAt w e (err x) ready = (refl, refl)
  after_gate-IsAt w e (ok events) ready =
      let a = (Engine.consume_all w.analysis_engine events).0 in
      (unless-IsHandled w.state_gate a a (publish_gate ops w events) (show_event ops e)
        (publish_gate-IsHandled events w ready)
        (λ u at.
          moved-IsHandled w.state_gate a u (show_event ops e u) at (show_event-IsHandled e u))).1

  deliver_all-IsAt :
      (es : List OrchestratorEvent) (w : RuntimeWiring E B R)
      → IsReady w.analysis_engine
      → IsAt
          (deliver_all ops w es)
          (Processor.consume_all w.state_gate es).0
          (Engine.consume_all w.analysis_engine (Processor.consume_all w.state_gate es).1).0
  unfolding deliver_all Processor.consume_all handle_orchestrator Engine.consume_all
  deliver_all-IsAt [] w ready = (refl, refl)
  deliver_all-IsAt (e ∷ es) w ready =
      let p = (Processor.consume w.state_gate e).0 in
      let events = Processor.given (Processor.consume w.state_gate e).1 in
      let u = (handle_orchestrator ops w e).0 in
      let at =
        after_gate-IsAt (record w { state_gate = p }) e (Processor.consume w.state_gate e).1
          ready in
      let h =
        deliver_all-IsAt es u
          (subst IsReady (sym at.1) (consume_all-IsReady events w.analysis_engine ready)) in
      (
        h.0 ∙ ap (λ x. (Processor.consume_all x es).0) at.0,
        h.1
            ∙ ap (λ x. (Engine.consume_all x (Processor.consume_all u.state_gate es).1).0) at.1
            ∙ ap
                (λ x.
                  (Engine.consume_all (Engine.consume_all w.analysis_engine events).0
                    (Processor.consume_all x es).1).0)
                at.0
            ∙ sym (consume_all-append events (Processor.consume_all p es).1 w.analysis_engine),
      )

  -- Let the analysis engine be made by its constructor over a registry that its own constructor
  -- has made, and let no call of the builder and the renderer of the dashboards raise. Whatever
  -- orchestrator events are published, the nested handlers of the bus leave the gate as consuming
  -- those events does, and the analysis engine as consuming afterwards all that the gate has given
  -- out does, also where the gate raises.
  pub deliver_all-in_turn :
      (ms : List AnalysisModule) (registry : ModuleRegistry) (config : AnalysisEngineConfig)
      (processed : IdempotencyStore) (records : ModuleStateStore) (a : AnalysisEngine)
      (p : Processor) (orchestrator : OrchestratorRuntime E) (dashboards : DashboardRuntime B R)
      (es : List OrchestratorEvent)
      → build_registry ms ≡ ok registry
      → Engine.start registry config processed records ≡ ok a
      → ((deliver_all ops
            (record {
              orchestrator = orchestrator;
              state_gate = p;
              analysis_engine = a;
              dashboards = dashboards;
            })
            es).state_gate
          ≡ (Processor.consume_all p es).0)
        × ((deliver_all ops
              (record {
                orchestrator = orchestrator;
                state_gate = p;
                analysis_engine = a;
                dashboards = dashboards;
              })
              es).analysis_engine
            ≡ (Engine.consume_all a (Processor.consume_all p es).1).0)
  deliver_all-in_turn ms registry config processed records a p orchestrator dashboards es built
        started =
      deliver_all-IsAt es
        (record {
          orchestrator = orchestrator;
          state_gate = p;
          analysis_engine = a;
          dashboards = dashboards;
        })
        (started-IsReady ms registry config processed records a built started)
