-- ===== src/AnalysisEngine/Engine/Completion.antt =====
-- A fresh event and an open gate, in src/consumers/analysis_engine/engine.py.
use mathlib.Core.Path.{subst}
use xray_vision.Base.{
  ◌≡◌, refl, sym, ap, ◌∙◌, String, Option, none, some, List, [], ◌∷◌, ◌++◌, true, is_some, ok,
}
use xray_vision.Base.Dict.{HoldsSome}
use xray_vision.StateGate.Contracts.{StateGateEvent, gate_open}
use xray_vision.AnalysisEngine.Contracts.{
  AnalysisEngineEvent, AnalysisError, AnalysisModule, analysis_run_started,
}
use xray_vision.AnalysisEngine.Registry.{ModuleRegistry, build_registry}
use xray_vision.AnalysisEngine.Persistence.{IdempotencyStore, ModuleStateStore}
use xray_vision.AnalysisEngine.Config.{AnalysisEngineConfig}
use xray_vision.AnalysisEngine.Planning.{ExecutionPlan, stage_order}
use xray_vision.AnalysisEngine.Planning.Registered.{IsPlan}
use xray_vision.AnalysisEngine.Run.{Run, analysis_event, fail_module, emit_artifact, start_run}
use xray_vision.AnalysisEngine.Engine.{
  AnalysisEngine, Outcome, complete, completed_event, plan_for_symbol, mark, start, run_plan,
  unless_halted, by_type, unless_processed, when_open, consume, consume_all,
}
use xray_vision.AnalysisEngine.Run.Closed.{IsClosed, run_module-closed, run_stages-kept}
use xray_vision.AnalysisEngine.Engine.Cases.{IsFresh, stages_of}
use xray_vision.AnalysisEngine.Engine.Ready.{
  stages-pass, consume_all-IsReady, started-IsReady, planned,
}

-- The log of a run begins with its start.
abbrev IsOpened : StateGateEvent → List AnalysisEngineEvent → Type 0
IsOpened e events =
    (xs : List AnalysisEngineEvent) × (events ≡ analysis_event e analysis_run_started none ∷ xs)

IsOpened-append :
    (e : StateGateEvent) (events : List AnalysisEngineEvent) (x : AnalysisEngineEvent)
    → IsOpened e events
    → IsOpened e (events ++ (x ∷ []))
IsOpened-append e events x (xs, q) = (xs ++ (x ∷ []), ap (λ ys. ys ++ (x ∷ [])) q)

IsOpened-closed : (e : StateGateEvent) → IsClosed e (λ run. IsOpened e run.events)
unfolding fail_module emit_artifact
IsOpened-closed e = record {
  on_fail = λ d kind detail run p. IsOpened-append e run.events _ p;
  on_emit = λ a run p. IsOpened-append e run.events _ p;
  on_store = λ s run p. p;
}

-- The events of a run from its start to its end.
abbrev pub IsAnswered : StateGateEvent → Outcome → Type 0
IsAnswered e outcome =
    (xs : List AnalysisEngineEvent) × (failures : List String) × (outcome
      ≡ ok (analysis_event e analysis_run_started none ∷ xs ++ (completed_event e failures ∷ [])))

complete-IsAnswered :
    (a : AnalysisEngine) (e : StateGateEvent) (o : Run × Option AnalysisError)
    → o.1 ≡ none
    → IsOpened e o.0.events
    → IsAnswered e (complete a e o).1
complete-IsAnswered a e (run, none) h (xs, q) =
    (xs, run.module_failures, ap (λ ys. ok (ys ++ (completed_event e run.module_failures ∷ []))) q)
complete-IsAnswered a e (run, some error) h o = absurd cc

planned-IsAnswered :
    (a : AnalysisEngine) (e : StateGateEvent) (o : Option ExecutionPlan)
    → HoldsSome (IsPlan a.registry) o
    → is_some o ≡ true
    → IsAnswered e (run_plan (mark a e.run_id) e o).1
unfolding run_plan mark
planned-IsAnswered a e none h q = absurd cc
planned-IsAnswered a e (some plan) h q =
    complete-IsAnswered (mark a e.run_id) e (stages_of a e plan)
      (stages-pass a.registry e plan stage_order (start_run e a.state.module_state_store) h)
      (run_stages-kept a.registry e (λ run. IsOpened e run.events)
        (run_module-closed e (λ run. IsOpened e run.events) (IsOpened-closed e)) plan stage_order
        (start_run e a.state.module_state_store) ([], refl))

consume-fresh :
    (a : AnalysisEngine) (e : StateGateEvent)
    → IsFresh a e
    → e.gate_status ≡ gate_open
    → consume a e ≡ run_plan (mark a e.run_id) e (plan_for_symbol a.plan_by_symbol e.symbol)
unfolding consume mark
consume-fresh a e (h, t, p) s =
    ap (λ b. unless_halted b a e) h
    ∙ ap (λ k. by_type k a e) t
    ∙ ap (λ b. unless_processed b a e) p
    ∙ ap (λ g. when_open (mark a e.run_id) e g) s

-- With an engine that its constructor has made over a registry that its own constructor has made,
-- whatever the modules compute or raise and whatever events it has consumed: an evaluation with an
-- open gate, of a run that is not processed and for a symbol that is not halted, raises no error
-- and is answered by the start of the run, the events of its modules and its completion.
pub fresh-IsAnswered :
    (ms : List AnalysisModule) (registry : ModuleRegistry) (config : AnalysisEngineConfig)
    (processed : IdempotencyStore) (records : ModuleStateStore) (a : AnalysisEngine)
    (es : List StateGateEvent) (e : StateGateEvent)
    → build_registry ms ≡ ok registry
    → start registry config processed records ≡ ok a
    → IsFresh (consume_all a es).0 e
    → e.gate_status ≡ gate_open
    → IsAnswered e (consume (consume_all a es).0 e).1
fresh-IsAnswered ms registry config processed records a es e built started f s =
    let ready = started-IsReady ms registry config processed records a built started in
    let b = (consume_all a es).0 in
    let (plans, found) = planned b e.symbol (consume_all-IsReady es a ready) in
    subst (λ r. IsAnswered e r.1) (sym (consume-fresh b e f s))
      (planned-IsAnswered b e (plan_for_symbol b.plan_by_symbol e.symbol) plans found)
