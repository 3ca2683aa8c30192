-- ===== src/AnalysisEngine/Engine/Cases.antt =====
-- The branches of `AnalysisEngine.consume` in src/consumers/analysis_engine/engine.py.
use xray_vision.Base.{◌≡◌, refl, Option, none, some, [], ◌∷◌, Bool, true, false, contains, ok}
use xray_vision.StateGate.Contracts.{
  StateGateEvent, GateStatus, gate_open, gate_closed, GateEventType, gate_evaluated, state_reset,
  state_gate_halted,
}
use xray_vision.AnalysisEngine.Contracts.{analysis_run_skipped, AnalysisError}
use xray_vision.AnalysisEngine.Persistence.{has_processed}
use xray_vision.AnalysisEngine.Planning.{ExecutionPlan, stage_order}
use xray_vision.AnalysisEngine.Run.{Run, analysis_event, start_run, run_stages}
use xray_vision.AnalysisEngine.Engine.{
  AnalysisEngine, Outcome, failed_event, complete, plan_for_symbol, run_plan, when_open, mark,
  unless_processed, halt, by_type, unless_halted, consume,
}

-- An evaluation of a run that is new, for a symbol that is not halted.
abbrev pub IsFresh : AnalysisEngine → StateGateEvent → Type 0
IsFresh a e =
    (contains e.symbol a.state.halted_symbols ≡ false)
    × (e.event_type ≡ gate_evaluated)
    × (has_processed a.state.idempotency e.run_id ≡ false)

-- The stages of the run of a plan, and the whole run.
abbrev pub stages_of : AnalysisEngine → StateGateEvent → ExecutionPlan → Run × Option AnalysisError
stages_of a e plan =
    run_stages a.registry e plan stage_order (start_run e a.state.module_state_store)

abbrev pub run_of : AnalysisEngine → StateGateEvent → ExecutionPlan → AnalysisEngine × Outcome
run_of a e plan = complete (mark a e.run_id) e (stages_of a e plan)

module _ (a : AnalysisEngine) (e : StateGateEvent) (P : AnalysisEngine × Outcome → Type 0) where
  plan-cases :
      (o : Option ExecutionPlan)
      → (o ≡ none → P (mark a e.run_id, ok (failed_event e ∷ [])))
      → ((plan : ExecutionPlan) → o ≡ some plan → P (run_of a e plan))
      → P (run_plan (mark a e.run_id) e o)
  unfolding run_plan mark
  plan-cases none missing planned = missing refl
  plan-cases (some plan) missing planned = planned plan refl

  status-cases :
      (s : GateStatus)
      → (s ≡ gate_closed
          → P (mark a e.run_id, ok (analysis_event e analysis_run_skipped none ∷ [])))
      → (s ≡ gate_open
          → P (run_plan (mark a e.run_id) e (plan_for_symbol a.plan_by_symbol e.symbol)))
      → P (when_open (mark a e.run_id) e s)
  unfolding mark
  status-cases gate_open closed open' = open' refl
  status-cases gate_closed closed open' = closed refl

  processed-cases :
      (b : Bool)
      → P (a, ok [])
      → (b ≡ false → P (when_open (mark a e.run_id) e e.gate_status))
      → P (unless_processed b a e)
  processed-cases true quiet new = quiet
  processed-cases false quiet new = new refl

  type-cases :
      (t : GateEventType)
      → P (a, ok [])
      → (t ≡ state_gate_halted → P (halt a e.symbol, ok (failed_event e ∷ [])))
      → (t ≡ gate_evaluated → P (unless_processed (has_processed a.state.idempotency e.run_id) a e))
      → P (by_type t a e)
  type-cases gate_evaluated quiet halts evaluated = evaluated refl
  type-cases state_reset quiet halts evaluated = quiet
  type-cases state_gate_halted quiet halts evaluated = halts refl

  halted-cases :
      (b : Bool)
      → P (a, ok [])
      → (b ≡ false → P (by_type e.event_type a e))
      → P (unless_halted b a e)
  halted-cases true quiet active = quiet
  halted-cases false quiet active = active refl

  pub consume-cases :
      P (a, ok [])
      → (contains e.symbol a.state.halted_symbols ≡ false
          → e.event_type ≡ state_gate_halted
          → P (halt a e.symbol, ok (failed_event e ∷ [])))
      → (IsFresh a e
          → e.gate_status ≡ gate_closed
          → P (mark a e.run_id, ok (analysis_event e analysis_run_skipped none ∷ [])))
      → (IsFresh a e → P (mark a e.run_id, ok (failed_event e ∷ [])))
      → (IsFresh a e
          → e.gate_status ≡ gate_open
          → (plan : ExecutionPlan) → plan_for_symbol a.plan_by_symbol e.symbol ≡ some plan
          → P (run_of a e plan))
      → P (consume a e)
  unfolding consume
  consume-cases quiet halts skips fails runs =
      halted-cases (contains e.symbol a.state.halted_symbols) quiet (λ h.
        type-cases e.event_type quiet (halts h) (λ t.
          processed-cases (has_processed a.state.idempotency e.run_id) quiet (λ p.
            status-cases e.gate_status (skips (h, t, p)) (λ s.
              plan-cases (plan_for_symbol a.plan_by_symbol e.symbol) (λ _. fails (h, t, p))
                (runs (h, t, p) s)))))
