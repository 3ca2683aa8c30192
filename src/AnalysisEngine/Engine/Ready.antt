-- ===== src/AnalysisEngine/Engine/Ready.antt =====
-- Engines that the constructor of src/consumers/analysis_engine/engine.py makes: each plan, and one by
-- default.
use mathlib.Core.Path.{subst}
use xray_vision.Base.{
  ◌≡◌, refl, String, Option, none, some, List, [], ◌∷◌, true, is_some, get_or, All, inl, inr,
  Bool-cases, str_eq, Option-cases, Holds, bind-Holds, then-Holds,
}
use xray_vision.Base.Dict
use xray_vision.Base.Dict.{Dict, HoldsSome, get-All, get-put, put-All}
use xray_vision.StateGate.Contracts.{StateGateEvent}
use xray_vision.AnalysisEngine.Contracts.{AnalysisError, ModuleKind, AnalysisModule}
use xray_vision.AnalysisEngine.Registry.{ModuleRegistry, build_registry}
use xray_vision.AnalysisEngine.Persistence.{IdempotencyStore, ModuleStateStore}
use xray_vision.AnalysisEngine.Config.{AnalysisEngineConfig, SymbolConfig, validate_config}
use xray_vision.AnalysisEngine.Planning.{ExecutionStep, ExecutionPlan, build_execution_plan}
use xray_vision.AnalysisEngine.Planning.Registered.{
  IsKeyed, IsStepOf, IsPlan, build_execution_plan-IsPlan, build_registry-IsKeyed,
}
use xray_vision.AnalysisEngine.Run.{Run, start_run, run_module, run_steps, next_stages, run_stages}
use xray_vision.AnalysisEngine.Planning.{stage_order}
use xray_vision.Base.{ok, err, Holds-ok}
use xray_vision.AnalysisEngine.Engine.{
  Outcome, AnalysisEngine, complete, plan_for_symbol, symbol_plans, build_plans, or_default, mark,
  halt, start, consume, consume_all,
}
use xray_vision.AnalysisEngine.Engine.Cases.{stages_of, consume-cases}

missing : (o : Option AnalysisModule) → o ≡ none → is_some o ≡ true → ⊥
missing none q h = cc
missing (some m) q h = cc

-- Steps of registered modules raise nothing.
module _ (registry : ModuleRegistry) (e : StateGateEvent) where
  steps-pass :
      (stage : ModuleKind) (ss : List ExecutionStep) (run : Run)
      → All (IsStepOf registry stage) ss
      → (run_steps registry e stage ss run).1 ≡ none
  unfolding run_steps
  steps-pass stage [] run h = refl
  steps-pass stage (s ∷ ss) run h = elim (Option-cases (Dict.get registry s.module_id)) [
    | inl q ↦ absurd (missing (Dict.get registry s.module_id) q h.0.0)
    | inr (m, q) ↦ rw (q, run_steps) (steps-pass stage ss (run_module e stage m run) h.1)
  ]

  next-pass :
      (next : Run → Run × Option AnalysisError) (o : Run × Option AnalysisError)
      → o.1 ≡ none
      → ((r : Run) → (next r).1 ≡ none)
      → (next_stages registry e next o).1 ≡ none
  next-pass next (run, none) h f = f run
  next-pass next (run, some error) h f = absurd cc

  pub stages-pass :
      (plan : ExecutionPlan) (ss : List ModuleKind) (run : Run)
      → IsPlan registry plan
      → (run_stages registry e plan ss run).1 ≡ none
  unfolding run_stages
  stages-pass plan [] run h = refl
  stages-pass plan (s ∷ ss) run h =
      next-pass (run_stages registry e plan ss) (run_steps registry e s (plan.steps_by_stage s) run)
        (steps-pass s (plan.steps_by_stage s) run (h s)) (λ r. stages-pass plan ss r h)

-- The plans are of registered modules, and one of them is the default.
abbrev pub IsReady : AnalysisEngine → Type 0
IsReady a =
    All (λ e. IsPlan a.registry e.1) a.plan_by_symbol
    × (is_some (Dict.get a.plan_by_symbol "__default__") ≡ true)

complete-IsReady :
    (a : AnalysisEngine) (e : StateGateEvent) (o : Run × Option AnalysisError)
    → IsReady a
    → IsReady (complete a e o).0
complete-IsReady a e (run, none) h = h
complete-IsReady a e (run, some error) h = h

pub consume-IsReady :
    (a : AnalysisEngine) (e : StateGateEvent) → IsReady a → IsReady (consume a e).0
unfolding mark halt
consume-IsReady a e h =
    consume-cases a e (λ r. IsReady r.0) h (λ _ _. h) (λ _ _. h) (λ _. h)
      (λ f s plan p. complete-IsReady (mark a e.run_id) e (stages_of a e plan) h)

pub consume_all-IsReady :
    (es : List StateGateEvent) (a : AnalysisEngine) → IsReady a → IsReady (consume_all a es).0
unfolding consume_all
consume_all-IsReady [] a h = h
consume_all-IsReady (e ∷ es) a h = consume_all-IsReady es (consume a e).0 (consume-IsReady a e h)

abbrev HasPlans : ModuleRegistry → Dict ExecutionPlan → Type 0
HasPlans registry plans =
    All (λ e. IsPlan registry e.1) plans × (is_some (Dict.get plans "__default__") ≡ true)

still :
    {V : Type 0} (d : Dict V) (k j : String) (v : V)
    → is_some (Dict.get d j) ≡ true
    → is_some (Dict.get (Dict.put d k v) j) ≡ true
still d k j v h = elim (Bool-cases (str_eq k j)) [
  | inl b ↦ rw (get-put d k j v, b) refl
  | inr b ↦ rw (get-put d k j v, b) h
]

symbol_plans-HasPlans :
    (registry : ModuleRegistry) (cs : List SymbolConfig) (plans : Dict ExecutionPlan)
    → IsKeyed registry
    → HasPlans registry plans
    → Holds (HasPlans registry) (symbol_plans registry plans cs)
unfolding symbol_plans
symbol_plans-HasPlans registry [] plans keyed h = h
symbol_plans-HasPlans registry (c ∷ cs) plans keyed h =
    bind-Holds (IsPlan registry) (HasPlans registry)
      (build_execution_plan registry c.enabled_modules) _
      (build_execution_plan-IsPlan registry c.enabled_modules keyed)
      (λ plan p. symbol_plans-HasPlans registry cs (Dict.put plans c.symbol plan) keyed (
        put-All (λ _ x. IsPlan registry x) plans c.symbol plan h.0 p,
        still plans c.symbol "__default__" plan h.1,
      ))

build_plans-HasPlans :
    (registry : ModuleRegistry) (config : AnalysisEngineConfig)
    → IsKeyed registry
    → Holds (HasPlans registry) (build_plans registry config)
unfolding build_plans Dict.get
build_plans-HasPlans registry config keyed =
    bind-Holds (IsPlan registry) (HasPlans registry) _ _
      (build_execution_plan-IsPlan registry (or_default config.enabled_modules registry) keyed)
      (λ plan p.
        symbol_plans-HasPlans registry (get_or config.symbols []) (("__default__", plan) ∷ []) keyed
          ((p, tt), refl))

start-IsReady :
    (registry : ModuleRegistry) (config : AnalysisEngineConfig) (processed : IdempotencyStore)
    (records : ModuleStateStore)
    → IsKeyed registry
    → Holds IsReady (start registry config processed records)
unfolding start
start-IsReady registry config processed records keyed =
    then-Holds IsReady (validate_config registry config) _ (
      bind-Holds (HasPlans registry) IsReady (build_plans registry config) _
        (build_plans-HasPlans registry config keyed) (λ plans h. h))

pub planned :
    (a : AnalysisEngine) (symbol : String)
    → IsReady a
    → HoldsSome (IsPlan a.registry) (plan_for_symbol a.plan_by_symbol symbol)
      × (is_some (plan_for_symbol a.plan_by_symbol symbol) ≡ true)
unfolding plan_for_symbol
planned a symbol h = elim (Option-cases (Dict.get a.plan_by_symbol symbol)) [
  | inl q ↦
      rw (q, plan_for_symbol)
        (get-All (λ _ x. IsPlan a.registry x) a.plan_by_symbol "__default__" h.0, h.1)
  | inr (plan, q) ↦
      rw (q, plan_for_symbol)
        (
          subst (HoldsSome (IsPlan a.registry)) q
              (get-All (λ _ x. IsPlan a.registry x) a.plan_by_symbol symbol h.0),
          refl,
        )
]

pub started-IsReady :
    (ms : List AnalysisModule) (registry : ModuleRegistry) (config : AnalysisEngineConfig)
    (processed : IdempotencyStore) (records : ModuleStateStore) (a : AnalysisEngine)
    → build_registry ms ≡ ok registry
    → start registry config processed records ≡ ok a
    → IsReady a
started-IsReady ms registry config processed records a built started =
    Holds-ok IsReady (start registry config processed records) a
      (start-IsReady registry config processed records
        (Holds-ok IsKeyed (build_registry ms) registry (build_registry-IsKeyed ms) built))
      started

-- A call that raises nothing.
abbrev pub Returns : Outcome → Type 0
Returns (ok events) = Unit
Returns (err x) = ⊥

complete-Returns :
    (a : AnalysisEngine) (e : StateGateEvent) (o : Run × Option AnalysisError)
    → o.1 ≡ none
    → Returns (complete a e o).1
complete-Returns a e (run, none) h = tt
complete-Returns a e (run, some error) h = absurd cc

pub consume-Returns :
    (a : AnalysisEngine) (e : StateGateEvent) → IsReady a → Returns (consume a e).1
consume-Returns a e h =
    consume-cases a e (λ r. Returns r.1) tt (λ _ _. tt) (λ _ _. tt) (λ _. tt)
      (λ f s plan p. complete-Returns (mark a e.run_id) e (stages_of a e plan) (
        stages-pass a.registry e plan stage_order (start_run e a.state.module_state_store)
          (subst (HoldsSome (IsPlan a.registry)) p (planned a e.symbol h).0)))
