-- ===== src/AnalysisEngine/Engine/Effect.antt =====
-- What one call of `AnalysisEngine.consume` in src/consumers/analysis_engine/engine.py gives out and
-- remembers.
use xray_vision.Base.{
  ◌≡◌, ◌≢◌, refl, String, Option, none, some, List, [], ◌∷◌, true, contains, add, All, All-append,
  arith, eq_iff, keep,
}
use xray_vision.StateGate.Contracts.{StateGateEvent, gate_open}
use xray_vision.StateGate.Assembly.Once.{contains-add_self}
use xray_vision.AnalysisEngine.Contracts.{
  AnalysisEngineEvent, analysis_run_started, analysis_run_skipped, AnalysisError,
}
use xray_vision.AnalysisEngine.Persistence.{has_processed, mark_processed}
use xray_vision.AnalysisEngine.Planning.{stage_order}
use xray_vision.AnalysisEngine.Run.{Run}
use xray_vision.AnalysisEngine.Run.Log.{append_nil}
use xray_vision.AnalysisEngine.Run.Decisions.{
  decisions, decisions-append, IsAbout, IsBegun, run_stages-IsBegun,
}
use xray_vision.AnalysisEngine.Engine.{
  AnalysisEngine, Outcome, mark, halt, complete, completed_event, given, consume,
}
use xray_vision.AnalysisEngine.Engine.Cases.{IsFresh, stages_of, consume-cases}

-- What was processed or halted stays so.
abbrev pub Extends : AnalysisEngine → AnalysisEngine → Type 0
Extends a b =
    ((k : String)
      → has_processed a.state.idempotency k ≡ true
      → has_processed b.state.idempotency k ≡ true)
    × ((k : String)
        → contains k a.state.halted_symbols ≡ true
        → contains k b.state.halted_symbols ≡ true)

-- A decision about the run of the event, which is new.
abbrev pub IsDecision :
    AnalysisEngine → StateGateEvent → AnalysisEngine → List AnalysisEngineEvent → Type 0
IsDecision a e b [] = Unit
IsDecision a e b (x ∷ []) =
    IsFresh a e
    × (x.run_id ≡ e.run_id)
    × (has_processed b.state.idempotency e.run_id ≡ true)
    × (x.event_type ≡ analysis_run_started → e.gate_status ≡ gate_open)
IsDecision a e b (x ∷ y ∷ xs) = ⊥

abbrev pub IsEffect : AnalysisEngine → StateGateEvent → AnalysisEngine × Outcome → Type 0
IsEffect a e r =
    Extends a r.0 × All (IsAbout e) (given r.1) × IsDecision a e r.0 (decisions (given r.1))

contains-add : (k j : String) (s : List String) → contains k s ≡ true → contains k (add j s) ≡ true
unfolding contains add
contains-add k j s h = ground (arith, eq_iff j k)

mark-Extends : (a : AnalysisEngine) (k : String) → Extends a (mark a k)
unfolding mark mark_processed has_processed
mark-Extends a k = ((λ j h. contains-add j k a.state.idempotency h), (λ j h. h))

marked : (a : AnalysisEngine) (k : String) → has_processed (mark a k).state.idempotency k ≡ true
unfolding mark mark_processed has_processed
marked a k = contains-add_self k a.state.idempotency

halt-Extends : (a : AnalysisEngine) (k : String) → Extends a (halt a k)
unfolding halt
halt-Extends a k = ((λ j h. h), (λ j h. contains-add j k a.state.halted_symbols h))

skipped_type : analysis_run_skipped ≢ analysis_run_started
skipped_type h = cc

complete-IsEffect :
    (a : AnalysisEngine) (e : StateGateEvent) (o : Run × Option AnalysisError)
    → IsFresh a e
    → e.gate_status ≡ gate_open
    → IsBegun e o.0
    → IsEffect a e (complete (mark a e.run_id) e o)
unfolding decisions completed_event keep
complete-IsEffect a e (run, some error) f s p = (mark-Extends a e.run_id, tt, tt)
complete-IsEffect a e (run, none) f s p = (
  mark-Extends a e.run_id,
  All-append (IsAbout e) run.events _ p.1 ((refl, refl), tt),
  rw
      (
        decisions-append run.events (completed_event e run.module_failures ∷ []),
        append_nil (decisions run.events),
        p.0,
      )
      (f, refl, marked a e.run_id, (λ _. s)),
)

pub consume-IsEffect : (a : AnalysisEngine) (e : StateGateEvent) → IsEffect a e (consume a e)
unfolding decisions keep
consume-IsEffect a e =
    consume-cases a e (IsEffect a e) (((λ k h. h), (λ k h. h)), tt, tt)
      (λ h t. (halt-Extends a e.symbol, ((refl, refl), tt), tt))
      (λ f s. (
        mark-Extends a e.run_id,
        ((refl, refl), tt),
        (f, refl, marked a e.run_id, (λ q. absurd (skipped_type q))),
      ))
      (λ f. (mark-Extends a e.run_id, ((refl, refl), tt), tt))
      (λ f s plan p.
        complete-IsEffect a e (stages_of a e plan) f s
          (run_stages-IsBegun a.registry e plan stage_order a.state.module_state_store))
