-- ===== src/AnalysisEngine/Engine/Gating.antt =====
-- From src/consumers/state_gate/processor.py to src/consumers/analysis_engine/engine.py: the events
-- of a gated run, consumed by the engine.
use xray_vision.Base.{
  ◌≡◌, ◌≢◌, sym, ◌∙◌, String, Option, none, some, List, [], ◌∷◌, All, All-append, All-imp,
  Bool-cases, inl, inr, length,
}
use xray_vision.StateGate.Contracts.{
  StateGateEvent, gate_open, gate_closed, ResetReason, failed_input,
}
use xray_vision.StateGate.Config.{StateGateConfig}
use xray_vision.StateGate.Assembly.{AssembledRunInput}
use xray_vision.StateGate.Evaluation.{GateEvaluation, evaluate}
use xray_vision.StateGate.Evaluation.Decision.{IsDenylisted, IsBlocked, evaluate-open}
use xray_vision.StateGate.Machine.{process_run, reset_events, build_gate_event, build_reset_event}
use xray_vision.StateGate.Processor.Storing.{IsStored, append_all-IsStored}
use xray_vision.StateGate.Processor.{
  Processor, publish_blocked, enter_halted, append_all, unless_unstored, publish_run,
  process_assembled,
}
use xray_vision.AnalysisEngine.Contracts.{
  AnalysisEngineEvent, analysis_run_started, analysis_run_skipped, analysis_run_failed,
}
use xray_vision.AnalysisEngine.Engine.{AnalysisEngine, failed_event, given, consume, consume_all}
use xray_vision.AnalysisEngine.Engine.Cases.{run_of, consume-cases}

-- Nothing about a run forbids that modules see it.
abbrev pub IsCleared : StateGateConfig → AssembledRunInput → Type 0
IsCleared config run =
    (run.input_event_type ≢ failed_input)
    × ¬ ((v : String) × IsDenylisted config run v)
    × ¬ IsBlocked config run

abbrev pub Starts : Type 0 → AnalysisEngineEvent → Type 0
Starts C x = x.event_type ≡ analysis_run_started → C

always :
    {P : AnalysisEngineEvent → Type 0} (xs : List AnalysisEngineEvent)
    → ((x : AnalysisEngineEvent) → P x)
    → All P xs
always [] f = tt
always (x ∷ xs) f = (f x, always xs f)

skipped_type : analysis_run_skipped ≢ analysis_run_started
skipped_type h = cc

failed_type : analysis_run_failed ≢ analysis_run_started
failed_type h = cc

consume-Starts :
    (a : AnalysisEngine) (e : StateGateEvent)
    → All (Starts (e.gate_status ≡ gate_open)) (given (consume a e).1)
consume-Starts a e =
    let failing : All (Starts (e.gate_status ≡ gate_open)) (failed_event e ∷ []) =
      ((λ q. absurd (failed_type q)), tt) in
    consume-cases a e (λ r. All (Starts (e.gate_status ≡ gate_open)) (given r.1)) tt
      (λ h t. failing) (λ f s. ((λ q. absurd (skipped_type q)), tt)) (λ f. failing)
      (λ f s plan p. always (given (run_of a e plan).1) (λ x _. s))

consume_all-Starts :
    (C : Type 0) (es : List StateGateEvent) (a : AnalysisEngine)
    → All (λ e. e.gate_status ≡ gate_open → C) es
    → All (Starts C) (consume_all a es).1
unfolding consume_all
consume_all-Starts C [] a h = tt
consume_all-Starts C (e ∷ es) a h =
    All-append (Starts C) (given (consume a e).1) (consume_all (consume a e).0 es).1
      (All-imp (given (consume a e).1) (λ x s q. h.0 (s q)) (consume-Starts a e))
      (consume_all-Starts C es (consume a e).0 h.1)

closed_type : gate_closed ≢ gate_open
closed_type h = cc

-- The events of a run, as the gate gives them out.
gate_events :
    (run : AssembledRunInput) (e : GateEvaluation) (reason : Option ResetReason)
    → All
        (λ x. x.gate_status ≡ gate_open → e.gate_status ≡ gate_open)
        (reset_events run e reason (build_gate_event run e ∷ []))
unfolding build_gate_event build_reset_event
gate_events run e none = ((λ h. h), tt)
gate_events run e (some reason) = ((λ q. absurd (closed_type q)), ((λ h. h), tt))

-- A halt for a failed append is closed.
unstored_events :
    (C : Type 0) (p : Processor) (es : List StateGateEvent) (r : Processor × Option StateGateEvent)
    → All (λ x. x.gate_status ≡ gate_open → C) es
    → IsStored p es r
    → All (λ x. x.gate_status ≡ gate_open → C) (unless_unstored es r).1
unstored_events C p es (q, none) h s = h
unstored_events C p es (q, some halt) h s = ((λ o. absurd (closed_type (sym s.2 ∙ o))), tt)

published_events :
    (C : Type 0) (p : Processor) (run : AssembledRunInput) (es : List StateGateEvent)
    → All (λ x. x.gate_status ≡ gate_open → C) es
    → All (λ x. x.gate_status ≡ gate_open → C) (publish_run p run es).1
unfolding publish_run enter_halted
published_events C p run es h = elim (Bool-cases (publish_blocked p.config (length es))) [
  | inl b ↦ rw b ((λ q. absurd (closed_type q)), tt)
  | inr b ↦ rw b (unstored_events C p es (append_all p es) h (append_all-IsStored es p))
]

-- Whatever the state of the gate and of the analysis engine: if the engine consumes the events
-- that the gate gives out for a run, it starts an analysis only where the run has not failed, no
-- invalidation of its output is on the denylist and no transition is blocked.
pub gated_run-Starts :
    (p : Processor) (run : AssembledRunInput) (a : AnalysisEngine)
    → All (Starts (IsCleared p.config run)) (consume_all a (process_assembled p run).1).1
unfolding process_assembled process_run
gated_run-Starts p run a =
    consume_all-Starts (IsCleared p.config run) (process_assembled p run).1 a (
      published_events (IsCleared p.config run) _ run _ (
        All-imp _ (λ x h q. (evaluate-open p.config run).0 (h q))
          (gate_events run (evaluate p.config run) _)))
