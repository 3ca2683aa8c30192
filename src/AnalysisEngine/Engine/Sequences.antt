-- ===== src/AnalysisEngine/Engine/Sequences.antt =====
-- Sequences of calls of `AnalysisEngine.consume` in src/consumers/analysis_engine/engine.py.
use xray_vision.Base.{
  ◌≡◌, ◌≢◌, refl, sym, ap, ◌∙◌, String, List, [], ◌∷◌, ◌++◌, Bool, true, false, contains, All,
  All-append, All-imp, keep, Bool-cases, inl, inr,
}
use xray_vision.StateGate.Contracts.{StateGateEvent, state_gate_halted}
use xray_vision.StateGate.Assembly.Once.{Pairwise, contains-add_self}
use xray_vision.AnalysisEngine.Contracts.{AnalysisEngineEvent}
use xray_vision.AnalysisEngine.Persistence.{has_processed}
use xray_vision.AnalysisEngine.Run.Decisions.{decisions, decisions-append}
use xray_vision.AnalysisEngine.Engine.{
  AnalysisEngine, given, consume, consume_all, halt, unless_halted,
}
use xray_vision.AnalysisEngine.Engine.Effect.{Extends, IsDecision, consume-IsEffect}

true_not_false : true ≢ false
true_not_false h = cc

-- About different runs.
abbrev pub IsOtherRun : AnalysisEngineEvent → AnalysisEngineEvent → Type 0
IsOtherRun x y = x.run_id ≢ y.run_id

-- Decisions about runs that the engine has not processed, no two about one run.
abbrev IsOnce : AnalysisEngine → List AnalysisEngineEvent → Type 0
IsOnce a xs =
    All (λ x. has_processed a.state.idempotency x.run_id ≡ false) xs × Pairwise IsOtherRun xs

unprocessed :
    (a b : AnalysisEngine) (k : String)
    → Extends a b
    → has_processed b.state.idempotency k ≡ false
    → has_processed a.state.idempotency k ≡ false
unprocessed a b k ext h = elim (Bool-cases (has_processed a.state.idempotency k)) [
  | inr p ↦ p
  | inl p ↦ absurd (true_not_false (sym (ext.0 k p) ∙ h))
]

other_run :
    (b : AnalysisEngine) (i j : String)
    → has_processed b.state.idempotency i ≡ true
    → has_processed b.state.idempotency j ≡ false
    → i ≢ j
other_run b i j p q r = true_not_false (sym p ∙ ap (has_processed b.state.idempotency) r ∙ q)

after_decision :
    (a : AnalysisEngine) (e : StateGateEvent) (b : AnalysisEngine)
    (xs ys : List AnalysisEngineEvent)
    → Extends a b
    → IsDecision a e b xs
    → IsOnce b ys
    → IsOnce a (xs ++ ys)
after_decision a e b [] ys ext d (fresh, once) =
    (All-imp ys (λ y h. unprocessed a b y.run_id ext h) fresh, once)
after_decision a e b (x ∷ []) ys ext d (fresh, once) =
    let (f, r, p, _) = d in
    (
      (rw r f.2, All-imp ys (λ y h. unprocessed a b y.run_id ext h) fresh),
      (All-imp ys (λ y h. other_run b x.run_id y.run_id (rw r p) h) fresh, once),
    )
after_decision a e b (x ∷ y ∷ xs) ys ext d h = absurd d

consume_all-IsOnce :
    (es : List StateGateEvent) (a : AnalysisEngine) → IsOnce a (decisions (consume_all a es).1)
unfolding consume_all decisions keep
consume_all-IsOnce [] a = (tt, tt)
consume_all-IsOnce (e ∷ es) a =
    let b = (consume a e).0 in
    let (ext, about, d) = consume-IsEffect a e in
    rw (decisions-append (given (consume a e).1) (consume_all b es).1) (
      after_decision a e b (decisions (given (consume a e).1)) (decisions (consume_all b es).1) ext
        d (consume_all-IsOnce es b))

-- From any engine and for any sequence of gate events, those that raise included: no two of the
-- events by which the engine starts or skips a run are about the same run id.
pub decided_once :
    (a : AnalysisEngine) (es : List StateGateEvent)
    → Pairwise IsOtherRun (decisions (consume_all a es).1)
decided_once a es = (consume_all-IsOnce es a).1

-- The events of a call are about another symbol than a halted one.
spoken :
    (a : AnalysisEngine) (e : StateGateEvent) (k : String)
    → contains k a.state.halted_symbols ≡ true
    → All (λ x. x.symbol ≢ k) (given (consume a e).1)
unfolding consume
spoken a e k h = elim (Bool-cases (contains e.symbol a.state.halted_symbols)) [
  | inl c ↦ rw c tt
  | inr c ↦
      All-imp (given (consume a e).1)
        (λ x about q.
          true_not_false
            (sym h ∙ ap (λ j. contains j a.state.halted_symbols) (sym q ∙ about.0) ∙ c))
        (consume-IsEffect a e).1
]

silent :
    (es : List StateGateEvent) (a : AnalysisEngine) (k : String)
    → contains k a.state.halted_symbols ≡ true
    → All (λ x. x.symbol ≢ k) (consume_all a es).1
unfolding consume_all
silent [] a k h = tt
silent (e ∷ es) a k h =
    All-append (λ x. x.symbol ≢ k) (given (consume a e).1) (consume_all (consume a e).0 es).1
      (spoken a e k h) (silent es (consume a e).0 k ((consume-IsEffect a e).0.1 k h))

halting :
    (b : Bool) (a : AnalysisEngine) (e : StateGateEvent)
    → contains e.symbol a.state.halted_symbols ≡ b
    → e.event_type ≡ state_gate_halted
    → contains e.symbol (unless_halted b a e).0.state.halted_symbols ≡ true
unfolding halt
halting true a e c t = c
halting false a e c t = rw t (contains-add_self e.symbol a.state.halted_symbols)

-- Once the engine has consumed a halt of the gate, it gives out no further event for that symbol,
-- whatever it consumes.
pub silent_after_halt :
    (a : AnalysisEngine) (e : StateGateEvent) (es : List StateGateEvent)
    → e.event_type ≡ state_gate_halted
    → All (λ x. x.symbol ≢ e.symbol) (consume_all (consume a e).0 es).1
unfolding consume
silent_after_halt a e es t =
    silent es (consume a e).0 e.symbol
      (halting (contains e.symbol a.state.halted_symbols) a e refl t)
