-- ===== src/StateGate/Evaluation/Decision.antt =====
-- The status that `GateEvaluator.evaluate` of src/consumers/state_gate/evaluation.py decides.
use mathlib.Core.Logic.{◌↔◌}
use xray_vision.Base.{
  ◌≡◌, ◌≢◌, ◌<◌, refl, sym, ◌∙◌, ◌⊎◌, inl, inr, String, Option, none, some, List, [], ◌∷◌, Bool,
  true, false, arith, ltb, str_eq, str_refl, eq_iff, if◌then◌else◌, contains, add, keep, Bool-cases,
}
use xray_vision.RegimeEngine.Contracts.{RegimeOutput, HysteresisState}
use xray_vision.StateGate.Contracts.{
  gate_open, gate_closed, InputEventType, completed_input, failed_input, hysteresis_input,
}
use xray_vision.StateGate.Config.{StateGateConfig}
use xray_vision.StateGate.Assembly.{AssembledRunInput}
use xray_vision.StateGate.Evaluation.{
  GateEvaluation, insert, sorted, distinct, matched, failure_of, maybe_failure, hold_for,
  denylisted_of, maybe_denylisted, transition_of, maybe_transition_hold, open_gate, or_else,
  evaluate,
}

-- An invalidation of the run's output that is on the denylist.
abbrev pub IsDenylisted : StateGateConfig → AssembledRunInput → String → Type 0
IsDenylisted config run v =
    (output : RegimeOutput) × (run.regime_output ≡ some output)
    × (contains v output.invalidations ≡ true)
    × (contains v config.denylisted_invalidations ≡ true)

-- A transition that the configuration blocks.
abbrev pub IsBlocked : StateGateConfig → AssembledRunInput → Type 0
IsBlocked config run =
    (h : HysteresisState) × (run.hysteresis_state ≡ some h)
    × (0 < h.progress_current)
    × (config.block_during_transition ≡ true)

contains-add :
    (v w : String) (s : List String)
    → contains v (add w s) ≡ (if str_eq w v then true else contains v s)
unfolding contains add
contains-add v w s = ground (arith, eq_iff w v)

contains-distinct : (v : String) (s : List String) → contains v (distinct s) ≡ contains v s
unfolding contains distinct
contains-distinct v [] = refl
contains-distinct v (w ∷ s) = rw (contains-add v w (distinct s), contains-distinct v s) refl

contains-keep :
    (p : String → Bool) (v : String) (s : List String)
    → contains v (keep p s) ≡ (if p v then contains v s else false)
unfolding contains keep
contains-keep p v [] = ground arith
contains-keep p v (w ∷ s) = ground (arith, eq_iff w v, contains-keep p v s)

contains-insert :
    (v w : String) (s : List String)
    → contains v (insert w s) ≡ (if str_eq w v then true else contains v s)
unfolding contains insert
contains-insert v w [] = refl
contains-insert v w (u ∷ s) = ground (arith, eq_iff w v, eq_iff u v, contains-insert v w s)

pub contains-sorted : (v : String) (s : List String) → contains v (sorted s) ≡ contains v s
unfolding contains sorted
contains-sorted v [] = refl
contains-sorted v (w ∷ s) = rw (contains-insert v w (sorted s), contains-sorted v s) refl

contains-matched :
    (config : StateGateConfig) (output : RegimeOutput) (v : String)
    → contains v (matched config output) ≡ (
        if contains v config.denylisted_invalidations
        then contains v output.invalidations
        else false)
unfolding matched
contains-matched config output v =
    contains-distinct v
      (keep (λ w. contains w config.denylisted_invalidations) output.invalidations)
    ∙ contains-keep (λ w. contains w config.denylisted_invalidations) v output.invalidations

pub IsDenylisted-matched :
    (config : StateGateConfig) (run : AssembledRunInput) (output : RegimeOutput) (v : String)
    → run.regime_output ≡ some output
    → contains v (matched config output) ≡ true
    → IsDenylisted config run v
IsDenylisted-matched config run output v e h =
    let c = sym (contains-matched config output v) ∙ h in (output, e, ground arith, ground arith)

pub matched-IsDenylisted :
    (config : StateGateConfig) (run : AssembledRunInput) (output : RegimeOutput) (v : String)
    → run.regime_output ≡ some output
    → IsDenylisted config run v
    → contains v (matched config output) ≡ true
matched-IsDenylisted config run output v e (other, q, i, d) =
    let same : output ≡ other = cc in contains-matched config output v ∙ rw (d, same) i

-- What one of the three tests decides.
abbrev Stage : Option GateEvaluation → Type 0 → Type 0
Stage o P =
    ((e : GateEvaluation) × (o ≡ some e) × (e.gate_status ≡ gate_closed) × P) ⊎ ((o ≡ none) × ¬ P)

true_not_false : true ≢ false
true_not_false h = cc

failure-Stage :
    (run : AssembledRunInput) (t : InputEventType)
    → run.input_event_type ≡ t
    → Stage (failure_of run t) (run.input_event_type ≡ failed_input)
failure-Stage run completed_input e = inr (refl, λ h. cc)
failure-Stage run failed_input e = inl (_, refl, refl, e)
failure-Stage run hysteresis_input e = inr (refl, λ h. cc)

hold_for-Stage :
    (config : StateGateConfig) (run : AssembledRunInput) (output : RegimeOutput) (m : List String)
    → run.regime_output ≡ some output
    → matched config output ≡ m
    → Stage (hold_for run output m) ((v : String) × IsDenylisted config run v)
hold_for-Stage config run output [] e q = inr (
  refl,
  λ (v, d).
      let c = sym (matched-IsDenylisted config run output v e d) in
      absurd (true_not_false (c ∙ rw q (unfold contains in refl))),
)
hold_for-Stage config run output (v ∷ vs) e q = inl (
  _,
  refl,
  refl,
  (v, IsDenylisted-matched config run output v e (rw q (unfold contains in rw (str_refl v) refl))),
)

IsDenylisted-Stage :
    (config : StateGateConfig) (run : AssembledRunInput) (o : Option RegimeOutput)
    → run.regime_output ≡ o
    → Stage (denylisted_of config run o) ((v : String) × IsDenylisted config run v)
IsDenylisted-Stage config run none e = inr (refl, λ (v, (output, q, i, d)). cc)
IsDenylisted-Stage config run (some output) e =
    hold_for-Stage config run output (matched config output) e refl

not_moving :
    (run : AssembledRunInput) (h k : HysteresisState)
    → run.hysteresis_state ≡ some h
    → run.hysteresis_state ≡ some k
    → ltb 0 h.progress_current ≡ false
    → ¬ (0 < k.progress_current)
not_moving run h k e q b p =
    let same : k ≡ h = cc in
    let p' : 0 < h.progress_current = rw (← same) p in absurd (ground arith)

transition-Stage :
    (config : StateGateConfig) (run : AssembledRunInput) (o : Option HysteresisState)
    → run.hysteresis_state ≡ o
    → Stage (transition_of config run o) (IsBlocked config run)
transition-Stage config run none e = inr (refl, λ (h, q, p, b). cc)
transition-Stage config run (some h) e = elim (Bool-cases config.block_during_transition) [
  | inr b ↦ rw b (inr (refl, λ (k, q, p, c). cc))
  | inl b ↦ elim (Bool-cases (ltb 0 h.progress_current)) [
    | inr p ↦ rw (b, p) (inr (refl, λ (k, q, m, c). not_moving run h k e q p m))
    | inl p ↦ rw (b, p) (inl (_, refl, refl, (h, e, ground arith, refl)))
  ]
]

or_else-Stage :
    (o : Option GateEvaluation) (next : GateEvaluation) (P : Type 0)
    → Stage o P
    → ((or_else o next).gate_status ≡ gate_open) ↔ (¬ P × (next.gate_status ≡ gate_open))
or_else-Stage none next P (inl (e, q, c, p)) = absurd (ground arith)
or_else-Stage none next P (inr (q, np)) = (λ h. (np, h), λ (_, h). h)
or_else-Stage (some f) next P (inl (e, q, c, p)) = (λ h. cc, λ (np, h). absurd (np p))
or_else-Stage (some f) next P (inr (q, np)) = absurd (ground arith)

-- The gate is open after an evaluation exactly if the run has not failed, no invalidation of its
-- output is on the denylist, and it is not in a transition that the configuration blocks.
pub evaluate-open :
    (config : StateGateConfig) (run : AssembledRunInput)
    → ((evaluate config run).gate_status ≡ gate_open) ↔ (
        ¬ (run.input_event_type ≡ failed_input)
        × ¬ ((v : String) × IsDenylisted config run v)
        × ¬ IsBlocked config run)
unfolding evaluate maybe_failure maybe_denylisted maybe_transition_hold open_gate
evaluate-open config run =
    let last =
      or_else-Stage (maybe_transition_hold config run) (open_gate run) (IsBlocked config run)
        (transition-Stage config run run.hysteresis_state refl) in
    let inner =
      or_else-Stage (maybe_denylisted config run)
        (or_else (maybe_transition_hold config run) (open_gate run))
        ((v : String) × IsDenylisted config run v)
        (IsDenylisted-Stage config run run.regime_output refl) in
    let outer =
      or_else-Stage (maybe_failure run)
        (or_else (maybe_denylisted config run)
          (or_else (maybe_transition_hold config run) (open_gate run)))
        (run.input_event_type ≡ failed_input) (failure-Stage run run.input_event_type refl) in
    (
      λ h. let (f, h1) = outer.0 h in let (d, h2) = inner.0 h1 in (f, d, (last.0 h2).0),
      λ (f, d, b). outer.1 (f, inner.1 (d, last.1 (b, refl))),
    )
