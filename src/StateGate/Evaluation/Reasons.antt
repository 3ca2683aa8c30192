-- ===== src/StateGate/Evaluation/Reasons.antt =====
-- The reasons that `GateEvaluator.evaluate` of src/consumers/state_gate/evaluation.py gives.
use xray_vision.Base.{
  ◌≡◌, ◌≢◌, refl, sym, ◌∙◌, String, none, some, List, [], ◌∷◌, map, true, arith, str_eq, str_refl,
  eq_iff, contains, Bool-cases, inl, inr,
}
use xray_vision.RegimeEngine.Contracts.{RegimeOutput}
use xray_vision.StateGate.Contracts.{
  InputEventType, completed_input, failed_input, hysteresis_input,
}
use xray_vision.StateGate.Config.{StateGateConfig}
use xray_vision.StateGate.Assembly.{AssembledRunInput}
use xray_vision.StateGate.Evaluation.{
  GateEvaluation, sorted, matched, denylisted_reason, failure_of, maybe_failure, hold_for,
  maybe_denylisted, or_else, evaluate,
}
use xray_vision.StateGate.Evaluation.Decision.{
  IsDenylisted, contains-sorted, IsDenylisted-matched, matched-IsDenylisted,
}

contains-map :
    (f : String → String) (v : String) (s : List String)
    → contains v s ≡ true
    → contains (f v) (map f s) ≡ true
unfolding contains
contains-map f v [] h = h
contains-map f v (w ∷ s) h = elim (Bool-cases (str_eq w v)) [
  | inl q ↦ rw ((eq_iff w v).0 q, str_refl (f v)) refl
  | inr q ↦
      let tail : contains v s ≡ true = ground (arith, q, h) in
      ground (arith, contains-map f v s tail)
]

map-contains :
    (f : String → String) (r : String) (s : List String)
    → contains r (map f s) ≡ true
    → (v : String) × (contains v s ≡ true) × (r ≡ f v)
unfolding contains
map-contains f r [] h = absurd (ground arith)
map-contains f r (w ∷ s) h = elim (Bool-cases (str_eq (f w) r)) [
  | inl q ↦ (w, rw (str_refl w) refl, sym ((eq_iff (f w) r).0 q))
  | inr q ↦ let (v, c, e) = map-contains f r s (ground (arith, q, h)) in (v, ground (arith, c), e)
]

failure_of-none :
    (run : AssembledRunInput) (t : InputEventType) → t ≢ failed_input → failure_of run t ≡ none
failure_of-none run completed_input h = refl
failure_of-none run failed_input h = absurd (h refl)
failure_of-none run hysteresis_input h = refl

hold_for-reasons :
    (run : AssembledRunInput) (output : RegimeOutput) (m : List String) (v : String)
    (next : GateEvaluation)
    → contains v m ≡ true
    → (or_else (hold_for run output m) next).reasons ≡ sorted (map denylisted_reason m)
unfolding contains
hold_for-reasons run output [] v next h = absurd (ground arith)
hold_for-reasons run output (w ∷ m) v next h = refl

evaluate-reasons :
    (config : StateGateConfig) (run : AssembledRunInput) (output : RegimeOutput) (v : String)
    → run.input_event_type ≢ failed_input
    → run.regime_output ≡ some output
    → contains v (matched config output) ≡ true
    → (evaluate config run).reasons ≡ sorted (map denylisted_reason (matched config output))
unfolding evaluate maybe_failure maybe_denylisted
evaluate-reasons config run output v nf e c =
    rw (failure_of-none run run.input_event_type nf, e)
      (hold_for-reasons run output (matched config output) v _ c)

-- Where a run that has not failed has an invalidation on the denylist, the reasons are exactly the
-- prefixed invalidations of its output that are on the denylist: each is there, and nothing else
-- is.
pub evaluate-IsDenylisted_reasons :
    (config : StateGateConfig) (run : AssembledRunInput) (u : String)
    → run.input_event_type ≢ failed_input
    → IsDenylisted config run u
    → ((v : String)
        → IsDenylisted config run v
        → contains (denylisted_reason v) (evaluate config run).reasons ≡ true)
      × ((r : String)
          → contains r (evaluate config run).reasons ≡ true
          → (v : String) × IsDenylisted config run v × (r ≡ denylisted_reason v))
evaluate-IsDenylisted_reasons config run u nf (output, e, i, d) =
    let m = matched config output in
    let all =
      evaluate-reasons config run output u nf e
        (matched-IsDenylisted config run output u e (output, e, i, d)) in
    (
      λ v dv. rw all (
          contains-sorted (denylisted_reason v) (map denylisted_reason m)
          ∙ contains-map denylisted_reason v m (matched-IsDenylisted config run output v e dv)),
      λ r c.
          let c' : contains r (sorted (map denylisted_reason m)) ≡ true = rw (← all) c in
          let (v, cv, q) =
            map-contains denylisted_reason r m
              (sym (contains-sorted r (map denylisted_reason m)) ∙ c') in
          (v, IsDenylisted-matched config run output v e cv, q),
    )
