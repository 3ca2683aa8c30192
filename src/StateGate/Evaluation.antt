-- ===== src/StateGate/Evaluation.antt =====
-- src/consumers/state_gate/evaluation.py. `sorted` of a set of strings is an insertion sort by their
-- code points after duplicates are dropped.
pub mod Decision
pub mod Reasons
use Prim.Native.String.{compare as compare_str, ◌++◌ as append_str}
use Prim.Native.Nat.{Ordering}
use xray_vision.Base.{
  ℕ, zero, suc, String, Option, none, some, List, [], ◌∷◌, map, Bool, true, false, not, ◌&&◌, ltb,
  if◌then◌else◌, contains, add, keep,
}
use xray_vision.RegimeEngine.Contracts.{RegimeOutput, HysteresisState}
use xray_vision.Orchestrator.Contracts.{EngineMode}
use xray_vision.StateGate.Contracts.{
  GateStatus, gate_open, gate_closed, StateStatus, ready, hold, degraded, InputEventType,
  completed_input, failed_input, hysteresis_input,
}
use xray_vision.StateGate.Config.{StateGateConfig}
use xray_vision.StateGate.Assembly.{AssembledRunInput}

pub record GateEvaluation : Type 0 where
  pub gate_status : GateStatus
  pub state_status : StateStatus
  pub reasons : List String
  pub input_event_type : InputEventType
  pub engine_mode : Option EngineMode
  pub regime_output : Option RegimeOutput
  pub hysteresis_state : Option HysteresisState

abbrev pub not_greater : String → String → Bool
not_greater s t = elim (compare_str s t) [ Ordering.gt ↦ false | _ ↦ true ]

unfoldable pub insert : String → List String → List String
insert s [] = s ∷ []
insert s (t ∷ ts) = let rest = insert s ts in if not_greater s t then s ∷ t ∷ ts else t ∷ rest

unfoldable pub sorted : List String → List String
sorted [] = []
sorted (s ∷ ss) = insert s (sorted ss)

unfoldable pub distinct : List String → List String
distinct [] = []
distinct (s ∷ ss) = add s (distinct ss)

-- The set `matched`.
unfoldable pub matched : StateGateConfig → RegimeOutput → List String
matched config output =
    distinct (keep (λ v. contains v config.denylisted_invalidations) output.invalidations)

abbrev pub denylisted_reason : String → String
denylisted_reason v = append_str "denylisted_invalidation:" v

abbrev pub failure_of : AssembledRunInput → InputEventType → Option GateEvaluation
failure_of run failed_input = some (record {
  gate_status = gate_closed;
  state_status = degraded;
  reasons = "run_failed" ∷ [];
  input_event_type = run.input_event_type;
  engine_mode = run.engine_mode;
  regime_output = none;
  hysteresis_state = none;
})
failure_of run _ = none

unfoldable pub maybe_failure : AssembledRunInput → Option GateEvaluation
maybe_failure run = failure_of run run.input_event_type

abbrev pub hold_for : AssembledRunInput → RegimeOutput → List String → Option GateEvaluation
hold_for run output [] = none
hold_for run output (v ∷ vs) = some (record {
  gate_status = gate_closed;
  state_status = hold;
  reasons = sorted (map denylisted_reason (v ∷ vs));
  input_event_type = run.input_event_type;
  engine_mode = run.engine_mode;
  regime_output = some output;
  hysteresis_state = none;
})

abbrev pub denylisted_of :
    StateGateConfig → AssembledRunInput → Option RegimeOutput → Option GateEvaluation
denylisted_of config run none = none
denylisted_of config run (some output) = hold_for run output (matched config output)

unfoldable pub maybe_denylisted : StateGateConfig → AssembledRunInput → Option GateEvaluation
maybe_denylisted config run = denylisted_of config run run.regime_output

abbrev pub transition_of :
    StateGateConfig → AssembledRunInput → Option HysteresisState → Option GateEvaluation
transition_of config run none = none
transition_of config run (some h) =
    if not config.block_during_transition
    then none
    else if not (ltb 0 h.progress_current)
    then none
    else some (record {
      gate_status = gate_closed;
      state_status = hold;
      reasons = "transition_active" ∷ [];
      input_event_type = run.input_event_type;
      engine_mode = run.engine_mode;
      regime_output = run.regime_output;
      hysteresis_state = some h;
    })

unfoldable pub maybe_transition_hold : StateGateConfig → AssembledRunInput → Option GateEvaluation
maybe_transition_hold config run = transition_of config run run.hysteresis_state

unfoldable pub open_gate : AssembledRunInput → GateEvaluation
open_gate run = record {
  gate_status = gate_open;
  state_status = ready;
  reasons = [];
  input_event_type = run.input_event_type;
  engine_mode = run.engine_mode;
  regime_output = run.regime_output;
  hysteresis_state = run.hysteresis_state;
}

-- `if e is not None: return e`.
abbrev pub or_else : Option GateEvaluation → GateEvaluation → GateEvaluation
or_else none next = next
or_else (some e) next = e

unfoldable pub evaluate : StateGateConfig → AssembledRunInput → GateEvaluation
evaluate config run = or_else (maybe_failure run) (
    or_else (maybe_denylisted config run)
      (or_else (maybe_transition_hold config run) (open_gate run)))
