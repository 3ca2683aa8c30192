-- ===== src/RegimeEngine/Hysteresis/Rules.antt =====
-- src/regime_engine/hysteresis/rules.py (and `HysteresisConfig` of state.py, `RegimeState` of
-- state/state.py). The comparisons of floats are the parameter `ops`, the wall clock is `now_ms`.
-- The assignments of `advance_hysteresis` are split into the three steps that they form: the
-- candidate, the progress and the commit.
pub mod Invariant
pub mod Switch
pub mod Window
pub mod Top
use Prim.Native.String.{◌++◌ as str_append}
use xray_vision.Base.{
  ℕ, suc, ◌+◌, ◌-◌, min, String, Option, none, some, List, [], ◌∷◌, ◌++◌, map, Bool, true, false,
  not, ltb, leb, ◌==◌, if◌then◌else◌, get_or, is_some,
}
use xray_vision.Base.Dict.{Dict}
use xray_vision.Base.Floats.{Float, FloatOps, float_zero, float_point_six}
use xray_vision.RegimeEngine.Contracts.{Regime, value, all_regimes, regime_eq, HysteresisState}

abbrev pub Beliefs : Type 0
Beliefs = List (Regime × Float)

-- `belief_by_regime.get(regime)`.
unfoldable pub belief : Beliefs → Regime → Option Float
belief [] r = none
belief ((q, v) ∷ bs) r = if regime_eq q r then some v else belief bs r

pub record RegimeState : Type 0 where
  pub schema : String
  pub schema_version : String
  pub symbol : String
  pub engine_timestamp_ms : ℕ
  pub belief_by_regime : Beliefs
  pub anchor_regime : Regime

pub record HysteresisConfig : Type 0 where
  pub window_updates : ℕ
  pub enter_threshold : Float
  pub commit_threshold : Float
  pub min_lead_over_anchor : Option Float
  pub decay_step : ℕ
  pub allowed_regimes : Option (List Regime)

abbrev pub default_config : HysteresisConfig
default_config = record {
  window_updates = 3;
  enter_threshold = float_point_six;
  commit_threshold = float_point_six;
  min_lead_over_anchor = none;
  decay_step = 1;
  allowed_regimes = none;
}

pub record GateDecision : Type 0 where
  pub eligible : Bool
  pub reason_codes : List String

unfoldable pub regime_order : Option (List Regime) → List Regime
regime_order none = all_regimes
regime_order (some rs) = rs

abbrev pub option_regime_eq : Option Regime → Regime → Bool
option_regime_eq none r = false
option_regime_eq (some q) r = regime_eq q r

abbrev pub regime_of : Option (Regime × Float) → Option Regime
regime_of none = none
regime_of (some (r, v)) = some r

abbrev pub unless_anchor : Option Regime → Regime → Option Regime
unless_anchor none anchor = none
unless_anchor (some r) anchor = if regime_eq r anchor then none else some r

abbrev pub code_if : Bool → String → List String
code_if b code = if b then code ∷ [] else []

module _ (ops : FloatOps) where
  -- One round of the loop of `_select_top_regime`, over the best regime so far with its value.
  unfoldable pub better : Option (Regime × Float) → Regime → Option Float → Option (Regime × Float)
  better best r none = best
  better none r (some v) = some (r, v)
  better (some (q, w)) r (some v) = if ops.flt w v then some (r, v) else some (q, w)

  unfoldable pub top_loop :
      Beliefs → Option (Regime × Float) → List Regime → Option (Regime × Float)
  top_loop bs best [] = best
  top_loop bs best (r ∷ rs) = top_loop bs (better best r (belief bs r)) rs

  unfoldable pub select_top_regime : Beliefs → Option (List Regime) → Option Regime
  select_top_regime bs allowed = regime_of (top_loop bs none (regime_order allowed))

  unfoldable pub select_candidate : Beliefs → Regime → Option (List Regime) → Option Regime
  select_candidate bs anchor allowed = unless_anchor (select_top_regime bs allowed) anchor

  -- `config.min_lead_over_anchor is not None and lead < config.min_lead_over_anchor`.
  abbrev pub lead_fails : Float → Option Float → Bool
  lead_fails lead none = false
  lead_fails lead (some m) = ops.flt lead m

  unfoldable pub evaluate_gate : Beliefs → Regime → Option Regime → HysteresisConfig → GateDecision
  evaluate_gate bs anchor none config = record { eligible = false; reason_codes = [] }
  evaluate_gate bs anchor (some candidate) config =
      let b_anchor = get_or (belief bs anchor) float_zero in
      let b_candidate = get_or (belief bs candidate) float_zero in
      let below = ops.flt b_candidate config.enter_threshold in
      let short = lead_fails (ops.fsub b_candidate b_anchor) config.min_lead_over_anchor in
      record {
        eligible = if below then false else not short;
        reason_codes =
            code_if below "GATE_FAIL_ENTER_THRESHOLD" ++ code_if short "GATE_FAIL_MIN_LEAD";
      }

-- What is known of the state before: the anchor, the candidate and its progress.
abbrev pub anchor_before : Option HysteresisState → RegimeState → Regime
anchor_before none s = s.anchor_regime
anchor_before (some p) s = p.anchor_regime

abbrev pub candidate_before : Option HysteresisState → Option Regime
candidate_before none = none
candidate_before (some p) = p.candidate_regime

abbrev pub progress_before : Option HysteresisState → ℕ
progress_before none = 0
progress_before (some p) = p.progress_current

abbrev pub last_commit_before : Option HysteresisState → Option ℕ
last_commit_before none = none
last_commit_before (some p) = p.last_commit_timestamp_ms

-- The reason that goes with the candidate.
unfoldable pub candidate_reason : Option Regime → Regime → String
candidate_reason none anchor = "CANDIDATE_NONE"
candidate_reason (some r) anchor =
    if regime_eq r anchor
    then "CANDIDATE_SAME_AS_ANCHOR"
    else str_append "CANDIDATE_SELECTED:" (value r)

pub record Progress : Type 0 where
  pub candidate : Option Regime
  pub progress : ℕ
  pub reason : String

unfoldable pub decayed : Option Regime → ℕ → ℕ → Progress
decayed prev_candidate prev_progress decay_step =
    let left = prev_progress - decay_step in
    if ltb 0 prev_progress
    then record {
      candidate = if left == 0 then none else prev_candidate;
      progress = left;
      reason = "PROGRESS_DECAY";
    }
    else record { candidate = none; progress = 0; reason = "PROGRESS_RESET" }

unfoldable pub confirmed : Option Regime → ℕ → ℕ → Regime → Progress
confirmed prev_candidate prev_progress required r =
    if option_regime_eq prev_candidate r
    then record {
      candidate = prev_candidate;
      progress = min (prev_progress + 1) required;
      reason = "PROGRESS_INC";
    }
    else record { candidate = some r; progress = 1; reason = "PROGRESS_RESET" }

unfoldable pub progress_step : Bool → Option Regime → Option Regime → ℕ → ℕ → ℕ → Progress
progress_step true (some r) prev_candidate prev_progress required decay_step =
    confirmed prev_candidate prev_progress required r
progress_step eligible candidate prev_candidate prev_progress required decay_step =
    decayed prev_candidate prev_progress decay_step

pub record Commit : Type 0 where
  pub anchor : Regime
  pub candidate : Option Regime
  pub progress : ℕ
  pub last_commit : Option ℕ
  pub reasons : List String

abbrev pub uncommitted : Regime → Progress → Option ℕ → List String → Commit
uncommitted anchor p last_commit reasons = record {
  anchor = anchor;
  candidate = p.candidate;
  progress = p.progress;
  last_commit = last_commit;
  reasons = reasons;
}

module _ (ops : FloatOps) where
  unfoldable pub commit_candidate :
      Beliefs → HysteresisConfig → ℕ → Regime → Progress → Option ℕ → Option Regime → Commit
  commit_candidate bs config now_ms anchor p last_commit none = uncommitted anchor p last_commit []
  commit_candidate bs config now_ms anchor p last_commit (some c) =
      if ltb p.progress config.window_updates
      then uncommitted anchor p last_commit []
      else if ops.fle config.commit_threshold (get_or (belief bs c) float_zero)
      then record {
        anchor = c;
        candidate = none;
        progress = 0;
        last_commit = some now_ms;
        reasons =
            str_append "COMMIT_SWITCH:" (str_append (value anchor) (str_append "->" (value c)))
            ∷ [];
      }
      else uncommitted anchor p last_commit ("COMMIT_BLOCKED_THRESHOLD" ∷ [])

  unfoldable pub commit_step :
      Beliefs → HysteresisConfig → ℕ → Regime → Progress → Option ℕ → Commit
  commit_step bs config now_ms anchor p last_commit =
      commit_candidate bs config now_ms anchor p last_commit p.candidate

  -- The candidate, the gate and the progress of one update.
  unfoldable pub gate_of : Option HysteresisState → RegimeState → HysteresisConfig → GateDecision
  gate_of prev s config =
      let anchor = anchor_before prev s in
      evaluate_gate ops s.belief_by_regime anchor
        (select_candidate ops s.belief_by_regime anchor config.allowed_regimes) config

  unfoldable pub progress_of : Option HysteresisState → RegimeState → HysteresisConfig → Progress
  progress_of prev s config =
      progress_step (gate_of prev s config).eligible
        (select_candidate ops s.belief_by_regime (anchor_before prev s) config.allowed_regimes)
        (candidate_before prev) (progress_before prev) config.window_updates config.decay_step

  unfoldable pub commit_of : ℕ → Option HysteresisState → RegimeState → HysteresisConfig → Commit
  commit_of now_ms prev s config =
      commit_step s.belief_by_regime config now_ms (anchor_before prev s)
        (progress_of prev s config) (last_commit_before prev)

  unfoldable pub advance_hysteresis :
      ℕ → Option HysteresisState → RegimeState → HysteresisConfig → HysteresisState
  advance_hysteresis now_ms prev s config =
      let c = commit_of now_ms prev s config in
      record {
        schema = "hysteresis_state";
        schema_version = "1";
        symbol = s.symbol;
        engine_timestamp_ms = s.engine_timestamp_ms;
        anchor_regime = c.anchor;
        candidate_regime = c.candidate;
        progress_current = min c.progress config.window_updates;
        progress_required = config.window_updates;
        last_commit_timestamp_ms = c.last_commit;
        reason_codes =
            candidate_reason (select_top_regime ops s.belief_by_regime config.allowed_regimes)
                (anchor_before prev s)
              ∷ (gate_of prev s config).reason_codes
            ++ ((progress_of prev s config).reason ∷ c.reasons);
        debug = some (map (λ e. (value e.0, e.1)) s.belief_by_regime);
      }
