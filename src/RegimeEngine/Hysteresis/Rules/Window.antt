-- ===== src/RegimeEngine/Hysteresis/Rules/Window.antt =====
-- Progress and window in src/regime_engine/hysteresis/rules.py.
use xray_vision.Base.{
  ℕ, ◌+◌, ◌-◌, ◌≤◌, ◌<◌, ◌≡◌, refl, Option, none, some, List, [], ◌∷◌, Bool, true, false, arith,
  get_or, length, ◌∙◌,
}
use xray_vision.Base.Floats.{FloatOps, float_zero}
use xray_vision.RegimeEngine.Contracts.{Regime, HysteresisState}
use xray_vision.RegimeEngine.Hysteresis.Rules.{
  Beliefs, RegimeState, HysteresisConfig, Progress, belief, select_candidate, decayed, confirmed,
  progress_step, commit_candidate, commit_step, gate_of, progress_of, commit_of, advance_hysteresis,
}

-- The updates of one symbol, each with its time, one after the other.
unfoldable pub advance_all :
    FloatOps → HysteresisConfig → HysteresisState → List (ℕ × RegimeState) → HysteresisState
advance_all ops config h [] = h
advance_all ops config h ((now, s) ∷ us) =
    advance_all ops config (advance_hysteresis ops now (some h) s config) us

progress_step-le :
    (eligible : Bool) (found c : Option Regime) (p window decay : ℕ)
    → (progress_step eligible found c p window decay).progress ≤ p + 1
unfolding progress_step confirmed decayed
progress_step-le true (some r) c p window decay = ground arith
progress_step-le true none c p window decay = ground arith
progress_step-le false found c p window decay = ground arith

commit_candidate-progress-le :
    (ops : FloatOps) (bs : Beliefs) (config : HysteresisConfig) (now : ℕ) (anchor : Regime)
    (p : Progress) (last : Option ℕ) (c : Option Regime)
    → (commit_candidate ops bs config now anchor p last c).progress ≤ p.progress
unfolding commit_candidate
commit_candidate-progress-le ops bs config now anchor p last none = omega arith
commit_candidate-progress-le ops bs config now anchor p last (some r) = ground arith

commit_candidate-anchor :
    (ops : FloatOps) (bs : Beliefs) (config : HysteresisConfig) (now : ℕ) (anchor : Regime)
    (p : Progress) (last : Option ℕ) (c : Option Regime)
    → p.progress < config.window_updates
    → (commit_candidate ops bs config now anchor p last c).anchor ≡ anchor
unfolding commit_candidate
commit_candidate-anchor ops bs config now anchor p last none h = refl
commit_candidate-anchor ops bs config now anchor p last (some r) h = ground arith

advance-step :
    (ops : FloatOps) (config : HysteresisConfig) (h : HysteresisState) (now : ℕ) (s : RegimeState)
    → h.progress_current + 1 < config.window_updates
    → let h' = advance_hysteresis ops now (some h) s config in
      (h'.anchor_regime ≡ h.anchor_regime) × (h'.progress_current ≤ h.progress_current + 1)
unfolding advance_hysteresis commit_of commit_step progress_of
advance-step ops config h now s lt =
    let p = progress_of ops (some h) s config in
    let found = select_candidate ops s.belief_by_regime h.anchor_regime config.allowed_regimes in
    let le =
      progress_step-le (gate_of ops (some h) s config).eligible found h.candidate_regime
        h.progress_current config.window_updates config.decay_step in
    let cl =
      commit_candidate-progress-le ops s.belief_by_regime config now h.anchor_regime p
        h.last_commit_timestamp_ms p.candidate in
    (
      commit_candidate-anchor ops s.belief_by_regime config now h.anchor_regime p
          h.last_commit_timestamp_ms p.candidate (omega (arith, le)),
      omega (arith, le, cl),
    )

-- As long as the updates are too few to fill the window from the progress that there is, the
-- anchor stays, whatever the beliefs are.
pub anchor_stays :
    (ops : FloatOps) (config : HysteresisConfig) (h : HysteresisState) (us : List (ℕ × RegimeState))
    → h.progress_current + length us < config.window_updates
    → (advance_all ops config h us).anchor_regime ≡ h.anchor_regime
unfolding advance_all
anchor_stays ops config h [] lt = refl
anchor_stays ops config h ((now, s) ∷ us) lt =
    let st = advance-step ops config h now s (omega arith) in
    anchor_stays ops config (advance_hysteresis ops now (some h) s config) us (omega (arith, st.1))
    ∙ st.0

decayed-keeps :
    (c : Regime) (p window decay : ℕ)
    → 0 < window
    → window + decay ≤ p
    → decayed (some c) p decay
      ≡ record { candidate = some c; progress = p - decay; reason = "PROGRESS_DECAY" }
unfolding decayed
decayed-keeps c p window decay w h = ground arith

commit_candidate-full :
    (ops : FloatOps) (bs : Beliefs) (config : HysteresisConfig) (now : ℕ) (anchor : Regime)
    (p : Progress) (last : Option ℕ) (c : Regime)
    → config.window_updates ≤ p.progress
    → ops.fle config.commit_threshold (get_or (belief bs c) float_zero) ≡ true
    → (commit_candidate ops bs config now anchor p last (some c)).anchor ≡ c
unfolding commit_candidate
commit_candidate-full ops bs config now anchor p last c h b = ground arith

-- A state whose progress exceeds a positive window by the decay, as a restored one can after the
-- window was made smaller, switches to its candidate although the gate refuses this update: it is
-- enough that the belief in the candidate reaches the commit threshold.
pub oversized_progress_switches :
    (ops : FloatOps) (now : ℕ) (h : HysteresisState) (s : RegimeState) (config : HysteresisConfig)
    (c : Regime)
    → 0 < config.window_updates
    → h.candidate_regime ≡ some c
    → config.window_updates + config.decay_step ≤ h.progress_current
    → (gate_of ops (some h) s config).eligible ≡ false
    → ops.fle config.commit_threshold (get_or (belief s.belief_by_regime c) float_zero) ≡ true
    → (advance_hysteresis ops now (some h) s config).anchor_regime ≡ c
unfolding advance_hysteresis commit_of commit_step progress_of progress_step
oversized_progress_switches ops now h s config c w e le g b =
    let k = decayed-keeps c h.progress_current config.window_updates config.decay_step w le in
    rw (g, progress_of, e, k)
      (commit_candidate-full ops s.belief_by_regime config now h.anchor_regime
        (record {
          candidate = some c;
          progress = h.progress_current - config.decay_step;
          reason = "PROGRESS_DECAY";
        })
        h.last_commit_timestamp_ms c (omega arith) b)
