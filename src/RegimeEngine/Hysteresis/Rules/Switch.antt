-- ===== src/RegimeEngine/Hysteresis/Rules/Switch.antt =====
-- The commits of src/regime_engine/hysteresis/rules.py.
use xray_vision.Base.{ℕ, ◌+◌, ◌≤◌, ◌≡◌, ◌⊎◌, Option, none, some, true, get_or}
use xray_vision.Base.Floats.{FloatOps, float_zero}
use xray_vision.RegimeEngine.Contracts.{HysteresisState}
use xray_vision.RegimeEngine.Hysteresis.Rules.{
  RegimeState, HysteresisConfig, belief, select_candidate, gate_of, anchor_before, candidate_before,
  progress_before,
}

-- The update names the new anchor as its candidate, the gate lets it through, and its belief reaches
-- the commit threshold.
pub record IsSwitchTo (ops : FloatOps) (prev : Option HysteresisState) (s : RegimeState)
    (config : HysteresisConfig) (now : ℕ) (h : HysteresisState) : Type 0 where
  pub selected :
      select_candidate ops s.belief_by_regime (anchor_before prev s) config.allowed_regimes
      ≡ some h.anchor_regime
  pub eligible : (gate_of ops prev s config).eligible ≡ true
  pub believed :
      ops.fle config.commit_threshold
        (get_or (belief s.belief_by_regime h.anchor_regime) float_zero)
      ≡ true
  pub full : config.window_updates ≤ progress_before prev + 1
  pub repeated : (config.window_updates ≤ 1) ⊎ (candidate_before prev ≡ some h.anchor_regime)
  pub reset : (h.candidate_regime ≡ none) × (h.progress_current ≡ 0)
  pub stamped : h.last_commit_timestamp_ms ≡ some now
