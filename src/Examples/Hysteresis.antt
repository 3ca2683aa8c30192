-- ===== src/Examples/Hysteresis.antt =====
-- Two updates make the squeeze the anchor.
use xray_vision.Base.{◌≡◌, refl, none, some, [], ◌∷◌, arith, All, true, false}
use xray_vision.Base.Floats.{Float}
use xray_vision.RegimeEngine.Contracts.{chop_balanced, squeeze_up}
use xray_vision.RegimeEngine.Hysteresis.Rules.{
  belief, regime_order, better, top_loop, select_top_regime, select_candidate, evaluate_gate,
  gate_of, advance_hysteresis, HysteresisConfig,
}
use xray_vision.RegimeEngine.Hysteresis.Rules.Invariant.{StartsWellFormed, advance-StartsWellFormed}
use xray_vision.RegimeEngine.Hysteresis.Rules.Window.{
  advance_all, anchor_stays, oversized_progress_switches,
}
use xray_vision.RegimeEngine.Hysteresis.Rules.Top.{NotAbove, select_top_regime-max}
use xray_vision.Examples.Data.{
  by_bits, all_numbers, by_bits-IsOrdered, float, state_at, window_two, squeeze_at,
}

well_formed : StartsWellFormed (some (state_at 4 1)) window_two
well_formed = ground arith

advance-StartsWellFormed_example :
    StartsWellFormed
      (some (advance_hysteresis by_bits 50 (some (state_at 4 1)) (squeeze_at 5) window_two))
      window_two
advance-StartsWellFormed_example =
    advance-StartsWellFormed by_bits 50 (some (state_at 4 1)) (squeeze_at 5) window_two
      (omega arith) well_formed

abbrev window_four : HysteresisConfig
window_four = record window_two { window_updates = 4 }

anchor_stays_example :
    (advance_all by_bits window_four
      (state_at 4 1)
      ((50, squeeze_at 5) ∷ (60, squeeze_at 6) ∷ [])).anchor_regime
    ≡ chop_balanced
anchor_stays_example =
    anchor_stays by_bits window_four (state_at 4 1) ((50, squeeze_at 5) ∷ (60, squeeze_at 6) ∷ [])
      (omega arith)

-- The gate refuses below a threshold that no belief reaches.
abbrev strict : HysteresisConfig
strict = record window_two { enter_threshold = float 30 }

refused : (gate_of by_bits (some (state_at 4 3)) (squeeze_at 5) strict).eligible ≡ false
unfolding gate_of evaluate_gate select_candidate select_top_regime top_loop better regime_order
    belief
refused = refl

believed : by_bits.fle strict.commit_threshold (float 20) ≡ true
believed = refl

oversized_progress_switches_example :
    (advance_hysteresis by_bits 50 (some (state_at 4 3)) (squeeze_at 5) strict).anchor_regime
    ≡ squeeze_up
oversized_progress_switches_example =
    oversized_progress_switches by_bits 50 (state_at 4 3) (squeeze_at 5) strict squeeze_up
      (omega arith) refl (omega arith) refused (unfold belief in refl)

top_is_squeeze : select_top_regime by_bits ((squeeze_at 5).belief_by_regime) none ≡ some squeeze_up
unfolding select_top_regime top_loop better regime_order belief
top_is_squeeze = refl

select_top_regime-max_example :
    (v : Float) × (belief ((squeeze_at 5).belief_by_regime) squeeze_up ≡ some v)
    × All
        (NotAbove by_bits all_numbers by_bits-IsOrdered
          ((squeeze_at 5).belief_by_regime)
          (λ q w e. refl)
          v)
        (regime_order none)
select_top_regime-max_example =
    select_top_regime-max by_bits all_numbers by_bits-IsOrdered ((squeeze_at 5).belief_by_regime)
      (λ q w e. refl) none squeeze_up top_is_squeeze
