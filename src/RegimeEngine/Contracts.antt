-- ===== src/RegimeEngine/Contracts.antt =====
-- src/regime_engine/contracts (regimes.py, outputs.py) and hysteresis/state.py: the data that the
-- other parts pass along.
use mathlib.Core.Logic.{◌↔◌}
use xray_vision.Base.{
  ℕ, zero, suc, refl, sym, ap, ◌∙◌, arith, ◌==◌, String, Option, List, [], ◌∷◌, Bool, true, ◌≡◌,
}
use xray_vision.Base.Dict.{Dict}
use xray_vision.Base.Floats.{Float}

pub data Regime : Type 0 where
  chop_balanced chop_stophunt liquidation_up liquidation_down squeeze_up : Regime
  squeeze_down trend_build_up trend_build_down trend_exhaustion : Regime

-- The place in the enum.
abbrev pub index : Regime → ℕ
index chop_balanced = 0
index chop_stophunt = 1
index liquidation_up = 2
index liquidation_down = 3
index squeeze_up = 4
index squeeze_down = 5
index trend_build_up = 6
index trend_build_down = 7
index trend_exhaustion = 8

-- `==` on the members of the enum.
abbrev pub regime_eq : Regime → Regime → Bool
regime_eq a b = index a == index b

unfoldable pub of_index : ℕ → Regime
of_index zero = chop_balanced
of_index (suc zero) = chop_stophunt
of_index (suc (suc zero)) = liquidation_up
of_index (suc (suc (suc zero))) = liquidation_down
of_index (suc (suc (suc (suc zero)))) = squeeze_up
of_index (suc (suc (suc (suc (suc zero))))) = squeeze_down
of_index (suc (suc (suc (suc (suc (suc zero)))))) = trend_build_up
of_index (suc (suc (suc (suc (suc (suc (suc zero))))))) = trend_build_down
of_index (suc (suc (suc (suc (suc (suc (suc (suc n)))))))) = trend_exhaustion

pub of_index-index : (r : Regime) → of_index (index r) ≡ r
unfolding of_index
of_index-index chop_balanced = refl
of_index-index _ = refl

pub regime_eq_iff : (a b : Regime) → (regime_eq a b ≡ true) ↔ (a ≡ b)
regime_eq_iff a b = (
  (λ h.
      let same : index a ≡ index b = ground arith in
      sym (of_index-index a) ∙ ap of_index same ∙ of_index-index b),
  λ e. rw e (ground arith),
)

-- `regime.value`.
abbrev pub value : Regime → String
value chop_balanced = "CHOP_BALANCED"
value chop_stophunt = "CHOP_STOPHUNT"
value liquidation_up = "LIQUIDATION_UP"
value liquidation_down = "LIQUIDATION_DOWN"
value squeeze_up = "SQUEEZE_UP"
value squeeze_down = "SQUEEZE_DOWN"
value trend_build_up = "TREND_BUILD_UP"
value trend_build_down = "TREND_BUILD_DOWN"
value trend_exhaustion = "TREND_EXHAUSTION"

-- `tuple(Regime)`.
abbrev pub all_regimes : List Regime
all_regimes =
    chop_balanced ∷ chop_stophunt ∷ liquidation_up ∷ liquidation_down ∷ squeeze_up ∷ squeeze_down
    ∷ trend_build_up ∷ trend_build_down ∷ trend_exhaustion ∷ []

pub record RegimeOutput : Type 0 where
  pub symbol : String
  pub timestamp : ℕ
  pub regime : Regime
  pub confidence : Float
  pub drivers : List String
  pub invalidations : List String
  pub permissions : List String

-- `debug` holds the belief by regime value, under its one key.
pub record HysteresisState : Type 0 where
  pub schema : String
  pub schema_version : String
  pub symbol : String
  pub engine_timestamp_ms : ℕ
  pub anchor_regime : Regime
  pub candidate_regime : Option Regime
  pub progress_current : ℕ
  pub progress_required : ℕ
  pub last_commit_timestamp_ms : Option ℕ
  pub reason_codes : List String
  pub debug : Option (Dict Float)
