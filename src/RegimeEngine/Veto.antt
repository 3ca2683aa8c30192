-- ===== src/RegimeEngine/Veto.antt =====
-- src/regime_engine/veto: the rules that take regimes out of a resolution. A field that is MISSING is
-- none; of a snapshot the fields stand here that the rules read.
use xray_vision.Base.{
  String, Option, none, some, List, [], ◌∷◌, ◌++◌, map, Bool, true, false, not, ◌&&◌, ◌||◌, keep,
  if◌then◌else◌,
}
use xray_vision.Base.Floats.{Float}
use xray_vision.RegimeEngine.Contracts.{
  Regime, chop_balanced, chop_stophunt, liquidation_up, liquidation_down, trend_build_up,
  trend_build_down, regime_eq, all_regimes,
}

pub record MarketSnapshot : Type 0 where
  pub atr_z : Option Float
  pub range_expansion : Option Float
  pub acceptance_score : Option Float

pub record DerivativesSnapshot : Type 0 where
  pub oi_slope_short : Option Float
  pub oi_slope_med : Option Float

pub record RegimeInputSnapshot : Type 0 where
  pub market : MarketSnapshot
  pub derivatives : DerivativesSnapshot

pub record VetoResult : Type 0 where
  pub regime : Regime
  pub vetoed : Bool
  pub reasons : List String

abbrev pub is_missing : Option Float → Bool
is_missing none = true
is_missing (some v) = false

unfoldable pub acceptance_is_high : Option Float → Bool
acceptance_is_high v = if is_missing v then false else false

unfoldable pub oi_is_contracting : Option Float → Option Float → Bool
oi_is_contracting short med = if is_missing short || is_missing med then false else false

unfoldable pub oi_is_flat : Option Float → Option Float → Bool
oi_is_flat short med = if is_missing short || is_missing med then false else false

unfoldable pub atr_is_expanding : Option Float → Option Float → Bool
atr_is_expanding z expansion = if is_missing z || is_missing expansion then false else false

unfoldable pub atr_is_compressed : Option Float → Option Float → Bool
atr_is_compressed z expansion = if is_missing z || is_missing expansion then false else false

abbrev pub veto : String → Regime → VetoResult
veto reason r = record { regime = r; vetoed = true; reasons = reason ∷ [] }

unfoldable pub rule_acceptance_high_no_liquidation : RegimeInputSnapshot → List VetoResult
rule_acceptance_high_no_liquidation s =
    if not (acceptance_is_high s.market.acceptance_score)
    then []
    else map (veto "acceptance_high_veto_liquidation") (liquidation_up ∷ liquidation_down ∷ [])

unfoldable pub rule_acceptance_high_no_chop : RegimeInputSnapshot → List VetoResult
rule_acceptance_high_no_chop s =
    if not (acceptance_is_high s.market.acceptance_score)
    then []
    else map (veto "acceptance_high_veto_chop") (chop_balanced ∷ chop_stophunt ∷ [])

unfoldable pub contracting_and_expanding : RegimeInputSnapshot → Bool
contracting_and_expanding s =
    oi_is_contracting s.derivatives.oi_slope_short s.derivatives.oi_slope_med
    && atr_is_expanding s.market.atr_z s.market.range_expansion

unfoldable pub rule_oi_contracting_atr_expanding_no_trend_build_up :
    RegimeInputSnapshot → List VetoResult
rule_oi_contracting_atr_expanding_no_trend_build_up s =
    if not (contracting_and_expanding s)
    then []
    else veto "oi_contracting_atr_expanding_veto_trend_build" trend_build_up ∷ []

unfoldable pub rule_oi_contracting_atr_expanding_no_trend_build_down :
    RegimeInputSnapshot → List VetoResult
rule_oi_contracting_atr_expanding_no_trend_build_down s =
    if not (contracting_and_expanding s)
    then []
    else veto "oi_contracting_atr_expanding_veto_trend_build" trend_build_down ∷ []

unfoldable pub rule_oi_flat_atr_compressed_force_chop_balanced :
    RegimeInputSnapshot → List VetoResult
rule_oi_flat_atr_compressed_force_chop_balanced s =
    if not (
      oi_is_flat s.derivatives.oi_slope_short s.derivatives.oi_slope_med
      && atr_is_compressed s.market.atr_z s.market.range_expansion)
    then []
    else map (veto "oi_flat_atr_compressed_force_chop_balanced")
        (keep (λ r. not (regime_eq r chop_balanced)) all_regimes)

-- The rules in the order of the registry.
unfoldable pub apply_vetoes : RegimeInputSnapshot → List VetoResult
apply_vetoes s =
    rule_acceptance_high_no_liquidation s
    ++ rule_acceptance_high_no_chop s
    ++ rule_oi_contracting_atr_expanding_no_trend_build_up s
    ++ rule_oi_contracting_atr_expanding_no_trend_build_down s
    ++ rule_oi_flat_atr_compressed_force_chop_balanced s
