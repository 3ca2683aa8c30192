-- ===== src/RegimeEngine/Resolution/Outcome.antt =====
-- What src/regime_engine/resolution makes of a ranking without vetoes.
use xray_vision.Base.{
  ◌≡◌, refl, ap, Option, List, [], ◌∷◌, Bool, true, false, ◌||◌, keep, All, if◌then◌else◌, head?,
  is_some,
}
use mathlib.Core.List.{Perm}
use mathlib.Core.Option
use xray_vision.Base.Floats.{Float, FloatOps}
use xray_vision.RegimeEngine.Contracts.{Regime}
use xray_vision.RegimeEngine.Veto.{
  RegimeInputSnapshot, acceptance_is_high, oi_is_contracting, oi_is_flat, atr_is_expanding,
  atr_is_compressed, contracting_and_expanding, rule_acceptance_high_no_liquidation,
  rule_acceptance_high_no_chop, rule_oi_contracting_atr_expanding_no_trend_build_up,
  rule_oi_contracting_atr_expanding_no_trend_build_down,
  rule_oi_flat_atr_compressed_force_chop_balanced, apply_vetoes, is_missing,
}
use xray_vision.RegimeEngine.Resolution.{
  RegimeScore, rank_scores, second?, confidence_of, ResolutionResult, apply_weights, is_eligible,
  resolve_regime,
}
use xray_vision.RegimeEngine.Resolution.Ranking.{
  IsLinear, IsNumber, IsRanked, rank_scores-Perm, rank_scores-IsRanked,
}

same : (b : Bool) → (if b then false else false) ≡ false
same true = refl
same false = refl

pub no_vetoes : (s : RegimeInputSnapshot) → apply_vetoes s ≡ []
unfolding apply_vetoes rule_acceptance_high_no_liquidation rule_acceptance_high_no_chop
    rule_oi_contracting_atr_expanding_no_trend_build_up
    rule_oi_contracting_atr_expanding_no_trend_build_down
    rule_oi_flat_atr_compressed_force_chop_balanced contracting_and_expanding acceptance_is_high
    oi_is_contracting oi_is_flat atr_is_expanding atr_is_compressed
no_vetoes s =
    rw
      (
        same (is_missing s.market.acceptance_score),
        same (is_missing s.derivatives.oi_slope_short || is_missing s.derivatives.oi_slope_med),
      )
      refl

module _ (ops : FloatOps) (is_number : Float → Bool) (linear : IsLinear ops is_number) where
  keep-eligible : (xs : List RegimeScore) → keep (is_eligible ops []) xs ≡ xs
  unfolding is_eligible keep
  keep-eligible [] = refl
  keep-eligible (x ∷ xs) = ap (λ ys. x ∷ ys) (keep-eligible xs)

  -- A resolution without a veto: the ranking holds the given scores, and the rest stands on its first
  -- two places.
  abbrev pub IsResolution : List RegimeScore → ResolutionResult → Type 0
  IsResolution scores r =
      (r.vetoes ≡ [])
      × Perm r.ranked scores
      × IsRanked ops is_number linear r.ranked
      × (r.winner ≡ head? r.ranked)
      × (r.runner_up ≡ second? ops r.ranked)
      × (r.confidence_inputs.top_score ≡ Option.map (λ s. s.score) r.winner)
      × (r.confidence_inputs.runner_up_score ≡ Option.map (λ s. s.score) r.runner_up)
      × (is_some r.confidence_inputs.score_spread ≡ is_some r.runner_up)
      × (is_some r.confidence_inputs.contributor_overlap_count ≡ is_some r.runner_up)

  confidence_lem :
      (ranked : List RegimeScore)
      → ((confidence_of ops ranked).top_score ≡ Option.map (λ s. s.score) (head? ranked))
        × ((confidence_of ops ranked).runner_up_score
            ≡ Option.map (λ s. s.score) (second? ops ranked))
        × (is_some (confidence_of ops ranked).score_spread ≡ is_some (second? ops ranked))
        × (is_some (confidence_of ops ranked).contributor_overlap_count
            ≡ is_some (second? ops ranked))
  confidence_lem [] = (refl, refl, refl, refl)
  confidence_lem (w ∷ []) = (refl, refl, refl, refl)
  confidence_lem (w ∷ r ∷ rest) = (refl, refl, refl, refl)

  -- Where the weighted scores are numbers, resolve_regime vetoes nothing, and its ranking is a
  -- permutation of the weighted scores in which each comes before the later ones, by score and
  -- then by the order of the enum. The winner and the runner-up are its first two, and the inputs
  -- of the confidence hold their scores, with a spread and an overlap exactly where there is a
  -- runner-up.
  pub resolve_regime-IsResolution :
      (fmul : Float → Float → Float) (weights : Regime → Option Float)
      (candidates : List RegimeScore) (snapshot : RegimeInputSnapshot)
      → All (IsNumber ops is_number linear) (apply_weights ops fmul weights candidates)
      → IsResolution
          (apply_weights ops fmul weights candidates)
          (resolve_regime ops fmul weights candidates snapshot)
  unfolding resolve_regime
  resolve_regime-IsResolution fmul weights candidates snapshot ns =
      let weighted = apply_weights ops fmul weights candidates in
      let c = confidence_lem (rank_scores ops weighted) in
      rw (no_vetoes snapshot, keep-eligible weighted)
        (
          refl,
          rank_scores-Perm ops is_number linear weighted,
          rank_scores-IsRanked ops is_number linear weighted ns,
          refl,
          refl,
          c.0,
          c.1,
          c.2,
          c.3,
        )
