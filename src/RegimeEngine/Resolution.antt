-- ===== src/RegimeEngine/Resolution.antt =====
-- src/regime_engine/resolution, with the weights of scoring/weighted.py. The operations on doubles are
-- parameters. A score is negated in the key of the order, so a key is less where the score is greater.
-- Python's sort is the stable insertion sort where the scores are numbers.
pub mod Ranking
pub mod Outcome
use xray_vision.Base.{
  ℕ, String, Option, none, some, List, [], ◌∷◌, map, Bool, true, false, not, ◌&&◌, contains, keep,
  to_set, length, ltb, if◌then◌else◌, get_or, head?,
}
use xray_vision.Base.Floats.{Float, FloatOps}
use xray_vision.RegimeEngine.Contracts.{Regime, regime_eq, index}
use xray_vision.RegimeEngine.Veto.{RegimeInputSnapshot, VetoResult, apply_vetoes}

pub record RegimeScore : Type 0 where
  pub regime : Regime
  pub score : Float
  pub contributors : List String

pub record ConfidenceInputs : Type 0 where
  pub top_score : Option Float
  pub runner_up_score : Option Float
  pub score_spread : Option Float
  pub contributor_overlap_count : Option ℕ

pub record ResolutionResult : Type 0 where
  pub winner : Option RegimeScore
  pub runner_up : Option RegimeScore
  pub ranked : List RegimeScore
  pub vetoes : List VetoResult
  pub confidence_inputs : ConfidenceInputs

abbrev pub float_one : Float
float_one = record { bits = 0x3FF0000000000000 }

module _ (ops : FloatOps) where
  -- `a < b` on the keys `(-score, order)`.
  unfoldable pub key_lt : RegimeScore → RegimeScore → Bool
  key_lt a b =
      if ops.fle a.score b.score && ops.fle b.score a.score
      then ltb (index a.regime) (index b.regime)
      else ops.flt b.score a.score

  unfoldable pub insert_score : RegimeScore → List RegimeScore → List RegimeScore
  insert_score x [] = x ∷ []
  insert_score x (y ∷ ys) =
      let rest = insert_score x ys in if key_lt y x then y ∷ rest else x ∷ y ∷ ys

  unfoldable pub rank_scores : List RegimeScore → List RegimeScore
  rank_scores [] = []
  rank_scores (x ∷ xs) = insert_score x (rank_scores xs)

  unfoldable pub apply_weights :
      (Float → Float → Float) → (Regime → Option Float) → List RegimeScore → List RegimeScore
  apply_weights fmul weights scores =
      map {A = RegimeScore} {B = RegimeScore}
        (λ s. record {
          regime = s.regime;
          score = fmul s.score (get_or (weights s.regime) float_one);
          contributors = s.contributors;
        })
        scores

  -- `score.regime not in vetoed_regimes`.
  unfoldable pub is_eligible : List VetoResult → RegimeScore → Bool
  is_eligible [] s = true
  is_eligible (v ∷ vs) s = not (v.vetoed && regime_eq v.regime s.regime) && is_eligible vs s

  unfoldable pub overlap : RegimeScore → RegimeScore → ℕ
  overlap a b = length (keep (λ c. contains c b.contributors) (to_set a.contributors))

  abbrev pub confidence_of : List RegimeScore → ConfidenceInputs
  confidence_of [] = record {
    top_score = none;
    runner_up_score = none;
    score_spread = none;
    contributor_overlap_count = none;
  }
  confidence_of (w ∷ []) = record {
    top_score = some w.score;
    runner_up_score = none;
    score_spread = none;
    contributor_overlap_count = none;
  }
  confidence_of (w ∷ r ∷ rest) = record {
    top_score = some w.score;
    runner_up_score = some r.score;
    score_spread = some (ops.fsub w.score r.score);
    contributor_overlap_count = some (overlap w r);
  }

  abbrev pub second? : List RegimeScore → Option RegimeScore
  second? [] = none
  second? (x ∷ xs) = head? xs

  unfoldable pub resolve_regime :
      (Float → Float → Float)
      → (Regime → Option Float)
      → List RegimeScore
      → RegimeInputSnapshot
      → ResolutionResult
  resolve_regime fmul weights candidates snapshot =
      let vetoes = apply_vetoes snapshot in
      let ranked =
        rank_scores (keep (is_eligible vetoes) (apply_weights fmul weights candidates)) in
      record {
        winner = head? ranked;
        runner_up = second? ranked;
        ranked = ranked;
        vetoes = vetoes;
        confidence_inputs = confidence_of ranked;
      }
