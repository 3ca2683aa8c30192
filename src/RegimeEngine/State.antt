-- ===== src/RegimeEngine/State.antt =====
-- src/regime_engine/state: evidence.py, update.py, invariants.py and state.py. The operations on doubles are parameters, and the sum of the
-- beliefs is taken in the order of the mapping.
pub mod Classical
use xray_vision.Base.{
  ℕ, zero, String, Option, none, some, List, [], ◌∷◌, map, Bool, true, false, not, ◌&&◌, ltb,
  if◌then◌else◌, get_or, head?, str_eq,
}
use xray_vision.Base.Floats.{Float, FloatOps, float_zero}
use xray_vision.Base.{Result, ok, err, ◌>>=◌, ◌>>◌, raise_if}
use xray_vision.Base.Sorting.{sorted_with, insert_with}
use xray_vision.RegimeEngine.Contracts.{Regime, chop_balanced, regime_eq, index, all_regimes}
use xray_vision.RegimeEngine.Resolution.{ResolutionResult, RegimeScore, float_one}

pub record EvidenceOpinion : Type 0 where
  pub regime : Regime
  pub strength : Float
  pub confidence : Float
  pub source : String

pub record EvidenceSnapshot : Type 0 where
  pub symbol : String
  pub engine_timestamp_ms : ℕ
  pub opinions : List EvidenceOpinion

pub record RegimeState : Type 0 where
  pub schema : String
  pub schema_version : String
  pub symbol : String
  pub engine_timestamp_ms : ℕ
  pub belief_by_regime : List (Regime × Float)
  pub anchor_regime : Regime

pub data StateError : Type 0 where
  symbol_mismatch no_beliefs anchor_missing not_finite out_of_range bad_sum no_regime : StateError

-- `a + b`, `abs(a)` and `math.isfinite(a)`, and the literal 1e-9.
pub record SumOps : Type 0 where
  pub fadd : Float → Float → Float
  pub fabs : Float → Float
  pub is_finite : Float → Bool

abbrev pub belief_tolerance : Float
belief_tolerance = record { bits = 0x3E112E0BE826D695 }

abbrev pub opinion_of : RegimeScore → Option Float → EvidenceOpinion
opinion_of winner confidence = record {
  regime = winner.regime;
  strength = float_one;
  confidence = get_or confidence float_zero;
  source = "classical_resolution_v1";
}

abbrev pub winner_opinions : Option RegimeScore → Option Float → List EvidenceOpinion
winner_opinions none confidence = []
winner_opinions (some winner) confidence = opinion_of winner confidence ∷ []

unfoldable pub build_classical_evidence :
    ResolutionResult → Option Float → String → ℕ → EvidenceSnapshot
build_classical_evidence resolution confidence symbol engine_timestamp_ms = record {
  symbol = symbol;
  engine_timestamp_ms = engine_timestamp_ms;
  opinions = winner_opinions resolution.winner confidence;
}

abbrev pub has_regime : Regime → List (Regime × Float) → Bool
has_regime r [] = false
has_regime r (b ∷ bs) = if regime_eq b.0 r then true else has_regime r bs

module _ (ops : FloatOps) (sums : SumOps) where
  -- `a == b` of two doubles.
  abbrev pub feq : Float → Float → Bool
  feq a b = ops.fle a b && ops.fle b a

  -- `a < b` on the keys `(-strength, -confidence, index)`.
  abbrev pub opinion_lt : EvidenceOpinion → EvidenceOpinion → Bool
  opinion_lt a b =
      if feq a.strength b.strength
      then (if feq a.confidence b.confidence
          then ltb (index a.regime) (index b.regime)
          else ops.flt b.confidence a.confidence)
      else ops.flt b.strength a.strength

  unfoldable pub select_opinion : List EvidenceOpinion → Option EvidenceOpinion
  select_opinion opinions = head? (sorted_with opinion_lt opinions)

  -- The loop over the beliefs, with the sum so far.
  unfoldable pub total_of : Float → List (Regime × Float) → Result StateError Float
  total_of total [] = ok total
  total_of total (b ∷ bs) =
      let rest = total_of (sums.fadd total b.1) bs in
      raise_if (not (sums.is_finite b.1)) not_finite
      >> raise_if (not (ops.fle float_zero b.1 && ops.fle b.1 float_one)) out_of_range
      >> rest

  unfoldable pub assert_belief_invariants : RegimeState → Result StateError Unit
  assert_belief_invariants s =
      (elim s.belief_by_regime [ [] ↦ err no_beliefs | b ∷ bs ↦ ok tt ])
      >> raise_if (not (has_regime s.anchor_regime s.belief_by_regime)) anchor_missing
      >> (total_of float_zero s.belief_by_regime >>= λ total.
          raise_if (not (ops.fle (sums.fabs (ops.fsub total float_one)) belief_tolerance)) bad_sum)

  abbrev pub checked : RegimeState → Result StateError RegimeState
  checked s = assert_belief_invariants s >> ok s

  -- `1.0 if regime == selected.regime else 0.0`.
  abbrev pub one_hot : Regime → List (Regime × Float)
  one_hot r = map (λ q. (q, if regime_eq q r then float_one else float_zero)) all_regimes

  abbrev pub with_selected : Option EvidenceOpinion → RegimeState → EvidenceSnapshot → RegimeState
  with_selected none s e = record {
    schema = "regime_state";
    schema_version = "1";
    symbol = s.symbol;
    engine_timestamp_ms = e.engine_timestamp_ms;
    belief_by_regime = s.belief_by_regime;
    anchor_regime = s.anchor_regime;
  }
  with_selected (some o) s e = record {
    schema = "regime_state";
    schema_version = "1";
    symbol = s.symbol;
    engine_timestamp_ms = e.engine_timestamp_ms;
    belief_by_regime = one_hot o.regime;
    anchor_regime = o.regime;
  }

  unfoldable pub update_belief : RegimeState → EvidenceSnapshot → Result StateError RegimeState
  update_belief s e =
      raise_if (not (str_eq s.symbol e.symbol)) symbol_mismatch
      >> checked (with_selected (select_opinion e.opinions) s e)

  -- `a < b` on the keys `(-value, index)`.
  abbrev pub belief_lt : Regime × Float → Regime × Float → Bool
  belief_lt a b = if feq a.1 b.1 then ltb (index a.0) (index b.0) else ops.flt b.1 a.1

  abbrev pub first_regime : List (Regime × Float) → Result StateError Regime
  first_regime [] = err no_regime
  first_regime (b ∷ bs) = ok b.0

  unfoldable pub project_regime : RegimeState → Result StateError Regime
  project_regime s = first_regime (sorted_with belief_lt s.belief_by_regime)
