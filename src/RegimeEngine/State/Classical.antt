-- ===== src/RegimeEngine/State/Classical.antt =====
-- The evidence of the classical resolution and the state that src/regime_engine/state makes of it.
use xray_vision.Base.{◌≡◌, refl, ℕ, Option, some, true, false, str_refl}
use xray_vision.Base.Floats.{Float, FloatOps, float_zero}
use xray_vision.Base.{ok, ◌>>=◌}
use xray_vision.Base.Sorting.{sorted_with, insert_with}
use xray_vision.RegimeEngine.Contracts.{Regime, chop_balanced}
use xray_vision.RegimeEngine.Resolution.{ResolutionResult, RegimeScore, float_one}
use xray_vision.RegimeEngine.State.{
  EvidenceOpinion, EvidenceSnapshot, RegimeState, SumOps, build_classical_evidence, select_opinion,
  total_of, assert_belief_invariants, update_belief, project_regime, one_hot, belief_tolerance,
  first_regime, belief_lt, has_regime, with_selected, opinion_of,
}

-- What IEEE 754 says of 0.0 and 1.0.
pub record IsUnit (ops : FloatOps) (sums : SumOps) : Type 0 where
  pub lt : ops.flt float_zero float_one ≡ true
  pub gt : ops.flt float_one float_zero ≡ false
  pub le : ops.fle float_zero float_one ≡ true
  pub ge : ops.fle float_one float_zero ≡ false
  pub zero_le : ops.fle float_zero float_zero ≡ true
  pub one_le : ops.fle float_one float_one ≡ true
  pub zero_finite : sums.is_finite float_zero ≡ true
  pub one_finite : sums.is_finite float_one ≡ true
  pub zero_zero : sums.fadd float_zero float_zero ≡ float_zero
  pub zero_one : sums.fadd float_zero float_one ≡ float_one
  pub one_zero : sums.fadd float_one float_zero ≡ float_one
  pub one_one : ops.fsub float_one float_one ≡ float_zero
  pub abs_zero : sums.fabs float_zero ≡ float_zero
  pub tolerance : ops.fle float_zero belief_tolerance ≡ true

module _ (ops : FloatOps) (sums : SumOps) (unit : IsUnit ops sums) where
  project-one_hot :
      (r : Regime)
      → first_regime ops sums (sorted_with (belief_lt ops sums) (one_hot ops sums r)) ≡ ok r
  unfolding sorted_with insert_with
  project-one_hot chop_balanced = simp (unit.zero_le, unit.ge, unit.le, unit.gt)
  project-one_hot _ = simp (unit.zero_le, unit.ge, unit.le, unit.lt, unit.gt)

  total-one_hot : (r : Regime) → total_of ops sums float_zero (one_hot ops sums r) ≡ ok float_one
  unfolding total_of
  total-one_hot chop_balanced = simp (
    unit.zero_le, unit.le, unit.one_le, unit.zero_finite, unit.one_finite, unit.zero_one,
    unit.one_zero,
  )
  total-one_hot _ = simp (
    unit.zero_le, unit.le, unit.one_le, unit.zero_finite, unit.one_finite, unit.zero_zero,
    unit.zero_one, unit.one_zero,
  )

  has-one_hot : (r : Regime) → has_regime r (one_hot ops sums r) ≡ true
  has-one_hot chop_balanced = refl
  has-one_hot _ = refl

  -- The state of a selected opinion passes the assertions.
  with_selected-checked :
      (o : EvidenceOpinion) (s : RegimeState) (e : EvidenceSnapshot)
      → assert_belief_invariants ops sums (with_selected ops sums (some o) s e) ≡ ok tt
  unfolding assert_belief_invariants
  with_selected-checked o s e =
      rw (has-one_hot o.regime, total-one_hot o.regime, unit.one_one, unit.abs_zero, unit.tolerance)
        refl

  update_then_project :
      (s : RegimeState) (e : EvidenceSnapshot) (o : EvidenceOpinion)
      → s.symbol ≡ e.symbol
      → select_opinion ops sums e.opinions ≡ some o
      → (update_belief ops sums s e >>= project_regime ops sums) ≡ ok o.regime
  unfolding update_belief project_regime assert_belief_invariants
  update_then_project s e o same selected =
      rw (same, str_refl e.symbol, selected, with_selected-checked o s e) (project-one_hot o.regime)

  -- Let the operations on doubles take 0.0 and 1.0 as IEEE 754 does. Where a resolution has a
  -- winner, any state is updated without an error by the evidence that is built from the
  -- resolution for its symbol, and the regime that is then projected from the state is the regime
  -- of the winner.
  pub classical-projects :
      (s : RegimeState) (r : ResolutionResult) (confidence : Option Float) (ts : ℕ)
      (w : RegimeScore)
      → r.winner ≡ some w
      → (update_belief ops sums s (build_classical_evidence r confidence s.symbol ts)
          >>= project_regime ops sums)
        ≡ ok w.regime
  unfolding build_classical_evidence select_opinion sorted_with insert_with
  classical-projects s r confidence ts w won =
      update_then_project s (build_classical_evidence r confidence s.symbol ts)
        (opinion_of w confidence) refl (rw won refl)
