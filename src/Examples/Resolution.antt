-- ===== src/Examples/Resolution.antt =====
-- Runs of src/regime_engine/resolution, and the state after one.
use xray_vision.Base.{
  refl, String, none, some, List, [], ◌∷◌, arith, map, ◌≡◌, ◌+◌, ok, ◌>>=◌, keep,
}
use xray_vision.RegimeEngine.Contracts.{Regime, chop_balanced, squeeze_up, trend_build_up}
use xray_vision.RegimeEngine.Veto.{RegimeInputSnapshot}
use xray_vision.RegimeEngine.Resolution.{
  RegimeScore, resolve_regime, ResolutionResult, is_eligible, rank_scores, insert_score, key_lt,
  apply_weights,
}
use xray_vision.RegimeEngine.Resolution.Ranking.{IsLinear}
use xray_vision.RegimeEngine.Resolution.Outcome.{
  IsResolution, no_vetoes, resolve_regime-IsResolution,
}
use xray_vision.RegimeEngine.State.{
  RegimeState, SumOps, build_classical_evidence, update_belief, project_regime,
}
use xray_vision.RegimeEngine.State.Classical.{IsUnit, classical-projects}
use xray_vision.Examples.Data.{by_bits, all_numbers, by_bits-IsOrdered, float}

by_bits-IsLinear : IsLinear by_bits all_numbers
by_bits-IsLinear = record { ordered = by_bits-IsOrdered; converse = λ a b h k. ground arith }

abbrev quiet : RegimeInputSnapshot
quiet = record {
  market = record { atr_z = none; range_expansion = none; acceptance_score = some (float 9) };
  derivatives = record { oi_slope_short = some (float 1); oi_slope_med = none };
}

abbrev scored : Regime → List String → RegimeScore
scored r cs = record { regime = r; score = float 7; contributors = cs }

abbrev top_heavy : List RegimeScore
top_heavy =
    record { regime = squeeze_up; score = float 3; contributors = "oi" ∷ [] }
    ∷ scored trend_build_up ("cvd" ∷ "oi" ∷ [])
    ∷ scored chop_balanced ("oi" ∷ [])
    ∷ []

-- Equal scores stand in the order of the enum, whatever the order of the input.
ties :
    map (λ s. s.regime) (rank_scores by_bits top_heavy)
    ≡ chop_balanced ∷ trend_build_up ∷ squeeze_up ∷ []
unfolding rank_scores insert_score key_lt
ties = refl

resolve_regime-IsResolution_example :
    IsResolution by_bits all_numbers by_bits-IsLinear
      (apply_weights by_bits (λ a b. a) (λ r. none) top_heavy)
      (resolve_regime by_bits (λ a b. a) (λ r. none) top_heavy quiet)
unfolding apply_weights
resolve_regime-IsResolution_example =
    resolve_regime-IsResolution by_bits all_numbers by_bits-IsLinear (λ a b. a) (λ r. none)
      top_heavy quiet (refl, (refl, (refl, tt)))

adding : SumOps
adding = record {
  fadd = λ a b. record { bits = a.bits + b.bits };
  fabs = λ a. a;
  is_finite = all_numbers;
}

adding-IsUnit : IsUnit by_bits adding
unfolding adding
adding-IsUnit = record {
  lt = refl;
  gt = refl;
  le = refl;
  ge = refl;
  zero_le = refl;
  one_le = refl;
  zero_finite = refl;
  one_finite = refl;
  zero_zero = refl;
  zero_one = refl;
  one_zero = refl;
  one_one = refl;
  abs_zero = refl;
  tolerance = refl;
}

abbrev settled : ResolutionResult
settled = resolve_regime by_bits (λ a b. a) (λ r. none) top_heavy quiet

abbrev undecided : RegimeState
undecided = record {
  schema = "regime_state";
  schema_version = "1";
  symbol = "BTC";
  engine_timestamp_ms = 100;
  belief_by_regime = [];
  anchor_regime = squeeze_up;
}

won : settled.winner ≡ some (scored chop_balanced ("oi" ∷ []))
unfolding resolve_regime rank_scores insert_score key_lt apply_weights is_eligible keep
won = rw (no_vetoes quiet) refl

classical-projects_example :
    (update_belief by_bits adding undecided (build_classical_evidence settled none "BTC" 200)
      >>= project_regime by_bits adding)
    ≡ ok chop_balanced
classical-projects_example =
    classical-projects by_bits adding adding-IsUnit undecided settled none 200
      (scored chop_balanced ("oi" ∷ [])) won
