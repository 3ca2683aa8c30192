-- ===== src/RegimeEngine/Hysteresis/Rules/Top.antt =====
-- `_select_top_regime` of src/regime_engine/hysteresis/rules.py.
use xray_vision.Base.{
  ◌≡◌, refl, Option, none, some, List, [], ◌∷◌, Bool, true, false, arith, All, inl, inr, Bool-cases,
  Option-cases,
}
use xray_vision.Base.Floats.{Float, FloatOps, IsOrdered}
use xray_vision.RegimeEngine.Contracts.{Regime}
use xray_vision.RegimeEngine.Hysteresis.Rules.{
  Beliefs, belief, better, top_loop, regime_order, select_top_regime,
}

contrapositive : (a b : Bool) → (a ≡ true → b ≡ true) → b ≡ false → a ≡ false
contrapositive true b f h = absurd (cc (f refl))
contrapositive false b f h = refl

module _ (ops : FloatOps) (is_number : Float → Bool) (laws : IsOrdered ops is_number) (bs : Beliefs)
    (numbers : (q : Regime) (w : Float) → belief bs q ≡ some w → is_number w ≡ true) where
  -- The belief in `q`, if there is one, is not above `v`.
  abbrev pub NotAbove : Float → Regime → Type 0
  NotAbove v q = (w : Float) → belief bs q ≡ some w → ops.flt v w ≡ false

  abbrev Beats : Float → Option (Regime × Float) → Type 0
  Beats v none = Unit {0}
  Beats v (some (q, w)) = ops.flt v w ≡ false

  -- The best so far is a belief.
  abbrev IsKnown : Option (Regime × Float) → Type 0
  IsKnown none = Unit {0}
  IsKnown (some (q, w)) = belief bs q ≡ some w

  better-IsKnown :
      (best : Option (Regime × Float)) (r : Regime) (o : Option Float)
      → belief bs r ≡ o
      → IsKnown best
      → IsKnown (better ops best r o)
  unfolding better
  better-IsKnown best r none e k = k
  better-IsKnown none r (some v) e k = e
  better-IsKnown (some (q, w)) r (some v) e k = ground arith

  -- What neither `v` nor `w` beats in a row, `v` does not beat.
  stays_behind :
      (v w u : Float)
      → is_number w ≡ true
      → ops.flt v w ≡ false
      → ops.flt w u ≡ false
      → ops.flt v u ≡ false
  stays_behind v w u n vw wu = elim (Bool-cases (ops.flt v u)) [
    | inl p ↦ elim (laws.cotrans v w u n p) [
      | inl x ↦ absurd (cc (x, vw))
      | inr x ↦ absurd (cc (x, wu))
    ]
    | inr p ↦ p
  ]

  -- Who beats the better of two beats both.
  better-Beats :
      (v : Float) (best : Option (Regime × Float)) (r : Regime) (o : Option Float)
      → belief bs r ≡ o
      → IsKnown best
      → Beats v (better ops best r o)
      → Beats v best × NotAbove v r
  unfolding better
  better-Beats v best r none e k h = (h, λ w f. absurd (cc (e, f)))
  better-Beats v none r (some u) e k h = (tt, λ w f. ground arith)
  better-Beats v (some (q, w)) r (some u) e k h = elim (Bool-cases (ops.flt w u)) [
    | inl up ↦
        let vu : ops.flt v u ≡ false = ground arith in
        (
          contrapositive (ops.flt v w) (ops.flt v u) (λ p. laws.trans v w u p up) vu,
          λ x f. ground arith,
        )
    | inr stay ↦
        let vw : ops.flt v w ≡ false = ground arith in
        let vu : ops.flt v u ≡ false = stays_behind v w u (numbers q w k) vw stay in
        (vw, λ x f. ground arith)
  ]

  top_loop-max :
      (best : Option (Regime × Float)) (rs : List Regime) (r : Regime) (v : Float)
      → IsKnown best
      → top_loop ops bs best rs ≡ some (r, v)
      → Beats v best × All (NotAbove v) rs × (belief bs r ≡ some v)
  unfolding top_loop
  top_loop-max none [] r v k h = absurd (ground arith)
  top_loop-max (some (q, w)) [] r v k h = (ground (arith, laws.irrefl v), tt, ground arith)
  top_loop-max best (q ∷ rs) r v k h =
      let (b, l, m) =
        top_loop-max (better ops best q (belief bs q)) rs r v
          (better-IsKnown best q (belief bs q) refl k) h in
      let d = better-Beats v best q (belief bs q) refl k b in (d.0, (d.1, l), m)

  -- Where the comparison of floats is an order and the beliefs are numbers, the selected regime
  -- has a belief, and no allowed regime has a belief above it.
  pub select_top_regime-max :
      (allowed : Option (List Regime)) (r : Regime)
      → select_top_regime ops bs allowed ≡ some r
      → (v : Float) × (belief bs r ≡ some v) × All (NotAbove v) (regime_order allowed)
  unfolding select_top_regime
  select_top_regime-max allowed r h =
      elim (Option-cases (top_loop ops bs none (regime_order allowed))) [
        | inl e ↦ absurd (ground arith)
        | inr ((q, v), e) ↦
            let same : q ≡ r = ground arith in
            let m = top_loop-max none (regime_order allowed) q v tt e in (v, rw (← same) m.2, m.1)
      ]
