-- ===== src/RegimeEngine/Resolution/Ranking.antt =====
-- The order that src/regime_engine/resolution/ranking.py gives.
use xray_vision.Base.{
  ◌≡◌, List, [], ◌∷◌, Bool, true, false, not, All, arith, inl, inr, ◌⊎◌, ◌≤◌, Bool-cases,
}
use mathlib.Core.List.{Perm}
use mathlib.Core.List.Perm
use xray_vision.Base.Floats.{Float, FloatOps, IsOrdered}
use xray_vision.RegimeEngine.Contracts.{index}
use xray_vision.RegimeEngine.Resolution.{RegimeScore, key_lt, insert_score, rank_scores}

-- Numbers are compared as an order, and `<=` is the converse of `>`.
pub record IsLinear (ops : FloatOps) (is_number : Float → Bool) : Type 0 where
  pub ordered : IsOrdered ops is_number
  pub converse :
      (a b : Float) → is_number a ≡ true → is_number b ≡ true → ops.fle a b ≡ not (ops.flt b a)

module _ (ops : FloatOps) (is_number : Float → Bool) (linear : IsLinear ops is_number) where
  abbrev pub IsNumber : RegimeScore → Type 0
  IsNumber s = is_number s.score ≡ true

  -- Three scores whose keys are in order.
  key_trans :
      (x y z : RegimeScore)
      → IsNumber x
      → IsNumber y
      → IsNumber z
      → key_lt ops y x ≡ false
      → key_lt ops z y ≡ false
      → key_lt ops z x ≡ false
  unfolding key_lt
  key_trans x y z hx hy hz = ground (
    arith,
    linear.converse y.score x.score hy hx,
    linear.converse x.score y.score hx hy,
    linear.converse z.score y.score hz hy,
    linear.converse y.score z.score hy hz,
    linear.converse z.score x.score hz hx,
    linear.converse x.score z.score hx hz,
    linear.ordered.trans z.score y.score x.score,
    linear.ordered.cotrans y.score z.score x.score hz,
    linear.ordered.cotrans z.score x.score y.score hx,
    linear.ordered.cotrans z.score y.score x.score hy,
    linear.ordered.cotrans x.score y.score z.score hy,
  )

  key_asym :
      (x y : RegimeScore) → IsNumber x → IsNumber y → key_lt ops y x ≡ true → key_lt ops x y ≡ false
  unfolding key_lt
  key_asym x y hx hy = ground (
    arith,
    linear.converse y.score x.score hy hx,
    linear.converse x.score y.score hx hy,
    linear.ordered.trans x.score y.score x.score,
    linear.ordered.irrefl x.score,
  )

  -- No key is less than one that stands before it.
  abbrev InKeyOrder : List RegimeScore → Type 0
  InKeyOrder [] = Unit
  InKeyOrder (x ∷ xs) = All (λ y. key_lt ops y x ≡ false) xs × InKeyOrder xs

  -- A greater score is before a lesser, and of equal scores the regime that the enum names first.
  abbrev pub IsBefore : RegimeScore → RegimeScore → Type 0
  IsBefore x y =
      (ops.flt y.score x.score ≡ true)
      ⊎ ((ops.flt x.score y.score ≡ false) × (index x.regime ≤ index y.regime))

  abbrev pub IsRanked : List RegimeScore → Type 0
  IsRanked [] = Unit
  IsRanked (x ∷ xs) = All (IsBefore x) xs × IsRanked xs

  key_lt-IsBefore :
      (x y : RegimeScore) → IsNumber x → IsNumber y → key_lt ops y x ≡ false → IsBefore x y
  unfolding key_lt
  key_lt-IsBefore x y hx hy =
      ground (arith, linear.converse y.score x.score hy hx, linear.converse x.score y.score hx hy)

  all-IsBefore :
      (x : RegimeScore) (ys : List RegimeScore)
      → IsNumber x
      → All IsNumber ys
      → All (λ y. key_lt ops y x ≡ false) ys
      → All (IsBefore x) ys
  all-IsBefore x [] hx ns later = tt
  all-IsBefore x (y ∷ ys) hx ns later =
      (key_lt-IsBefore x y hx ns.0 later.0, all-IsBefore x ys hx ns.1 later.1)

  InKeyOrder-IsRanked : (xs : List RegimeScore) → All IsNumber xs → InKeyOrder xs → IsRanked xs
  InKeyOrder-IsRanked [] ns r = tt
  InKeyOrder-IsRanked (x ∷ xs) ns r =
      (all-IsBefore x xs ns.0 ns.1 r.0, InKeyOrder-IsRanked xs ns.1 r.1)

  insert_score-All {κ} :
      (P : RegimeScore → Type κ) (x : RegimeScore) (xs : List RegimeScore)
      → P x
      → All P xs
      → All P (insert_score ops x xs)
  unfolding insert_score
  insert_score-All P x [] p ps = (p, tt)
  insert_score-All P x (y ∷ ys) p ps = elim (Bool-cases (key_lt ops y x)) [
    | inl b ↦ rw b (ps.0, insert_score-All P x ys p ps.1)
    | inr b ↦ rw b (p, ps)
  ]

  insert_score-Perm :
      (x : RegimeScore) (xs : List RegimeScore) → Perm (insert_score ops x xs) (x ∷ xs)
  unfolding insert_score
  insert_score-Perm x [] = Perm.refl (x ∷ [])
  insert_score-Perm x (y ∷ ys) = elim (Bool-cases (key_lt ops y x)) [
    | inl b ↦ rw b (Perm.trans (Perm.cons y (insert_score-Perm x ys)) (Perm.swap x y ys))
    | inr b ↦ rw b (Perm.refl (x ∷ y ∷ ys))
  ]

  pub rank_scores-Perm : (xs : List RegimeScore) → Perm (rank_scores ops xs) xs
  unfolding rank_scores
  rank_scores-Perm [] = Perm.refl []
  rank_scores-Perm (x ∷ xs) =
      Perm.trans (insert_score-Perm x (rank_scores ops xs)) (Perm.cons x (rank_scores-Perm xs))

  rank_scores-All {κ} :
      (P : RegimeScore → Type κ) (xs : List RegimeScore) → All P xs → All P (rank_scores ops xs)
  unfolding rank_scores
  rank_scores-All P [] ps = tt
  rank_scores-All P (x ∷ xs) ps =
      insert_score-All P x (rank_scores ops xs) ps.0 (rank_scores-All P xs ps.1)

  -- What is in order after y is in order after x, when x comes before y.
  after :
      (x y : RegimeScore) (ys : List RegimeScore)
      → IsNumber x
      → IsNumber y
      → key_lt ops y x ≡ false
      → All IsNumber ys
      → All (λ z. key_lt ops z y ≡ false) ys
      → All (λ z. key_lt ops z x ≡ false) ys
  after x y [] hx hy p ns later = tt
  after x y (z ∷ zs) hx hy p ns later =
      (key_trans x y z hx hy ns.0 p later.0, after x y zs hx hy p ns.1 later.1)

  insert_score-InKeyOrder :
      (x : RegimeScore) (xs : List RegimeScore)
      → IsNumber x
      → All IsNumber xs
      → InKeyOrder xs
      → InKeyOrder (insert_score ops x xs)
  unfolding insert_score
  insert_score-InKeyOrder x [] hx ns r = (tt, tt)
  insert_score-InKeyOrder x (y ∷ ys) hx ns r = elim (Bool-cases (key_lt ops y x)) [
    | inl b ↦ rw b (
      insert_score-All (λ z. key_lt ops z y ≡ false) x ys (key_asym x y hx ns.0 b) r.0,
      insert_score-InKeyOrder x ys hx ns.1 r.1,
    )
    | inr b ↦ rw b ((b, after x y ys hx ns.0 b ns.1 r.0), r)
  ]

  rank_scores-InKeyOrder :
      (xs : List RegimeScore) → All IsNumber xs → InKeyOrder (rank_scores ops xs)
  unfolding rank_scores
  rank_scores-InKeyOrder [] ns = tt
  rank_scores-InKeyOrder (x ∷ xs) ns =
      insert_score-InKeyOrder x (rank_scores ops xs) ns.0 (rank_scores-All IsNumber xs ns.1)
        (rank_scores-InKeyOrder xs ns.1)

  pub rank_scores-IsRanked :
      (xs : List RegimeScore) → All IsNumber xs → IsRanked (rank_scores ops xs)
  rank_scores-IsRanked xs ns =
      InKeyOrder-IsRanked (rank_scores ops xs) (rank_scores-All IsNumber xs ns)
        (rank_scores-InKeyOrder xs ns)
