-- ===== src/AnalysisEngine/Planning/Queue.antt =====
-- The loop of `_order_stage` in src/consumers/analysis_engine/planning.py, and its fuel.
use xray_vision.Base.{
  ◌≡◌, ◌≢◌, ◌≤◌, ◌+◌, refl, ℕ, zero, suc, String, List, [], ◌∷◌, ◌++◌, Bool, true, false, err,
  length, length-append, inl, inr, Bool-cases, arith, str_eq, if◌then◌else◌, get_or, map,
}
use xray_vision.Base.Int.{ℤ, pos, negsuc}
use xray_vision.Base.Sorting.{sorted_by, length-sorted_by}
use xray_vision.Base.Dict
use xray_vision.Base.Dict.{Dict}
use xray_vision.AnalysisEngine.Contracts.{ModuleDefinition, out_of_fuel}
use xray_vision.AnalysisEngine.Planning.{
  pred, is_zero, free_ids, release, order_loop, dependencies_of, indegree_of, dependents_of,
  order_ids, stage_dependencies,
}

abbrev waits : ℤ → ℕ
waits (pos zero) = 0
waits (pos (suc n)) = 1
waits (negsuc n) = 0

-- The modules that still wait for another one.
unfoldable waiting : Dict ℤ → ℕ
waiting [] = 0
waiting ((k, n) ∷ g) = waits n + waiting g

abbrev tick : Bool → ℕ
tick true = 1
tick false = 0

pred_lem : (n : ℤ) → waits (pred n) + tick (is_zero (pred n)) ≤ waits n
pred_lem (pos zero) = omega arith
pred_lem (pos (suc zero)) = omega arith
pred_lem (pos (suc (suc n))) = omega arith
pred_lem (negsuc n) = omega arith

waiting-put :
    (g : Dict ℤ) (k : String) (n : ℤ)
    → waiting (Dict.put g k n) + waits (get_or (Dict.get g k) (pos 0)) ≡ waiting g + waits n
unfolding waiting Dict.put Dict.get
waiting-put [] k n = omega arith
waiting-put ((j, m) ∷ g) k n = elim (Bool-cases (str_eq j k)) [
  | inl b ↦ rw b (omega arith)
  | inr b ↦ rw b (omega (arith, waiting-put g k n))
]

queued :
    (b : Bool) (q : List String) (d : String)
    → length (if b then q ++ (d ∷ []) else q) ≡ length q + tick b
queued true q d = length-append q (d ∷ [])
queued false q d = omega arith

-- A module that is released has waited.
release-le :
    (ds : List String) (g : Dict ℤ) (q : List String)
    → waiting (release ds g q).0 + length (release ds g q).1 ≤ waiting g + length q
unfolding release
release-le [] g q = omega arith
release-le (d ∷ ds) g q =
    let v = get_or (Dict.get g d) (pos 0) in
    omega (
      arith,
      release-le ds (Dict.put g d (pred v)) (if is_zero (pred v) then q ++ (d ∷ []) else q),
      waiting-put g d (pred v),
      pred_lem v,
      queued (is_zero (pred v)) q d,
    )

order_loop-total :
    (fuel : ℕ) (dependents : Dict (List String)) (g : Dict ℤ) (q ordered : List String)
    → waiting g + length q ≤ fuel
    → order_loop fuel dependents g q ordered ≢ err out_of_fuel
unfolding order_loop
order_loop-total fuel dependents g [] ordered le h = absurd cc
order_loop-total zero dependents g (c ∷ q) ordered le h = absurd (omega (arith, le))
order_loop-total (suc n) dependents g (c ∷ q) ordered le h =
    let ds = sorted_by (λ k. k) (get_or (Dict.get dependents c) []) in
    order_loop-total n dependents (release ds g q).0 (sorted_by (λ k. k) (release ds g q).1)
      (ordered ++ (c ∷ []))
      (omega (arith, le, release-le ds g q, length-sorted_by (λ k. k) (release ds g q).1)) h

entry_le :
    (k : String) (n : ℤ) (rest : List String)
    → waits n + length (if is_zero n then k ∷ rest else rest) ≤ suc (length rest)
entry_le k (pos zero) rest = omega arith
entry_le k (pos (suc n)) rest = omega arith
entry_le k (negsuc n) rest = omega arith

-- At first a module waits or is free.
free_or_waiting : (g : Dict ℤ) → waiting g + length (free_ids g) ≤ length g
unfolding waiting free_ids
free_or_waiting [] = omega arith
free_or_waiting ((k, n) ∷ g) = omega (arith, entry_le k n (free_ids g), free_or_waiting g)

length-indegree_of : (d : Dict (List String)) → length (indegree_of d) ≡ length d
unfolding indegree_of
length-indegree_of [] = refl
length-indegree_of ((k, deps) ∷ d) = omega (arith, length-indegree_of d)

length-map : {A B : Type 0} (f : A → B) (xs : List A) → length (map f xs) ≡ length xs
length-map f [] = refl
length-map f (x ∷ xs) = omega (arith, length-map f xs)

-- The queue that orders the modules of a stage is worked off within as many rounds as the stage
-- has modules.
pub order_ids-total :
    (definitions : Dict ModuleDefinition) → order_ids definitions ≢ err out_of_fuel
unfolding order_ids
order_ids-total definitions =
    let deps = dependencies_of definitions in
    let g = indegree_of deps in
    order_loop-total (length definitions) (dependents_of (map (λ e. (e.0, [])) definitions) deps) g
      (sorted_by (λ k. k) (free_ids g)) []
      (omega (
        arith,
        free_or_waiting g,
        length-sorted_by (λ k. k) (free_ids g),
        length-indegree_of deps,
        length-map {B = String × List String} (λ e. (e.0, stage_dependencies definitions e.1))
            definitions,
      ))
