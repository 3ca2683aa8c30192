-- ===== src/AnalysisEngine/Cycles/Members.antt =====
-- Membership in the sets that `_validate_cycles` of src/consumers/analysis_engine/registry.py keeps.
use xray_vision.Base.{
  ◌≡◌, ◌≢◌, ◌<◌, ◌≤◌, refl, sym, ℕ, String, some, List, [], ◌∷◌, true, false, not, contains, add,
  keep, length, All, All-imp, inl, inr, Bool-cases, arith, str_eq, str_refl, eq_iff, if◌then◌else◌,
}
use xray_vision.Base.Sorting.{sorted_by, insert_by}
use xray_vision.AnalysisEngine.Contracts.{dependency_cycle, key_error, out_of_fuel}

pub contains-add :
    (v w : String) (s : List String)
    → contains v (add w s) ≡ (if str_eq w v then true else contains v s)
unfolding contains add
contains-add v w s = ground (arith, eq_iff w v)

-- The enabled ids that no call under way is about.
unfoldable pub unseen : List String → List String → ℕ
unseen enabled visiting = length (keep (λ k. not (contains k visiting)) enabled)

unseen-add-le :
    (xs : List String) (c : String) (v : List String) → unseen xs (add c v) ≤ unseen xs v
unfolding unseen keep
unseen-add-le [] c v = omega arith
unseen-add-le (x ∷ xs) c v = ground (arith, contains-add x c v, unseen-add-le xs c v)

pub unseen-add-lt :
    (xs : List String) (c : String) (v : List String)
    → contains c xs ≡ true
    → contains c v ≡ false
    → unseen xs (add c v) < unseen xs v
unfolding unseen keep contains
unseen-add-lt [] c v h n = absurd cc
unseen-add-lt (x ∷ xs) c v h n =
    ground (arith, eq_iff x c, contains-add x c v, unseen-add-le xs c v, unseen-add-lt xs c v)

pub same_some : {A : Type 0} (a b : A) → some a ≡ some b → a ≡ b
same_some a b h = cc

abbrev pub IsWithin : List String → List String → Type 0
IsWithin xs ys = (k : String) → contains k xs ≡ true → contains k ys ≡ true

pub IsWithin-add : (c : String) (s : List String) → IsWithin s (add c s)
IsWithin-add c s k h = ground (arith, contains-add k c s)

pub add_self : (c : String) (s : List String) → contains c (add c s) ≡ true
add_self c s = rw (contains-add c c s, str_refl c) refl

pub cycle_lem : (c : String) → dependency_cycle c ≢ out_of_fuel
cycle_lem c h = cc

pub key_lem : (c : String) → key_error c ≢ out_of_fuel
key_lem c h = cc

contains-insert_by :
    (k x : String) (xs : List String)
    → contains k (insert_by (λ j. j) x xs) ≡ (if str_eq x k then true else contains k xs)
unfolding insert_by contains
contains-insert_by k x [] = refl
contains-insert_by k x (y ∷ ys) = ground (arith, eq_iff x k, eq_iff y k, contains-insert_by k x ys)

pub contains-sorted_by :
    (k : String) (xs : List String) → contains k (sorted_by (λ j. j) xs) ≡ contains k xs
unfolding sorted_by contains
contains-sorted_by k [] = refl
contains-sorted_by k (x ∷ xs) =
    rw (contains-insert_by k x (sorted_by (λ j. j) xs), contains-sorted_by k xs) refl

pub All-contains : (xs : List String) → All (λ k. contains k xs ≡ true) xs
unfolding contains
All-contains [] = tt
All-contains (x ∷ xs) =
    (rw (str_refl x) refl, All-imp xs (λ k h. ground (arith, h)) (All-contains xs))

pub contains-All :
    (k : String) (xs s : List String)
    → All (λ j. contains j s ≡ true) xs
    → contains k xs ≡ true
    → contains k s ≡ true
unfolding contains
contains-All k [] s a h = absurd cc
contains-All k (x ∷ xs) s a h = elim (Bool-cases (str_eq x k)) [
  | inl b ↦ rw (sym ((eq_iff x k).0 b)) a.0
  | inr b ↦ contains-All k xs s a.1 (ground (arith, h, b))
]
