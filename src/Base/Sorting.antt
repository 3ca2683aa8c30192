-- ===== src/Base/Sorting.antt =====
-- Python's `sorted`, a stable insertion sort: with a key that is a string, by code points, and by a test.
use Prim.Native.String.{compare as compare_str}
use Prim.Native.Nat.{Ordering}
use mathlib.Core.Bool.{Bool, true, false}
use mathlib.Core.Logic.{inl, inr}
use mathlib.Core.Path.{◌≡◌, refl}
use Prim.Native.Nat.{suc}
use native.Mathlib.Omega.{arith}
use mathlib.Core.List.{List, [], ◌∷◌}
use Prim.Native.String.{String}
use xray_vision.Base.Tests.{if◌then◌else◌, Bool-cases}
use xray_vision.Base.Lists.{All, length}

abbrev pub not_greater : String → String → Bool
not_greater s t = elim (compare_str s t) [ Ordering.gt ↦ false | _ ↦ true ]

module _ {A : Type 0} (key : A → String) where
  unfoldable pub insert_by : A → List A → List A
  insert_by x [] = x ∷ []
  insert_by x (y ∷ ys) =
      let rest = insert_by x ys in if not_greater (key x) (key y) then x ∷ y ∷ ys else y ∷ rest

  unfoldable pub sorted_by : List A → List A
  sorted_by [] = []
  sorted_by (x ∷ xs) = insert_by x (sorted_by xs)

  -- What holds of all the elements holds of them in order.
  pub insert_by-All {κ} :
      (P : A → Type κ) (x : A) (xs : List A) → P x → All P xs → All P (insert_by x xs)
  unfolding insert_by
  insert_by-All P x [] p ps = (p, tt)
  insert_by-All P x (y ∷ ys) p ps = elim (Bool-cases (not_greater (key x) (key y))) [
    | inl b ↦ rw b (p, ps)
    | inr b ↦ rw b (ps.0, insert_by-All P x ys p ps.1)
  ]

  pub sorted_by-All {κ} : (P : A → Type κ) (xs : List A) → All P xs → All P (sorted_by xs)
  unfolding sorted_by
  sorted_by-All P [] ps = tt
  sorted_by-All P (x ∷ xs) ps = insert_by-All P x (sorted_by xs) ps.0 (sorted_by-All P xs ps.1)

  pub length-insert_by : (x : A) (xs : List A) → length (insert_by x xs) ≡ suc (length xs)
  unfolding insert_by
  length-insert_by x [] = refl
  length-insert_by x (y ∷ ys) = elim (Bool-cases (not_greater (key x) (key y))) [
    | inl b ↦ rw b refl
    | inr b ↦ rw b (omega (arith, length-insert_by x ys))
  ]

  pub length-sorted_by : (xs : List A) → length (sorted_by xs) ≡ length xs
  unfolding sorted_by
  length-sorted_by [] = refl
  length-sorted_by (x ∷ xs) = omega (arith, length-insert_by x (sorted_by xs), length-sorted_by xs)

-- The stable insertion sort by a test that says which of two keys is less.
module _ {A : Type 0} (less : A → A → Bool) where
  unfoldable pub insert_with : A → List A → List A
  insert_with x [] = x ∷ []
  insert_with x (y ∷ ys) = let rest = insert_with x ys in if less y x then y ∷ rest else x ∷ y ∷ ys

  unfoldable pub sorted_with : List A → List A
  sorted_with [] = []
  sorted_with (x ∷ xs) = insert_with x (sorted_with xs)
