-- ===== src/Base/Floats.antt =====
-- Python's `float`: the carrier is the 64-bit pattern of an IEEE double, and the operations of the
-- processor are a parameter of the definitions that compare or subtract.
use Prim.Native.Nat.{ℕ}
use mathlib.Core.Bool.{Bool, true, false}
use mathlib.Core.Path.{◌≡◌}
use mathlib.Core.Logic.{◌⊎◌}

pub record Float : Type 0 where
  pub bits : ℕ

pub record FloatOps : Type 0 where
  -- `a < b`, `a <= b` and `a - b` of two doubles.
  pub flt : Float → Float → Bool
  pub fle : Float → Float → Bool
  pub fsub : Float → Float → Float

-- The literals of the program: 0.0 and 0.6.
abbrev pub float_zero : Float
float_zero = record { bits = 0 }

abbrev pub float_point_six : Float
float_point_six = record { bits = 0x3FE3333333333333 }

-- What IEEE 754 says of `<`: it is irreflexive and transitive, and a number (no NaN) lies on one
-- side or the other of a pair in order.
pub record IsOrdered (ops : FloatOps) (is_number : Float → Bool) : Type 0 where
  pub irrefl : (a : Float) → ops.flt a a ≡ false
  pub trans : (a b c : Float) → ops.flt a b ≡ true → ops.flt b c ≡ true → ops.flt a c ≡ true
  pub cotrans :
      (a b c : Float)
      → is_number b ≡ true
      → ops.flt a c ≡ true
      → (ops.flt a b ≡ true) ⊎ (ops.flt b c ≡ true)
