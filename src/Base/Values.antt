-- ===== src/Base/Values.antt =====
-- The values that a Python `object` takes in the program's mappings, as JSON has them.
use Prim.Native.String.{String}
use mathlib.Core.Bool.{Bool}
use text.Mathlib.Text.{◌==◌ as str_eq}
use xray_vision.Base.Tests.{if◌then◌else◌}
use xray_vision.Base.Int.{ℤ}
use xray_vision.Base.Floats.{Float}

mutual
  pub data Value : Type 0 where
    null : Value
    bool : Bool → Value
    int : ℤ → Value
    float : Float → Value
    str : String → Value
    sequence : Items → Value
    mapping : Fields → Value

  pub data Items : Type 0 where
    nil : Items
    cons : Value → Items → Items

  pub data Fields : Type 0 where
    end : Fields
    field : String → Value → Fields → Fields

-- `mapping.get(key)`, which is `none` also where the key is absent: `none` is Python's `None` of
-- the lookup, and a stored `null` is the same `None`.
unfoldable pub field_get : Fields → String → Value
field_get end k = null
field_get (field j v fs) k = if str_eq j k then v else field_get fs k
