-- ===== src/Base/Dict.antt =====
-- Python's `dict` with string keys, as an association list with one entry for each key.
-- `put` keeps the place of a key that is there and appends a new one, as insertion order does.
use Prim.Native.String.{String}
use mathlib.Core.Path.{◌≡◌, refl, sym, subst}
use mathlib.Core.List.{List, [], ◌∷◌}
use mathlib.Core.Option.{Option, none, some}
use native.Mathlib.Omega.{arith}
use text.Mathlib.Text.{◌==◌ as str_eq}
use text.Mathlib.TextEquality.{eq_iff}
use mathlib.Core.Logic.{inl, inr}
use xray_vision.Base.Lists.{All}
use xray_vision.Base.Tests.{if◌then◌else◌, str_refl, Bool-cases}

abbrev pub Dict : Type 0 → Type 0
Dict V = List (String × V)

-- What holds of a value, if there is one.
abbrev pub HoldsSome {ℓ κ} : {A : Type ℓ} → (A → Type κ) → Option A → Type κ
HoldsSome P none = Unit
HoldsSome P (some a) = P a

module _ {V : Type 0} where
  unfoldable pub get : Dict V → String → Option V
  get [] k = none
  get ((j, v) ∷ d) k = if str_eq j k then some v else get d k

  unfoldable pub put : Dict V → String → V → Dict V
  put [] k v = (k, v) ∷ []
  put ((j, w) ∷ d) k v = if str_eq j k then (j, v) ∷ d else (j, w) ∷ put d k v

  -- `dict.pop(key, None)`.
  unfoldable pub remove : Dict V → String → Dict V
  remove [] k = []
  remove ((j, w) ∷ d) k = let rest = remove d k in if str_eq j k then rest else (j, w) ∷ rest

  pub get-put :
      (d : Dict V) (k j : String) (v : V)
      → get (put d k v) j ≡ (if str_eq k j then some v else get d j)
  unfolding get put
  get-put [] k j v = refl
  get-put ((i, w) ∷ d) k j v = ground (arith, eq_iff k j, eq_iff i k, eq_iff i j, get-put d k j v)

  pub get-remove :
      (d : Dict V) (k j : String) → get (remove d k) j ≡ (if str_eq k j then none else get d j)
  unfolding get remove
  get-remove [] k j = ground arith
  get-remove ((i, w) ∷ d) k j = ground (arith, eq_iff k j, eq_iff i k, eq_iff i j, get-remove d k j)

  pub get-put_self : (d : Dict V) (k : String) (v : V) → get (put d k v) k ≡ some v
  get-put_self d k v = simp (get-put, str_refl)

  -- What holds of each entry.
  pub get-All {κ} :
      (P : String → V → Type κ) (d : Dict V) (k : String)
      → All (λ e. P e.0 e.1) d
      → HoldsSome (P k) (get d k)
  unfolding get
  get-All P [] k a = tt
  get-All P ((j, w) ∷ d) k a = elim (Bool-cases (str_eq j k)) [
    | inl b ↦ rw b (subst (λ i. P i w) ((eq_iff j k).0 b) a.0)
    | inr b ↦ rw b (get-All P d k a.1)
  ]

  pub put-All {κ} :
      (P : String → V → Type κ) (d : Dict V) (k : String) (v : V)
      → All (λ e. P e.0 e.1) d
      → P k v
      → All (λ e. P e.0 e.1) (put d k v)
  unfolding put
  put-All P [] k v a p = (p, tt)
  put-All P ((j, w) ∷ d) k v a p = elim (Bool-cases (str_eq j k)) [
    | inl b ↦ rw b (subst (λ i. P i v) (sym ((eq_iff j k).0 b)) p, a.1)
    | inr b ↦ rw b (a.0, put-All P d k v a.1 p)
  ]

pub ruleset dict_laws = (get-put, get-remove)
