-- ===== src/Base/Results.antt =====
-- Exceptions as values: a computation returns a value or raises an error of the component.
use mathlib.Core.Bool.{Bool, true, false}
use mathlib.Core.Path.{◌≡◌, refl, subst}
use mathlib.Core.Logic.{◌⊎◌, inl, inr}

pub data Result {ℓ} (E A : Type ℓ) : Type ℓ where
  ok : A → Result E A
  err : E → Result E A

infixl 5 ◌>>=◌ ◌>>◌
abbrev pub ◌>>=◌ {ℓ} : {E A B : Type ℓ} → Result E A → (A → Result E B) → Result E B
ok a >>= f = f a
err e >>= f = err e

abbrev pub ◌>>◌ {ℓ} : {E A B : Type ℓ} → Result E A → Result E B → Result E B
m >> k = m >>= λ _. k

-- `if test: raise e`.
abbrev pub raise_if : {E : Type 0} → Bool → E → Result E Unit
raise_if true e = err e
raise_if false e = ok tt

pub Result-cases {ℓ} :
    {E A : Type ℓ} (r : Result E A) → ((a : A) × (r ≡ ok a)) ⊎ ((e : E) × (r ≡ err e))
Result-cases (ok a) = inl (a, refl)
Result-cases (err e) = inr (e, refl)

-- What holds of the value, if there is one.
abbrev pub Holds {ℓ κ} : {E A : Type ℓ} → (A → Type κ) → Result E A → Type κ
Holds P (ok a) = P a
Holds P (err e) = Unit

pub bind-Holds {ℓ κ} :
    {E A B : Type ℓ} (P : A → Type κ) (Q : B → Type κ) (r : Result E A) (f : A → Result E B)
    → Holds P r
    → ((a : A) → P a → Holds Q (f a))
    → Holds Q (r >>= f)
bind-Holds P Q (ok a) f p g = g a p
bind-Holds P Q (err e) f p g = tt

-- A value that is returned has what holds of it.
pub Holds-ok {ℓ κ} :
    {E A : Type ℓ} (P : A → Type κ) (r : Result E A) (a : A) → Holds P r → r ≡ ok a → P a
Holds-ok P r a p h = subst (λ x. Holds P x) h p

pub then-Holds {ℓ κ} :
    {E B : Type ℓ} (Q : B → Type κ) (r : Result E Unit) (s : Result E B)
    → Holds Q s
    → Holds Q (r >> s)
then-Holds Q (ok u) s h = h
then-Holds Q (err e) s h = tt

pub any-Holds {ℓ} : {E A : Type ℓ} (r : Result E A) → Holds (λ _. Unit {0}) r
any-Holds (ok a) = tt
any-Holds (err e) = tt
