-- ===== src/Prelude/Results.antt =====
-- Code that may throw: a result or the error that is thrown. The error type is the component's.
use mathlib.Core.Path.{◌≡◌, refl}
use mathlib.Core.Logic.{◌⊎◌, inl, inr}

pub data Result {ℓ κ} (E : Type ℓ) (A : Type κ) : Type (ℓ ⊔ κ) where
  ok : A → Result E A
  err : E → Result E A

infixl 5 ◌>>=◌
abbrev pub ◌>>=◌ {ℓ κ μ} :
    {E : Type ℓ} {A : Type κ} {B : Type μ} → Result E A → (A → Result E B) → Result E B
ok a >>= f = f a
err e >>= f = err e

-- To split on a computed result and keep the equation.
pub Result-cases {ℓ κ} :
    {E : Type ℓ} {A : Type κ} (r : Result E A) → ((a : A) × (r ≡ ok a)) ⊎ ((e : E) × (r ≡ err e))
Result-cases (ok a) = inl (a, refl)
Result-cases (err e) = inr (e, refl)

-- What holds of the result, if there is one.
abbrev pub After {ℓ κ μ} : {E : Type ℓ} {A : Type κ} → (A → Type μ) → Result E A → Type μ
After P (ok a) = P a
After P (err e) = Unit

pub After-bind {ℓ κ μ ν ξ} :
    {E : Type ℓ} {A : Type κ} {B : Type μ} (Q : A → Type ν) (P : B → Type ξ) (m : Result E A)
    (f : A → Result E B)
    → After Q m
    → ((a : A) → Q a → After P (f a))
    → After P (m >>= f)
After-bind Q P (ok a) f q k = k a q
After-bind Q P (err e) f q k = tt

pub After-each {ℓ κ μ ξ} :
    {E : Type ℓ} {A : Type κ} {B : Type μ} (P : B → Type ξ) (m : Result E A) (f : A → Result E B)
    → ((a : A) → After P (f a))
    → After P (m >>= f)
After-each P (ok a) f k = k a
After-each P (err e) f k = tt

pub After-map {ℓ κ μ ν} :
    {E : Type ℓ} {A : Type κ} (P : A → Type μ) (Q : A → Type ν) (r : Result E A)
    → ((a : A) → P a → Q a)
    → After P r
    → After Q r
After-map P Q (ok a) k p = k a p
After-map P Q (err e) k p = tt

-- What holds of the result, or of the error.
abbrev pub Ends {ℓ κ μ} :
    {E : Type ℓ} {A : Type κ} → (A → Type μ) → (E → Type μ) → Result E A → Type μ
Ends P F (ok a) = P a
Ends P F (err e) = F e

pub Ends-bind {ℓ κ μ ν} :
    {E : Type ℓ} {A : Type κ} {B : Type μ} (Q : A → Type ν) (P : B → Type ν) (F : E → Type ν)
    (m : Result E A) (f : A → Result E B)
    → Ends Q F m
    → ((a : A) → Q a → Ends P F (f a))
    → Ends P F (m >>= f)
Ends-bind Q P F (ok a) f q k = k a q
Ends-bind Q P F (err e) f q k = q

pub After-Ends {ℓ κ μ} :
    {E : Type ℓ} {A : Type κ} (P : A → Type μ) (F : E → Type μ) (r : Result E A)
    → Ends P F r
    → After P r
After-Ends P F (ok a) h = h
After-Ends P F (err e) h = tt

pub Ends-both {ℓ κ μ} :
    {E : Type ℓ} {A : Type κ} (P Q : A → Type μ) (F : E → Type μ) (r : Result E A)
    → After P r
    → Ends Q F r
    → Ends (λ a. P a × Q a) F r
Ends-both P Q F (ok a) p q = (p, q)
Ends-both P Q F (err e) p q = q
