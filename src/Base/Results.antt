-- ===== src/Base/Results.antt =====
-- Go's `(value, error)` results: a value, or an error of the component's own type.
use mathlib.Core.Path.{◌≡◌, refl}
use mathlib.Core.Logic.{◌⊎◌, inl, inr}
use mathlib.Core.Option.{Option, none, some}

pub data Result {ℓ κ} (E : Type ℓ) (A : Type κ) : Type (ℓ ⊔ κ) where
  ok : A → Result E A
  err : E → Result E A

infixl 5 ◌>>=◌
abbrev pub ◌>>=◌ {ℓ κ μ} :
    {E : Type ℓ} {A : Type κ} {B : Type μ} → Result E A → (A → Result E B) → Result E B
ok a >>= f = f a
err e >>= f = err e

pub Result-cases {ℓ κ} :
    {E : Type ℓ} {A : Type κ} (r : Result E A) → ((a : A) × (r ≡ ok a)) ⊎ ((e : E) × (r ≡ err e))
Result-cases (ok a) = inl (a, refl)
Result-cases (err e) = inr (e, refl)

-- The value satisfies `P`, where there is one.
abbrev pub IfOk {ℓ κ μ} : {E : Type ℓ} {A : Type κ} → (A → Type μ) → Result E A → Type μ
IfOk P (ok a) = P a
IfOk P (err e) = Unit

pub IfOk-bind {ℓ κ μ ν ξ} :
    {E : Type ℓ} {A : Type κ} {B : Type μ} (P : A → Type ν) (Q : B → Type ξ) (r : Result E A)
    (f : A → Result E B)
    → IfOk P r
    → ((a : A) → P a → IfOk Q (f a))
    → IfOk Q (r >>= f)
IfOk-bind P Q (ok a) f h step = step a h
IfOk-bind P Q (err e) f h step = tt

pub IfOk-trivial {ℓ κ} : {E : Type ℓ} {A : Type κ} (r : Result E A) → IfOk (λ _. Unit {0}) r
IfOk-trivial (ok a) = tt
IfOk-trivial (err e) = tt

pub IfOk-elim {ℓ κ μ ν} :
    {E : Type ℓ} {A : Type κ} {B : Type μ} (P : A → Type ν) (missing : Result E A)
    (found : B → Result E A) (o : Option B)
    → IfOk P missing
    → ((b : B) → IfOk P (found b))
    → IfOk P (elim o [ none ↦ missing | some b ↦ found b ])
IfOk-elim P missing found none h h' = h
IfOk-elim P missing found (some b) h h' = h' b

module _ {ℓ κ μ} {E : Type ℓ} {A : Type κ} {B : Type μ} where
  pub >>=_congr :
      (r : Result E A) (f g : A → Result E B) → ((a : A) → f a ≡ g a) → (r >>= f) ≡ (r >>= g)
  >>=_congr (ok a) f g h = h a
  >>=_congr (err e) f g h = refl

  pub >>=_assoc {ν} :
      {C : Type ν} (r : Result E A) (f : A → Result E B) (g : B → Result E C)
      → (r >>= f >>= g) ≡ (r >>= λ a. f a >>= g)
  >>=_assoc (ok a) f g = refl
  >>=_assoc (err e) f g = refl

pub ok_injective {ℓ κ} :
    {E : Type ℓ} {A : Type κ} {a b : A} → ◌≡◌ {A = Result E A} (ok a) (ok b) → a ≡ b
ok_injective h = cc h

-- Where a result is a value, it is that value.
pub IfOk-self {ℓ κ} : {E : Type ℓ} {A : Type κ} (r : Result E A) → IfOk (λ a. r ≡ ok a) r
IfOk-self (ok a) = refl
IfOk-self (err e) = tt
