-- ===== src/Prelude/Outcome.antt =====
-- Go's (value, error) pair: exactly one of the two is meaningful.
use mathlib.Core.Path.{◌≡◌, refl, ap, subst}
use mathlib.Core.Option.{Option, none, some}
use mathlib.Core.Logic.{◌⊎◌, inl, inr}

pub data Result {ℓ κ} (E : Type ℓ) (A : Type κ) : Type (ℓ ⊔ κ) where
  ok : A → Result E A
  err : E → Result E A

-- `if err != nil { return ..., err }` between two steps.
infixl 5 ◌>>=◌
abbrev pub ◌>>=◌ {ℓ κ μ} :
    {E : Type ℓ} {A : Type κ} {B : Type μ} → Result E A → (A → Result E B) → Result E B
ok a >>= f = f a
err e >>= f = err e

pub Result-cases {ℓ κ} :
    {E : Type ℓ} {A : Type κ} (r : Result E A) → ((a : A) × (r ≡ ok a)) ⊎ ((e : E) × (r ≡ err e))
Result-cases (ok a) = inl (a, refl)
Result-cases (err e) = inr (e, refl)

-- What a call returned, its error forgotten.
abbrev pub success {ℓ κ} : {E : Type ℓ} {A : Type κ} → Result E A → Option A
success (ok a) = some a
success (err e) = none

-- Every value that a call returns without an error satisfies `P`.
abbrev pub OnOk {ℓ κ μ} : {E : Type ℓ} {A : Type κ} → (A → Type μ) → Result E A → Type μ
OnOk P (ok a) = P a
OnOk P (err e) = Unit

pub OnOk-apply {ℓ κ μ} :
    {E : Type ℓ} {A : Type κ} (P : A → Type μ) (r : Result E A) (a : A) → OnOk P r → r ≡ ok a → P a
OnOk-apply {E = E} {A = A} P (ok b) a h e = subst P (ap value e) h
  where
    value : Result E A → A
    value (ok x) = x
    value (err x) = b
OnOk-apply P (err x) a h e = cc

pub OnOk-mono {ℓ κ μ ν} :
    {E : Type ℓ} {A : Type κ} (P : A → Type μ) (Q : A → Type ν) (r : Result E A)
    → ((a : A) → P a → Q a)
    → OnOk P r
    → OnOk Q r
OnOk-mono P Q (ok a) f h = f a h
OnOk-mono P Q (err e) f h = tt

-- The value of an option, if there is one, satisfies `P`.
abbrev pub OnSome {ℓ κ} : {A : Type ℓ} → (A → Type κ) → Option A → Type κ
OnSome P none = Unit
OnSome P (some a) = P a

pub OnSome-apply {ℓ κ} :
    {A : Type ℓ} (P : A → Type κ) (o : Option A) (a : A) → OnSome P o → o ≡ some a → P a
OnSome-apply P none a h e = cc
OnSome-apply {A = A} P (some b) a h e = subst P (ap value e) h
  where
    value : Option A → A
    value none = b
    value (some x) = x

pub OnSome-mono {ℓ κ μ} :
    {A : Type ℓ} (P : A → Type κ) (Q : A → Type μ) (o : Option A)
    → ((a : A) → P a → Q a)
    → OnSome P o
    → OnSome Q o
OnSome-mono P Q none f h = tt
OnSome-mono P Q (some a) f h = f a h
