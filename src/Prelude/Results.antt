-- ===== src/Prelude/Results.antt =====
-- A value or an error, for Go functions that return `(T, error)`, with the steps of their bodies.
use mathlib.Core.Path.{◌≡◌, refl, subst}
use mathlib.Core.Logic.{◌⊎◌, inl, inr}
use mathlib.Core.Bool.{Bool, true, false}
use mathlib.Core.Option.{Option, none, some}
use native.Mathlib.Omega.{arith}

pub data Result {ℓ κ} (E : Type ℓ) (A : Type κ) : Type (ℓ ⊔ κ) where
  err : E → Result E A
  ok : A → Result E A

module _ {ℓ κ} {E : Type ℓ} {A : Type κ} where
  infixl 5 ◌>>=◌
  abbrev pub ◌>>=◌ {μ} : {B : Type μ} → Result E A → (A → Result E B) → Result E B
  err e >>= next = err e
  ok x >>= next = next x

  abbrev pub or_fail : Option A → E → Result E A
  or_fail none e = err e
  or_fail (some a) e = ok a

  -- A step that only checks.
  infixl 5 ◌>>◌
  abbrev pub ◌>>◌ : Result E (Unit {0}) → Result E A → Result E A
  ok _ >> k = k
  err e >> k = err e

  pub ok-inj : {a b : A} → ◌≡◌ {A = Result E A} (ok a) (ok b) → a ≡ b
  ok-inj e = cc

  pub Result-cases : (r : Result E A) → ((a : A) × (r ≡ ok a)) ⊎ ((e : E) × (r ≡ err e))
  Result-cases (ok a) = inl (a, refl)
  Result-cases (err e) = inr (e, refl)

  -- Both steps of a successful bind.
  pub bind-value {μ} :
      {B : Type μ} {y : B} (r : Result E A) (k : A → Result E B)
      → (r >>= k) ≡ ok y
      → (x : A) × (r ≡ ok x) × (k x ≡ ok y)
  bind-value (err e) k found = cc
  bind-value (ok x) k found = (x, refl, found)

  pub or_fail-eq-ok : (o : Option A) (e : E) {a : A} → or_fail o e ≡ ok a → o ≡ some a
  or_fail-eq-ok o e h = ground arith

  -- If there is a value, `P` holds of it.
  pub data Ensures {μ} (P : A → Type μ) : Result E A → Type (ℓ ⊔ κ ⊔ μ) where
    holds : {a : A} → P a → Ensures P (ok a)
    fails : {e : E} → Ensures P (err e)

  pub Ensures-eq_ok {μ} : {P : A → Type μ} {r : Result E A} {a : A} → Ensures P r → r ≡ ok a → P a
  Ensures-eq_ok {P} (holds h) e = subst P (ok-inj e) h
  Ensures-eq_ok fails e = cc

module _ {ℓ} {E : Type ℓ} where
  abbrev pub guard : Bool → E → Result E (Unit {0})
  guard true e = ok tt
  guard false e = err e

  pub >>-eq-ok {κ} :
      {A : Type κ} (b : Bool) (e : E) (k : Result E A) {a : A}
      → (guard b e >> k) ≡ ok a
      → (b ≡ true) × (k ≡ ok a)
  >>-eq-ok true e k h = (refl, h)
  >>-eq-ok false e k h = cc

module _ {ℓ κ μ ν} {E : Type ℓ} {A : Type κ} {B : Type μ} {P : B → Type ν} where
  pub Ensures-bind :
      (m : Result E A) (f : A → Result E B)
      → ((a : A) → m ≡ ok a → Ensures P (f a))
      → Ensures P (m >>= f)
  Ensures-bind (ok a) f h = h a refl
  Ensures-bind (err e) f h = fails

  pub Ensures-or_fail :
      (o : Option A) (e : E) (f : A → Result E B)
      → ((a : A) → o ≡ some a → Ensures P (f a))
      → Ensures P (or_fail o e >>= f)
  Ensures-or_fail none e f h = fails
  Ensures-or_fail (some a) e f h = h a refl

module _ {ℓ κ ν} {E : Type ℓ} {B : Type κ} {P : B → Type ν} where
  pub Ensures-guard :
      (b : Bool) (e : E) (k : Result E B) → (b ≡ true → Ensures P k) → Ensures P (guard b e >> k)
  Ensures-guard true e k h = h refl
  Ensures-guard false e k h = fails
