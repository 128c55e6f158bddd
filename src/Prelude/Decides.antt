-- ===== src/Prelude/Decides.antt =====
-- Checks that accept just what a predicate says.
use mathlib.Core.Path.{◌≡◌, refl}
use mathlib.Core.Bool.{Bool, true, false}
use sierx.Prelude.Results.{Result, ok, err, ◌>>◌, guard}

-- There is a value exactly if `P` holds.
pub data Decides {ℓ κ μ} {E : Type ℓ} {A : Type κ} (P : Type μ)
    : Result E A → Type (ℓ ⊔ κ ⊔ μ) where
  accepted : {a : A} → P → Decides P (ok a)
  refused : {e : E} → ¬ P → Decides P (err e)

module _ {ℓ} {E : Type ℓ} where
  pub Decides-guard : (b : Bool) (e : E) → Decides (b ≡ true) (guard b e)
  Decides-guard true e = accepted refl
  Decides-guard false e = refused (λ h. cc)

  pub Decides-step {κ μ ν} :
      {A : Type κ} {P : Type μ} {Q : Type ν} {m : Result E (Unit {0})} {k : Result E A}
      → Decides P m
      → Decides Q k
      → Decides (P × Q) (m >> k)
  Decides-step (refused np) d = refused (λ h. np h.0)
  Decides-step (accepted p) (accepted q) = accepted (p, q)
  Decides-step (accepted p) (refused nq) = refused (λ h. nq h.1)

  pub Decides-map {κ μ ν} :
      {A : Type κ} {P : Type μ} {Q : Type ν} {m : Result E A}
      → (P → Q)
      → (Q → P)
      → Decides P m
      → Decides Q m
  Decides-map f g (accepted p) = accepted (f p)
  Decides-map f g (refused np) = refused (λ q. np (g q))
