-- ===== src/Prelude/Splits.antt =====
-- strings.Split at one byte.
use Prim.Native.Nat.{ℕ}
use mathlib.Core.Path.{◌≡◌, refl}
use mathlib.Core.Logic.{◌≢◌}
use mathlib.Core.List.{List, [], ◌∷◌, ◌++◌}
use native.Mathlib.Omega.{arith}
use sierx.Prelude.Lists.{All}
use sierx.Prelude.Strings.{Bytes}
use sierx.Prelude.Tests.{◌==◌, if◌then◌else◌}

unfoldable pub onto_first : ℕ → List Bytes → List Bytes
onto_first c [] = []
onto_first c (w ∷ ws) = (c ∷ w) ∷ ws

unfoldable pub split_on : ℕ → Bytes → List Bytes
unfolding onto_first
split_on sep [] = [] ∷ []
split_on sep (c ∷ s) =
    let rest = split_on sep s in if c == sep then [] ∷ rest else onto_first c rest

pub split_on-append :
    (sep : ℕ) (w s : Bytes)
    → All (λ c. c ≢ sep) w
    → split_on sep (w ++ sep ∷ s) ≡ w ∷ split_on sep s
unfolding split_on
split_on-append sep [] s h = ground arith
split_on-append sep (c ∷ w) s (ne, h) = ground (arith, split_on-append sep w s h)

pub split_on_lem : (sep : ℕ) (w : Bytes) → All (λ c. c ≢ sep) w → split_on sep w ≡ w ∷ []
unfolding split_on
split_on_lem sep [] h = refl
split_on_lem sep (c ∷ w) (ne, h) = ground (arith, split_on_lem sep w h)
