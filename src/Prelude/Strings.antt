-- ===== src/Prelude/Strings.antt =====
-- Go strings as lists of bytes, with Go's comparison and equality.
use Prim.Native.Nat.{ℕ, ◌<◌}
use Prim.Native.Char.{code}
use Prim.Native.String.{String}
use mathlib.Core.Path.{◌≡◌, refl}
use mathlib.Core.Bool.{Bool, true, false, ◌&&◌}
use mathlib.Core.List.{List, [], ◌∷◌, ◌++◌}
use mathlib.Core.Logic.{◌↔◌, ◌⊎◌}
use native.Mathlib.Omega.{arith}
use sierx.Prelude.Lists.{length}
use sierx.Prelude.Tests.{ltb, ◌==◌, if◌then◌else◌}

abbrev pub Bytes : Type 0
Bytes = List ℕ

-- The code points of a literal: its bytes, since the literals here are ASCII.
abbrev pub codes : String → Bytes
codes String.[] = []
codes (String.◌∷◌ c s) = code c ∷ codes s

-- Go's `<` on strings: bytewise, a proper prefix first.
unfoldable pub ltb_bytes : Bytes → Bytes → Bool
ltb_bytes xs [] = false
ltb_bytes [] (y ∷ ys) = true
ltb_bytes (x ∷ xs) (y ∷ ys) = if ltb x y then true else if x == y then ltb_bytes xs ys else false

-- Go's `==` on strings.
unfoldable pub eqb_bytes : Bytes → Bytes → Bool
eqb_bytes [] [] = true
eqb_bytes [] (y ∷ ys) = false
eqb_bytes (x ∷ xs) [] = false
eqb_bytes (x ∷ xs) (y ∷ ys) = x == y && eqb_bytes xs ys

pub eqb_bytes_refl : (xs : Bytes) → eqb_bytes xs xs ≡ true
unfolding eqb_bytes
eqb_bytes_refl [] = refl
eqb_bytes_refl (x ∷ xs) = ground (arith, eqb_bytes_refl xs)

pub eq_of_eqb_bytes : (xs ys : Bytes) → eqb_bytes xs ys ≡ true → xs ≡ ys
unfolding eqb_bytes
eq_of_eqb_bytes [] [] h = refl
eq_of_eqb_bytes [] (y ∷ ys) h = ground arith
eq_of_eqb_bytes (x ∷ xs) [] h = ground arith
eq_of_eqb_bytes (x ∷ xs) (y ∷ ys) h = ground (arith, eq_of_eqb_bytes xs ys)

pub eqb_bytes_iff : (xs ys : Bytes) → (eqb_bytes xs ys ≡ true) ↔ (xs ≡ ys)
eqb_bytes_iff xs ys = (eq_of_eqb_bytes xs ys, λ e. rw e (eqb_bytes_refl ys))

pub ltb_bytes_irrefl : (xs : Bytes) → ltb_bytes xs xs ≡ false
unfolding ltb_bytes
ltb_bytes_irrefl [] = refl
ltb_bytes_irrefl (x ∷ xs) = ground (arith, ltb_bytes_irrefl xs)

pub ltb_bytes_trans :
    (xs ys zs : Bytes) → ltb_bytes xs ys ≡ true → ltb_bytes ys zs ≡ true → ltb_bytes xs zs ≡ true
unfolding ltb_bytes
ltb_bytes_trans xs ys [] h k = ground arith
ltb_bytes_trans [] ys (z ∷ zs) h k = refl
ltb_bytes_trans (x ∷ xs) [] (z ∷ zs) h k = ground arith
ltb_bytes_trans (x ∷ xs) (y ∷ ys) (z ∷ zs) h k = ground (arith, ltb_bytes_trans xs ys zs)

-- A common prefix does not matter.
pub ltb_bytes_prefix : (p xs ys : Bytes) → ltb_bytes (p ++ xs) (p ++ ys) ≡ ltb_bytes xs ys
unfolding ltb_bytes
ltb_bytes_prefix [] xs ys = refl
ltb_bytes_prefix (c ∷ p) xs ys = ground (arith, ltb_bytes_prefix p xs ys)

pub ltb_bytes_lt : (x y : ℕ) (xs ys : Bytes) → x < y → ltb_bytes (x ∷ xs) (y ∷ ys) ≡ true
unfolding ltb_bytes
ltb_bytes_lt x y xs ys h = ground arith

pub ltb_bytes_same : (c : ℕ) (xs ys : Bytes) → ltb_bytes (c ∷ xs) (c ∷ ys) ≡ ltb_bytes xs ys
unfolding ltb_bytes
ltb_bytes_same c xs ys = ground arith

pub ltb_bytes_nil : (s : Bytes) → ltb_bytes s [] ≡ false
unfolding ltb_bytes
ltb_bytes_nil [] = refl
ltb_bytes_nil (c ∷ s) = refl

-- Which comparison of the heads makes one string less than another.
pub ltb_bytes_cons :
    (x y : ℕ) (xs ys : Bytes)
    → ltb_bytes (x ∷ xs) (y ∷ ys) ≡ true
    → (x < y) ⊎ ((x ≡ y) × (ltb_bytes xs ys ≡ true))
unfolding ltb_bytes
ltb_bytes_cons x y xs ys h = ground arith

pub ltb_bytes-append : (s : Bytes) (c : ℕ) (t : Bytes) → ltb_bytes s (s ++ c ∷ t) ≡ true
unfolding ltb_bytes
ltb_bytes-append [] c t = refl
ltb_bytes-append (x ∷ s) c t = ground (arith, ltb_bytes-append s c t)

-- Strings of one length are compared at their first difference, whatever stands behind them.
pub ltb_bytes_extend :
    (xs ys s t : Bytes)
    → length xs ≡ length ys
    → ltb_bytes xs ys ≡ true
    → ltb_bytes (xs ++ s) (ys ++ t) ≡ true
unfolding ltb_bytes
ltb_bytes_extend xs [] s t e h = cc (ltb_bytes_nil xs)
ltb_bytes_extend [] (y ∷ ys) s t e h = absurd (omega arith)
ltb_bytes_extend (x ∷ xs) (y ∷ ys) s t e h = ground (arith, ltb_bytes_extend xs ys s t)

pub eqb_bytes_comm : (xs ys : Bytes) → eqb_bytes xs ys ≡ eqb_bytes ys xs
unfolding eqb_bytes
eqb_bytes_comm [] [] = refl
eqb_bytes_comm [] (y ∷ ys) = refl
eqb_bytes_comm (x ∷ xs) [] = refl
eqb_bytes_comm (x ∷ xs) (y ∷ ys) = ground (arith, eqb_bytes_comm xs ys)
