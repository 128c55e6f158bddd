-- ===== src/Sxq/Utf8.antt =====
-- What internal/sxq/lexer.go uses of Go's unicode/utf8: ValidString.
use sierx.Prelude.{
  ℕ, zero, suc, ◌≡◌, refl, Bool, true, false, ◌&&◌, Option, none, some, [], ◌∷◌, Bytes, ltb, leb,
  ◌==◌, if◌then◌else◌, ◌<◌, ◌≤◌, arith, inl, inr, Option-cases,
}

-- What may follow a first byte: how many bytes, and the range of the next one.
first_byte : ℕ → Option (ℕ × ℕ × ℕ)
first_byte c =
    if ltb c 0x80
    then some (0, 0, 0)
    else if ltb c 0xC2
    then none
    else if ltb c 0xE0
    then some (1, 0x80, 0xBF)
    else if ltb c 0xF0
    then some (2, (if c == 0xE0 then 0xA0 else 0x80), (if c == 0xED then 0x9F else 0xBF))
    else if ltb c 0xF5
    then some (3, (if c == 0xF0 then 0x90 else 0x80), (if c == 0xF4 then 0x8F else 0xBF))
    else none

-- `due` continuation bytes are missing, the next one between `lo` and `hi`.
pub scan_utf8 : ℕ → ℕ → ℕ → Bytes → Bool
scan_utf8 zero lo hi [] = true
scan_utf8 (suc due) lo hi [] = false
scan_utf8 zero lo hi (c ∷ s) = elim (first_byte c) [
  | none ↦ false
  | some (due, lo', hi') ↦ scan_utf8 due lo' hi' s
]
scan_utf8 (suc due) lo hi (c ∷ s) = leb lo c && leb c hi && scan_utf8 due 0x80 0xBF s

unfoldable pub valid_utf8 : Bytes → Bool
unfolding scan_utf8 first_byte
valid_utf8 s = scan_utf8 0 0 0 s

-- An ASCII byte between two characters changes nothing.
pub scan_ascii :
    (lo hi c : ℕ) (s : Bytes) → c < 0x80 → scan_utf8 0 lo hi (c ∷ s) ≡ scan_utf8 0 0 0 s
unfolding scan_utf8 first_byte
scan_ascii lo hi c s h = ground arith

first_byte_range : (c d lo hi : ℕ) → first_byte c ≡ some (d, lo, hi) → 0 < d → 0x80 ≤ lo
unfolding first_byte
first_byte_range c d lo hi h more = ground arith

-- What a valid scan says of its first byte, whatever stands behind it.
abbrev pub Continues : ℕ → ℕ → ℕ → ℕ → Type 0
Continues due lo hi c =
    (d : ℕ) × (l : ℕ) × (k : ℕ) × (0 < d → 0x80 ≤ l)
    × ((t : Bytes) → scan_utf8 due lo hi (c ∷ t) ≡ scan_utf8 d l k t)

scan_none : (lo hi c : ℕ) (s : Bytes) → first_byte c ≡ none → scan_utf8 0 lo hi (c ∷ s) ≡ false
unfolding scan_utf8
scan_none lo hi c s e = rw (e, scan_utf8)

scan_some :
    (lo hi c d l k : ℕ) (s : Bytes)
    → first_byte c ≡ some (d, l, k)
    → scan_utf8 0 lo hi (c ∷ s) ≡ scan_utf8 d l k s
unfolding scan_utf8
scan_some lo hi c d l k s e = rw (e, scan_utf8)

pub scan_start : (lo hi c : ℕ) (s : Bytes) → scan_utf8 0 lo hi (c ∷ s) ≡ true → Continues 0 lo hi c
scan_start lo hi c s h = elim (Option-cases (first_byte c)) [
  | inl e ↦ cc (scan_none lo hi c s e)
  | inr ((d, l, k), e) ↦ (d, l, k, first_byte_range c d l k e, λ t. scan_some lo hi c d l k t e)
]

pub scan_next :
    (due lo hi c : ℕ) (s : Bytes)
    → scan_utf8 (suc due) lo hi (c ∷ s) ≡ true
    → (lo ≤ c) × Continues (suc due) lo hi c
unfolding scan_utf8
scan_next due lo hi c s h = (ground arith, (due, 0x80, 0xBF, λ p. omega arith, λ t. ground arith))

pub scan_end : (lo hi : ℕ) → scan_utf8 0 lo hi [] ≡ true
unfolding scan_utf8
scan_end lo hi = refl

pub scan_short : (due lo hi : ℕ) → scan_utf8 (suc due) lo hi [] ≡ false
unfolding scan_utf8
scan_short due lo hi = refl
