-- ===== src/Rank/Encode.antt =====
-- rankEncode of rank.go: fixed-width numerals, in the order of the numbers.
use Prim.Native.Nat.{◌^◌}
use native.Mathlib.Nat.{pow-suc}
use sierx.Prelude.{
  ℕ, false, zero, suc, ◌/◌, ◌%◌, ◌<◌, ◌≡◌, refl, sym, ap, ◌∙◌, ◌⊎◌, inl, inr, true, some, [], ◌∷◌,
  ◌++◌, append_assoc, append-nil, arith, Bytes, ltb_bytes, ltb_bytes_extend, ltb_bytes_prefix,
  ltb_bytes_lt, lt_or_ge, length, length-append, All-append,
}
use sierx.Rank.{fill_digits, rank_encode, is_negative}
use sierx.Rank.Digits.{IsDigit, AllDigits, digit, digit-IsDigit, digit_mono, alphabet_at-digit}

-- The last `width` digits of `v`, in base 36.
pub numeral : ℕ → ℕ → Bytes
numeral zero v = []
numeral (suc width) v = numeral width (v / 36) ++ digit (v % 36) ∷ []

fill_digits-numeral :
    (width v : ℕ) (buf : Bytes) → fill_digits width v buf ≡ some (numeral width v ++ buf)
unfolding fill_digits numeral
fill_digits-numeral zero v buf = refl
fill_digits-numeral (suc width) v buf =
    let last = digit (v % 36) in
    ground (
      arith,
      alphabet_at-digit (v % 36),
      fill_digits-numeral width (v / 36) (last ∷ buf),
      append_assoc (numeral width (v / 36)) (last ∷ []) buf,
    )

pub rank_encode-numeral : (v width : ℕ) → v < 2 ^ 63 → rank_encode v width ≡ some (numeral width v)
unfolding rank_encode
rank_encode-numeral v width small =
    let positive : is_negative v ≡ false = ground (arith, small) in
    rw (positive, rank_encode) (fill_digits-numeral width v [] ∙ ap some (append-nil _))

pub length-numeral : (width v : ℕ) → length (numeral width v) ≡ width
unfolding numeral
length-numeral zero v = refl
length-numeral (suc width) v = omega (
  arith,
  length-append (numeral width (v / 36)) (digit (v % 36) ∷ []),
  length-numeral width (v / 36),
)

pub numeral-AllDigits : (width v : ℕ) → AllDigits (numeral width v)
unfolding numeral
numeral-AllDigits zero v = tt
numeral-AllDigits (suc width) v =
    All-append IsDigit (numeral width (v / 36)) _ (numeral-AllDigits width (v / 36))
      (digit-IsDigit (v % 36) (omega arith), tt)

quotients : (v w : ℕ) → v < w → (v / 36 < w / 36) ⊎ ((v / 36 ≡ w / 36) × (v % 36 < w % 36))
quotients v w h = elim (lt_or_ge (v / 36) (w / 36)) [
  | inl lt ↦ inl lt
  | inr ge ↦ inr (omega arith, omega arith)
]

pub numeral_mono :
    (width v w : ℕ) → v < w → w < 36 ^ width → ltb_bytes (numeral width v) (numeral width w) ≡ true
unfolding numeral
numeral_mono zero v w h fits = absurd (omega arith)
numeral_mono (suc width) v w h fits = elim (quotients v w h) [
  | inl lt ↦
      ltb_bytes_extend (numeral width (v / 36)) (numeral width (w / 36)) _ _
        (length-numeral width (v / 36) ∙ sym (length-numeral width (w / 36)))
        (numeral_mono width (v / 36) (w / 36) lt (omega (arith, pow-suc 36 width)))
  | inr (e, lt) ↦
      rw e
        (ltb_bytes_prefix (numeral width (w / 36)) _ _ ∙ ltb_bytes_lt _ _ [] [] (digit_mono _ _ lt))
]
