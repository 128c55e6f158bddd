-- ===== src/Rank/Digits.antt =====
-- The digits of rank.go's alphabet and the values they stand for.
use sierx.Prelude.{
  ℕ, zero, suc, ◌+◌, ◌-◌, ◌≤◌, ◌<◌, ◌≡◌, ◌≢◌, refl, ◌⊎◌, inl, inr, Bool, true, false, Option, none,
  some, arith, Bytes, ltb, leb, ◌==◌, if◌then◌else◌, All,
}
use sierx.Prelude.Int.{ℤ, pos, eqb_ℤ}
use sierx.Rank.{rank_index, alphabet_at}

abbrev pub IsDigit : ℕ → Type 0
IsDigit b = ((b'0' ≤ b) × (b ≤ b'9')) ⊎ ((b'a' ≤ b) × (b ≤ b'z'))

abbrev pub AllDigits : Bytes → Type 0
AllDigits = All IsDigit

-- The value of a digit, and the digit of a value.
pub value : ℕ → ℕ
value b = if leb b b'9' then b - 48 else b - 87

pub digit : ℕ → ℕ
digit d = if ltb d 10 then d + 48 else d + 87

-- A test of the values from 0 on, as many as `count`.
passes : (ℕ → Bool) → ℕ → Bool
passes test zero = true
passes test (suc count) = if test count then passes test count else false

passes-lt : (test : ℕ → Bool) (count d : ℕ) → passes test count ≡ true → d < count → test d ≡ true
unfolding passes
passes-lt test zero d table below = absurd (omega arith)
passes-lt test (suc count) d table below = ground (arith, passes-lt test count d)

index_table : passes (λ d. eqb_ℤ (rank_index (digit d)) (pos d)) 36 ≡ true
unfolding passes rank_index digit
index_table = refl

is_some_of : Option ℕ → ℕ → Bool
is_some_of none b = false
is_some_of (some a) b = a == b

alphabet_table : passes (λ d. is_some_of (alphabet_at (pos d)) (digit d)) 36 ≡ true
unfolding passes is_some_of alphabet_at digit
alphabet_table = refl

eqb_ℤ→eq : (a : ℤ) (d : ℕ) → eqb_ℤ a (pos d) ≡ true → a ≡ pos d
eqb_ℤ→eq a d h = ground arith

is_some_of→eq : (o : Option ℕ) (b : ℕ) → is_some_of o b ≡ true → o ≡ some b
unfolding is_some_of
is_some_of→eq none b h = ground arith
is_some_of→eq (some a) b h = ground arith

rank_index-digit : (d : ℕ) → d < 36 → rank_index (digit d) ≡ pos d
rank_index-digit d h = eqb_ℤ→eq _ d (passes-lt _ 36 d index_table h)

pub alphabet_at-digit : (d : ℕ) → d < 36 → alphabet_at (pos d) ≡ some (digit d)
alphabet_at-digit d h = is_some_of→eq _ _ (passes-lt _ 36 d alphabet_table h)

pub value_lt : (b : ℕ) → IsDigit b → value b < 36
unfolding value
value_lt b h = ground arith

pub digit-value : (b : ℕ) → IsDigit b → digit (value b) ≡ b
unfolding digit value
digit-value b h = ground arith

pub digit-IsDigit : (d : ℕ) → d < 36 → IsDigit (digit d)
unfolding digit
digit-IsDigit d h = elim (dec d) [ inl p ↦ inl (ground arith) | inr p ↦ inr (ground arith) ]
  where
    dec : (n : ℕ) → (n < 10) ⊎ (10 ≤ n)
    dec n = omega arith

-- Bytes and values are in the same order.
pub value_mono : (a b : ℕ) → IsDigit a → IsDigit b → a < b → value a < value b
unfolding value
value_mono a b ha hb h = ground arith

pub digit_mono : (d e : ℕ) → d < e → digit d < digit e
unfolding digit
digit_mono d e h = ground arith

pub rank_index-value : (b : ℕ) → IsDigit b → rank_index b ≡ pos (value b)
rank_index-value b h = cc (rank_index-digit (value b) (value_lt b h), digit-value b h)

pub alphabet_at-value : (b : ℕ) → IsDigit b → alphabet_at (pos (value b)) ≡ some b
alphabet_at-value b h = cc (alphabet_at-digit (value b) (value_lt b h), digit-value b h)

pub digit_nonzero : (d : ℕ) → 0 < d → digit d ≢ b'0'
unfolding digit
digit_nonzero d h e = absurd (ground arith)

pub lt-digit : (b d : ℕ) → IsDigit b → value b < d → b < digit d
unfolding value digit
lt-digit b d hb h = ground arith

pub digit-lt : (b d : ℕ) → IsDigit b → d < value b → digit d < b
unfolding value digit
digit-lt b d hb h = ground arith

pub digit_zero : digit 0 ≡ b'0'
unfolding digit
digit_zero = refl

pub zero_IsDigit : IsDigit b'0'
zero_IsDigit = inl (omega arith)

pub eq_zero : (b : ℕ) → IsDigit b → value b ≡ 0 → b ≡ b'0'
unfolding value
eq_zero b h e = ground arith

pub zero-lt : (b : ℕ) → IsDigit b → 0 < value b → b'0' < b
unfolding value
zero-lt b h e = ground arith

pub value_zero : value b'0' ≡ 0
unfolding value
value_zero = refl
