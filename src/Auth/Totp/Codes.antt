-- ===== src/Auth/Totp/Codes.antt =====
-- The digits of Code, and the indices that it reads.
use sierx.Prelude.{
  ℕ, zero, suc, ◌+◌, ◌-◌, ◌*◌, ◌/◌, ◌%◌, ◌^◌, ◌<◌, ◌≤◌, ◌≡◌, refl, some, List, [], ◌∷◌, Bytes,
  length, get_elem?, get_last?, arith, All,
}
use sierx.Prelude.Int.{ℤ}
use sierx.Auth.Totp.{
  Digests, quot_30, to_uint64, big_endian_64, six_digits, uint32_at, code_of_sum, code,
}

-- An HMAC with SHA-1 has 20 bytes.
abbrev pub IsSha1 : Digests → Type 0
IsSha1 p = (key text : Bytes) → length (p.hmac_sha1 key text) ≡ 20

get_elem?-lt {ℓ} :
    {A : Type ℓ} (xs : List A) (i : ℕ) → i < length xs → (x : A) × (get_elem? xs i ≡ some x)
get_elem?-lt [] i h = absurd (omega arith)
get_elem?-lt (x ∷ xs) zero h = (x, refl)
get_elem?-lt (x ∷ xs) (suc i) h = get_elem?-lt xs i (omega arith)

get_last?-pos {ℓ} : {A : Type ℓ} (xs : List A) → 0 < length xs → (x : A) × (get_last? xs ≡ some x)
get_last?-pos [] h = absurd (omega arith)
get_last?-pos (x ∷ []) h = (x, refl)
get_last?-pos (x ∷ y ∷ xs) h = get_last?-pos (y ∷ xs) (omega arith)

uint32_at_total :
    (sum : Bytes) (off : ℕ) → off + 4 ≤ length sum → (n : ℕ) × (uint32_at sum off ≡ some n)
unfolding uint32_at
uint32_at_total sum off h =
    let (a, ea) = get_elem?-lt sum off (omega arith) in
    let (b, eb) = get_elem?-lt sum (off + 1) (omega arith) in
    let (c, ec) = get_elem?-lt sum (off + 2) (omega arith) in
    let (d, ed) = get_elem?-lt sum (off + 3) (omega arith) in
    (a * 2 ^ 24 + b * 2 ^ 16 + c * 2 ^ 8 + d, rw (ea, eb, ec, ed, uint32_at) refl)

abbrev pub IsDigit : ℕ → Type 0
IsDigit c = (b'0' ≤ c) × (c ≤ b'9')

IsDigit-mod : (m : ℕ) → IsDigit (b'0' + m % 10)
IsDigit-mod m = omega arith

-- The number that a text of digits stands for.
pub value_of : ℕ → Bytes → ℕ
value_of n [] = n
value_of n (c ∷ s) = value_of (n * 10 + (c - b'0')) s

-- Six digits that stand for `n`.
pub record IsSixDigits (n : ℕ) (c : Bytes) : Type 0 where
  pub six : length c ≡ 6
  pub digits : All IsDigit c
  pub value : value_of 0 c ≡ n

six_digits-IsSixDigits : (n : ℕ) → n < 1000000 → IsSixDigits n (six_digits n)
unfolding value_of
six_digits-IsSixDigits n small =
    let none_leading : n / 1000000 ≡ 0 = omega (arith, small) in
    rw none_leading (record {
      six = refl;
      digits = (
        IsDigit-mod (n / 100000),
        (
          IsDigit-mod (n / 10000),
          (
            IsDigit-mod (n / 1000),
            (IsDigit-mod (n / 100), (IsDigit-mod (n / 10), (IsDigit-mod n, tt))),
          ),
        ),
      );
      value = omega (arith, small);
    })

-- The dynamic truncation of RFC 4226: 31 bits of the digest at the offset that its last byte gives.
pub record IsTruncated (sum : Bytes) (n : ℕ) : Type 0 where
  pub last : ℕ
  pub word : ℕ
  pub is_last : get_last? sum ≡ some last
  pub at_offset : uint32_at sum (last % 16) ≡ some word
  pub low_bits : n ≡ word % 2 ^ 31

-- For every secret and time Code returns, without an index out of range, six decimal digits, whose value is the last six
-- digits of the truncated digest. (HMAC-SHA1 has 20 bytes.)
pub code_total :
    (p : Digests) (secret : Bytes) (at_unix : ℤ)
    → IsSha1 p
    → (c : Bytes) × (n : ℕ) × (code p secret at_unix ≡ some c)
      × IsTruncated (p.hmac_sha1 secret (big_endian_64 (to_uint64 (quot_30 at_unix)))) n
      × IsSixDigits (n % 1000000) c
unfolding code code_of_sum
code_total p secret at_unix sized =
    let sum = p.hmac_sha1 secret (big_endian_64 (to_uint64 (quot_30 at_unix))) in
    let size = sized secret (big_endian_64 (to_uint64 (quot_30 at_unix))) in
    let (last, el) = get_last?-pos sum (omega (arith, size)) in
    let (n, en) = uint32_at_total sum (last % 16) (omega (arith, size)) in
    (
      six_digits (n % 2 ^ 31 % 1000000),
      n % 2 ^ 31,
      rw (el, en, code_of_sum) refl,
      record { last = last; word = n; is_last = el; at_offset = en; low_bits = refl },
      six_digits-IsSixDigits (n % 2 ^ 31 % 1000000) (omega arith),
    )
