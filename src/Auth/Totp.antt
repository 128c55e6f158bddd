-- ===== src/Auth/Totp.antt =====
-- internal/api/auth/totp.go: codes, and what a code does to the stored state. Times are Unix seconds.
pub mod Codes
pub mod Replay
pub mod Runs
use sierx.Prelude.{
  ℕ, zero, suc, ◌+◌, ◌-◌, ◌*◌, ◌/◌, ◌%◌, ◌^◌, ◌<◌, ◌≤◌, ◌≡◌, refl, Bool, true, false, ◌&&◌, Option,
  none, some, List, [], ◌∷◌, ◌++◌, Bytes, eqb_bytes, length, get_elem?, get_last?, ltb, leb, ◌==◌,
  arith, if◌then◌else◌,
}
use sierx.Prelude.Int.{ℤ, pos, negsuc, pos_part, neg_part, sub_ℕ, ◌+ℤ◌, ltb_ℤ}
use sierx.Prelude.Hex.{hex}

pub record TotpState : Type 0 where
  pub secret : Bytes
  pub active : Bool
  pub last_step : ℤ
  pub pending_until : ℤ
  pub recovery : List Bytes

-- crypto/hmac with crypto/sha1, and crypto/sha256.
pub record Digests : Type 0 where
  pub hmac_sha1 : Bytes → Bytes → Bytes
  pub sha256 : Bytes → Bytes

-- Go's `/ 30` rounds toward zero.
abbrev pub quot_30 : ℤ → ℤ
quot_30 z = sub_ℕ (pos_part z / 30) (neg_part z / 30)

abbrev pub times_30 : ℤ → ℤ
times_30 z = sub_ℕ (pos_part z * 30) (neg_part z * 30)

-- uint64 of an int64.
abbrev pub to_uint64 : ℤ → ℕ
to_uint64 (pos n) = n % 2 ^ 64
to_uint64 (negsuc n) = 2 ^ 64 - 1 - n % 2 ^ 64

abbrev pub big_endian_64 : ℕ → Bytes
big_endian_64 w =
    (w / 2 ^ 56 % 256)
    ∷ (w / 2 ^ 48 % 256)
    ∷ (w / 2 ^ 40 % 256)
    ∷ (w / 2 ^ 32 % 256)
    ∷ (w / 2 ^ 24 % 256)
    ∷ (w / 2 ^ 16 % 256)
    ∷ (w / 2 ^ 8 % 256)
    ∷ (w % 256)
    ∷ []

-- The digits of a number without leading zeros, none for 0; the fuel bounds their number.
abbrev pub leading_digits : ℕ → ℕ → Bytes
leading_digits zero n = []
leading_digits (suc f) n =
    let rest = leading_digits f (n / 10) in if n == 0 then [] else rest ++ (b'0' + n % 10) ∷ []

-- fmt's %06d of a uint32, which has at most ten digits.
abbrev pub six_digits : ℕ → Bytes
six_digits n =
    leading_digits 4 (n / 1000000)
    ++ (b'0' + n / 100000 % 10)
      ∷ (b'0' + n / 10000 % 10)
      ∷ (b'0' + n / 1000 % 10)
      ∷ (b'0' + n / 100 % 10)
      ∷ (b'0' + n / 10 % 10)
      ∷ (b'0' + n % 10)
      ∷ []

-- Four bytes at an index, as a number; none is an index out of range.
unfoldable pub uint32_at : Bytes → ℕ → Option ℕ
uint32_at sum off = elim (get_elem? sum off) [
  | none ↦ none
  | some a ↦ elim (get_elem? sum (off + 1)) [
    | none ↦ none
    | some b ↦ elim (get_elem? sum (off + 2)) [
      | none ↦ none
      | some c ↦ elim (get_elem? sum (off + 3)) [
        | none ↦ none
        | some d ↦ some (a * 2 ^ 24 + b * 2 ^ 16 + c * 2 ^ 8 + d)
      ]
    ]
  ]
]

unfoldable pub code_of_sum : Bytes → Option Bytes
unfolding uint32_at
code_of_sum sum = elim (get_last? sum) [
  | none ↦ none
  | some last ↦ elim (uint32_at sum (last % 16)) [
    | none ↦ none
    | some n ↦ some (six_digits (n % 2 ^ 31 % 1000000))
  ]
]

-- Code; none is a panic.
unfoldable pub code : Digests → Bytes → ℤ → Option Bytes
unfolding code_of_sum
code p secret at_unix =
    code_of_sum (p.hmac_sha1 secret (big_endian_64 (to_uint64 (quot_30 at_unix))))

-- The step of the code, if one of the candidates is above the last step and has it; none is a panic.
unfoldable pub matching_step : Digests → TotpState → Bytes → ℤ → List ℤ → Option (Option ℤ)
matching_step p state typed step [] = some none
matching_step p state typed step (offset ∷ offsets) =
    let rest = matching_step p state typed step offsets in
    let candidate = step +ℤ offset in
    if ltb_ℤ state.last_step candidate
    then elim (code p state.secret (times_30 candidate)) [
      | none ↦ none
      | some c ↦ if eqb_bytes typed c then some (some candidate) else rest
    ]
    else rest

-- The list without its first equal element, if there is one.
unfoldable pub without : Bytes → List Bytes → Option (List Bytes)
without x [] = none
without x (y ∷ ys) =
    let rest = without x ys in
    if eqb_bytes x y then some ys else elim rest [ none ↦ none | some zs ↦ some (y ∷ zs) ]

unfoldable pub consume_recovery : Digests → TotpState → Bytes → Bool → TotpState × Bool
unfolding without
consume_recovery p state typed allow_recovery =
    if allow_recovery
    then elim (without (hex (p.sha256 typed)) state.recovery) [
      | none ↦ (state, false)
      | some kept ↦ (record state { recovery = kept }, true)
    ]
    else (state, false)

abbrev pub clock_offsets : List ℤ
clock_offsets = pos 0 ∷ negsuc 0 ∷ pos 1 ∷ []

-- consumeCode: the new state, and whether the code is good; none is a panic.
unfoldable pub consume_code : Digests → TotpState → Bytes → ℤ → Bool → Option (TotpState × Bool)
unfolding matching_step consume_recovery
consume_code p state typed now allow_recovery =
    let by_recovery = some (consume_recovery p state typed allow_recovery) in
    if length typed == 6
    then elim (matching_step p state typed (quot_30 now) clock_offsets) [
      | none ↦ none
      | some none ↦ by_recovery
      | some (some candidate) ↦ some (record state { last_step = candidate }, true)
    ]
    else by_recovery
