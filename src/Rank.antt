-- ===== src/Rank.antt =====
-- internal/store/rank.go: ordering keys over the digits 0-9a-z, placed between two neighbours.
-- A rank is a Go string, a list of bytes; positions and digits are Go ints, so a byte outside the
-- alphabet has the index -1 and indexing the alphabet by it panics.
pub mod Digits
pub mod Rounds
pub mod Search
pub mod Between
pub mod Endless
pub mod Lengths
mod Examples
pub mod Encode
pub mod Sequence
use sierx.Prelude.{
  ℕ, zero, suc, ◌+◌, ◌-◌, ◌*◌, ◌/◌, ◌%◌, ◌^◌, Bool, true, false, not, ◌&&◌, ◌||◌, Option, none,
  some, List, [], ◌∷◌, ◌++◌, Bytes, codes, ltb, leb, ◌==◌, if◌then◌else◌, ltb_bytes, length,
  get_elem?, get_last?, init,
}
use sierx.Prelude.Int.{ℤ, pos, negsuc, ◌+ℤ◌, ◌-ℤ◌, ltb_ℤ, eqb_ℤ}

pub rank_alphabet : Bytes
rank_alphabet = codes "0123456789abcdefghijklmnopqrstuvwxyz"

abbrev pub rank_rebalance_threshold : ℕ
rank_rebalance_threshold = 40

abbrev pub rank_first : Bytes
rank_first = codes "n"

-- The string that RankBetween returns, its ErrRankOrder, an index out of range, or more rounds
-- than the fuel allows.
pub data Outcome : Type 0 where
  ranked : Bytes → Outcome
  rank_order : Outcome
  panicked : Outcome
  out_of_fuel : Outcome

-- strings.IndexByte, counting from `i`.
index_byte : ℕ → Bytes → ℕ → ℤ
index_byte i [] b = negsuc 0
index_byte i (c ∷ s) b = if c == b then pos i else index_byte (suc i) s b

pub rank_index : ℕ → ℤ
unfolding index_byte rank_alphabet
rank_index b = index_byte 0 rank_alphabet b

pub rank_at : Bytes → ℕ → ℤ
rank_at s i = elim (get_elem? s i) [ none ↦ pos 0 | some b ↦ rank_index b ]

-- rankAlphabet[d]; `none` is the panic.
pub alphabet_at : ℤ → Option ℕ
unfolding rank_alphabet
alphabet_at (pos d) = get_elem? rank_alphabet d
alphabet_at (negsuc d) = none

-- x / 2, rounded towards zero.
abbrev pub half : ℤ → ℤ
half (pos n) = pos (n / 2)
half (negsuc n) = if (n + 1) / 2 == 0 then pos 0 else negsuc ((n + 1) / 2 - 1)

-- b.WriteByte(rankAlphabet[d]), and what follows it.
abbrev pub write_digit : Bytes → ℤ → (Bytes → Outcome) → Outcome
write_digit out d next = elim (alphabet_at d) [ none ↦ panicked | some b ↦ next (out ++ b ∷ []) ]

-- One round of the inner loop over j, `next` the rounds after it.
pub extend_step : (Bytes → Outcome) → ℤ → Bytes → Outcome
extend_step next dl out = elim (ltb_ℤ dl (pos 35)) [
  | true ↦ write_digit out (half (dl +ℤ pos 36)) ranked
  | false ↦ write_digit out dl next
]

-- The inner loop over j: past the remainder of `lo`.
pub extend : ℕ → Bytes → ℕ → Bytes → Outcome
unfolding extend_step
extend zero lo j out = out_of_fuel
extend (suc f) lo j out = extend_step (extend f lo (suc j)) (rank_at lo j) out

-- One round of the outer loop over i: `next` the rounds after it, `past` the inner loop.
pub descend_step : (Bytes → Outcome) → (Bytes → Outcome) → ℤ → ℤ → Bytes → Outcome
descend_step next past dlo dhi out = elim (eqb_ℤ dlo dhi) [
  | true ↦ write_digit out dlo next
  | false ↦ elim (ltb_ℤ (pos 1) (dhi -ℤ dlo)) [
    | true ↦ write_digit out (half (dlo +ℤ dhi)) ranked
    | false ↦ write_digit out dlo past
  ]
]

-- The outer loop over i: down the shared prefix.
pub descend : ℕ → Bytes → Bytes → ℕ → Bytes → Outcome
unfolding extend descend_step
descend zero lo hi i out = out_of_fuel
descend (suc f) lo hi i out =
    descend_step (descend f lo hi (suc i)) (extend f lo (suc i)) (rank_at lo i) (rank_at hi i) out

abbrev pub is_empty : Bytes → Bool
is_empty [] = true
is_empty (c ∷ s) = false

-- The branch with no upper bound: bump the last digit if there is room, else append.
pub after_digit : Bytes → ℤ → Outcome
after_digit lo d =
    if ltb_ℤ d (pos 35)
    then write_digit (init lo) (d +ℤ pos 1) ranked
    else ranked (lo ++ rank_first)

pub after_last : Bytes → Option ℕ → Outcome
unfolding after_digit
after_last lo none = ranked rank_first
after_last lo (some b) = after_digit lo (rank_index b)

pub rank_after : Bytes → Outcome
unfolding after_last
rank_after lo = after_last lo (get_last? lo)

pub rank_between : ℕ → Bytes → Bytes → Outcome
unfolding rank_after descend
rank_between fuel lo hi =
    if not (is_empty lo) && (not (is_empty hi) && not (ltb_bytes lo hi))
    then rank_order
    else if is_empty hi
    then rank_after lo
    else descend fuel lo hi 0 []

pub rank_needs_rebalance : Bytes → Bool
rank_needs_rebalance rank = ltb rank_rebalance_threshold (length rank)

-- `int` is 64 bits wide: a product keeps its low 64 bits. From 2^63 on they stand for a negative number. Sums as n + 2
-- do not overflow, since there is no slice of 2^62 strings.
abbrev pub mul_int : ℕ → ℕ → ℕ
mul_int a b = (a * b) % 2 ^ 64

abbrev pub is_negative : ℕ → Bool
is_negative a = leb (2 ^ 63) a

-- a < b for a product `a` and a `b` below 2^63, and b < a.
abbrev pub product_below : ℕ → ℕ → Bool
product_below a b = is_negative a || ltb a b

abbrev pub product_above : ℕ → ℕ → Bool
product_above a b = not (is_negative a) && ltb b a

-- for pow := base; pow < n+2; pow *= base { width++ }
pub rank_width : ℕ → ℕ → ℕ → ℕ → Option ℕ
rank_width zero n pow width = none
rank_width (suc f) n pow width = elim (product_below pow (n + 2)) [
  | true ↦ rank_width f n (mul_int pow 36) (suc width)
  | false ↦ some width
]

pub int_pow : ℕ → ℕ → ℕ
int_pow base zero = 1
int_pow base (suc exp) = mul_int (int_pow base exp) base

-- for i := width-1; i >= 0; i-- { buf[i] = rankAlphabet[v%36]; v /= 36 }; `none` is the panic.
pub fill_digits : ℕ → ℕ → Bytes → Option Bytes
fill_digits zero v buf = some buf
fill_digits (suc width) v buf = elim (alphabet_at (pos (v % 36))) [
  | none ↦ none
  | some b ↦ fill_digits width (v / 36) (b ∷ buf)
]

-- The same for the negative -v: Go's remainder is negative or 0, and the quotient is -(v / 36).
pub fill_negative : ℕ → ℕ → Bytes → Option Bytes
fill_negative zero v buf = some buf
fill_negative (suc width) v buf =
    let rest = fill_negative width (v / 36) (b'0' ∷ buf) in if v % 36 == 0 then rest else none

pub rank_encode : ℕ → ℕ → Option Bytes
unfolding fill_digits fill_negative
rank_encode v width =
    if is_negative v then fill_negative width (2 ^ 64 - v) [] else fill_digits width v []

-- The step between two ranks of the sequence.
pub rank_step : ℕ → ℕ → ℕ
unfolding int_pow
rank_step n width =
    let capacity = int_pow 36 width in
    if product_above capacity (n + 2)
    then (let step = (capacity - 2) / (n + 1) in if ltb step 1 then 1 else step)
    else 1

-- for i := range n { out = append(out, rankEncode((i+1)*step, width)) }, the last `count` rounds.
pub encode_all : ℕ → ℕ → ℕ → ℕ → Option (List Bytes)
unfolding rank_encode
encode_all zero i step width = some []
encode_all (suc count) i step width = elim (rank_encode (mul_int (i + 1) step) width) [
  | none ↦ none
  | some r ↦ elim (encode_all count (suc i) step width) [ none ↦ none | some rs ↦ some (r ∷ rs) ]
]

-- The rest of RankSequence once the width is known.
pub encode_ranks : ℕ → Option ℕ → Option (List Bytes)
unfolding rank_step encode_all
encode_ranks n none = none
encode_ranks n (some width) = encode_all n 0 (rank_step n width) width

pub rank_sequence : ℕ → Option (List Bytes)
unfolding rank_width encode_ranks
rank_sequence n = if n == 0 then some [] else encode_ranks n (rank_width 64 n 36 1)
