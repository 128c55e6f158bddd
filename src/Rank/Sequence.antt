-- ===== src/Rank/Sequence.antt =====
-- RankSequence of rank.go: widths, steps and ranks.
use native.Mathlib.Nat.{pow-suc, mod-eq_of_lt}
use sierx.Prelude.{
  ℕ, zero, suc, ◌+◌, ◌-◌, ◌*◌, ◌/◌, ◌^◌, ◌≤◌, ◌<◌, ◌≡◌, refl, ap, ◌∙◌, true, false, Option, some,
  List, [], ◌∷◌, arith, Bytes, ltb, ◌==◌, if◌then◌else◌, ltb_bytes, length, inl, inr, lt_or_ge, All,
}
use sierx.Rank.{
  product_below, product_above, rank_width, int_pow, mul_int, rank_step, encode_all, encode_ranks,
  rank_sequence,
}
use sierx.Rank.Digits.{AllDigits}
use sierx.Rank.Encode.{
  numeral, rank_encode-numeral, length-numeral, numeral-AllDigits, numeral_mono,
}

-- Each rank is below the next.
abbrev pub Ascending : List Bytes → Type 0
Ascending [] = Unit
Ascending (r ∷ []) = Unit
Ascending (r ∷ s ∷ rs) = (ltb_bytes r s ≡ true) × Ascending (s ∷ rs)

abbrev pub Uniform : ℕ → Bytes → Type 0
Uniform width r = (length r ≡ width) × AllDigits r

-- A width that the loop may stop at.
pub record IsWidth (n width : ℕ) : Type 0 where
  pub enough : n + 2 ≤ 36 ^ width
  pub small : 36 ^ width < 2 ^ 63

rank_width_more :
    (f n pow width : ℕ)
    → n + 2 ≤ 2 ^ 57
    → pow < n + 2
    → rank_width (suc f) n pow width ≡ rank_width f n (pow * 36) (suc width)
unfolding rank_width
rank_width_more f n pow width fits more =
    let below : product_below pow (n + 2) ≡ true = ground (arith, more) in
    rw (below, rank_width) (ap (λ p. rank_width f n p (suc width)) (mod-eq_of_lt (omega arith)))

rank_width_stop :
    (f n pow width : ℕ) → pow < 2 ^ 63 → n + 2 ≤ pow → rank_width (suc f) n pow width ≡ some width
unfolding rank_width
rank_width_stop f n pow width small stop =
    let above : product_below pow (n + 2) ≡ false = ground (arith, small, stop) in
    rw (above, rank_width) refl

rank_width_total :
    (f n pow width : ℕ)
    → n + 2 ≤ 2 ^ 57
    → n + 2 ≤ pow * 2 ^ f
    → pow ≡ 36 ^ width
    → pow < 2 ^ 63
    → (w : ℕ) × (rank_width (suc f) n pow width ≡ some w) × IsWidth n w
rank_width_total zero n pow width fits reach e small = (
  width,
  rank_width_stop 0 n pow width small (omega arith),
  record { enough = omega arith; small = omega arith },
)
rank_width_total (suc f) n pow width fits reach e small = elim (lt_or_ge pow (n + 2)) [
  | inl more ↦
      let (w, run, ok) =
        rank_width_total f n (pow * 36) (suc width) fits
          (let reach' = (rw (pow-suc 2 f) at reach) in omega arith)
          (omega (arith, pow-suc 36 width)) (omega arith) in
      (w, rank_width_more (suc f) n pow width fits more ∙ run, ok)
  | inr stop ↦ (
    width,
    rank_width_stop (suc f) n pow width small stop,
    record { enough = omega arith; small = omega arith },
  )
]

int_pow-pow : (w : ℕ) → 36 ^ w < 2 ^ 63 → int_pow 36 w ≡ 36 ^ w
unfolding int_pow
int_pow-pow zero h = refl
int_pow-pow (suc w) h =
    rw (int_pow-pow w (omega (arith, pow-suc 36 w)), pow-suc 36 w)
      (mod-eq_of_lt (omega (arith, pow-suc 36 w)))

-- The steps leave every multiple below the capacity.
rank_step_bounds : (n w : ℕ) → IsWidth n w → (1 ≤ rank_step n w) × (n * rank_step n w < 36 ^ w)
unfolding rank_step
rank_step_bounds n w h = rw (int_pow-pow w h.small) (bounds (36 ^ w) h.enough h.small)
  where
    bounds :
        (c : ℕ)
        → n + 2 ≤ c
        → c < 2 ^ 63
        → let step =
            (if product_above c (n + 2)
              then (if ltb ((c - 2) / (n + 1)) 1 then 1 else (c - 2) / (n + 1))
              else 1) in
          (1 ≤ step) × (n * step < c)
    bounds c h small = ground arith

module _ (step width : ℕ) where
  -- What the rounds from `i` on give: ascending numerals, above those up to `i * step`.
  record IsEncoded (count i : ℕ) (rs : List Bytes) : Type 0 where
    counted : length rs ≡ count
    uniform : All (Uniform width) rs
    ascending : (v : ℕ) → v ≤ i * step → Ascending (numeral width v ∷ rs)

  encode_all_cons :
      (count i : ℕ) (rs : List Bytes)
      → (i + 1) * step < 36 ^ width
      → 36 ^ width < 2 ^ 63
      → encode_all count (suc i) step width ≡ some rs
      → encode_all (suc count) i step width ≡ some (numeral width ((i + 1) * step) ∷ rs)
  unfolding encode_all
  encode_all_cons count i rs fits small run =
      let exact : mul_int (i + 1) step ≡ (i + 1) * step = mod-eq_of_lt (omega arith) in
      rw (exact, rank_encode-numeral ((i + 1) * step) width (omega arith), run, encode_all)

  IsEncoded-cons :
      (count i : ℕ) (rs : List Bytes)
      → 1 ≤ step
      → (i + 1) * step < 36 ^ width
      → IsEncoded count (suc i) rs
      → IsEncoded (suc count) i (numeral width ((i + 1) * step) ∷ rs)
  IsEncoded-cons count i rs pos_step fits h = record {
    counted = ap suc h.counted;
    uniform = ((length-numeral width _, numeral-AllDigits width _), h.uniform);
    ascending = λ v le. (
      numeral_mono width v ((i + 1) * step) (omega arith) fits,
      h.ascending ((i + 1) * step) (omega arith),
    );
  }

  encode_all_total :
      (count i : ℕ)
      → 1 ≤ step
      → (i + count) * step < 36 ^ width
      → 36 ^ width < 2 ^ 63
      → (rs : List Bytes) × (encode_all count i step width ≡ some rs) × IsEncoded count i rs
  encode_all_total zero i pos_step fits small = (
    [],
    unfold encode_all in refl,
    record { counted = refl; uniform = tt; ascending = λ v h. tt },
  )
  encode_all_total (suc count) i pos_step fits small =
      let (rs, run, ok) = encode_all_total count (suc i) pos_step (grind arith) small in
      let next : (i + 1) * step < 36 ^ width = grind arith in
      (
        numeral width ((i + 1) * step) ∷ rs,
        encode_all_cons count i rs next small run,
        IsEncoded-cons count i rs pos_step next ok,
      )

tail_Ascending : (r : Bytes) (rs : List Bytes) → Ascending (r ∷ rs) → Ascending rs
tail_Ascending r [] h = tt
tail_Ascending r (s ∷ rs) h = h.1

encode_ranks-some :
    (n w : ℕ) {o : Option ℕ} → o ≡ some w → encode_ranks n o ≡ encode_all n 0 (rank_step n w) w
encode_ranks-some n w e = rw e (unfold encode_ranks in refl)

rank_sequence_pos : (n : ℕ) → 1 ≤ n → rank_sequence n ≡ encode_ranks n (rank_width 64 n 36 1)
rank_sequence_pos n h = unfold rank_sequence in rw (positive n h)
  where
    positive : (n : ℕ) → 1 ≤ n → (n == 0) ≡ false
    positive n h = ground arith

-- For 1 ≤ n and n + 2 ≤ 2^57, RankSequence returns n ranks over the alphabet, all of one width and
-- each below the next; no int overflows on the way.
pub rank_sequence_total :
    (n : ℕ)
    → 1 ≤ n
    → n + 2 ≤ 2 ^ 57
    → (rs : List Bytes) × (rank_sequence n ≡ some rs)
      × (length rs ≡ n)
      × Ascending rs
      × ((width : ℕ) × All (Uniform width) rs)
rank_sequence_total n pos_n fits =
    let (w, run, ok) = rank_width_total 63 n 36 1 fits (omega arith) (omega arith) (omega arith) in
    let (pos_step, room) = rank_step_bounds n w ok in
    let (rs, run', enc) = encode_all_total (rank_step n w) w n 0 pos_step (omega arith) ok.small in
    (
      rs,
      rank_sequence_pos n pos_n ∙ encode_ranks-some n w run ∙ run',
      enc.counted,
      tail_Ascending _ rs (enc.ascending 0 (omega arith)),
      (w, enc.uniform),
    )
