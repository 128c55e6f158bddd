-- ===== src/Rank/Search.antt =====
-- The search of RankBetween in rank.go.
use sierx.Prelude.{
  ℕ, zero, suc, ◌+◌, ◌/◌, ◌≤◌, ◌<◌, ◌≡◌, ◌≢◌, refl, sym, ap, ◌∙◌, ◌⊎◌, inl, inr, true, [], ◌∷◌,
  ◌++◌, append_assoc, arith, Bytes, ltb_bytes, ltb_bytes_lt, ltb_bytes_same, ltb_bytes_nil,
  ltb_bytes_cons, lt_or_ge, length, replicate,
}
use mathlib.Core.Path.{ap₂, subst}
use sierx.Rank.{Outcome, ranked, rank_at, extend, descend}
use sierx.Rank.Digits.{
  IsDigit, AllDigits, value, digit, value_lt, digit-value, digit-IsDigit, value_mono, digit_zero,
  value_zero, zero_IsDigit, eq_zero, zero-lt, digit_nonzero, lt-digit, digit-lt, rank_index-value,
}
use sierx.Rank.Rounds.{
  extend-tail, extend_low, extend_top, front, front_lt, round_same, round_room, round_adjacent,
}

-- No trailing zero: the last byte is there and is not '0'.
abbrev pub EndsNonzero : Bytes → Type 0
EndsNonzero [] = ⊥
EndsNonzero (c ∷ []) = c ≢ b'0'
EndsNonzero (c ∷ d ∷ s) = EndsNonzero (d ∷ s)

abbrev pub IsRank : Bytes → Type 0
IsRank s = AllDigits s × EndsNonzero s

EndsNonzero-cons : (c : ℕ) (s : Bytes) → EndsNonzero s → EndsNonzero (c ∷ s)
EndsNonzero-cons c [] h = absurd h
EndsNonzero-cons c (d ∷ s) h = h

IsRank-cons : (c : ℕ) (s : Bytes) → IsDigit c → IsRank s → IsRank (c ∷ s)
IsRank-cons c s h (all, ends) = ((h, all), EndsNonzero-cons c s ends)

digit-IsRank : (d : ℕ) → 0 < d → d < 36 → IsRank (digit d ∷ [])
digit-IsRank d h k = ((digit-IsDigit d k, tt), digit_nonzero d h)

-- What a search returns: some `s` behind what it has written, above `lo`, with no trailing zero.
abbrev Above : Bytes → Bytes → Outcome → Type 0
Above lo out r = (s : Bytes) × (r ≡ ranked (out ++ s)) × (ltb_bytes lo s ≡ true) × IsRank s

-- The digit `c` is written, and the search goes on behind it.
Above-cons :
    (c : ℕ) (lo out : Bytes) {r r' : Outcome}
    → IsDigit c
    → r ≡ r'
    → Above lo (out ++ c ∷ []) r'
    → Above (c ∷ lo) out r
Above-cons c lo out hc e (s, run, above, rank) = (
  c ∷ s,
  e ∙ run ∙ ap ranked (append_assoc out (c ∷ []) s),
  ltb_bytes_same c lo s ∙ above,
  IsRank-cons c s hc rank,
)

extend_past :
    (f c : ℕ) (lo out : Bytes)
    → IsDigit c
    → 35 ≤ value c
    → extend (suc f) (c ∷ lo) 0 out ≡ extend f lo 0 (out ++ c ∷ [])
unfolding extend rank_at
extend_past f c lo out hc top = rw (rank_index-value c hc) (
    extend_top (extend f (c ∷ lo) 1) (value c) out top (value_lt c hc)
    ∙ ap (λ b. extend f (c ∷ lo) 1 (out ++ b ∷ [])) (digit-value c hc)
    ∙ extend-tail f (c ∷ lo) 0 (out ++ c ∷ []))

extend_total :
    (lo : Bytes) (f : ℕ) (out : Bytes)
    → AllDigits lo
    → length lo < f
    → Above lo out (extend f lo 0 out)
unfolding extend rank_at
extend_total lo zero out h enough = absurd (omega arith)
extend_total [] (suc f) out h enough = (
  digit 18 ∷ [],
  extend_low (extend f [] 1) 0 out (omega arith),
  unfold ltb_bytes in refl,
  digit-IsRank 18 (omega arith) (omega arith),
)
extend_total (c ∷ lo) (suc f) out (hc, h) enough = elim (lt_or_ge (value c) 35) [
  | inl low ↦ (
    digit ((value c + 36) / 2) ∷ [],
    rw (rank_index-value c hc) (extend_low (extend f (c ∷ lo) 1) (value c) out low),
    ltb_bytes_lt _ _ lo [] (lt-digit c _ hc (omega arith)),
    digit-IsRank _ (omega arith) (omega arith),
  )
  | inr top ↦
      Above-cons c lo out hc (extend_past f c lo out hc top)
        (extend_total lo f (out ++ c ∷ []) h (omega arith))
]

-- `hi` is `lo` with zeros behind it: nothing lies between them.
abbrev pub IsPadded : Bytes → Bytes → Type 0
IsPadded lo hi = (k : ℕ) × (hi ≡ lo ++ replicate k b'0')

abbrev Inside : Bytes → Bytes → Bytes → Outcome → Type 0
Inside lo hi out r =
    (s : Bytes) × (r ≡ ranked (out ++ s))
    × (ltb_bytes lo s ≡ true)
    × (ltb_bytes s hi ≡ true)
    × IsRank s

-- The shared digit `c` is written.
Inside-cons :
    (c : ℕ) (lo hi out : Bytes) {r r' : Outcome}
    → IsDigit c
    → r ≡ r'
    → Inside lo hi (out ++ c ∷ []) r'
    → Inside (c ∷ lo) (c ∷ hi) out r
Inside-cons c lo hi out hc e (s, run, above, below, rank) = (
  c ∷ s,
  e ∙ run ∙ ap ranked (append_assoc out (c ∷ []) s),
  ltb_bytes_same c lo s ∙ above,
  ltb_bytes_same c s hi ∙ below,
  IsRank-cons c s hc rank,
)

-- The lower of two different digits is written, and the search goes past `lo`.
Inside-past :
    (c y : ℕ) (lo hi out : Bytes) {r r' : Outcome}
    → IsDigit c
    → c < y
    → r ≡ r'
    → Above lo (out ++ c ∷ []) r'
    → Inside (c ∷ lo) (y ∷ hi) out r
Inside-past c y lo hi out hc lt e (s, run, above, rank) = (
  c ∷ s,
  e ∙ run ∙ ap ranked (append_assoc out (c ∷ []) s),
  ltb_bytes_same c lo s ∙ above,
  ltb_bytes_lt c y s hi lt,
  IsRank-cons c s hc rank,
)

-- Against an exhausted `lo` the position reads 0; the bound from below is trivial there.
Inside-nil : (lo hi out : Bytes) {r : Outcome} → Inside lo hi out r → Inside [] hi out r
unfolding ltb_bytes
Inside-nil lo hi out (s, run, above, below, rank) = (s, run, nil_lt lo s above, below, rank)
  where
    nil_lt : (lo s : Bytes) → ltb_bytes lo s ≡ true → ltb_bytes [] s ≡ true
    nil_lt lo [] h = cc (h, ltb_bytes_nil lo)
    nil_lt lo (c ∷ s) h = refl

three_ways : (d e : ℕ) → d < e → (d + 1 < e) ⊎ (e ≡ d + 1)
three_ways d e h = omega arith

digit_cases : (d : ℕ) → (d ≡ 0) ⊎ ((d ≡ 1) ⊎ (1 < d))
digit_cases zero = inl refl
digit_cases (suc zero) = inr (inl refl)
digit_cases (suc (suc d)) = inr (inr (omega arith))

-- The cases of a round: equal digits, ...
Inside-same :
    (x y : ℕ) (lo hi : Bytes) (f : ℕ) (out : Bytes)
    → AllDigits (x ∷ lo)
    → AllDigits (y ∷ hi)
    → x ≡ y
    → Inside lo hi (out ++ x ∷ []) (descend f lo hi 0 (out ++ x ∷ []))
    → Inside (x ∷ lo) (y ∷ hi) out (descend (suc f) (x ∷ lo) (y ∷ hi) 0 out)
Inside-same x y lo hi f out dlo dhi e ih =
    subst
      (λ z.
        AllDigits (z ∷ hi) → Inside (x ∷ lo) (z ∷ hi) out (descend (suc f) (x ∷ lo) (z ∷ hi) 0 out))
      e
      (λ dh.
        Inside-cons x lo hi out dlo.0
          (round_same f (x ∷ lo) (x ∷ hi) out dlo dh refl
            ∙ ap (λ c. descend f lo hi 0 (out ++ c ∷ [])) (digit-value x dlo.0))
          ih)
      dhi

-- ... an exhausted `lo` against a zero, ...
Inside-zero :
    (y : ℕ) (hi : Bytes) (f : ℕ) (out : Bytes)
    → AllDigits (y ∷ hi)
    → y ≡ b'0'
    → Inside [] hi (out ++ b'0' ∷ []) (descend f [] hi 0 (out ++ b'0' ∷ []))
    → Inside [] (y ∷ hi) out (descend (suc f) [] (y ∷ hi) 0 out)
Inside-zero y hi f out dhi e ih =
    subst (λ z. AllDigits (z ∷ hi) → Inside [] (z ∷ hi) out (descend (suc f) [] (z ∷ hi) 0 out))
      (sym e)
      (λ dh. Inside-nil (b'0' ∷ []) (b'0' ∷ hi) out (
        Inside-cons b'0' [] hi out zero_IsDigit
          (round_same f [] (b'0' ∷ hi) out tt dh (sym value_zero)
            ∙ ap (λ c. descend f [] hi 0 (out ++ c ∷ [])) digit_zero)
          ih))
      dhi

-- ... or against a one, ...
Inside-one :
    (y : ℕ) (hi : Bytes) (f : ℕ) (out : Bytes)
    → AllDigits (y ∷ hi)
    → value y ≡ 1
    → 0 < f
    → Inside [] (y ∷ hi) out (descend (suc f) [] (y ∷ hi) 0 out)
Inside-one y hi f out dhi e enough = Inside-nil (b'0' ∷ []) (y ∷ hi) out (
    Inside-past b'0' y [] hi out zero_IsDigit (zero-lt y dhi.0 (omega arith))
      (round_adjacent f [] (y ∷ hi) out tt dhi (omega arith)
        ∙ ap (λ c. extend f [] 0 (out ++ c ∷ [])) digit_zero)
      (extend_total [] f (out ++ b'0' ∷ []) tt enough))

-- ... neighbouring digits, ...
Inside-adjacent :
    (x y : ℕ) (lo hi : Bytes) (f : ℕ) (out : Bytes)
    → AllDigits (x ∷ lo)
    → AllDigits (y ∷ hi)
    → x < y
    → value y ≡ value x + 1
    → length lo < f
    → Inside (x ∷ lo) (y ∷ hi) out (descend (suc f) (x ∷ lo) (y ∷ hi) 0 out)
Inside-adjacent x y lo hi f out dlo dhi less adj enough =
    Inside-past x y lo hi out dlo.0 less
      (round_adjacent f (x ∷ lo) (y ∷ hi) out dlo dhi adj
        ∙ ap (λ c. extend f lo 0 (out ++ c ∷ [])) (digit-value x dlo.0))
      (extend_total lo f (out ++ x ∷ []) dlo.1 enough)

front-ltb : (s : Bytes) (d : ℕ) → AllDigits s → front s < d → ltb_bytes s (digit d ∷ []) ≡ true
unfolding ltb_bytes
front-ltb [] d h lt = refl
front-ltb (c ∷ s) d h lt = ltb_bytes_lt c (digit d) s [] (lt-digit c d h.0 lt)

ltb-front : (s : Bytes) (d : ℕ) → AllDigits s → d < front s → ltb_bytes (digit d ∷ []) s ≡ true
ltb-front [] d h lt = absurd (omega arith)
ltb-front (c ∷ s) d h lt = ltb_bytes_lt (digit d) c [] s (digit-lt c d h.0 lt)

-- ... and room for a digit between them.
Inside-middle :
    (lo hi : Bytes) (f : ℕ) (out : Bytes)
    → AllDigits lo
    → AllDigits hi
    → front lo + 1 < front hi
    → Inside lo hi out (descend (suc f) lo hi 0 out)
Inside-middle lo hi f out dlo dhi room = (
  digit ((front lo + front hi) / 2) ∷ [],
  round_room f lo hi out dlo dhi room,
  front-ltb lo _ dlo (omega arith),
  ltb-front hi _ dhi (omega arith),
  digit-IsRank _ (omega arith) (omega (arith, front_lt hi dhi)),
)

nil_lt : (hi : Bytes) (y : ℕ) → y ≡ b'0' → ¬ IsPadded [] (y ∷ hi) → ltb_bytes [] hi ≡ true
unfolding ltb_bytes
nil_lt [] y e np = absurd (np (1, ap (λ c. c ∷ []) e))
nil_lt (c ∷ hi) y e np = refl

-- The search ends strictly between the bounds.
pub descend_total :
    (lo hi : Bytes) (f : ℕ) (out : Bytes)
    → AllDigits lo
    → AllDigits hi
    → ltb_bytes lo hi ≡ true
    → ¬ IsPadded lo hi
    → length lo + length hi < f
    → Inside lo hi out (descend f lo hi 0 out)
descend_total lo hi zero out dlo dhi lt np enough = absurd (omega arith)
descend_total lo [] (suc f) out dlo dhi lt np enough = cc (ltb_bytes_nil lo)
descend_total [] (y ∷ hi) (suc f) out dlo dhi lt np enough = elim (digit_cases (value y)) [
  | inl e ↦ Inside-zero y hi f out dhi (eq_zero y dhi.0 e) (
      descend_total [] hi f (out ++ b'0' ∷ []) tt dhi.1 (nil_lt hi y (eq_zero y dhi.0 e) np)
        (λ q. np (suc q.0, ap₂ (λ c r. c ∷ r) (eq_zero y dhi.0 e) q.1)) (omega arith))
  | inr (inl e) ↦ Inside-one y hi f out dhi e (omega arith)
  | inr (inr more) ↦ Inside-middle [] (y ∷ hi) f out dlo dhi (omega arith)
]
descend_total (x ∷ lo) (y ∷ hi) (suc f) out dlo dhi lt np enough =
    elim (ltb_bytes_cons x y lo hi lt) [
      | inr (e, rest) ↦ Inside-same x y lo hi f out dlo dhi e (
          descend_total lo hi f (out ++ x ∷ []) dlo.1 dhi.1 rest
            (λ q. np (q.0, ap₂ (λ c r. c ∷ r) (sym e) q.1)) (omega arith))
      | inl less ↦ elim (three_ways (value x) (value y) (value_mono x y dlo.0 dhi.0 less)) [
        | inl room ↦ Inside-middle (x ∷ lo) (y ∷ hi) f out dlo dhi room
        | inr adj ↦ Inside-adjacent x y lo hi f out dlo dhi less adj (omega arith)
      ]
    ]
