-- ===== src/Rank/Rounds.antt =====
-- The rounds of the two loops of RankBetween in rank.go, by the digits that they read.
use sierx.Prelude.{
  ℕ, zero, suc, ◌+◌, ◌/◌, ◌≤◌, ◌<◌, ◌≡◌, refl, ◌∙◌, [], ◌∷◌, ◌++◌, arith, Bytes, tail,
}
use sierx.Prelude.Int.{pos}
use sierx.Rank.{Outcome, ranked, rank_at, extend_step, extend, descend_step, descend}
use sierx.Rank.Digits.{AllDigits, value, digit, value_lt, rank_index-value, alphabet_at-digit}

-- The value at the front, 0 past the end.
abbrev pub front : Bytes → ℕ
front [] = 0
front (c ∷ s) = value c

pub rank_at-front : (s : Bytes) → AllDigits s → rank_at s 0 ≡ pos (front s)
unfolding rank_at
rank_at-front [] h = refl
rank_at-front (c ∷ s) h = rank_index-value c h.0

pub rank_at-tail : (s : Bytes) (i : ℕ) → rank_at s (suc i) ≡ rank_at (tail s) i
unfolding rank_at
rank_at-tail [] i = refl
rank_at-tail (c ∷ s) i = refl

pub extend-tail :
    (f : ℕ) (lo : Bytes) (j : ℕ) (out : Bytes) → extend f lo (suc j) out ≡ extend f (tail lo) j out
unfolding extend
extend-tail zero lo j out = refl
extend-tail (suc f) lo j out =
    λ i. extend_step (λ o. extend-tail f lo (suc j) o i) (rank_at-tail lo j i) out

pub descend-tail :
    (f : ℕ) (lo hi : Bytes) (i : ℕ) (out : Bytes)
    → descend f lo hi (suc i) out ≡ descend f (tail lo) (tail hi) i out
unfolding descend
descend-tail zero lo hi i out = refl
descend-tail (suc f) lo hi i out = λ k.
    descend_step (λ o. descend-tail f lo hi (suc i) o k) (λ o. extend-tail f lo (suc i) o k)
      (rank_at-tail lo i k) (rank_at-tail hi i k) out

-- The rounds, on digits given by their values.
pub extend_low :
    (next : Bytes → Outcome) (d : ℕ) (out : Bytes)
    → d < 35
    → extend_step next (pos d) out ≡ ranked (out ++ digit ((d + 36) / 2) ∷ [])
unfolding extend_step
extend_low next d out h = ground (arith, alphabet_at-digit ((d + 36) / 2))

pub extend_top :
    (next : Bytes → Outcome) (d : ℕ) (out : Bytes)
    → 35 ≤ d
    → d < 36
    → extend_step next (pos d) out ≡ next (out ++ digit d ∷ [])
unfolding extend_step
extend_top next d out h k = ground (arith, alphabet_at-digit d)

pub descend_same :
    (next past : Bytes → Outcome) (d : ℕ) (out : Bytes)
    → d < 36
    → descend_step next past (pos d) (pos d) out ≡ next (out ++ digit d ∷ [])
unfolding descend_step
descend_same next past d out h = ground (arith, alphabet_at-digit d)

pub descend_room :
    (next past : Bytes → Outcome) (d e : ℕ) (out : Bytes)
    → d + 1 < e
    → e < 36
    → descend_step next past (pos d) (pos e) out ≡ ranked (out ++ digit ((d + e) / 2) ∷ [])
unfolding descend_step
descend_room next past d e out h k = ground (arith, alphabet_at-digit ((d + e) / 2))

pub descend_adjacent :
    (next past : Bytes → Outcome) (d : ℕ) (out : Bytes)
    → d + 1 < 36
    → descend_step next past (pos d) (pos (d + 1)) out ≡ past (out ++ digit d ∷ [])
unfolding descend_step
descend_adjacent next past d out h = ground (arith, alphabet_at-digit d)

pub front_lt : (s : Bytes) → AllDigits s → front s < 36
front_lt [] h = omega arith
front_lt (c ∷ s) h = value_lt c h.0

-- The rounds of the outer loop, by the digits at the front.
module _ (f : ℕ) (lo hi out : Bytes) (dlo : AllDigits lo) (dhi : AllDigits hi) where
  pub round_same :
      front lo ≡ front hi
      → descend (suc f) lo hi 0 out ≡ descend f (tail lo) (tail hi) 0 (out ++ digit (front lo) ∷ [])
  unfolding descend
  round_same e =
      rw (rank_at-front lo dlo, rank_at-front hi dhi, ← e)
        (descend_same (descend f lo hi 1) (extend f lo 1) (front lo) out (front_lt lo dlo)
          ∙ descend-tail f lo hi 0 (out ++ digit (front lo) ∷ []))

  pub round_room :
      front lo + 1 < front hi
      → descend (suc f) lo hi 0 out ≡ ranked (out ++ digit ((front lo + front hi) / 2) ∷ [])
  unfolding descend
  round_room h =
      rw (rank_at-front lo dlo, rank_at-front hi dhi)
        (descend_room (descend f lo hi 1) (extend f lo 1) (front lo) (front hi) out h
          (front_lt hi dhi))

  pub round_adjacent :
      front hi ≡ front lo + 1
      → descend (suc f) lo hi 0 out ≡ extend f (tail lo) 0 (out ++ digit (front lo) ∷ [])
  unfolding descend
  round_adjacent e =
      rw (rank_at-front lo dlo, rank_at-front hi dhi, e)
        (descend_adjacent (descend f lo hi 1) (extend f lo 1) (front lo) out
            (omega (arith, front_lt hi dhi))
          ∙ extend-tail f lo 0 (out ++ digit (front lo) ∷ []))
