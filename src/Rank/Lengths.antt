-- ===== src/Rank/Lengths.antt =====
-- How long the ranks of RankBetween in rank.go are when there is no upper bound.
use mathlib.Core.Path.{subst}
use sierx.Prelude.{
  ℕ, ◌+◌, ◌<◌, ◌≤◌, ◌≡◌, refl, sym, true, inl, inr, [], ◌∷◌, ◌++◌, arith, Bytes, ltb_bytes,
  ltb_bytes_lt, length, length-append, lt_or_ge, snoc_view,
}
use sierx.Rank.{ranked, rank_first, rank_after, rank_between}
use sierx.Rank.Digits.{AllDigits, value, digit}
use sierx.Rank.Search.{IsRank}
use sierx.Rank.Between.{AllDigits-split, rank_after_bump, rank_after_append}

-- The rank after `lo`, and that it is no shorter.
abbrev Longer : Bytes → Type 0
Longer lo = (r : Bytes) × (rank_after lo ≡ ranked r) × (length lo ≤ length r)

Longer-snoc : (p : Bytes) (b : ℕ) → AllDigits (p ++ b ∷ []) → Longer (p ++ b ∷ [])
Longer-snoc p b h =
    let hbs = (AllDigits-split p (b ∷ []) h).1 in
    elim (lt_or_ge (value b) 35) [
      | inl low ↦ (
        p ++ digit (value b + 1) ∷ [],
        rank_after_bump p b hbs.0 low,
        omega (arith, length-append p (b ∷ []), length-append p (digit (value b + 1) ∷ [])),
      )
      | inr top ↦ (
        (p ++ b ∷ []) ++ rank_first,
        rank_after_append p b hbs.0 top,
        omega (arith, length-append (p ++ b ∷ []) rank_first),
      )
    ]

Longer-cons : (c : ℕ) (s : Bytes) → AllDigits (c ∷ s) → Longer (c ∷ s)
Longer-cons c s h =
    let (p, b, e) = snoc_view c s in
    subst (λ l. AllDigits l → Longer l) (sym e) (λ k. Longer-snoc p b k) h

-- Appended a rank `lo` of two or more digits that does not begin with 'z', RankBetween returns a rank
-- of at least the length of `lo`, although a rank of one digit lies above `lo` as well.
pub rank_between_not_shortest :
    (fuel x y : ℕ) (s : Bytes)
    → AllDigits (x ∷ y ∷ s)
    → x < b'z'
    → ((r : Bytes) × (rank_between fuel (x ∷ y ∷ s) [] ≡ ranked r)
        × (length (x ∷ y ∷ s) ≤ length r))
      × ((r : Bytes) × (length r ≡ 1) × (ltb_bytes (x ∷ y ∷ s) r ≡ true) × IsRank r)
unfolding rank_between
rank_between_not_shortest fuel x y s h lt = (
  Longer-cons x (y ∷ s) h,
  (
    b'z' ∷ [],
    refl,
    ltb_bytes_lt x b'z' (y ∷ s) [] lt,
    ((inr (omega arith), tt), λ e. absurd (omega arith)),
  ),
)
