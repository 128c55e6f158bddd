-- ===== src/Rank/Between.antt =====
-- RankBetween of rank.go: where its result lies, and when it returns one.
use mathlib.Core.Path.{subst}
use sierx.Prelude.{
  ℕ, ◌+◌, ◌<◌, ◌≤◌, ◌≡◌, ◌≢◌, refl, sym, ◌∙◌, inl, inr, true, false, [], ◌∷◌, ◌++◌, arith, Bytes,
  ltb_bytes, ltb_bytes-append, ltb_bytes_prefix, ltb_bytes_lt, length, snoc_view, get_last?-append,
  init-append, All-append, lt_or_ge,
}
use sierx.Rank.{ranked, rank_first, descend, rank_after, rank_between, is_empty}
use sierx.Rank.Digits.{
  IsDigit, AllDigits, value, digit, digit-IsDigit, digit_nonzero, lt-digit, rank_index-value,
  alphabet_at-digit,
}
use sierx.Rank.Search.{IsRank, EndsNonzero, IsPadded, descend_total}

EndsNonzero-append : (s : Bytes) (c : ℕ) → c ≢ b'0' → EndsNonzero (s ++ c ∷ [])
EndsNonzero-append [] c h = h
EndsNonzero-append (x ∷ []) c h = h
EndsNonzero-append (x ∷ y ∷ s) c h = EndsNonzero-append (y ∷ s) c h

-- What RankBetween promises of a result `r`.
pub record IsBetween (lo hi r : Bytes) : Type 0 where
  pub above : ltb_bytes lo r ≡ true
  pub below : hi ≢ [] → ltb_bytes r hi ≡ true
  pub rank : IsRank r

pub AllDigits-split : (xs ys : Bytes) → AllDigits (xs ++ ys) → AllDigits xs × AllDigits ys
AllDigits-split [] ys h = (tt, h)
AllDigits-split (x ∷ xs) ys h = let (a, b) = AllDigits-split xs ys h.1 in ((h.0, a), b)

bump :
    (p : Bytes) (b : ℕ)
    → AllDigits p
    → IsDigit b
    → value b < 35
    → IsBetween (p ++ b ∷ []) [] (p ++ digit (value b + 1) ∷ [])
bump p b hp hb low = record {
  above = ltb_bytes_prefix p (b ∷ []) _ ∙ ltb_bytes_lt b _ [] [] (lt-digit b _ hb (omega arith));
  below = λ h. absurd (h refl);
  rank = (
    All-append IsDigit p _ hp (digit-IsDigit _ (omega arith), tt),
    EndsNonzero-append p _ (digit_nonzero _ (omega arith)),
  );
}

append_first : (lo : Bytes) → AllDigits lo → IsBetween lo [] (lo ++ rank_first)
append_first lo h = record {
  above = ltb_bytes-append lo b'n' [];
  below = λ h. absurd (h refl);
  rank = (
    All-append IsDigit lo rank_first h (inr (omega arith), tt),
    EndsNonzero-append lo b'n' (λ e. absurd (omega arith)),
  );
}

-- The branch of rank_after on a last digit below 'z', and on 'z'.
pub rank_after_bump :
    (p : Bytes) (b : ℕ)
    → IsDigit b
    → value b < 35
    → rank_after (p ++ b ∷ []) ≡ ranked (p ++ digit (value b + 1) ∷ [])
unfolding rank_after
rank_after_bump p b hb low =
    rw (get_last?-append p b, rank_index-value b hb)
      (ground (arith, init-append p b, alphabet_at-digit (value b + 1)))

pub rank_after_append :
    (p : Bytes) (b : ℕ)
    → IsDigit b
    → 35 ≤ value b
    → rank_after (p ++ b ∷ []) ≡ ranked ((p ++ b ∷ []) ++ rank_first)
unfolding rank_after
rank_after_append p b hb top = rw (get_last?-append p b, rank_index-value b hb) (ground arith)

is_empty_ne : (s : Bytes) → s ≢ [] → is_empty s ≡ false
is_empty_ne [] h = absurd (h refl)
is_empty_ne (c ∷ s) h = refl

abbrev Appended : Bytes → Type 0
Appended lo = (r : Bytes) × (rank_after lo ≡ ranked r) × IsBetween lo [] r

Appended-snoc : (p : Bytes) (b : ℕ) → AllDigits (p ++ b ∷ []) → Appended (p ++ b ∷ [])
Appended-snoc p b h =
    let (hp, hbs) = AllDigits-split p (b ∷ []) h in
    let hb : IsDigit b = hbs.0 in
    elim (lt_or_ge (value b) 35) [
      | inl low ↦ (_, rank_after_bump p b hb low, bump p b hp hb low)
      | inr top ↦ (_, rank_after_append p b hb top, append_first (p ++ b ∷ []) h)
    ]

-- Appending always succeeds.
rank_after_total : (lo : Bytes) → AllDigits lo → Appended lo
rank_after_total [] h = (rank_first, unfold rank_after in refl, append_first [] tt)
rank_after_total (c ∷ s) h =
    let (p, b, e) = snoc_view c s in
    subst (λ l. AllDigits l → Appended l) (sym e) (λ k. Appended-snoc p b k) h

-- With an upper bound above `lo` the code searches.
pub bounded :
    (lo : Bytes) (fuel y : ℕ) (hi : Bytes)
    → ltb_bytes lo (y ∷ hi) ≡ true
    → rank_between fuel lo (y ∷ hi) ≡ descend fuel lo (y ∷ hi) 0 []
unfolding rank_between
bounded [] fuel y hi lt = refl
bounded (x ∷ lo) fuel y hi lt = rw lt

-- For digit strings with `lo` below `hi`, an empty `hi` meaning no upper bound, RankBetween with
-- more fuel than the two lengths together returns a string strictly between them, over the
-- alphabet and with no trailing '0', unless `hi` is `lo` followed by zeros.
pub rank_between_total :
    (fuel : ℕ) (lo hi : Bytes)
    → AllDigits lo
    → AllDigits hi
    → (hi ≢ [] → (ltb_bytes lo hi ≡ true) × (¬ IsPadded lo hi))
    → length lo + length hi < fuel
    → (r : Bytes) × (rank_between fuel lo hi ≡ ranked r) × IsBetween lo hi r
unfolding rank_between
rank_between_total fuel [] [] dlo dhi h enough = rank_after_total [] dlo
rank_between_total fuel (x ∷ lo) [] dlo dhi h enough = rank_after_total (x ∷ lo) dlo
rank_between_total fuel lo (y ∷ hi) dlo dhi h enough =
    let (lt, np) = h (λ e. cc) in
    let (r, run, above, below, rank) = descend_total lo (y ∷ hi) fuel [] dlo dhi lt np enough in
    (r, bounded lo fuel y hi lt ∙ run, record { above = above; below = λ _. below; rank = rank })
