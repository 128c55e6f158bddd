-- ===== src/Rank/Endless.antt =====
-- The search of RankBetween in rank.go between bounds that differ by zeros.
use sierx.Prelude.{ℕ, zero, suc, ◌≡◌, refl, ◌∙◌, [], ◌∷◌, ◌++◌, Bytes, ltb_bytes-append, replicate}
use sierx.Rank.{out_of_fuel, descend, rank_between}
use sierx.Rank.Digits.{AllDigits, value_zero, zero_IsDigit}
use sierx.Rank.Rounds.{round_same}
use sierx.Rank.Between.{bounded}

zeros_AllDigits : (k : ℕ) → AllDigits (replicate k b'0')
zeros_AllDigits zero = tt
zeros_AllDigits (suc k) = (zero_IsDigit, zeros_AllDigits k)

descend_zeros : (f k : ℕ) (out : Bytes) → descend f [] (replicate k b'0') 0 out ≡ out_of_fuel
descend_zeros zero k out = unfold descend in refl
descend_zeros (suc f) zero out = round_same f [] [] out tt tt refl ∙ descend_zeros f 0 _
descend_zeros (suc f) (suc k) out =
    round_same f [] (replicate (suc k) b'0') out tt (zeros_AllDigits (suc k)) (cc value_zero)
    ∙ descend_zeros f k _

digits_and_zeros : (lo : Bytes) (k : ℕ) → AllDigits lo → AllDigits (lo ++ replicate k b'0')
digits_and_zeros [] k h = zeros_AllDigits k
digits_and_zeros (c ∷ lo) k h = (h.0, digits_and_zeros lo k h.1)

descend_padded :
    (f : ℕ) (lo : Bytes) (k : ℕ) (out : Bytes)
    → AllDigits lo
    → descend f lo (lo ++ replicate k b'0') 0 out ≡ out_of_fuel
descend_padded zero lo k out h = unfold descend in refl
descend_padded (suc f) [] k out h = descend_zeros (suc f) k out
descend_padded (suc f) (c ∷ lo) k out h =
    round_same f (c ∷ lo) (c ∷ (lo ++ replicate k b'0')) out h (h.0, digits_and_zeros lo k h.1) refl
    ∙ descend_padded f lo k _ h.1

search_padded :
    (fuel : ℕ) (lo : Bytes) (k : ℕ)
    → rank_between fuel lo (lo ++ replicate (suc k) b'0')
      ≡ descend fuel lo (lo ++ replicate (suc k) b'0') 0 []
search_padded fuel [] k = bounded [] fuel b'0' (replicate k b'0') (ltb_bytes-append [] b'0' _)
search_padded fuel (c ∷ lo) k =
    bounded (c ∷ lo) fuel c (lo ++ replicate (suc k) b'0')
      (ltb_bytes-append (c ∷ lo) b'0' (replicate k b'0'))

-- If `hi` is a digit string `lo` followed by one or more zeros, RankBetween has not returned after
-- any number of rounds.
pub rank_between_diverges :
    (fuel k : ℕ) (lo : Bytes)
    → AllDigits lo
    → rank_between fuel lo (lo ++ replicate (suc k) b'0') ≡ out_of_fuel
rank_between_diverges fuel k lo dlo =
    search_padded fuel lo k ∙ descend_padded fuel lo (suc k) [] dlo
