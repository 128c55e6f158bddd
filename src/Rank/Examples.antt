-- ===== src/Rank/Examples.antt =====
-- Tests of internal/store/rank.go, and the theorems on it at concrete inputs.
use sierx.Prelude.{
  ℕ, ◌≤◌, ◌≡◌, refl, true, inl, inr, some, List, [], ◌∷◌, arith, Bytes, codes, ltb_bytes, length,
  replicate, All,
}
use sierx.Rank.{
  ranked, rank_order, out_of_fuel, rank_at, rank_index, alphabet_at, rank_between, rank_sequence,
  rank_needs_rebalance,
}
use sierx.Rank.Search.{IsRank, IsPadded}
use sierx.Rank.Between.{IsBetween, rank_between_total}
use sierx.Rank.Endless.{rank_between_diverges}
use sierx.Rank.Lengths.{rank_between_not_shortest}
use sierx.Rank.Sequence.{Ascending, Uniform, rank_sequence_total}

between_a_and_b : rank_between 5 (codes "a") (codes "b") ≡ ranked (codes "ai")
unfolding rank_between rank_at rank_index alphabet_at ltb_bytes
between_a_and_b = refl

past_z : rank_between 8 (codes "azb") (codes "bc") ≡ ranked (codes "azn")
unfolding rank_between rank_at rank_index alphabet_at ltb_bytes
past_z = refl

after_n : rank_between 1 (codes "n") [] ≡ ranked (codes "o")
unfolding rank_between rank_at rank_index alphabet_at ltb_bytes
after_n = refl

wrong_order : rank_between 9 (codes "b") (codes "a") ≡ rank_order
unfolding rank_between rank_at rank_index alphabet_at ltb_bytes
wrong_order = refl

three_ranks : rank_sequence 3 ≡ some (codes "8" ∷ codes "g" ∷ codes "o" ∷ [])
unfolding rank_sequence alphabet_at
three_ranks = refl

forty_one : rank_needs_rebalance (replicate 41 b'a') ≡ true
unfolding rank_needs_rebalance
forty_one = refl

rank_between_total_example :
    (r : Bytes) × (rank_between 5 (codes "a") (codes "b") ≡ ranked r)
    × IsBetween (codes "a") (codes "b") r
rank_between_total_example =
    rank_between_total 5 (codes "a") (codes "b") (inr (omega arith), tt) (inr (omega arith), tt)
      (λ h. (unfold ltb_bytes in refl, unpadded)) (omega arith)
  where
    unpadded : ¬ IsPadded (codes "a") (codes "b")
    unpadded (k, e) = absurd (ground (arith, e))

rank_between_diverges_example : rank_between 1000 (codes "a") (codes "a00") ≡ out_of_fuel
rank_between_diverges_example = rank_between_diverges 1000 1 (codes "a") (inr (omega arith), tt)

rank_between_not_shortest_example :
    ((r : Bytes) × (rank_between 9 (codes "a5") [] ≡ ranked r) × (2 ≤ length r))
    × ((r : Bytes) × (length r ≡ 1) × (ltb_bytes (codes "a5") r ≡ true) × IsRank r)
rank_between_not_shortest_example =
    rank_between_not_shortest 9 b'a' b'5' [] (inr (omega arith), (inl (omega arith), tt))
      (omega arith)

rank_sequence_total_example :
    (rs : List Bytes) × (rank_sequence 100 ≡ some rs)
    × (length rs ≡ 100)
    × Ascending rs
    × ((width : ℕ) × All (Uniform width) rs)
rank_sequence_total_example = rank_sequence_total 100 (omega arith) (omega arith)
