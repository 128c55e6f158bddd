-- ===== src/Projection/Distance.antt =====
-- distance of internal/api/projection/registry.go, on code points with one row.
pub mod Least
use sierx.Prelude.{
  ℕ, zero, suc, ◌+◌, List, [], ◌∷◌, Bool, true, false, Option, none, some, length, get_last?, leb,
  ◌==◌, if◌then◌else◌,
}

abbrev pub min_2 : ℕ → ℕ → ℕ
min_2 a b = if leb a b then a else b

abbrev pub cost : ℕ → ℕ → ℕ
cost r s = if r == s then 0 else 1

abbrev pub least_of_3 : ℕ → ℕ → ℕ → ℕ
least_of_3 a b c = min_2 (min_2 a b) c

-- The numbers from `start` on, one for each element and one more.
unfoldable pub first_row : ℕ → List ℕ → List ℕ
first_row start [] = start ∷ []
first_row start (s ∷ ys) = start ∷ first_row (start + 1) ys

-- The inner loop: `prev` is the old entry to the left, `left` the new one.
unfoldable pub rest_of_row : ℕ → ℕ → ℕ → List ℕ → List ℕ → List ℕ
rest_of_row r prev left [] row = []
rest_of_row r prev left (s ∷ ys) [] = []
rest_of_row r prev left (s ∷ ys) (old ∷ row) =
    let new = least_of_3 (old + 1) (left + 1) (prev + cost r s) in
    new ∷ rest_of_row r old new ys row

unfoldable pub next_row : ℕ → ℕ → List ℕ → List ℕ → List ℕ
unfolding rest_of_row
next_row i r ys [] = []
next_row i r ys (prev ∷ row) = (i + 1) ∷ rest_of_row r prev (i + 1) ys row

unfoldable pub all_rows : ℕ → List ℕ → List ℕ → List ℕ → List ℕ
unfolding next_row
all_rows i [] ys row = row
all_rows i (r ∷ xs) ys row = all_rows (i + 1) xs ys (next_row i r ys row)

-- The last entry of the last row.
unfoldable pub distance : List ℕ → List ℕ → ℕ
unfolding first_row all_rows
distance x y = elim (get_last? (all_rows 0 x y (first_row 0 y))) [ none ↦ 0 | some d ↦ d ]
