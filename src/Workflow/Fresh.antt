-- ===== src/Workflow/Fresh.antt =====
-- Names that are looked up among those before them, as the loops of updateWorkflow do with a map of what was seen.
use sierx.Prelude.{◌≡◌, false, List, [], ◌∷◌, Bytes, eqb_bytes_comm, All, arith}
use sierx.Projection.Parse.{has_name}
use sierx.Projection.Parse.Collected.{NoRepeat, has_name_cons, has_name_nil}

abbrev pub Fresh : List Bytes → List Bytes → Type 0
Fresh seen [] = Unit
Fresh seen (x ∷ xs) = (has_name x seen ≡ false) × Fresh (x ∷ seen) xs

abbrev pub Apart : List Bytes → List Bytes → Type 0
Apart seen xs = All (λ x. has_name x seen ≡ false) xs

Apart-cons :
    (x : Bytes) (seen xs : List Bytes)
    → Apart (x ∷ seen) xs
    → Apart seen xs × (has_name x xs ≡ false)
Apart-cons x seen [] h = (tt, has_name_nil x)
Apart-cons x seen (y ∷ ys) (new, h) =
    let (a, n) = Apart-cons x seen ys h in
    (
      (ground (arith, has_name_cons y x seen), a),
      ground (arith, has_name_cons y x seen, has_name_cons x y ys, eqb_bytes_comm x y),
    )

cons-Apart :
    (x : Bytes) (seen xs : List Bytes) → Apart seen xs → has_name x xs ≡ false → Apart (x ∷ seen) xs
cons-Apart x seen [] h n = tt
cons-Apart x seen (y ∷ ys) (new, h) n = (
  ground (arith, has_name_cons y x seen, has_name_cons x y ys, eqb_bytes_comm x y),
  cons-Apart x seen ys h (ground (arith, has_name_cons x y ys)),
)

pub Fresh-NoRepeat : (seen xs : List Bytes) → Fresh seen xs → Apart seen xs × NoRepeat xs
Fresh-NoRepeat seen [] h = (tt, tt)
Fresh-NoRepeat seen (x ∷ xs) (new, h) =
    let (a, n) = Fresh-NoRepeat (x ∷ seen) xs h in
    let (b, m) = Apart-cons x seen xs a in ((new, b), (m, n))

NoRepeat-Fresh : (seen xs : List Bytes) → Apart seen xs → NoRepeat xs → Fresh seen xs
NoRepeat-Fresh seen [] a n = tt
NoRepeat-Fresh seen (x ∷ xs) (new, a) (m, n) =
    (new, NoRepeat-Fresh (x ∷ seen) xs (cons-Apart x seen xs a m) n)

Apart-nil : (xs : List Bytes) → Apart [] xs
Apart-nil [] = tt
Apart-nil (x ∷ xs) = (has_name_nil x, Apart-nil xs)

pub NoRepeat-Fresh_nil : (xs : List Bytes) → NoRepeat xs → Fresh [] xs
NoRepeat-Fresh_nil xs n = NoRepeat-Fresh [] xs (Apart-nil xs) n
