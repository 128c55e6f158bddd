-- ===== src/Projection/Distance/Least.antt =====
-- Edit scripts, and the table of distance.
use sierx.Prelude.{
  subst, Bool-cases, ◌⊎◌, inl, inr, ℕ, suc, ◌+◌, ◌≤◌, ◌≡◌, refl, ap, sym, ◌∙◌, List, [], ◌∷◌, ◌++◌,
  some, length, get_last?, ◌==◌, arith, append-nil,
}
use sierx.Projection.Distance.{
  cost, least_of_3, first_row, rest_of_row, next_row, all_rows, distance,
}

-- An edit script between two texts with its number of edits, from their ends.
pub data Edits : List ℕ → List ℕ → ℕ → Type 0 where
  same : Edits [] [] 0
  keep : {x : ℕ} {xs ys : List ℕ} {n : ℕ} → Edits xs ys n → Edits (x ∷ xs) (x ∷ ys) n
  replace : {x y : ℕ} {xs ys : List ℕ} {n : ℕ} → Edits xs ys n → Edits (x ∷ xs) (y ∷ ys) (suc n)
  drop : {x : ℕ} {xs ys : List ℕ} {n : ℕ} → Edits xs ys n → Edits (x ∷ xs) ys (suc n)
  add : {y : ℕ} {xs ys : List ℕ} {n : ℕ} → Edits xs ys n → Edits xs (y ∷ ys) (suc n)

-- The recurrence, on the characters from the end.
lev : List ℕ → List ℕ → ℕ
lev [] ys = length ys
lev (x ∷ xs) [] = suc (length xs)
lev (x ∷ xs) (y ∷ ys) =
    least_of_3 (lev xs (y ∷ ys) + 1) (lev (x ∷ xs) ys + 1) (lev xs ys + cost x y)

lev-nil : (xs : List ℕ) → lev xs [] ≡ length xs
unfolding lev
lev-nil [] = refl
lev-nil (x ∷ xs) = refl

lev-drop : (x : ℕ) (xs ys : List ℕ) → lev (x ∷ xs) ys ≤ lev xs ys + 1
unfolding lev
lev-drop x xs [] = omega (arith, lev-nil xs)
lev-drop x xs (y ∷ ys) = ground arith

lev-add : (y : ℕ) (xs ys : List ℕ) → lev xs (y ∷ ys) ≤ lev xs ys + 1
unfolding lev
lev-add y [] ys = omega arith
lev-add y (x ∷ xs) ys = ground arith

lev-both : (x y : ℕ) (xs ys : List ℕ) → lev (x ∷ xs) (y ∷ ys) ≤ lev xs ys + cost x y
unfolding lev
lev-both x y xs ys = ground arith

-- No script is shorter.
lev-le : {xs ys : List ℕ} {n : ℕ} → Edits xs ys n → lev xs ys ≤ n
unfolding lev
lev-le same = omega arith
lev-le (keep {x} {xs} {ys} e) = ground (arith, lev-both x x xs ys, lev-le e)
lev-le (replace {x} {y} {xs} {ys} e) = ground (arith, lev-both x y xs ys, lev-le e)
lev-le (drop {x} {xs} {ys} e) = omega (arith, lev-drop x xs ys, lev-le e)
lev-le (add {y} {xs} {ys} e) = omega (arith, lev-add y xs ys, lev-le e)

least-cases :
    (a b c : ℕ) → (least_of_3 a b c ≡ a) ⊎ ((least_of_3 a b c ≡ b) ⊎ (least_of_3 a b c ≡ c))
least-cases a b c = ground arith

Edits-both :
    (x y : ℕ) {xs ys : List ℕ} {n : ℕ} → Edits xs ys n → Edits (x ∷ xs) (y ∷ ys) (n + cost x y)
Edits-both x y {xs} {ys} {n} e = elim (Bool-cases (x == y)) [
  | inl eq ↦
      let free : n ≡ n + cost x y = ground arith in
      let eq' : x ≡ y = ground arith in
      subst (λ (m : ℕ). Edits (x ∷ xs) (y ∷ ys) m) free
        (subst (λ (z : ℕ). Edits (x ∷ xs) (z ∷ ys) n) eq' (keep e))
  | inr ne ↦
      let one : suc n ≡ n + cost x y = ground arith in
      subst (λ (m : ℕ). Edits (x ∷ xs) (y ∷ ys) m) one (replace e)
]

-- The recurrence is the length of a script.
lev-Edits : (xs ys : List ℕ) → Edits xs ys (lev xs ys)
unfolding lev
lev-Edits [] [] = same
lev-Edits [] (y ∷ ys) = add (lev-Edits [] ys)
lev-Edits (x ∷ xs) [] = drop (subst (λ (m : ℕ). Edits xs [] m) (lev-nil xs) (lev-Edits xs []))
lev-Edits (x ∷ xs) (y ∷ ys) =
    let a = lev xs (y ∷ ys) in
    let b = lev (x ∷ xs) ys in
    let c = lev xs ys in
    let to =
      λ (m : ℕ) (e : m ≡ least_of_3 (a + 1) (b + 1) (c + cost x y)) (s : Edits (x ∷ xs) (y ∷ ys) m).
        subst (λ (k : ℕ). Edits (x ∷ xs) (y ∷ ys) k) e s in
    elim (least-cases (a + 1) (b + 1) (c + cost x y)) [
      | inl e ↦ to (suc a) (omega (arith, e)) (drop (lev-Edits xs (y ∷ ys)))
      | inr (inl e) ↦ to (suc b) (omega (arith, e)) (add (lev-Edits (x ∷ xs) ys))
      | inr (inr e) ↦ to (c + cost x y) (sym e) (Edits-both x y (lev-Edits xs ys))
    ]

-- The entries behind the first of a row.
tail_of : List ℕ → List ℕ → List ℕ → List ℕ
tail_of xs yr [] = []
tail_of xs yr (s ∷ ys) = lev xs (s ∷ yr) ∷ tail_of xs (s ∷ yr) ys

first_row_lem : (yr ys : List ℕ) → first_row (length yr) ys ≡ length yr ∷ tail_of [] yr ys
unfolding first_row tail_of lev
first_row_lem yr [] = refl
first_row_lem yr (s ∷ ys) =
    let e : length yr + 1 ≡ length (s ∷ yr) = omega arith in
    ap (λ l. length yr ∷ l) (rw e (first_row_lem (s ∷ yr) ys))

rest_of_row_lem :
    (r : ℕ) (xs yr ys : List ℕ)
    → rest_of_row r (lev xs yr) (lev (r ∷ xs) yr) ys (tail_of xs yr ys) ≡ tail_of (r ∷ xs) yr ys
unfolding rest_of_row tail_of lev
rest_of_row_lem r xs yr [] = refl
rest_of_row_lem r xs yr (s ∷ ys) =
    ap (λ l. lev (r ∷ xs) (s ∷ yr) ∷ l) (rest_of_row_lem r xs (s ∷ yr) ys)

next_row_lem :
    (r : ℕ) (xs ys : List ℕ)
    → next_row (length xs) r ys (length xs ∷ tail_of xs [] ys)
      ≡ length (r ∷ xs) ∷ tail_of (r ∷ xs) [] ys
unfolding next_row
next_row_lem r xs ys =
    let one : length xs + 1 ≡ suc (length xs) = omega arith in
    let start : lev (r ∷ xs) [] ≡ suc (length xs) = lev-nil (r ∷ xs) in
    rw one (ap (λ l. suc (length xs) ∷ l) (rw (lev-nil xs, start) at (rest_of_row_lem r xs [] ys)))

rev_onto : List ℕ → List ℕ → List ℕ
rev_onto [] acc = acc
rev_onto (x ∷ xs) acc = rev_onto xs (x ∷ acc)

all_rows_lem :
    (xr xs ys : List ℕ)
    → all_rows (length xr) xs ys (length xr ∷ tail_of xr [] ys)
      ≡ length (rev_onto xs xr) ∷ tail_of (rev_onto xs xr) [] ys
unfolding all_rows rev_onto
all_rows_lem xr [] ys = refl
all_rows_lem xr (r ∷ xs) ys =
    let e : length xr + 1 ≡ length (r ∷ xr) = omega arith in
    rw (next_row_lem r xr ys, e) (all_rows_lem (r ∷ xr) xs ys)

last_of_row :
    (xs yr ys : List ℕ) → get_last? (lev xs yr ∷ tail_of xs yr ys) ≡ some (lev xs (rev_onto ys yr))
unfolding tail_of rev_onto
last_of_row xs yr [] = refl
last_of_row xs yr (s ∷ ys) = last_of_row xs (s ∷ yr) ys

distance_lem : (x y : List ℕ) → distance x y ≡ lev (rev_onto x []) (rev_onto y [])
unfolding distance
distance_lem x y =
    let rows : all_rows 0 x y (first_row 0 y)
        ≡ lev (rev_onto x []) [] ∷ tail_of (rev_onto x []) [] y =
      rw (first_row_lem [] y, lev-nil (rev_onto x [])) (all_rows_lem [] x y) in
    rw (rows, last_of_row (rev_onto x []) [] y, distance) refl

-- A script read from the other end.
Edits-rev_onto :
    {xs ys as' bs : List ℕ} {n m : ℕ}
    → Edits xs ys n
    → Edits as' bs m
    → Edits (rev_onto xs as') (rev_onto ys bs) (n + m)
unfolding rev_onto
Edits-rev_onto {m} same f = let e : 0 + m ≡ m = omega arith in rw e f
Edits-rev_onto (keep e) f = Edits-rev_onto e (keep f)
Edits-rev_onto {m} (replace {n} e) f =
    let q : n + suc m ≡ suc n + m = omega arith in rw (← q) (Edits-rev_onto e (replace f))
Edits-rev_onto {m} (drop {n} e) f =
    let q : n + suc m ≡ suc n + m = omega arith in rw (← q) (Edits-rev_onto e (drop f))
Edits-rev_onto {m} (add {n} e) f =
    let q : n + suc m ≡ suc n + m = omega arith in rw (← q) (Edits-rev_onto e (add f))

rev_onto-rev_onto : (xs acc t : List ℕ) → rev_onto (rev_onto xs acc) t ≡ rev_onto acc (xs ++ t)
unfolding rev_onto
rev_onto-rev_onto [] acc t = refl
rev_onto-rev_onto (x ∷ xs) acc t = rev_onto-rev_onto xs (x ∷ acc) t

reversed : {xs ys : List ℕ} {n : ℕ} → Edits xs ys n → Edits (rev_onto xs []) (rev_onto ys []) n
reversed {n} e = let q : n + 0 ≡ n = omega arith in rw q at (Edits-rev_onto e same)

rev_onto_back : (z : List ℕ) → rev_onto (rev_onto z []) [] ≡ z
unfolding rev_onto
rev_onto_back z = rev_onto-rev_onto z [] [] ∙ append-nil z

-- For any two texts the distance is the number of edits of a script that turns one into the other (keeping, replacing,
-- dropping and adding characters), and no script has fewer.
pub distance-least :
    (x y : List ℕ) → Edits x y (distance x y) × ((n : ℕ) → Edits x y n → distance x y ≤ n)
distance-least x y = (
  rw (distance_lem x y) (
      rw (rev_onto_back x, rev_onto_back y) at
        (reversed (lev-Edits (rev_onto x []) (rev_onto y [])))),
  λ n e. rw (distance_lem x y) (lev-le (reversed e)),
)
