-- ===== src/Projection/Nearest.antt =====
-- The suggestion of internal/api/projection/registry.go for an unknown name.
use sierx.Prelude.{
  ℕ, ◌-◌, ◌^◌, ◌≤◌, ◌<◌, ◌≡◌, refl, sym, subst, inl, inr, true, List, [], ◌∷◌, Bytes,
  eqb_bytes_refl, ltb_bytes, All, arith, ltb, if◌then◌else◌, Bool-cases,
}
use sierx.Projection.Distance.{distance}
use sierx.Projection.Parse.{has_name, insert_name, sorted_names, nearest_of, nearest_name}
use sierx.Projection.Parse.Collected.{has_name_cons}

module _ (runes : Bytes → List ℕ) (value : Bytes) where
  abbrev pub far : Bytes → ℕ
  far name = distance (runes value) (runes name)

  data Best (r best : Bytes) (score : ℕ) (names : List Bytes) : Type 0 where
    better :
        has_name r names ≡ true
        → far r < score
        → All (λ n. far r ≤ far n) names
        → Best r best score names
    unchanged : r ≡ best → All (λ n. score ≤ far n) names → Best r best score names

  nearest_of-nil : (best : Bytes) (score : ℕ) → nearest_of runes value best score [] ≡ best
  unfolding nearest_of
  nearest_of-nil best score = refl

  nearest_of-cons :
      (best : Bytes) (score : ℕ) (n : Bytes) (ns : List Bytes)
      → nearest_of runes value best score (n ∷ ns)
        ≡ nearest_of runes value
            (if ltb (far n) score then n else best)
            (if ltb (far n) score then far n else score)
            ns
  unfolding nearest_of
  nearest_of-cons best score n ns = refl

  Best-closer :
      (r n best : Bytes) (score : ℕ) (ns : List Bytes)
      → far n < score
      → Best r n (far n) ns
      → Best r best score (n ∷ ns)
  Best-closer r n best score ns less (better there below all) =
      better (ground (arith, has_name_cons r n ns)) (omega arith) (omega arith, all)
  Best-closer r n best score ns less (unchanged same all) =
      subst (λ (z : Bytes). Best z best score (n ∷ ns)) (sym same)
        (better (rw (has_name_cons n n ns, eqb_bytes_refl n) refl) less (omega arith, all))

  Best-farther :
      (r n best : Bytes) (score : ℕ) (ns : List Bytes)
      → score ≤ far n
      → Best r best score ns
      → Best r best score (n ∷ ns)
  Best-farther r n best score ns more (better there below all) =
      better (ground (arith, has_name_cons r n ns)) below (omega arith, all)
  Best-farther r n best score ns more (unchanged same all) = unchanged same (more, all)

  nearest_of-Best :
      (best : Bytes) (score : ℕ) (names : List Bytes)
      → Best (nearest_of runes value best score names) best score names
  nearest_of-Best best score [] = unchanged (nearest_of-nil best score) tt
  nearest_of-Best best score (n ∷ ns) = elim (Bool-cases (ltb (far n) score)) [
    | inl closer ↦
        let e : nearest_of runes value best score (n ∷ ns) ≡ nearest_of runes value n (far n) ns =
          rw (nearest_of-cons best score n ns, closer) refl in
        subst (λ (z : Bytes). Best z best score (n ∷ ns)) (sym e)
          (Best-closer _ n best score ns (ground arith) (nearest_of-Best n (far n) ns))
    | inr farther ↦
        let e : nearest_of runes value best score (n ∷ ns) ≡ nearest_of runes value best score ns =
          rw (nearest_of-cons best score n ns, farther) refl in
        subst (λ (z : Bytes). Best z best score (n ∷ ns)) (sym e)
          (Best-farther _ n best score ns (ground arith) (nearest_of-Best best score ns))
  ]

  insert_name-has :
      (z x : Bytes) (xs : List Bytes)
      → has_name z (insert_name x xs) ≡ true
      → has_name z (x ∷ xs) ≡ true
  unfolding insert_name has_name
  insert_name-has z x [] h = h
  insert_name-has z x (y ∷ ys) h = ground (arith, insert_name-has z x ys)

  sorted_names-has :
      (z : Bytes) (xs : List Bytes) → has_name z (sorted_names xs) ≡ true → has_name z xs ≡ true
  unfolding sorted_names has_name
  sorted_names-has z [] h = h
  sorted_names-has z (x ∷ xs) h =
      ground (arith, insert_name-has z x (sorted_names xs) h, sorted_names-has z xs)

  -- Sorting loses no name.
  insert_name-All :
      (b : ℕ) (x : Bytes) (xs : List Bytes)
      → All (λ n. b ≤ far n) (insert_name x xs)
      → All (λ n. b ≤ far n) (x ∷ xs)
  unfolding insert_name
  insert_name-All b x [] h = h
  insert_name-All b x (y ∷ ys) h = elim (Bool-cases (ltb_bytes y x)) [
    | inr first ↦ rw first at h
    | inl later ↦
        let (hy, hr) : All (λ n. b ≤ far n) (y ∷ insert_name x ys) = rw later at h in
        let (hx, hs) = insert_name-All b x ys hr in (hx, (hy, hs))
  ]

  sorted_names-All :
      (b : ℕ) (xs : List Bytes) → All (λ n. b ≤ far n) (sorted_names xs) → All (λ n. b ≤ far n) xs
  unfolding sorted_names
  sorted_names-All b [] h = tt
  sorted_names-All b (x ∷ xs) h =
      let (hx, hr) = insert_name-All b x (sorted_names xs) h in (hx, sorted_names-All b xs hr)

  -- The suggestion for a name is one of the known names, and none of them is fewer edits away. (There is a known name at a
  -- distance that an int holds.)
  pub nearest_name-least :
      (name : Bytes) (names : List Bytes)
      → far name < 2 ^ 63 - 1
      → let r = nearest_name runes value (name ∷ names) in
        (has_name r (name ∷ names) ≡ true) × All (λ n. far r ≤ far n) (name ∷ names)
  unfolding nearest_name
  nearest_name-least name names near =
      elim (nearest_of-Best [] (2 ^ 63 - 1) (sorted_names (name ∷ names))) [
        | better there below all ↦
            (sorted_names-has _ (name ∷ names) there, sorted_names-All _ (name ∷ names) all)
        | unchanged same all ↦
            absurd (omega (arith, (sorted_names-All (2 ^ 63 - 1) (name ∷ names) all).0))
      ]
