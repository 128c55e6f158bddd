-- ===== src/Projection/Parse/Chosen.antt =====
-- The fields that Parse of internal/api/projection/registry.go chooses.
use sierx.Prelude.{
  ℕ, ◌≢◌, ap, ◌∙◌, some, ◌++◌, codes, ◌≡◌, refl, ◌⊎◌, inl, inr, true, false, none, List, [], ◌∷◌,
  Bytes, eq_of_eqb_bytes, All, arith, Bool-cases, Option-cases, ◌==◌,
}
use sierx.Prelude.Results.{Result, ok, err}
use sierx.Prelude.Splits.{split_on}
use sierx.Projection.Parse.{
  has_name, cut_dot, valid_names, is_covered, compact_names, chosen_names, FieldsError,
}
use sierx.Projection.Parse.Collected.{
  NoRepeat, has_name_cons, IsCollected, IsRefused, Collected, collected, refused,
  collect_names-Collected,
}

module _ (out : List Bytes) where
  compact_names-subset :
      (x : Bytes) (names : List Bytes)
      → has_name x (compact_names out names) ≡ true
      → has_name x names ≡ true
  unfolding compact_names
  compact_names-subset x [] e = e
  compact_names-subset x (y ∷ ys) e = ground (
    arith,
    has_name_cons x y ys,
    has_name_cons x y (compact_names out ys),
    compact_names-subset x ys,
  )

  compact_names-NoRepeat :
      (names : List Bytes) → NoRepeat names → NoRepeat (compact_names out names)
  unfolding compact_names
  compact_names-NoRepeat [] h = tt
  compact_names-NoRepeat (y ∷ ys) (new, h) = elim (Bool-cases (is_covered out y)) [
    | inl covered ↦ rw covered (compact_names-NoRepeat ys h)
    | inr bare ↦ rw bare (ground (arith, compact_names-subset y ys), compact_names-NoRepeat ys h)
  ]

  compact_names-All :
      (P : Bytes → Type 0) (names : List Bytes) → All P names → All P (compact_names out names)
  unfolding compact_names
  compact_names-All P [] h = tt
  compact_names-All P (y ∷ ys) (py, h) = elim (Bool-cases (is_covered out y)) [
    | inl covered ↦ rw covered (compact_names-All P ys h)
    | inr bare ↦ rw bare (py, compact_names-All P ys h)
  ]

  compact_names-bare :
      (names : List Bytes) → All (λ f. is_covered out f ≡ false) (compact_names out names)
  unfolding compact_names
  compact_names-bare [] = tt
  compact_names-bare (y ∷ ys) = elim (Bool-cases (is_covered out y)) [
    | inl covered ↦ rw covered (compact_names-bare ys)
    | inr bare ↦ rw bare (bare, compact_names-bare ys)
  ]

  compact_names-member :
      (x : Bytes) (names : List Bytes)
      → has_name x names ≡ true
      → is_covered out x ≡ false
      → has_name x (compact_names out names) ≡ true
  unfolding compact_names
  compact_names-member x [] e bare = e
  compact_names-member x (y ∷ ys) e bare = ground (
    arith,
    has_name_cons x y ys,
    has_name_cons x y (compact_names out ys),
    eq_of_eqb_bytes x y,
    compact_names-member x ys,
  )

cut_dot_root : (s : Bytes) → (cut_dot (cut_dot s).0).1 ≡ none
unfolding cut_dot
cut_dot_root [] = refl
cut_dot_root (c ∷ s) = elim (Bool-cases (c == b'.')) [
  | inl dot ↦ rw (dot, cut_dot) refl
  | inr other ↦ rw (other, cut_dot) (rw (other, cut_dot_root s) refl)
]

is_covered_root : (out : List Bytes) (s : Bytes) → is_covered out (cut_dot s).0 ≡ false
unfolding is_covered
is_covered_root out s = rw (cut_dot_root s, is_covered) refl

is_covered_parts :
    (out fields : List Bytes) (s : Bytes)
    → is_covered out s ≡ true
    → (has_name (cut_dot s).0 out ≡ true)
      × (has_name (cut_dot s).0 fields ≡ true → is_covered fields s ≡ true)
unfolding is_covered
is_covered_parts out fields s e = elim (Option-cases (cut_dot s).1) [
  | inl none_ ↦ cc (rw (none_, is_covered) at e)
  | inr (leaf, some_) ↦ (rw (some_, is_covered) at e, λ h. rw (some_, is_covered) h)
]

is_covered-subset :
    (out fields : List Bytes) (s : Bytes)
    → (has_name (cut_dot s).0 fields ≡ true → has_name (cut_dot s).0 out ≡ true)
    → is_covered out s ≡ false
    → is_covered fields s ≡ false
unfolding is_covered
is_covered-subset out fields s sub e = elim (Option-cases (cut_dot s).1) [
  | inl none_ ↦ rw (none_, is_covered) refl
  | inr (leaf, some_) ↦ rw (some_, is_covered) (ground (arith, rw (some_, is_covered) at e))
]

-- A name is a leaf of one of the fields: root.leaf, where the root has no dot and is a field itself.
pub record IsLeafOf (fields : List Bytes) (name : Bytes) : Type 0 where
  pub root : Bytes
  pub leaf : Bytes
  pub parts : name ≡ root ++ (codes "." ++ leaf)
  pub undotted : All (λ c. c ≢ b'.') root
  pub whole : has_name root fields ≡ true

some-inj : {x y : Bytes} → some x ≡ some y → x ≡ y
some-inj e = cc

cut_dot-some :
    (s : Bytes) {leaf : Bytes}
    → (cut_dot s).1 ≡ some leaf
    → (s ≡ (cut_dot s).0 ++ (codes "." ++ leaf)) × All (λ c. c ≢ b'.') (cut_dot s).0
unfolding cut_dot
cut_dot-some [] e = cc
cut_dot-some (c ∷ s) {leaf} e = elim (Bool-cases (c == b'.')) [
  | inl dot ↦
      let is_dot : c ≡ b'.' = ground (arith, dot) in
      let is_leaf : s ≡ leaf = some-inj (rw dot at e) in
      rw (dot, cut_dot) (cc (is_dot, is_leaf), tt)
  | inr other ↦
      let (parts, undotted) = cut_dot-some s (rw other at e) in
      let differs : c ≢ b'.' = ground (arith, other) in
      rw (other, cut_dot) (ap (λ x. c ∷ x) parts, (differs, undotted))
]

cut_dot-dotted :
    (root leaf : Bytes)
    → All (λ c. c ≢ b'.') root
    → cut_dot (root ++ (codes "." ++ leaf)) ≡ (root, some leaf)
unfolding cut_dot
cut_dot-dotted [] leaf h = refl
cut_dot-dotted (c ∷ root) leaf (other, h) =
    let differs : (c == b'.') ≡ false = ground (arith, other) in
    rw (differs, cut_dot-dotted root leaf h) refl

is_covered-IsLeafOf :
    (fields : List Bytes) (name : Bytes) → is_covered fields name ≡ true → IsLeafOf fields name
unfolding is_covered
is_covered-IsLeafOf fields name e = elim (Option-cases (cut_dot name).1) [
  | inl none_ ↦ cc (rw (none_, is_covered) at e)
  | inr (leaf, some_) ↦
      let (parts, undotted) = cut_dot-some name some_ in
      record {
        root = (cut_dot name).0;
        leaf = leaf;
        parts = parts;
        undotted = undotted;
        whole = rw (some_, is_covered) at e;
      }
]

IsLeafOf-is_covered :
    (fields : List Bytes) (name : Bytes) → IsLeafOf fields name → is_covered fields name ≡ true
unfolding is_covered
IsLeafOf-is_covered fields name h =
    let e : cut_dot name ≡ (h.root, some h.leaf) =
      ap cut_dot h.parts ∙ cut_dot-dotted h.root h.leaf h.undotted in
    rw (ap (λ x. x.1) e, is_covered) (rw (ap (λ x. x.0) e) h.whole)

-- Fields that stand for a request: known, none twice, none a leaf of another, and each requested one is there or is a leaf
-- of one that is.
pub record IsChosen (trim : Bytes → Bytes) (custom raws fields : List Bytes) : Type 0 where
  pub known : All (λ f. has_name f (valid_names custom) ≡ true) fields
  pub unrepeated : NoRepeat fields
  pub apart : All (λ f. ¬ IsLeafOf fields f) fields
  pub complete : All (λ raw. (has_name (trim raw) fields ≡ true) ⊎ IsLeafOf fields (trim raw)) raws

All-map {ℓ κ} :
    {P : Bytes → Type ℓ} {Q : Bytes → Type κ} (f : (x : Bytes) → P x → Q x) (xs : List Bytes)
    → All P xs
    → All Q xs
All-map f [] h = tt
All-map f (x ∷ xs) (p, h) = (f x p, All-map f xs h)

requested :
    (out : List Bytes) (x : Bytes)
    → has_name x out ≡ true
    → (has_name x (compact_names out out) ≡ true) ⊎ IsLeafOf (compact_names out out) x
requested out x there = elim (Bool-cases (is_covered out x)) [
  | inr bare ↦ inl (compact_names-member out x out there bare)
  | inl covered ↦
      let (root, whole) = is_covered_parts out (compact_names out out) x covered in
      inr (
        is_covered-IsLeafOf (compact_names out out) x
          (whole (compact_names-member out (cut_dot x).0 out root (is_covered_root out x))))
]

compact_names-IsChosen :
    (trim : Bytes → Bytes) (custom raws out : List Bytes)
    → IsCollected trim (valid_names custom) [] raws out
    → IsChosen trim custom raws (compact_names out out)
compact_names-IsChosen trim custom raws out k =
    let fields = compact_names out out in
    record {
      known = compact_names-All out (λ f. has_name f (valid_names custom) ≡ true) out k.allowed;
      unrepeated = compact_names-NoRepeat out out k.unrepeated;
      apart =
          All-map
            (λ f bare. λ (leaf : IsLeafOf fields f). cc (
              is_covered-subset out fields f (compact_names-subset out (cut_dot f).0 out) bare,
              IsLeafOf-is_covered fields f leaf,
            ))
            fields (compact_names-bare out out);
      complete = All-map (λ raw there. requested out (trim raw) there) raws k.taken;
    }

-- What Parse answers for a list of names.
pub data IsAnswer (trim : Bytes → Bytes) (runes : Bytes → List ℕ) (custom raws : List Bytes)
    : Result FieldsError (List Bytes) → Type 0 where
  chosen :
      {fields : List Bytes}
      → IsChosen trim custom raws fields
      → IsAnswer trim runes custom raws (ok fields)
  unknown :
      {e : FieldsError}
      → IsRefused trim runes (valid_names custom) raws e
      → IsAnswer trim runes custom raws (err e)

Collected-compact :
    (trim : Bytes → Bytes) (runes : Bytes → List ℕ) (custom raws : List Bytes)
    {r : Result FieldsError (List Bytes)}
    → Collected trim runes (valid_names custom) [] raws r
    → IsAnswer trim runes custom raws
        (elim r [ err e ↦ err e | ok out ↦ ok (compact_names out out) ])
Collected-compact trim runes custom raws (refused k) = unknown k
Collected-compact trim runes custom raws (collected {res} k) =
    chosen (compact_names-IsChosen trim custom raws res k)

-- Parse of a list of names gives an error only for a name that is not valid: for the first of them, with the suggestion for
-- it. In an answer every name is valid, none is there twice, none is root.leaf for a root that is there too, and each name of
-- the request is in the answer or is root.leaf for a root that is. (Whatever TrimSpace does.)
pub chosen_names-IsAnswer :
    (trim : Bytes → Bytes) (runes : Bytes → List ℕ) (custom : List Bytes) (raw : Bytes)
    → IsAnswer trim runes custom (split_on b',' raw) (chosen_names trim runes custom raw)
unfolding chosen_names
chosen_names-IsAnswer trim runes custom raw =
    Collected-compact trim runes custom (split_on b',' raw)
      (collect_names-Collected trim runes (valid_names custom) [] (split_on b',' raw) tt tt)
