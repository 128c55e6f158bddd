-- ===== src/Store/Rollups/Ancestors.antt =====
-- Which rollups internal/store/rollup.go recomputes.
use sierx.Prelude.{
  ◌≡◌, ◌≢◌, refl, sym, ap, ◌∙◌, inl, inr, Bool, true, false, Option, some, List, [], ◌∷◌, ◌++◌,
  arith, Bytes, ◌==◌, if◌then◌else◌, eqb_bytes, eq_of_eqb_bytes, eqb_bytes_refl, init, Bool-cases,
}
use sierx.Store.Changes.{Uuid}
use sierx.Store.Rollups.{
  split_dots, has_label, Dirty, mark_label, mark_labels, mark_paths, dirty_ancestors,
}

abbrev pub has : Uuid → List Uuid → Bool
has id [] = false
has id (x ∷ xs) = if x == id then true else has id xs

-- No UUID comes twice.
abbrev pub Unique : List Uuid → Type 0
Unique [] = Unit {0}
Unique (x ∷ xs) = (has x xs ≡ false) × Unique xs

abbrev pub has_dot : Bytes → Bool
has_dot [] = false
has_dot (c ∷ s) = if c == b'.' then true else has_dot s

-- The strict ancestors of the items at the end of some paths.
abbrev pub all_ancestors : List (List Uuid) → List Uuid
all_ancestors [] = []
all_ancestors (p ∷ ps) = init p ++ all_ancestors ps

-- Put a UUID at the end, unless it is there.
abbrev insert_new : List Uuid → Uuid → List Uuid
insert_new out id = if has id out then out else out ++ id ∷ []

abbrev insert_all : List Uuid → List Uuid → List Uuid
insert_all out [] = out
insert_all out (id ∷ ids) = insert_all (insert_new out id) ids

has-append :
    (id : Uuid) (xs ys : List Uuid) → has id (xs ++ ys) ≡ (if has id xs then true else has id ys)
has-append id [] ys = refl
has-append id (x ∷ xs) ys = ground (arith, has-append id xs ys)

has-insert_all :
    (id : Uuid) (out ids : List Uuid)
    → has id (insert_all out ids) ≡ (if has id out then true else has id ids)
has-insert_all id out [] = ground arith
has-insert_all id out (x ∷ xs) =
    ground (arith, has-insert_all id (insert_new out x) xs, has-append id out (x ∷ []))

Unique-append :
    (xs : List Uuid) (id : Uuid) → has id xs ≡ false → Unique xs → Unique (xs ++ id ∷ [])
Unique-append [] id h u = (refl, tt)
Unique-append (x ∷ xs) id h (nx, u) =
    (ground (arith, has-append x xs (id ∷ [])), Unique-append xs id (ground arith) u)

Unique-insert_new : (out : List Uuid) (id : Uuid) → Unique out → Unique (insert_new out id)
Unique-insert_new out id u = elim (Bool-cases (has id out)) [
  | inl e ↦ rw e u
  | inr e ↦ rw e (Unique-append out id e u)
]

Unique-insert_all : (out ids : List Uuid) → Unique out → Unique (insert_all out ids)
Unique-insert_all out [] u = u
Unique-insert_all out (x ∷ xs) u =
    Unique-insert_all (insert_new out x) xs (Unique-insert_new out x u)

some_injective : {x y : Uuid} → some x ≡ some y → x ≡ y
some_injective h = cc

-- The text of a path.
module _ (uuid_string : Uuid → Bytes) where
  abbrev pub path_text : List Uuid → Bytes
  path_text [] = []
  path_text (id ∷ []) = uuid_string id
  path_text (id ∷ next ∷ ids) = uuid_string id ++ b'.' ∷ path_text (next ∷ ids)

  abbrev pub path_texts : List (List Uuid) → List Bytes
  path_texts [] = []
  path_texts (p ∷ ps) = path_text p ∷ path_texts ps

  abbrev labels : List Uuid → List Bytes
  labels [] = []
  labels (id ∷ ids) = uuid_string id ∷ labels ids

split_dots_one : (s : Bytes) → has_dot s ≡ false → split_dots s ≡ s ∷ []
unfolding split_dots
split_dots_one [] h = refl
split_dots_one (c ∷ s) h = ground (arith, split_dots_one s)

split_dots_more :
    (s rest : Bytes) → has_dot s ≡ false → split_dots (s ++ b'.' ∷ rest) ≡ s ∷ split_dots rest
unfolding split_dots
split_dots_more [] rest h = refl
split_dots_more (c ∷ s) rest h = ground (arith, split_dots_more s rest)

module _ (parse_uuid : Bytes → Option Uuid) (uuid_string : Uuid → Bytes)
    (parse_string : (id : Uuid) → parse_uuid (uuid_string id) ≡ some id)
    (no_dot : (id : Uuid) → has_dot (uuid_string id) ≡ false) where
  split_dots-path_text :
      (id : Uuid) (ids : List Uuid)
      → split_dots (path_text uuid_string (id ∷ ids)) ≡ labels uuid_string (id ∷ ids)
  split_dots-path_text id [] = split_dots_one (uuid_string id) (no_dot id)
  split_dots-path_text id (next ∷ ids) =
      split_dots_more (uuid_string id) (path_text uuid_string (next ∷ ids)) (no_dot id)
      ∙ ap (λ ws. uuid_string id ∷ ws) (split_dots-path_text next ids)

  init-labels : (ids : List Uuid) → init (labels uuid_string ids) ≡ labels uuid_string (init ids)
  init-labels [] = refl
  init-labels (id ∷ []) = refl
  init-labels (id ∷ next ∷ ids) = ap (λ ws. uuid_string id ∷ ws) (init-labels (next ∷ ids))

  ancestors_of :
      (ids : List Uuid)
      → init (split_dots (path_text uuid_string ids)) ≡ labels uuid_string (init ids)
  unfolding split_dots
  ancestors_of [] = refl
  ancestors_of (id ∷ ids) = ap init (split_dots-path_text id ids) ∙ init-labels (id ∷ ids)

  uuid_string_injective : (x id : Uuid) → uuid_string x ≡ uuid_string id → x ≡ id
  uuid_string_injective x id h =
      some_injective (sym (parse_string x) ∙ ap parse_uuid h ∙ parse_string id)

  pub eqb_strings : (x id : Uuid) → eqb_bytes (uuid_string x) (uuid_string id) ≡ (x == id)
  eqb_strings x id = elim (Bool-cases (eqb_bytes (uuid_string x) (uuid_string id))) [
    | inl e ↦ ground (arith, e, uuid_string_injective x id (eq_of_eqb_bytes _ _ e))
    | inr e ↦ elim (Bool-cases (x == id)) [
      | inl same ↦ absurd (different x id e (ground arith))
      | inr other ↦ e ∙ sym other
    ]
  ]
    where
      different : (y z : Uuid) → eqb_bytes (uuid_string y) (uuid_string z) ≡ false → y ≢ z
      different y z e same = cc (eqb_bytes_refl (uuid_string y), e, same)

  has_label-labels :
      (id : Uuid) (out : List Uuid)
      → has_label (uuid_string id) (labels uuid_string out) ≡ has id out
  has_label-labels id [] = refl
  has_label-labels id (x ∷ xs) = rw (eqb_strings x id, has_label-labels id xs) refl

  labels-append :
      (xs : List Uuid) (id : Uuid)
      → labels uuid_string (xs ++ id ∷ []) ≡ labels uuid_string xs ++ uuid_string id ∷ []
  labels-append [] id = refl
  labels-append (x ∷ xs) id = ap (λ ws. uuid_string x ∷ ws) (labels-append xs id)

  -- What has been seen are the labels of what has been put out.
  abbrev synced : List Uuid → Dirty
  synced out = record { seen = labels uuid_string out; out = out }

  mark_label-synced :
      (out : List Uuid) (id : Uuid)
      → mark_label parse_uuid (synced out) (uuid_string id) ≡ synced (insert_new out id)
  unfolding mark_label
  mark_label-synced out id = elim (Bool-cases (has id out)) [
    | inl e ↦ rw (has_label-labels id out, e) refl
    | inr e ↦ rw (has_label-labels id out, e, parse_string id, labels-append out id) refl
  ]

  mark_labels-synced :
      (out ids : List Uuid)
      → mark_labels parse_uuid (synced out) (labels uuid_string ids) ≡ synced (insert_all out ids)
  unfolding mark_labels
  mark_labels-synced out [] = refl
  mark_labels-synced out (id ∷ ids) =
      ap (λ d. mark_labels parse_uuid d (labels uuid_string ids)) (mark_label-synced out id)
      ∙ mark_labels-synced (insert_new out id) ids

  insert_all-append :
      (out xs ys : List Uuid) → insert_all out (xs ++ ys) ≡ insert_all (insert_all out xs) ys
  insert_all-append out [] ys = refl
  insert_all-append out (x ∷ xs) ys = insert_all-append (insert_new out x) xs ys

  mark_paths-synced :
      (out : List Uuid) (paths : List (List Uuid))
      → mark_paths parse_uuid (synced out) (path_texts uuid_string paths)
        ≡ synced (insert_all out (all_ancestors paths))
  unfolding mark_paths
  mark_paths-synced out [] = refl
  mark_paths-synced out (p ∷ ps) =
      ap
        (λ ls.
          mark_paths parse_uuid (mark_labels parse_uuid (synced out) ls)
            (path_texts uuid_string ps))
        (ancestors_of p)
      ∙ ap (λ d. mark_paths parse_uuid d (path_texts uuid_string ps))
          (mark_labels-synced out (init p))
      ∙ mark_paths-synced (insert_all out (init p)) ps
      ∙ ap synced (sym (insert_all-append out (init p) (all_ancestors ps)))

  dirty_ancestors-insert_all :
      (paths : List (List Uuid))
      → dirty_ancestors parse_uuid (path_texts uuid_string paths)
        ≡ insert_all [] (all_ancestors paths)
  unfolding dirty_ancestors
  dirty_ancestors-insert_all paths = ap (λ d. d.out) (mark_paths-synced [] paths)

  -- If each touched path is made of the texts of UUIDs, which hold no dot and are parsed back, the
  -- items whose rollups are recomputed are exactly the strict ancestors on these paths, and none
  -- of them is recomputed twice.
  pub dirty_ancestors_once :
      (paths : List (List Uuid))
      → Unique (dirty_ancestors parse_uuid (path_texts uuid_string paths))
        × ((id : Uuid)
            → has id (dirty_ancestors parse_uuid (path_texts uuid_string paths))
              ≡ has id (all_ancestors paths))
  dirty_ancestors_once paths = rw (dirty_ancestors-insert_all paths) (
    Unique-insert_all [] (all_ancestors paths) tt,
    λ id. has-insert_all id [] (all_ancestors paths),
  )
