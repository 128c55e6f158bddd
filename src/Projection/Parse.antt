-- ===== src/Projection/Parse.antt =====
-- Parse and nearest of internal/api/projection/registry.go. strings.TrimSpace and []rune are arguments.
pub mod Chosen
pub mod Collected
use sierx.Prelude.{
  ℕ, zero, suc, ◌+◌, ◌-◌, ◌^◌, Bool, true, false, not, ◌&&◌, ◌||◌, Option, none, some, List, [],
  ◌∷◌, ◌++◌, map, Bytes, codes, eqb_bytes, ltb_bytes, length, ltb, ◌==◌, if◌then◌else◌,
}
use sierx.Prelude.Results.{Result, ok, err}
use sierx.Prelude.Splits.{split_on}
use sierx.Projection.Distance.{distance}

-- The names and expressions of Registry; the type of a field is only printed.
abbrev pub registry : List (Bytes × Bytes)
registry =
    (codes "id", codes "i.id::text")
    ∷ (codes "key", codes "i.key")
    ∷ (codes "title", codes "i.title")
    ∷ (codes "body", codes "i.body")
    ∷ (codes "version", codes "i.version")
    ∷ (codes "change_seq", codes "i.change_seq")
    ∷ (codes "config_version", codes "i.config_version")
    ∷ (codes "rank", codes "i.rank")
    ∷ (codes "points", codes "i.points")
    ∷ (codes "start_date", codes "i.start_date")
    ∷ (codes "due_date", codes "i.due_date")
    ∷ (codes "created_at", codes "i.created_at")
    ∷ (codes "updated_at", codes "i.updated_at")
    ∷ (codes "deleted_at", codes "i.deleted_at")
    ∷ (codes "status", codes "jsonb_build_object('key',s.key,'name',s.name,'category',s.category)")
    ∷ (
      codes "assignee",
      codes
          "CASE WHEN u.id IS NULL THEN NULL ELSE jsonb_build_object('id',u.id,'display_name',u.display_name) END",
    )
    ∷ (codes "type", codes "jsonb_build_object('key',t.key,'name',t.name,'level',t.level)")
    ∷ (
      codes "parent",
      codes "CASE WHEN par.id IS NULL THEN NULL ELSE jsonb_build_object('key',par.key) END",
    )
    ∷ (codes "project", codes "jsonb_build_object('key_prefix',p.key_prefix,'name',p.name)")
    ∷ (codes "fields", codes "i.fields")
    ∷ (
      codes "rollup",
      codes
          "jsonb_build_object('descendant_count',r.descendant_count,'done_count',r.done_count,'points_total',r.points_total,'points_done',r.points_done,'earliest_start',r.earliest_start,'latest_due',r.latest_due)",
    )
    ∷ []

abbrev pub leaves : List (Bytes × List Bytes)
leaves =
    (codes "status", codes "key" ∷ codes "name" ∷ codes "category" ∷ [])
    ∷ (codes "assignee", codes "id" ∷ codes "display_name" ∷ [])
    ∷ (codes "type", codes "key" ∷ codes "name" ∷ codes "level" ∷ [])
    ∷ (codes "parent", codes "key" ∷ [])
    ∷ (codes "project", codes "key_prefix" ∷ codes "name" ∷ [])
    ∷ (
      codes "rollup",
      codes "descendant_count"
          ∷ codes "done_count"
          ∷ codes "points_total"
          ∷ codes "points_done"
          ∷ codes "earliest_start"
          ∷ codes "latest_due"
          ∷ [],
    )
    ∷ []

pub data Policy : Type 0 where
  required optional rejected : Policy

pub data FieldsError : Type 0 where
  not_supported missing_fields empty_fields : FieldsError
  unknown_field : Bytes → Bytes → FieldsError

unfoldable pub has_name : Bytes → List Bytes → Bool
has_name x [] = false
has_name x (y ∷ ys) = eqb_bytes x y || has_name x ys

-- strings.Cut at the first dot: what stands before it, and what behind it, if there is one.
unfoldable pub cut_dot : Bytes → Bytes × Option Bytes
cut_dot [] = ([], none)
cut_dot (c ∷ s) = let rest = cut_dot s in if c == b'.' then ([], some s) else (c ∷ rest.0, rest.1)

abbrev pub dotted : Bytes → Bytes → Bytes
dotted root leaf = root ++ (codes "." ++ leaf)

unfoldable pub leaf_names : List (Bytes × List Bytes) → List Bytes
leaf_names [] = []
leaf_names ((root, names) ∷ rest) = map (dotted root) names ++ leaf_names rest

-- The keys of the set `valid`.
unfoldable pub valid_names : List Bytes → List Bytes
unfolding leaf_names
valid_names custom =
    map (λ f. f.0) registry ++ (leaf_names leaves ++ map (dotted (codes "fields")) custom)

unfoldable pub insert_name : Bytes → List Bytes → List Bytes
insert_name x [] = x ∷ []
insert_name x (y ∷ ys) =
    let rest = insert_name x ys in if ltb_bytes y x then y ∷ rest else x ∷ y ∷ ys

-- sort.Strings.
unfoldable pub sorted_names : List Bytes → List Bytes
unfolding insert_name
sorted_names [] = []
sorted_names (x ∷ xs) = insert_name x (sorted_names xs)

unfoldable pub nearest_of : (Bytes → List ℕ) → Bytes → Bytes → ℕ → List Bytes → Bytes
nearest_of runes value best score [] = best
nearest_of runes value best score (name ∷ names) =
    let d = distance (runes value) (runes name) in
    nearest_of runes value (if ltb d score then name else best) (if ltb d score then d else score)
      names

-- The score starts at the largest int.
unfoldable pub nearest_name : (Bytes → List ℕ) → Bytes → List Bytes → Bytes
unfolding nearest_of sorted_names
nearest_name runes value valid = nearest_of runes value [] (2 ^ 63 - 1) (sorted_names valid)

-- The first loop: `out` is also what has been seen.
unfoldable pub collect_names :
    (Bytes → Bytes)
    → (Bytes → List ℕ)
    → List Bytes
    → List Bytes
    → List Bytes
    → Result FieldsError (List Bytes)
unfolding has_name nearest_name
collect_names trim runes valid out [] = ok out
collect_names trim runes valid out (raw ∷ raws) =
    let name = trim raw in
    let rest =
      collect_names trim runes valid (if has_name name out then out else out ++ name ∷ []) raws in
    if has_name name valid then rest else err (unknown_field name (nearest_name runes name valid))

-- A leaf is left out where its whole object is chosen.
unfoldable pub is_covered : List Bytes → Bytes → Bool
unfolding cut_dot has_name
is_covered out name = elim ((cut_dot name).1) [
  | none ↦ false
  | some leaf ↦ has_name (cut_dot name).0 out
]

unfoldable pub compact_names : List Bytes → List Bytes → List Bytes
unfolding is_covered
compact_names out [] = []
compact_names out (name ∷ names) =
    let rest = compact_names out names in if is_covered out name then rest else name ∷ rest

unfoldable pub chosen_names :
    (Bytes → Bytes) → (Bytes → List ℕ) → List Bytes → Bytes → Result FieldsError (List Bytes)
unfolding collect_names compact_names valid_names
chosen_names trim runes custom raw =
    elim (collect_names trim runes (valid_names custom) [] (split_on b',' raw)) [
      | err e ↦ err e
      | ok out ↦ ok (compact_names out out)
    ]

abbrev pub no_names : Policy → Bool → Result FieldsError (List Bytes)
no_names required present = err missing_fields
no_names optional present = if present then err empty_fields else ok (map (λ f. f.0) registry)
no_names rejected present = err not_supported

abbrev is_empty : Bytes → Bool
is_empty [] = true
is_empty (c ∷ s) = false

-- Parse. The values of the custom fields' map do not matter.
unfoldable pub parse_fields :
    (Bytes → Bytes)
    → (Bytes → List ℕ)
    → Bytes
    → Bool
    → Policy
    → List Bytes
    → Result FieldsError (List Bytes)
unfolding chosen_names
parse_fields trim runes raw present rejected custom = if present then err not_supported else ok []
parse_fields trim runes raw present required custom =
    if not present || is_empty (trim raw)
    then no_names required present
    else chosen_names trim runes custom raw
parse_fields trim runes raw present optional custom =
    if not present || is_empty (trim raw)
    then no_names optional present
    else chosen_names trim runes custom raw
