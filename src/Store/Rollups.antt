-- ===== src/Store/Rollups.antt =====
-- internal/store/rollup.go and the path tests of mutate.go. A path is the dotted UUIDs of an item's ancestors and its own.
pub mod Ancestors
pub mod Descendants
use sierx.Prelude.{
  ℕ, Bool, true, false, Option, none, some, List, [], ◌∷◌, ◌++◌, ◌||◌, Bytes, codes, ◌==◌,
  if◌then◌else◌, eqb_bytes, init,
}
use sierx.Store.Changes.{Uuid}

abbrev cons_first : ℕ → List Bytes → List Bytes
cons_first c [] = (c ∷ []) ∷ []
cons_first c (w ∷ ws) = (c ∷ w) ∷ ws

-- strings.Split at the dots.
unfoldable pub split_dots : Bytes → List Bytes
split_dots [] = [] ∷ []
split_dots (c ∷ s) = if c == b'.' then [] ∷ split_dots s else cons_first c (split_dots s)

abbrev pub has_label : Bytes → List Bytes → Bool
has_label w [] = false
has_label w (v ∷ vs) = if eqb_bytes v w then true else has_label w vs

-- The labels that the loop has seen, and the UUIDs that it puts out.
pub record Dirty : Type 0 where
  pub seen : List Bytes
  pub out : List Uuid

-- uuid.Parse is an argument; `none` is its error.
module _ (parse_uuid : Bytes → Option Uuid) where
  abbrev pub put_out : Option Uuid → List Uuid → List Uuid
  put_out none out = out
  put_out (some id) out = out ++ id ∷ []

  unfoldable pub mark_label : Dirty → Bytes → Dirty
  mark_label d label =
      if has_label label d.seen
      then d
      else record { seen = d.seen ++ label ∷ []; out = put_out (parse_uuid label) d.out }

  unfoldable pub mark_labels : Dirty → List Bytes → Dirty
  mark_labels d [] = d
  mark_labels d (l ∷ ls) = mark_labels (mark_label d l) ls

  unfoldable pub mark_paths : Dirty → List Bytes → Dirty
  mark_paths d [] = d
  mark_paths d (p ∷ ps) = mark_paths (mark_labels d (init (split_dots p))) ps

  unfoldable pub dirty_ancestors : List Bytes → List Uuid
  dirty_ancestors paths = (mark_paths (record { seen = []; out = [] }) paths).out

abbrev pub is_prefix : Bytes → Bytes → Bool
is_prefix [] s = true
is_prefix (c ∷ p) [] = false
is_prefix (c ∷ p) (d ∷ s) = if c == d then is_prefix p s else false

unfoldable pub is_descendant_or_self : Bytes → Bytes → Bool
is_descendant_or_self candidate ancestor =
    if eqb_bytes candidate ancestor then true else is_prefix (ancestor ++ codes ".") candidate
