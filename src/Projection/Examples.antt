-- ===== src/Projection/Examples.antt =====
-- Fields of a response at concrete requests.
use sierx.Prelude.{ℕ, ◌≡◌, ◌≤◌, refl, true, [], ◌∷◌, Bytes, codes, All, arith, eqb_bytes, ltb_bytes}
use sierx.Prelude.Results.{ok, err}
use sierx.Prelude.Splits.{split_on}
use sierx.Projection.Distance.{distance}
use sierx.Projection.Distance.Least.{Edits, distance-least}
use sierx.Projection.Parse.{
  has_name, chosen_names, parse_fields, nearest_name, Policy, unknown_field,
}
use sierx.Projection.Parse.Chosen.{IsAnswer, chosen_names-IsAnswer}
use sierx.Projection.Nearest.{far, nearest_name-least}

abbrev same_text : Bytes → Bytes
same_text s = s

distance-least_example :
    Edits (codes "kitten") (codes "sitting") (distance (codes "kitten") (codes "sitting"))
    × ((n : ℕ)
        → Edits (codes "kitten") (codes "sitting") n
        → distance (codes "kitten") (codes "sitting") ≤ n)
distance-least_example = distance-least (codes "kitten") (codes "sitting")

kitten : distance (codes "kitten") (codes "sitting") ≡ 3
unfolding distance
kitten = refl

-- A leaf beside its object goes, and so does a name that comes twice.
leaf_goes :
    parse_fields same_text same_text
      (codes "status.name,key,status,key,fields.x")
      true
      Policy.optional
      (codes "x" ∷ [])
    ≡ ok (codes "key" ∷ codes "status" ∷ codes "fields.x" ∷ [])
unfolding parse_fields split_on eqb_bytes
leaf_goes = refl

misspelt :
    parse_fields same_text same_text (codes "tile") true Policy.required []
    ≡ err (unknown_field (codes "tile") (codes "title"))
unfolding parse_fields split_on distance eqb_bytes ltb_bytes
misspelt = refl

chosen_names-IsAnswer_example :
    IsAnswer same_text same_text
      (codes "x" ∷ [])
      (split_on b',' (codes "status.name,key,status"))
      (chosen_names same_text same_text (codes "x" ∷ []) (codes "status.name,key,status"))
chosen_names-IsAnswer_example =
    chosen_names-IsAnswer same_text same_text (codes "x" ∷ []) (codes "status.name,key,status")

nearest_name-least_example :
    let r = nearest_name same_text (codes "tile") (codes "title" ∷ codes "key" ∷ []) in
    (has_name r (codes "title" ∷ codes "key" ∷ []) ≡ true)
    × All
        (λ n. far same_text (codes "tile") r ≤ far same_text (codes "tile") n)
        (codes "title" ∷ codes "key" ∷ [])
unfolding distance
nearest_name-least_example =
    nearest_name-least same_text (codes "tile") (codes "title") (codes "key" ∷ []) (omega arith)
