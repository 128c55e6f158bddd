-- ===== src/Workflow.antt =====
-- internal/api/workflow.go: what updateWorkflow asks of a draft before it writes. A map is an association list.
pub mod Fresh
pub mod Arcs
pub mod Accepted
mod Examples
use sierx.Prelude.{
  ℕ, zero, suc, ◌+◌, Bool, true, false, not, ◌&&◌, ◌||◌, Option, none, some, List, [], ◌∷◌, ◌++◌,
  map, Bytes, codes, eqb_bytes, length, ltb, leb, ◌==◌, if◌then◌else◌,
}
use sierx.Prelude.Int.{ℤ, pos, eqb_ℤ, ◌+ℤ◌}
use sierx.Prelude.Results.{Result, ok, err, ◌>>=◌, ◌>>◌, guard}
use sierx.Projection.Parse.{has_name}

pub record Status : Type 0 where
  pub key : Bytes
  pub name : Bytes
  pub category : Bytes

pub record Arc : Type 0 where
  pub to_key : Bytes
  pub requires : List Bytes

pub record Draft : Type 0 where
  pub statuses : List Status
  pub transitions : List (Bytes × List Arc)
  pub initial : List (Bytes × Bytes)

-- The types and the fields by their keys.
pub record Config : Type 0 where
  pub version : ℤ
  pub statuses : List Status
  pub types : List Bytes
  pub fields : List Bytes

pub data WorkflowError : Type 0 where
  forbidden wrong_count bad_status key_twice name_twice bad_category conflict not_retained :
      WorkflowError
  bad_start bad_target bad_requirement too_many wrong_types bad_initial : WorkflowError

-- strings.TrimSpace, strings.ToLower and utf8.RuneCountInString.
pub record Texts : Type 0 where
  pub trim : Bytes → Bytes
  pub lower : Bytes → Bytes
  pub runes : Bytes → ℕ

abbrev pub is_letter : ℕ → Bool
is_letter c = leb b'a' c && leb c b'z'

unfoldable pub all_word : Bytes → Bool
all_word [] = true
all_word (c ∷ s) =
    (is_letter c || (leb b'0' c && leb c b'9') || c == b'_' || c == b'-') && all_word s

unfoldable pub is_key : Bytes → Bool
unfolding all_word
is_key [] = false
is_key (c ∷ s) = is_letter c && leb (length s) 39 && all_word s

abbrev pub is_empty : Bytes → Bool
is_empty [] = true
is_empty (c ∷ s) = false

unfoldable pub is_status : Texts → Status → Bool
unfolding is_key
is_status t s = is_key s.key && not (is_empty (t.trim s.name)) && leb (t.runes s.name) 80

abbrev pub categories : List Bytes
categories = codes "open" ∷ codes "active" ∷ codes "done" ∷ codes "cancelled" ∷ []

abbrev pub name_of : Texts → Status → Bytes
name_of t s = t.lower (t.trim s.name)

unfoldable pub check_statuses :
    Texts → List Bytes → List Bytes → List Status → Result WorkflowError (Unit {0})
unfolding is_status has_name
check_statuses t keys names [] = ok tt
check_statuses t keys names (s ∷ rest) =
    guard (is_status t s) bad_status
    >> (guard (not (has_name s.key keys)) key_twice
        >> (guard (not (has_name (name_of t s) names)) name_twice
            >> (guard (has_name s.category categories) bad_category
                >> check_statuses t (s.key ∷ keys) (name_of t s ∷ names) rest)))

-- keys[key]: the statuses of a draft have different keys.
unfoldable pub find_status : Bytes → List Status → Option Status
find_status key [] = none
find_status key (s ∷ rest) =
    let found = find_status key rest in if eqb_bytes key s.key then some s else found

unfoldable pub is_same : Option Status → Status → Bool
is_same none old = false
is_same (some s) old =
    eqb_bytes s.key old.key && eqb_bytes s.name old.name && eqb_bytes s.category old.category

unfoldable pub check_retained : List Status → List Status → Result WorkflowError (Unit {0})
unfolding find_status is_same
check_retained statuses [] = ok tt
check_retained statuses (old ∷ rest) =
    guard (is_same (find_status old.key statuses) old) not_retained >> check_retained statuses rest

abbrev pub known_fields : List Bytes → List Bytes
known_fields fields =
    codes "assignee"
    ∷ codes "points"
    ∷ codes "start_date"
    ∷ codes "due_date"
    ∷ codes "title"
    ∷ codes "body"
    ∷ map (λ f. codes "fields." ++ f) fields

unfoldable pub check_required :
    List Bytes → List Bytes → List Bytes → Result WorkflowError (Unit {0})
unfolding has_name
check_required known seen [] = ok tt
check_required known seen (f ∷ rest) =
    guard (has_name f known && not (has_name f seen)) bad_requirement
    >> check_required known (f ∷ seen) rest

unfoldable pub check_targets :
    List Bytes → List Bytes → Bytes → List Bytes → List Arc → Result WorkflowError (Unit {0})
unfolding check_required
check_targets keys known from seen [] = ok tt
check_targets keys known from seen (a ∷ rest) =
    guard (has_name a.to_key keys && not (eqb_bytes a.to_key from) && not (has_name a.to_key seen))
      bad_target
    >> (check_required known [] a.requires >> check_targets keys known from (a.to_key ∷ seen) rest)

unfoldable pub check_transitions :
    List Bytes → List Bytes → List (Bytes × List Arc) → Result WorkflowError (Unit {0})
unfolding check_targets
check_transitions keys known [] = ok tt
check_transitions keys known ((from, targets) ∷ rest) =
    guard (has_name from keys) bad_start
    >> (check_targets keys known from [] targets >> check_transitions keys known rest)

unfoldable pub count_arcs : List (Bytes × List Arc) → ℕ
count_arcs [] = 0
count_arcs ((from, targets) ∷ rest) = length targets + count_arcs rest

-- A missing key gives the empty text.
unfoldable pub initial_of : Bytes → List (Bytes × Bytes) → Bytes
initial_of key [] = []
initial_of key ((k, v) ∷ rest) =
    let found = initial_of key rest in if eqb_bytes key k then v else found

unfoldable pub check_initial :
    List Bytes → List (Bytes × Bytes) → List Bytes → Result WorkflowError (Unit {0})
unfolding initial_of has_name
check_initial keys initial [] = ok tt
check_initial keys initial (kind ∷ rest) =
    guard (has_name (initial_of kind initial) keys) bad_initial >> check_initial keys initial rest

abbrev pub keys_of : Draft → List Bytes
keys_of draft = map (λ s. s.key) draft.statuses

-- The checks of updateWorkflow, in their order.
unfoldable pub update_workflow : Texts → Bool → ℤ → Draft → Config → Result WorkflowError (Unit {0})
unfolding check_statuses check_retained check_transitions count_arcs check_initial
update_workflow t admin expected draft current = do
  guard admin forbidden
  guard (leb 1 (length draft.statuses) && leb (length draft.statuses) 50) wrong_count
  check_statuses t [] [] draft.statuses
  guard (eqb_ℤ current.version expected) conflict
  check_retained draft.statuses current.statuses
  check_transitions (keys_of draft) (known_fields current.fields) draft.transitions
  guard (leb (count_arcs draft.transitions) 200) too_many
  guard (length draft.initial == length current.types) wrong_types
  check_initial (keys_of draft) draft.initial current.types
