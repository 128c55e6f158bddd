-- ===== src/Store/Examples.antt =====
-- The theorems on internal/store at concrete inputs.
pub mod Memory
use sierx.Prelude.{
  count_up, zero, suc, ◌≡◌, ◌≢◌, refl, ap, true, false, Option, none, some, List, [], ◌∷◌, Bytes,
  codes, length, arith,
}
use sierx.Store.Changes.{
  Uuid, Any, end, Event, ItemInsert, CommentChange, change_soft_delete, Change, Mutation, Call,
  comment_call, create_call, soft_delete_call,
}
use sierx.Store.Events.{calls, count_events}
use sierx.Store.Described.{Described, calls-Described}
use sierx.Store.Numbering.{seq_of, number_changes, first_numbering}
use sierx.Store.Numbering.Consecutive.{all_events, seqs, highest_of, number_changes_consecutive}
use sierx.Store.Rollups.{dirty_ancestors, is_descendant_or_self}
use sierx.Store.Rollups.Ancestors.{
  has, Unique, has_dot, all_ancestors, path_text, path_texts, dirty_ancestors_once,
}
use sierx.Store.Rollups.Descendants.{starts, is_descendant_or_self-path_text}

-- A UUID in unary.
abbrev ones : Uuid → Bytes
ones zero = []
ones (suc n) = b'1' ∷ ones n

abbrev count : Bytes → Option Uuid
count s = some (length s)

count-ones : (n : Uuid) → count (ones n) ≡ some n
count-ones n = ap some (length-ones n)
  where
    length-ones : (n : Uuid) → length (ones n) ≡ n
    length-ones zero = refl
    length-ones (suc n) = omega (arith, length-ones n)

ones_no_dot : (n : Uuid) → has_dot (ones n) ≡ false
ones_no_dot zero = refl
ones_no_dot (suc n) = ones_no_dot n

abbrev no_json : Any → Option Bytes
no_json v = some (codes "{}")

abbrev started : Mutation
started = record {
  expected = [];
  workspace_id = 1;
  actor_id = 2;
  has_actor = true;
  changes = [];
  touched_paths = [];
  err = none;
}

abbrev new_item : ItemInsert
new_item = record {
  id = 0;
  project_id = 3;
  item_type_id = 4;
  status_id = 5;
  parent_id = none;
  title = codes "Title";
  body = none;
  assignee_id = none;
  points = none;
  start_date = none;
  due_date = none;
  fields = none;
  origin_id = 6;
  origin_seq = none;
  config_version = none;
  key = [];
  path = [];
  rank = [];
}

abbrev a_comment : CommentChange
a_comment = record {
  id = 8;
  item_id = 7;
  action = codes "edit";
  body = codes "b";
  old_body = some (codes "a");
}

abbrev two_calls : List Call
two_calls = create_call 7 new_item ∷ comment_call 9 a_comment ∷ soft_delete_call 7 ∷ []

calls-Described_example : Described (calls no_json ones two_calls started)
calls-Described_example = calls-Described no_json ones two_calls started (record { each = tt })

abbrev an_event : Uuid → Event
an_event id = record {
  item_id = id;
  has_item = true;
  actor_id = 2;
  has_actor = true;
  kind = codes "deleted";
  field = none;
  old_value = none;
  new_value = none;
  seq = 0;
}

abbrev two_changes : List Change
two_changes =
    record { kind = change_soft_delete; item_id = 7; events = an_event 7 ∷ an_event 8 ∷ [] }
    ∷ record { kind = change_soft_delete; item_id = 7; events = an_event 7 ∷ [] }
    ∷ []

number_changes_consecutive_example :
    (seqs (all_events (number_changes (first_numbering 12 two_changes) two_changes).0)
      ≡ count_up 10 3)
    × ((number_changes (first_numbering 12 two_changes) two_changes).1.next ≡ 13)
    × ((id : Uuid)
        → id ≢ 0
        → seq_of (number_changes (first_numbering 12 two_changes) two_changes).1.item_seq id
          ≡ highest_of id
              (all_events (number_changes (first_numbering 12 two_changes) two_changes).0))
unfolding count_events
number_changes_consecutive_example = number_changes_consecutive 12 two_changes (omega arith)

abbrev two_paths : List (List Uuid)
two_paths = (1 ∷ 2 ∷ 3 ∷ []) ∷ (1 ∷ 4 ∷ []) ∷ []

dirty_ancestors_once_example :
    Unique (dirty_ancestors count (path_texts ones two_paths))
    × ((id : Uuid)
        → has id (dirty_ancestors count (path_texts ones two_paths))
          ≡ has id (all_ancestors two_paths))
dirty_ancestors_once_example = dirty_ancestors_once count ones count-ones ones_no_dot two_paths

is_descendant_or_self-path_text_example :
    is_descendant_or_self (path_text ones (1 ∷ 2 ∷ [])) (path_text ones (1 ∷ []))
    ≡ starts (1 ∷ []) (1 ∷ 2 ∷ [])
is_descendant_or_self-path_text_example =
    is_descendant_or_self-path_text count ones count-ones ones_no_dot 1 (2 ∷ []) 1 []
