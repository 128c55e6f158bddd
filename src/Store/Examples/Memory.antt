-- ===== src/Store/Examples/Memory.antt =====
-- A database that keeps the events and answers the rest by constants, and a flush on it.
use sierx.Prelude.{
  count_up, ◌+◌, ◌≡◌, refl, true, false, Option, none, some, List, [], ◌∷◌, ◌++◌, Bytes, codes,
  arith, length, eqb_bytes,
}
use sierx.Prelude.Int.{pos}
use sierx.Store.Changes.{Uuid, Any, Event, Mutation, change_soft_delete}
use sierx.Store.Events.{event_count, count_events}
use sierx.Store.Numbering.{
  first_numbering, number_changes, number_event, number_events, raise_seq, seq_of,
}
use sierx.Store.Numbering.Consecutive.{all_events, seqs}
use sierx.Store.Database.{Database, reply, done}
use sierx.Store.Mutate.{
  flush, check_versions, flush_numbered, apply_changes, apply_kind, insert_rollups,
  recompute_rollups, live_ids, is_listed, insert_change_events, insert_events,
}
use sierx.Store.Rollups.{dirty_ancestors, mark_paths, mark_labels, split_dots, mark_label}
use sierx.Store.Mutate.Ends.{Ends, EventLog}
use sierx.Store.Mutate.Logged.{flush_logs}

abbrev memory : Database (List Event)
memory = record {
  begin = λ s. reply tt s;
  allocate_seq = λ n w s. reply (length s + n) s;
  item_version = λ i w s. reply (pos 1) s;
  get_item = λ i s. reply (record { project_id = 3; path = codes "1.7"; deleted = false }) s;
  next_item_key = λ p s. reply (codes "SIX-1") s;
  latest_config_version = λ p s. reply (pos 1) s;
  insert_item = λ w i c f n s. reply tt s;
  update_item_fields = λ u f n s. reply (codes "1.7") s;
  soft_delete_item = λ i n s. reply (codes "1.7") s;
  hard_delete_item = λ i s. reply tt s;
  subtree_height = λ p s. reply 1 s;
  reparent_subtree = λ i p a b n s. reply [] s;
  list_project_ranks = λ p s. reply [] s;
  set_project_ranks = λ p a b s. reply tt s;
  set_rank = λ i r s. reply tt s;
  insert_link = λ l a s. reply tt s;
  delete_link = λ i s. reply tt s;
  insert_comment = λ c a s. reply tt s;
  edit_comment = λ c s. reply 1 s;
  delete_comment = λ c s. reply 1 s;
  touch_item = λ i n s. reply tt s;
  insert_rollup_row = λ i s. reply tt s;
  recompute_rollup = λ i s. reply tt s;
  insert_event = λ w ev s. reply tt (s ++ ev ∷ []);
  commit = λ s. reply tt s;
}

same_state : {A : Type 0} {a b : A} {s s' : List Event} → reply a s ≡ reply b s' → s' ≡ s
same_state e = cc

same_answer : {A : Type 0} {a b : A} {s s' : List Event} → reply a s ≡ reply b s' → a ≡ b
same_answer e = cc

abbrev whole_log : List Event → List Event
whole_log s = s

memory-EventLog : EventLog (List Event) memory whole_log
memory-EventLog = record {
  allocates = λ n w s highest s' e. omega (arith, same_answer e);
  inserts = λ w ev s u s' e. same_state e;
  allocate_seq_keeps = λ n w s a s' e. same_state e;
  item_version_keeps = λ i w s a s' e. same_state e;
  get_item_keeps = λ i s a s' e. same_state e;
  next_item_key_keeps = λ p s a s' e. same_state e;
  latest_config_version_keeps = λ p s a s' e. same_state e;
  insert_item_keeps = λ w i c f n s a s' e. same_state e;
  update_item_fields_keeps = λ u f n s a s' e. same_state e;
  soft_delete_item_keeps = λ i n s a s' e. same_state e;
  hard_delete_item_keeps = λ i s a s' e. same_state e;
  subtree_height_keeps = λ p s a s' e. same_state e;
  reparent_subtree_keeps = λ i p a b n s x s' e. same_state e;
  list_project_ranks_keeps = λ p s a s' e. same_state e;
  set_project_ranks_keeps = λ p a b s x s' e. same_state e;
  set_rank_keeps = λ i r s a s' e. same_state e;
  insert_link_keeps = λ l a s x s' e. same_state e;
  delete_link_keeps = λ i s a s' e. same_state e;
  insert_comment_keeps = λ c a s x s' e. same_state e;
  edit_comment_keeps = λ c s a s' e. same_state e;
  delete_comment_keeps = λ c s a s' e. same_state e;
  touch_item_keeps = λ i n s a s' e. same_state e;
  insert_rollup_row_keeps = λ i s a s' e. same_state e;
  recompute_rollup_keeps = λ i s a s' e. same_state e;
}

abbrev no_json : Any → Option Bytes
no_json v = some (codes "{}")

abbrev no_text : Uuid → Bytes
no_text id = codes "1"

abbrev no_parse : Bytes → Option Uuid
no_parse w = some 1

abbrev deletion_of : Uuid → Event
deletion_of id = record {
  item_id = id;
  has_item = true;
  actor_id = 2;
  has_actor = true;
  kind = codes "deleted";
  field = none;
  old_value = none;
  new_value = none;
  seq = 0;
}

abbrev two_deletions : Mutation
two_deletions = record {
  expected = (7, pos 1) ∷ [];
  workspace_id = 1;
  actor_id = 2;
  has_actor = true;
  changes =
      record { kind = change_soft_delete; item_id = 7; events = deletion_of 7 ∷ [] }
      ∷ record { kind = change_soft_delete; item_id = 8; events = deletion_of 8 ∷ [] }
      ∷ [];
  touched_paths = [];
  err = none;
}

-- The flush of two deletions succeeds.
two_deletions_done :
    flush memory no_json no_text no_parse 9 two_deletions (deletion_of 5 ∷ [])
    ≡ done
        (record { highest_seq = 3; lowest_seq = 2; event_total = 2; item_ids = 7 ∷ 8 ∷ [] })
        (deletion_of 5
          ∷ record (deletion_of 7) { seq = 2 }
          ∷ record (deletion_of 8) { seq = 3 }
          ∷ [])
unfolding flush check_versions flush_numbered apply_changes number_changes apply_kind insert_rollups
    recompute_rollups live_ids dirty_ancestors mark_paths mark_labels split_dots mark_label
    eqb_bytes is_listed insert_change_events insert_events count_events event_count first_numbering
    number_event number_events raise_seq seq_of
two_deletions_done = refl

flush_logs_example :
    Ends
      (λ r s'.
        (s1 : List Event) × (memory.allocate_seq (event_count two_deletions) 1 (deletion_of 5 ∷ [])
          ≡ reply r.highest_seq s1)
        × (evs : List Event) × (s' ≡ (deletion_of 5 ∷ []) ++ evs)
        × (evs
            ≡ all_events
                (number_changes
                  (first_numbering r.highest_seq two_deletions.changes)
                  two_deletions.changes).0)
        × (seqs evs ≡ count_up r.lowest_seq r.event_total)
        × (r.lowest_seq + event_count two_deletions ≡ r.highest_seq + 1))
      (flush memory no_json no_text no_parse 9 two_deletions (deletion_of 5 ∷ []))
flush_logs_example =
    flush_logs memory whole_log memory-EventLog no_json no_text no_parse 9 two_deletions
      (deletion_of 5 ∷ [])
