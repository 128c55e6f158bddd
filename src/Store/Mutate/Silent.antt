-- ===== src/Store/Mutate/Silent.antt =====
-- The row changes of internal/store/mutate.go and the log of events.
use sierx.Prelude.{
  ℕ, zero, suc, ◌+◌, ◌≡◌, refl, Bool, true, false, not, ◌||◌, Option, none, some, List, [], ◌∷◌,
  Bytes, codes, ltb, ◌==◌, eqb_bytes, length,
}
use sierx.Prelude.Int.{ℤ}
use sierx.Rank.{rank_between, rank_needs_rebalance, rank_sequence}
use sierx.Store.Changes.{
  Uuid, Any, Event, ItemInsert, ItemUpdate, ItemReparent, CommentChange, Mutation, ChangeKind,
  Change, change_insert, change_update, change_reparent, change_soft_delete, change_hard_delete,
  change_link, change_unlink, change_comment,
}
use sierx.Store.Database.{Database, ItemRow, Tx}
use sierx.Store.Rollups.{is_descendant_or_self}
use sierx.Store.Flush.{
  row_ranks, new_ranks, rebalance_project_ranks, rank_behind, rank_for_new_item, insert_path,
  config_of, rank_of, marshal_fields, apply_insert, apply_update, new_parent_path, depth_of,
  place_item, place_between, apply_reparent, one_row, apply_comment,
}
use sierx.Store.Mutate.{apply_kind, Applied}
use sierx.Store.Mutate.Ends.{
  ended, undone, running, Ends-if, Ends-and_then, EventLog, Silent, ask-Silent, from_sum-Silent,
  rank_result-Silent,
}

module _ {S : Type 0} (db : Database S) (log : S → List Event) (laws : EventLog S db log)
    (marshal : Any → Option Bytes) (uuid_string : Uuid → Bytes) (parse_uuid : Bytes → Option Uuid)
    (fuel : ℕ) (l : List Event) where
  -- A transaction leaves the log at `l` if it starts there.
  abbrev Quiet : {A : Type 0} → Tx S A → Type 0
  Quiet t = (s : S) → log s ≡ l → Silent log l (t s)

  new_ranks-Silent :
      (r : Option (List Bytes)) (p : Uuid) (old : List Bytes)
      → Quiet (new_ranks db marshal uuid_string fuel r p old)
  new_ranks-Silent none p old s h = running
  new_ranks-Silent (some new) p old s h =
      ask-Silent log l _ s (laws.set_project_ranks_keeps p old new) h

  rebalance-Silent :
      (p : Uuid) (rows : List (Uuid × Bytes))
      → Quiet (rebalance_project_ranks db marshal uuid_string fuel p rows)
  unfolding rebalance_project_ranks
  rebalance-Silent p [] s h = ended h
  rebalance-Silent p (row ∷ rows) s h =
      new_ranks-Silent (rank_sequence (length (row ∷ rows))) p (row_ranks (row ∷ rows)) s h

  rank_behind-Silent :
      (rows : List (Uuid × Bytes)) → Quiet (rank_behind db marshal uuid_string fuel rows)
  unfolding rank_behind
  rank_behind-Silent rows s h = rank_result-Silent log l _ s h

  rank_for_new_item-Silent : (p : Uuid) → Quiet (rank_for_new_item db marshal uuid_string fuel p)
  unfolding rank_for_new_item
  rank_for_new_item-Silent p s h =
      Ends-and_then (ask-Silent log l _ s (laws.list_project_ranks_keeps p) h) λ ranks s1 h1.
        Ends-and_then (rank_behind-Silent ranks s1 h1) λ rank s2 h2.
          Ends-if (rank_needs_rebalance rank) _ _ s2
            (Ends-and_then
              (Ends-and_then (rebalance-Silent p ranks s2 h2)
                λ u s3 h3. ask-Silent log l _ s3 (laws.list_project_ranks_keeps p) h3)
              rank_behind-Silent)
            (ended h2)

  insert_path-Silent :
      (item : ItemInsert) (p : Option Uuid) → Quiet (insert_path db marshal uuid_string fuel item p)
  unfolding insert_path
  insert_path-Silent item none s h = ended h
  insert_path-Silent item (some p) s h =
      Ends-and_then (ask-Silent log l _ s (laws.get_item_keeps p) h)
        λ row s1 h1. Ends-if (row.project_id == item.project_id) _ _ s1 (ended h1) undone

  config_of-Silent : (p : Uuid) (v : Option ℤ) → Quiet (config_of db marshal uuid_string fuel p v)
  config_of-Silent p none s h = ask-Silent log l _ s (laws.latest_config_version_keeps p) h
  config_of-Silent p (some v) s h = ended h

  rank_of-Silent :
      (item : ItemInsert) (r : Bytes)
      → item.rank ≡ r
      → Quiet (rank_of db marshal uuid_string fuel item)
  rank_of-Silent item [] e s h = rw e (rank_for_new_item-Silent item.project_id s h)
  rank_of-Silent item (c ∷ r) e s h = rw e (ended h)

  apply_insert-Silent :
      (m : Mutation) (item : ItemInsert) (n : ℕ)
      → Quiet (apply_insert db marshal uuid_string fuel m item n)
  unfolding apply_insert
  apply_insert-Silent m item n s h =
      Ends-and_then (ask-Silent log l _ s (laws.next_item_key_keeps item.project_id) h) λ key s1 h1.
        Ends-and_then (insert_path-Silent item item.parent_id s1 h1) λ path s2 h2.
          Ends-and_then (config_of-Silent item.project_id item.config_version s2 h2) λ config s3 h3.
            Ends-and_then (rank_of-Silent item item.rank refl s3 h3) λ rank s4 h4.
              Ends-and_then
                (from_sum-Silent log l (marshal_fields db marshal uuid_string fuel item.fields) s4
                  h4)
                λ fields s5 h5.
                  Ends-and_then
                    (ask-Silent log l _ s5 (laws.insert_item_keeps _ _ config fields n) h5)
                    λ u s6 h6. ended h6

  apply_update-Silent :
      (up : ItemUpdate) (n : ℕ) → Quiet (apply_update db marshal uuid_string fuel up n)
  unfolding apply_update
  apply_update-Silent up n s h =
      Ends-and_then (from_sum-Silent log l _ s h)
        λ fields s1 h1. ask-Silent log l _ s1 (laws.update_item_fields_keeps up fields n) h1

  new_parent_path-Silent :
      (item : ItemRow) (p : Option Uuid)
      → Quiet (new_parent_path db marshal uuid_string fuel item p)
  unfolding new_parent_path
  new_parent_path-Silent item none s h = ended h
  new_parent_path-Silent item (some p) s h =
      Ends-and_then (ask-Silent log l _ s (laws.get_item_keeps p) h) λ row s1 h1.
        Ends-if
          (not (row.project_id == item.project_id)
            || row.deleted
            || is_descendant_or_self row.path item.path)
          _ _ s1 undone (ended h1)

  place_between-Silent :
      (r : ItemReparent) (p : Uuid) (again : Tx S (Unit {0})) (ranks : List (Uuid × Bytes))
      (found : Bool × Bytes × Bytes)
      → Quiet again
      → Quiet (place_between db marshal uuid_string fuel r p again ranks found)
  unfolding place_between
  place_between-Silent r p again ranks (false, lo, hi) q s h = undone
  place_between-Silent r p again ranks (true, lo, hi) q s h =
      Ends-and_then (rank_result-Silent log l (rank_between fuel lo hi) s h) λ rank s1 h1.
        Ends-if (rank_needs_rebalance rank) _ _ s1
          (Ends-and_then (rebalance-Silent p ranks s1 h1) λ u s2 h2. q s2 h2)
          (ask-Silent log l _ s1 (laws.set_rank_keeps r.id rank) h1)

  place_item-Silent :
      (k : ℕ) (r : ItemReparent) (p : Uuid) → Quiet (place_item db marshal uuid_string fuel k r p)
  unfolding place_item
  place_item-Silent zero r p s h = undone
  place_item-Silent (suc k) r p s h =
      Ends-and_then (ask-Silent log l _ s (laws.list_project_ranks_keeps p) h)
        λ ranks s1 h1. place_between-Silent r p _ ranks _ (place_item-Silent k r p) s1 h1

  apply_reparent-Silent :
      (r : ItemReparent) (n : ℕ) → Quiet (apply_reparent db marshal uuid_string fuel r n)
  unfolding apply_reparent
  apply_reparent-Silent r n s h =
      Ends-and_then (ask-Silent log l _ s (laws.get_item_keeps r.id) h) λ item s1 h1.
        Ends-and_then (new_parent_path-Silent item r.new_parent_id s1 h1) λ path s2 h2.
          Ends-and_then (ask-Silent log l _ s2 (laws.subtree_height_keeps item.path) h2)
            λ height s3 h3.
              Ends-if (ltb 8 (depth_of db marshal uuid_string fuel path + height)) _ _ s3 undone (
                Ends-and_then (ask-Silent log l _ s3 (laws.reparent_subtree_keeps _ _ _ _ n) h3)
                  λ paths s4 h4.
                    Ends-and_then
                      (Ends-if r.set_rank _ _ s4 (place_item-Silent 2 r item.project_id s4 h4)
                        (ended h4))
                      λ u s5 h5. ended h5)

  one_row-Silent : (n : ℕ) → Quiet (one_row db marshal uuid_string fuel n)
  one_row-Silent n s h = Ends-if (n == 1) _ _ s (ended h) undone

  apply_comment-Silent :
      (a : Uuid) (c : CommentChange) → Quiet (apply_comment db marshal uuid_string fuel a c)
  unfolding apply_comment
  apply_comment-Silent a c s h =
      Ends-if (eqb_bytes c.action (codes "create")) _ _ s
        (ask-Silent log l _ s (laws.insert_comment_keeps c a) h)
        (Ends-if (eqb_bytes c.action (codes "edit")) _ _ s
          (Ends-and_then (ask-Silent log l _ s (laws.edit_comment_keeps c) h) one_row-Silent)
          (Ends-if (eqb_bytes c.action (codes "delete")) _ _ s
            (Ends-and_then (ask-Silent log l _ s (laws.delete_comment_keeps c) h) one_row-Silent)
            (ended h)))

  pub apply_kind-Silent :
      (m : Mutation) (c : Change) (k : ChangeKind) (n : ℕ) (a : Applied)
      → Quiet (apply_kind db marshal uuid_string parse_uuid fuel m c k n a)
  unfolding apply_kind
  apply_kind-Silent m c (change_insert item) n a s h =
      Ends-and_then (apply_insert-Silent m item n s h) λ p s1 h1. ended h1
  apply_kind-Silent m c (change_update up) n a s h =
      Ends-and_then (apply_update-Silent up n s h) λ p s1 h1. ended h1
  apply_kind-Silent m c (change_reparent r) n a s h =
      Ends-and_then (apply_reparent-Silent r n s h) λ p s1 h1. ended h1
  apply_kind-Silent m c change_soft_delete n a s h =
      Ends-and_then (ask-Silent log l _ s (laws.soft_delete_item_keeps c.item_id n) h)
        λ p s1 h1. ended h1
  apply_kind-Silent m c change_hard_delete n a s h =
      Ends-and_then (ask-Silent log l _ s (laws.get_item_keeps c.item_id) h) λ row s1 h1.
        Ends-and_then (ask-Silent log l _ s1 (laws.hard_delete_item_keeps c.item_id) h1)
          λ u s2 h2. ended h2
  apply_kind-Silent m c (change_link x) n a s h =
      Ends-and_then (ask-Silent log l _ s (laws.insert_link_keeps x _) h) λ u s1 h1.
        Ends-and_then (ask-Silent log l _ s1 (laws.touch_item_keeps c.item_id n) h1)
          λ v s2 h2. ended h2
  apply_kind-Silent m c (change_unlink x) n a s h =
      Ends-and_then (ask-Silent log l _ s (laws.delete_link_keeps x.id) h) λ u s1 h1.
        Ends-and_then (ask-Silent log l _ s1 (laws.touch_item_keeps c.item_id n) h1)
          λ v s2 h2. ended h2
  apply_kind-Silent m c (change_comment x) n a s h =
      Ends-and_then (apply_comment-Silent m.actor_id x s h) λ u s1 h1.
        Ends-and_then (ask-Silent log l _ s1 (laws.touch_item_keeps c.item_id n) h1)
          λ v s2 h2. ended h2
