-- ===== src/Store/Flush.antt =====
-- internal/store/mutate.go: ranks, and the row changes of a flush, over the operations of a database.
use sierx.Prelude.{
  ℕ, zero, suc, ◌+◌, Bool, true, false, not, ◌||◌, Option, none, some, List, [], ◌∷◌, ◌++◌, ◌⊎◌,
  inl, inr, Bytes, codes, ltb, ◌==◌, if◌then◌else◌, eqb_bytes, length, get_last?,
}
use sierx.Prelude.Int.{ℤ}
use sierx.Rank.{rank_between, rank_needs_rebalance, rank_sequence}
use sierx.Store.Changes.{
  Uuid, Any, object, Members, StoreError, invalid_move, other_project, rank_out_of_order, database,
  no_rows, ItemInsert, ItemUpdate, ItemReparent, CommentChange, Mutation,
}
use sierx.Store.Events.{marshal_value}
use sierx.Store.Rollups.{is_descendant_or_self}
use sierx.Store.Database.{
  Database, ItemRow, Tx, ask, give, reject, rank_result, from_sum, endless, ◌>>=◌, ◌>>◌,
}

-- The rank of the last row.
abbrev pub last_rank : List (Uuid × Bytes) → Bytes
last_rank rows = elim (get_last? rows) [ none ↦ [] | some row ↦ row.1 ]

abbrev pub row_ranks : List (Uuid × Bytes) → List Bytes
row_ranks [] = []
row_ranks (row ∷ rows) = row.1 ∷ row_ranks rows

unfoldable pub count_dots : Bytes → ℕ
count_dots [] = 0
count_dots (c ∷ s) = if c == b'.' then 1 + count_dots s else count_dots s

abbrev is_nil : Option Uuid → Bool
is_nil none = true
is_nil (some a) = false

-- Between which ranks an item is put: whether the row before it is found, and the two bounds.
unfoldable pub neighbours :
    Uuid → Option Uuid → Bool → Bytes → List (Uuid × Bytes) → Bool × Bytes × Bytes
neighbours self after found lo [] = (found, lo, [])
neighbours self after found lo ((id, rank) ∷ rows) =
    if id == self
    then neighbours self after found lo rows
    else if found
    then (true, lo, rank)
    else if is_uuid after id
    then neighbours self after true rank rows
    else neighbours self after false lo rows
  where
    is_uuid : Option Uuid → Uuid → Bool
    is_uuid none id = false
    is_uuid (some a) id = a == id

module _ {S : Type 0} (db : Database S) (marshal : Any → Option Bytes) (uuid_string : Uuid → Bytes)
    (fuel : ℕ) where
  abbrev pub new_ranks : Option (List Bytes) → Uuid → List Bytes → Tx S (Unit {0})
  new_ranks none project old s = endless
  new_ranks (some new) project old s = ask (db.set_project_ranks project old new) s

  unfoldable pub rebalance_project_ranks : Uuid → List (Uuid × Bytes) → Tx S (Unit {0})
  rebalance_project_ranks project [] = give tt
  rebalance_project_ranks project (row ∷ rows) =
      new_ranks (rank_sequence (length (row ∷ rows))) project (row_ranks (row ∷ rows))

  -- After the last rank of the project.
  unfoldable pub rank_behind : List (Uuid × Bytes) → Tx S Bytes
  rank_behind ranks = rank_result (rank_between fuel (last_rank ranks) [])

  unfoldable pub rank_for_new_item : Uuid → Tx S Bytes
  rank_for_new_item project = do
    ranks ← ask (db.list_project_ranks project)
    rank ← rank_behind ranks
    if rank_needs_rebalance rank
        then (rebalance_project_ranks project ranks
            >> ask (db.list_project_ranks project)
            >>= rank_behind)
        else give rank

  unfoldable pub insert_path : ItemInsert → Option Uuid → Tx S Bytes
  insert_path item none = give (uuid_string item.id)
  insert_path item (some parent) = do
    row ← ask (db.get_item parent)
    if row.project_id == item.project_id
        then give (row.path ++ b'.' ∷ uuid_string item.id)
        else reject other_project

  abbrev pub config_of : Uuid → Option ℤ → Tx S ℤ
  config_of project none = ask (db.latest_config_version project)
  config_of project (some v) = give v

  abbrev pub rank_of : ItemInsert → Tx S Bytes
  rank_of item = elim item.rank [ [] ↦ rank_for_new_item item.project_id | ◌∷◌ c r ↦ give (c ∷ r) ]

  abbrev origin_of : Option ℕ → ℕ → Option ℕ
  origin_of none seq = some seq
  origin_of (some o) seq = some o

  -- A nil map of a new item is an empty object.
  unfoldable pub marshal_fields : Option Members → StoreError ⊎ Bytes
  marshal_fields none = inr (codes "{}")
  marshal_fields (some f) = bytes_of (marshal_value marshal (object f))
    where
      bytes_of : StoreError ⊎ Option Bytes → StoreError ⊎ Bytes
      bytes_of (inl e) = inl e
      bytes_of (inr none) = inr []
      bytes_of (inr (some b)) = inr b

  unfoldable pub marshal_fields_patch : Option Members → StoreError ⊎ Option Bytes
  marshal_fields_patch none = inr none
  marshal_fields_patch (some f) = marshal_value marshal (object f)

  -- The path of the new item.
  unfoldable pub apply_insert : Mutation → ItemInsert → ℕ → Tx S Bytes
  apply_insert m item seq = do
    key ← ask (db.next_item_key item.project_id)
    path ← insert_path item item.parent_id
    config ← config_of item.project_id item.config_version
    rank ← rank_of item
    fields ← from_sum (marshal_fields item.fields)
    _ ← ask (
        db.insert_item m.workspace_id
          (record item {
            key = key;
            path = path;
            rank = rank;
            origin_seq = origin_of item.origin_seq seq;
          })
          config fields seq)
    give path

  unfoldable pub apply_update : ItemUpdate → ℕ → Tx S Bytes
  apply_update up seq = do
    fields ← from_sum (marshal_fields_patch up.fields)
    ask (db.update_item_fields up fields seq)

  -- The path of the new parent, empty for a move to the root.
  unfoldable pub new_parent_path : ItemRow → Option Uuid → Tx S Bytes
  new_parent_path item none = give []
  new_parent_path item (some p) = do
    parent ← ask (db.get_item p)
    if not (parent.project_id == item.project_id)
          || parent.deleted
          || is_descendant_or_self parent.path item.path
        then reject invalid_move
        else give parent.path

  abbrev pub depth_of : Bytes → ℕ
  depth_of [] = 0
  depth_of (c ∷ s) = count_dots (c ∷ s) + 1

  -- With the rank between the bounds, or after a rebalance once more.
  unfoldable pub place_between :
      ItemReparent
      → Uuid
      → Tx S (Unit {0})
      → List (Uuid × Bytes)
      → Bool × Bytes × Bytes
      → Tx S (Unit {0})
  place_between r project again ranks (false, lo, hi) = reject invalid_move
  place_between r project again ranks (true, lo, hi) = do
    rank ← rank_result (rank_between fuel lo hi)
    if rank_needs_rebalance rank
        then rebalance_project_ranks project ranks >> again
        else ask (db.set_rank r.id rank)

  -- Put the item between its neighbours, in two attempts at most.
  unfoldable pub place_item : ℕ → ItemReparent → Uuid → Tx S (Unit {0})
  place_item zero r project = reject rank_out_of_order
  place_item (suc attempts) r project = do
    ranks ← ask (db.list_project_ranks project)
    place_between r project (place_item attempts r project) ranks
        (neighbours r.id r.rank_after (is_nil r.rank_after) [] ranks)

  -- The paths that the move touches: the item's old one, and the new ones of its subtree.
  unfoldable pub apply_reparent : ItemReparent → ℕ → Tx S (List Bytes)
  apply_reparent r seq = do
    item ← ask (db.get_item r.id)
    parent_path ← new_parent_path item r.new_parent_id
    height ← ask (db.subtree_height item.path)
    if ltb 8 (depth_of parent_path + height) then reject invalid_move else (do
      paths ← ask (db.reparent_subtree r.id r.new_parent_id parent_path item.path seq)
      if r.set_rank then place_item 2 r item.project_id else give tt
      give (item.path ∷ paths))

  abbrev pub one_row : ℕ → Tx S (Unit {0})
  one_row n = if n == 1 then give tt else reject (database no_rows)

  unfoldable pub apply_comment : Uuid → CommentChange → Tx S (Unit {0})
  apply_comment actor c =
      if eqb_bytes c.action (codes "create")
      then ask (db.insert_comment c actor)
      else if eqb_bytes c.action (codes "edit")
      then ask (db.edit_comment c) >>= one_row
      else if eqb_bytes c.action (codes "delete")
      then ask (db.delete_comment c) >>= one_row
      else give tt
