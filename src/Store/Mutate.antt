-- ===== src/Store/Mutate.antt =====
-- internal/store/mutate.go: flush and Mutate, over the operations of a database.
pub mod Ends
pub mod Silent
pub mod Logged
pub mod Checked
use sierx.Prelude.{
  ℕ, zero, suc, ◌+◌, ◌-◌, Bool, true, false, not, ◌&&◌, ◌||◌, Option, none, some, List, [], ◌∷◌,
  ◌++◌, ◌⊎◌, inl, inr, Bytes, codes, ◌==◌, if◌then◌else◌,
}
use sierx.Prelude.Int.{ℤ, pos, eqb_ℤ}
use sierx.Store.Changes.{
  Uuid, Any, DbError, no_rows, StoreError, database, version_conflict, no_events, empty_mutation,
  callback, Event, ItemInsert, ChangeKind, change_insert, change_update, change_reparent,
  change_soft_delete, change_hard_delete, change_link, change_unlink, change_comment, Change,
  Mutation, Call, hard_delete_call,
}
use sierx.Store.Events.{count_events, event_count, calls}
use sierx.Store.Numbering.{Numbering, seq_of, first_numbering, number_changes}
use sierx.Store.Rollups.{dirty_ancestors}
use sierx.Store.Database.{
  Reply, reply, refused, Result, Database, ItemRow, Tx, ask, give, reject, done, failed, crashed,
  endless, from_sum, and_then, ◌>>=◌, ◌>>◌,
}
use sierx.Store.Flush.{
  apply_insert, apply_update, apply_reparent, apply_comment, rebalance_project_ranks,
}

-- The Result of mutate.go.
pub record Summary : Type 0 where
  pub highest_seq : ℕ
  pub lowest_seq : ℕ
  pub event_total : ℕ
  pub item_ids : List Uuid

-- What the loop over the changes collects.
pub record Applied : Type 0 where
  pub touched : List Bytes
  pub item_ids : List Uuid
  pub created : List Uuid
  pub hard_deleted : List Uuid

abbrev touch : Applied → List Bytes → Applied
touch a paths = record a { touched = a.touched ++ paths }

unfoldable pub is_listed : Uuid → List Uuid → Bool
is_listed id [] = false
is_listed id (x ∷ xs) = if x == id then true else is_listed id xs

-- The ancestors that the mutation has not deleted.
unfoldable pub live_ids : List Uuid → List Uuid → List Uuid
live_ids gone [] = []
live_ids gone (id ∷ ids) = if is_listed id gone then live_ids gone ids else id ∷ live_ids gone ids

-- MutateOption: WithActor and WithExpectedVersion.
unfoldable pub with_actor : Uuid → Mutation → Mutation
with_actor id m = record m { actor_id = id; has_actor = true }

abbrev drop_key : Uuid → List (Uuid × ℤ) → List (Uuid × ℤ)
drop_key id [] = []
drop_key id ((key, v) ∷ entries) =
    let rest = drop_key id entries in if key == id then rest else (key, v) ∷ rest

unfoldable pub with_expected_version : Uuid → ℤ → Mutation → Mutation
with_expected_version id version m = record m { expected = (id, version) ∷ drop_key id m.expected }

abbrev pub new_mutation : Uuid → Mutation
new_mutation workspace = record {
  expected = [];
  workspace_id = workspace;
  actor_id = 0;
  has_actor = false;
  changes = [];
  touched_paths = [];
  err = none;
}

abbrev actor_of : Mutation → Option Uuid
actor_of m = if m.has_actor then some m.actor_id else none

-- The version in the database against the expected one.
abbrev versions_agree : {S : Type 0} → ℤ → Reply S ℤ → Result S (Unit {0})
versions_agree expected (reply actual s) =
    if eqb_ℤ actual expected then done tt s else failed version_conflict
versions_agree expected (refused no_rows) = failed version_conflict
versions_agree expected (refused e) = failed (database e)

-- Whether every change has an event.
unfoldable pub all_described : List Change → Bool
all_described [] = true
all_described (c ∷ cs) = elim c.events [ [] ↦ false | ◌∷◌ e es ↦ all_described cs ]

module _ {S : Type 0} (db : Database S) (marshal : Any → Option Bytes) (uuid_string : Uuid → Bytes)
    (parse_uuid : Bytes → Option Uuid) (fuel : ℕ) where
  unfoldable pub check_versions : Uuid → List (Uuid × ℤ) → Tx S (Unit {0})
  check_versions workspace [] = give tt
  check_versions workspace ((id, expected) ∷ entries) = do
    (λ s. versions_agree expected (db.item_version id workspace s))
    check_versions workspace entries

  -- The switch on the kind of a change.
  unfoldable pub apply_kind : Mutation → Change → ChangeKind → ℕ → Applied → Tx S Applied
  apply_kind m c (change_insert item) seq a = do
    path ← apply_insert db marshal uuid_string fuel m item seq
    give (record (touch a (path ∷ [])) { created = a.created ++ item.id ∷ [] })
  apply_kind m c (change_update up) seq a = do
    path ← apply_update db marshal uuid_string fuel up seq
    give (touch a (path ∷ []))
  apply_kind m c (change_reparent r) seq a = do
    paths ← apply_reparent db marshal uuid_string fuel r seq
    give (touch a paths)
  apply_kind m c change_soft_delete seq a = do
    path ← ask (db.soft_delete_item c.item_id seq)
    give (touch a (path ∷ []))
  apply_kind m c change_hard_delete seq a = do
    row ← ask (db.get_item c.item_id)
    _ ← ask (db.hard_delete_item c.item_id)
    give (record (touch a (row.path ∷ [])) { hard_deleted = c.item_id ∷ a.hard_deleted })
  apply_kind m c (change_link l) seq a = do
    _ ← ask (db.insert_link l (actor_of m))
    _ ← ask (db.touch_item c.item_id seq)
    give a
  apply_kind m c (change_unlink l) seq a = do
    _ ← ask (db.delete_link l.id)
    _ ← ask (db.touch_item c.item_id seq)
    give a
  apply_kind m c (change_comment cm) seq a = do
    _ ← apply_comment db marshal uuid_string fuel m.actor_id cm
    _ ← ask (db.touch_item c.item_id seq)
    give a

  abbrev listed : Uuid → Applied → Applied
  listed id a = if id == 0 then a else record a { item_ids = a.item_ids ++ id ∷ [] }

  unfoldable pub apply_changes : Mutation → List (Uuid × ℕ) → List Change → Applied → Tx S Applied
  apply_changes m seqs [] a = give a
  apply_changes m seqs (c ∷ cs) a = do
    b ← apply_kind m c c.kind (seq_of seqs c.item_id) a
    apply_changes m seqs cs (listed c.item_id b)

  unfoldable pub insert_rollups : List Uuid → Tx S (Unit {0})
  insert_rollups [] = give tt
  insert_rollups (id ∷ ids) = ask (db.insert_rollup_row id) >> insert_rollups ids

  unfoldable pub recompute_rollups : List Uuid → Tx S (Unit {0})
  recompute_rollups [] = give tt
  recompute_rollups (id ∷ ids) = ask (db.recompute_rollup id) >> recompute_rollups ids

  unfoldable pub insert_events : Uuid → List Event → Tx S (Unit {0})
  insert_events workspace [] = give tt
  insert_events workspace (ev ∷ evs) =
      ask (db.insert_event workspace ev) >> insert_events workspace evs

  unfoldable pub insert_change_events : Uuid → List Change → Tx S (Unit {0})
  insert_change_events workspace [] = give tt
  insert_change_events workspace (c ∷ cs) =
      insert_events workspace c.events >> insert_change_events workspace cs

  abbrev nothing_applied : Mutation → Applied
  nothing_applied m = record {
    touched = m.touched_paths;
    item_ids = [];
    created = [];
    hard_deleted = [];
  }

  unfoldable pub flush_numbered : Mutation → ℕ → List Change → List (Uuid × ℕ) → Tx S Summary
  flush_numbered m highest cs seqs = do
    a ← apply_changes m seqs cs (nothing_applied m)
    insert_rollups a.created
    recompute_rollups (live_ids a.hard_deleted (dirty_ancestors parse_uuid a.touched))
    insert_change_events m.workspace_id cs
    give (record {
      highest_seq = highest;
      lowest_seq = highest - event_count m + 1;
      event_total = event_count m;
      item_ids = a.item_ids;
    })

  unfoldable pub flush : Mutation → Tx S Summary
  flush m = do
    highest ← ask (db.allocate_seq (event_count m) m.workspace_id)
    check_versions m.workspace_id m.expected
    let (cs, numbering) = number_changes (first_numbering highest m.changes) m.changes
    flush_numbered m highest cs numbering.item_seq

  -- The checks before the transaction, and then the transaction: begin, flush and commit.
  unfoldable pub write : Mutation → Tx S Summary
  write m = elim m.err [
    | some e ↦ reject e
    | none ↦ elim m.changes [
      | [] ↦ reject empty_mutation
      | ◌∷◌ c cs ↦ elim (all_described m.changes) [
        | false ↦ reject no_events
        | true ↦ do _ ← ask db.begin; summary ← flush m; _ ← ask db.commit; give summary
      ]
    ]
  ]

  -- Mutate with a callback that makes some calls and then may fail. The states of a failed
  -- transaction are lost.
  unfoldable pub mutate :
      Uuid → (Mutation → Mutation) → List Call → Option StoreError → Tx S Summary
  mutate workspace options cs error = elim error [
    | some e ↦ reject e
    | none ↦ write (calls marshal uuid_string cs (options (new_mutation workspace)))
  ]

  unfoldable pub hard_delete_item : Uuid → Uuid → (Mutation → Mutation) → Tx S Summary
  hard_delete_item workspace id options = mutate workspace options (hard_delete_call id ∷ []) none

  abbrev row_count : List (Uuid × Bytes) → ℕ
  row_count [] = 0
  row_count (r ∷ rs) = suc (row_count rs)

  -- The event of a rebalance; `decimal` writes a number.
  abbrev rebalance_event : (ℕ → Bytes) → Uuid → ℕ → ℕ → Event
  rebalance_event decimal project n seq = record {
    item_id = 0;
    has_item = false;
    actor_id = 0;
    has_actor = false;
    kind = codes "field_changed";
    field = some (codes "rank");
    old_value = none;
    new_value = some (
        codes "{\"rebalanced\":"
        ++ decimal n
        ++ codes ",\"project_id\":\""
        ++ uuid_string project
        ++ codes "\"}");
    seq = seq;
  }

  unfoldable pub rebalance_project : (ℕ → Bytes) → Uuid → Uuid → Tx S ℕ
  rebalance_project decimal workspace project = do
    _ ← ask db.begin
    ranks ← ask (db.list_project_ranks project)
    seq ← ask (db.allocate_seq 1 workspace)
    rebalance_project_ranks db marshal uuid_string fuel project ranks
    _ ← ask (db.insert_event workspace (rebalance_event decimal project (row_count ranks) seq))
    _ ← ask db.commit
    give (row_count ranks)
