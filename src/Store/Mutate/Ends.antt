-- ===== src/Store/Mutate/Ends.antt =====
-- Postconditions on the transactions of internal/store, and databases that log events.
use sierx.Prelude.{
  ℕ, ◌≤◌, ◌≡◌, refl, ◌∙◌, Bool, true, false, List, [], ◌∷◌, ◌++◌, if◌then◌else◌, Option, ◌⊎◌, inl,
  inr, Bytes,
}
use sierx.Prelude.Int.{ℤ}
use sierx.Store.Changes.{Uuid, StoreError, Event, ItemInsert, ItemUpdate, LinkChange, CommentChange}
use sierx.Store.Database.{
  Reply, reply, refused, Result, done, failed, crashed, endless, Tx, ask, answered, from_sum,
  rank_result, and_then, Database,
}
use sierx.Rank.{Outcome, ranked, rank_order, panicked, out_of_fuel}

-- If the transaction is done, `P` holds of its value and state.
pub data Ends {S A : Type 0} (P : A → S → Type 0) : Result S A → Type 0 where
  ended : {a : A} {s : S} → P a s → Ends P (done a s)
  undone : {e : StoreError} → Ends P (failed e)
  broken : Ends P crashed
  running : Ends P endless

module _ {S A : Type 0} {P : A → S → Type 0} where
  pub Ends-map :
      {Q : A → S → Type 0} {r : Result S A}
      → ((a : A) (s : S) → Q a s → P a s)
      → Ends Q r
      → Ends P r
  Ends-map k (ended {a} {s} h) = ended (k a s h)
  Ends-map k undone = undone
  Ends-map k broken = broken
  Ends-map k running = running

  pub Ends-if :
      (b : Bool) (t u : Tx S A) (s : S)
      → Ends P (t s)
      → Ends P (u s)
      → Ends P ((if b then t else u) s)
  Ends-if true t u s ht hu = ht
  Ends-if false t u s ht hu = hu

pub Ends-and_then :
    {S A B : Type 0} {P : B → S → Type 0} {Q : A → S → Type 0} {r : Result S A}
    {f : A → S → Result S B}
    → Ends Q r
    → ((a : A) (s : S) → Q a s → Ends P (f a s))
    → Ends P (and_then r f)
Ends-and_then (ended {a} {s} h) k = k a s h
Ends-and_then undone k = undone
Ends-and_then broken k = broken
Ends-and_then running k = running

-- An operation that leaves the log alone.
abbrev pub Keeps : {S A : Type 0} → (S → List Event) → (S → Reply S A) → Type 0
Keeps {S} {A} log op = (s : S) (a : A) (s' : S) → op s ≡ reply a s' → log s' ≡ log s

-- A database with a log, to which only the insertion of an event adds; it hands out as many numbers as it is asked for.
pub record EventLog (S : Type 0) (db : Database S) (log : S → List Event) : Type 0 where
  pub allocates :
      (n : ℕ) (w : Uuid) (s : S) (highest : ℕ) (s' : S)
      → db.allocate_seq n w s ≡ reply highest s'
      → n ≤ highest
  pub inserts :
      (w : Uuid) (ev : Event) (s : S) (u : Unit {0}) (s' : S)
      → db.insert_event w ev s ≡ reply u s'
      → log s' ≡ log s ++ ev ∷ []
  pub allocate_seq_keeps : (n : ℕ) (w : Uuid) → Keeps log (db.allocate_seq n w)
  pub item_version_keeps : (i w : Uuid) → Keeps log (db.item_version i w)
  pub get_item_keeps : (i : Uuid) → Keeps log (db.get_item i)
  pub next_item_key_keeps : (p : Uuid) → Keeps log (db.next_item_key p)
  pub latest_config_version_keeps : (p : Uuid) → Keeps log (db.latest_config_version p)
  pub insert_item_keeps :
      (w : Uuid) (i : ItemInsert) (c : ℤ) (f : Bytes) (n : ℕ) → Keeps log (db.insert_item w i c f n)
  pub update_item_fields_keeps :
      (u : ItemUpdate) (f : Option Bytes) (n : ℕ) → Keeps log (db.update_item_fields u f n)
  pub soft_delete_item_keeps : (i : Uuid) (n : ℕ) → Keeps log (db.soft_delete_item i n)
  pub hard_delete_item_keeps : (i : Uuid) → Keeps log (db.hard_delete_item i)
  pub subtree_height_keeps : (p : Bytes) → Keeps log (db.subtree_height p)
  pub reparent_subtree_keeps :
      (i : Uuid) (p : Option Uuid) (a b : Bytes) (n : ℕ) → Keeps log (db.reparent_subtree i p a b n)
  pub list_project_ranks_keeps : (p : Uuid) → Keeps log (db.list_project_ranks p)
  pub set_project_ranks_keeps :
      (p : Uuid) (a b : List Bytes) → Keeps log (db.set_project_ranks p a b)
  pub set_rank_keeps : (i : Uuid) (r : Bytes) → Keeps log (db.set_rank i r)
  pub insert_link_keeps : (l : LinkChange) (a : Option Uuid) → Keeps log (db.insert_link l a)
  pub delete_link_keeps : (i : Uuid) → Keeps log (db.delete_link i)
  pub insert_comment_keeps : (c : CommentChange) (a : Uuid) → Keeps log (db.insert_comment c a)
  pub edit_comment_keeps : (c : CommentChange) → Keeps log (db.edit_comment c)
  pub delete_comment_keeps : (c : CommentChange) → Keeps log (db.delete_comment c)
  pub touch_item_keeps : (i : Uuid) (n : ℕ) → Keeps log (db.touch_item i n)
  pub insert_rollup_row_keeps : (i : Uuid) → Keeps log (db.insert_rollup_row i)
  pub recompute_rollup_keeps : (i : Uuid) → Keeps log (db.recompute_rollup i)

-- A transaction that leaves the log at `l`.
abbrev pub Silent : {S A : Type 0} → (S → List Event) → List Event → Result S A → Type 0
Silent log l r = Ends (λ a s. log s ≡ l) r

module _ {S A : Type 0} (log : S → List Event) (l : List Event) where
  answered-Silent :
      (r : Reply S A) → ((a : A) (s' : S) → r ≡ reply a s' → log s' ≡ l) → Silent log l (answered r)
  answered-Silent (reply a s) h = ended (h a s refl)
  answered-Silent (refused e) h = undone

  pub ask-Silent : (op : S → Reply S A) (s : S) → Keeps log op → log s ≡ l → Silent log l (ask op s)
  ask-Silent op s k e = answered-Silent (op s) λ a s' h. k s a s' h ∙ e

  pub from_sum-Silent : (r : StoreError ⊎ A) (s : S) → log s ≡ l → Silent log l (from_sum r s)
  from_sum-Silent (inl e) s h = undone
  from_sum-Silent (inr a) s h = ended h

pub rank_result-Silent :
    {S : Type 0} (log : S → List Event) (l : List Event) (o : Outcome) (s : S)
    → log s ≡ l
    → Silent log l (rank_result o s)
rank_result-Silent log l (ranked r) s h = ended h
rank_result-Silent log l rank_order s h = undone
rank_result-Silent log l panicked s h = broken
rank_result-Silent log l out_of_fuel s h = running
