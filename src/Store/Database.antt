-- ===== src/Store/Database.antt =====
-- What internal/store needs of a transaction: the statements of internal/store/query and those in mutate.go and comments.go
-- as the operations of a database whose states are `S`.
use sierx.Prelude.{ℕ, Bool, Option, List, Bytes, ◌⊎◌, inl, inr}
use sierx.Prelude.Int.{ℤ}
use sierx.Rank.{Outcome, ranked, rank_order, panicked, out_of_fuel}
use sierx.Store.Changes.{
  Uuid, DbError, StoreError, database, rank_out_of_order, Event, ItemInsert, ItemUpdate, LinkChange,
  CommentChange,
}

pub data Reply {ℓ κ} (S : Type ℓ) (A : Type κ) : Type (ℓ ⊔ κ) where
  reply : A → S → Reply S A
  refused : DbError → Reply S A

-- A value with the state behind it, an error, on which the transaction is rolled back, a panic, or no end.
pub data Result {ℓ κ} (S : Type ℓ) (A : Type κ) : Type (ℓ ⊔ κ) where
  done : A → S → Result S A
  failed : StoreError → Result S A
  crashed endless : Result S A

-- The columns of an item that the store reads.
pub record ItemRow : Type 0 where
  pub project_id : Uuid
  pub path : Bytes
  pub deleted : Bool

pub record Database (S : Type 0) : Type 0 where
  pub begin : S → Reply S (Unit {0})
  pub allocate_seq : ℕ → Uuid → S → Reply S ℕ
  pub item_version : Uuid → Uuid → S → Reply S ℤ
  pub get_item : Uuid → S → Reply S ItemRow
  pub next_item_key : Uuid → S → Reply S Bytes
  pub latest_config_version : Uuid → S → Reply S ℤ
  pub insert_item : Uuid → ItemInsert → ℤ → Bytes → ℕ → S → Reply S (Unit {0})
  pub update_item_fields : ItemUpdate → Option Bytes → ℕ → S → Reply S Bytes
  pub soft_delete_item : Uuid → ℕ → S → Reply S Bytes
  pub hard_delete_item : Uuid → S → Reply S (Unit {0})
  pub subtree_height : Bytes → S → Reply S ℕ
  pub reparent_subtree : Uuid → Option Uuid → Bytes → Bytes → ℕ → S → Reply S (List Bytes)
  pub list_project_ranks : Uuid → S → Reply S (List (Uuid × Bytes))
  pub set_project_ranks : Uuid → List Bytes → List Bytes → S → Reply S (Unit {0})
  pub set_rank : Uuid → Bytes → S → Reply S (Unit {0})
  pub insert_link : LinkChange → Option Uuid → S → Reply S (Unit {0})
  pub delete_link : Uuid → S → Reply S (Unit {0})
  pub insert_comment : CommentChange → Uuid → S → Reply S (Unit {0})
  pub edit_comment : CommentChange → S → Reply S ℕ
  pub delete_comment : CommentChange → S → Reply S ℕ
  pub touch_item : Uuid → ℕ → S → Reply S (Unit {0})
  pub insert_rollup_row : Uuid → S → Reply S (Unit {0})
  pub recompute_rollup : Uuid → S → Reply S (Unit {0})
  pub insert_event : Uuid → Event → S → Reply S (Unit {0})
  pub commit : S → Reply S (Unit {0})

abbrev pub Tx : Type 0 → Type 0 → Type 0
Tx S A = S → Result S A

module _ {S A : Type 0} where
  abbrev pub answered : Reply S A → Result S A
  answered (reply a s) = done a s
  answered (refused e) = failed (database e)

  abbrev pub ask : (S → Reply S A) → Tx S A
  ask op s = answered (op s)

  abbrev pub give : A → Tx S A
  give a s = done a s

  abbrev pub reject : StoreError → Tx S A
  reject e s = failed e

abbrev pub and_then : {S A B : Type 0} → Result S A → (A → S → Result S B) → Result S B
and_then (done a s) f = f a s
and_then (failed e) f = failed e
and_then crashed f = crashed
and_then endless f = endless

infixl 5 ◌>>=◌
abbrev pub ◌>>=◌ : {S A B : Type 0} → Tx S A → (A → Tx S B) → Tx S B
(t >>= f) s = and_then (t s) f

infixl 5 ◌>>◌
abbrev pub ◌>>◌ : {S A B : Type 0} → Tx S A → Tx S B → Tx S B
(t >> u) s = and_then (t s) (λ a. u)

-- A result of RankBetween.
abbrev pub rank_result : {S : Type 0} → Outcome → Tx S Bytes
rank_result (ranked r) s = done r s
rank_result rank_order s = failed rank_out_of_order
rank_result panicked s = crashed
rank_result out_of_fuel s = endless

abbrev pub from_sum : {S A : Type 0} → StoreError ⊎ A → Tx S A
from_sum (inl e) s = failed e
from_sum (inr a) s = done a s
