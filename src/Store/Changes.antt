-- ===== src/Store/Changes.antt =====
-- internal/store/events.go: the pending changes and events of a mutation. A UUID is its 128 bits as
-- a number, 0 for the zero UUID; a float64 is its bit pattern; a date and a string are bytes.
use sierx.Prelude.{ℕ, Bool, Option, List, Bytes}
use sierx.Prelude.Int.{ℤ}

abbrev pub Uuid : Type 0
Uuid = ℕ

-- A Go `any` that is marshalled; `other` stands for a value of a type that only a caller knows.
mutual
  pub data Any : Type 0 where
    nil : Any
    str : Bytes → Any
    flag : Bool → Any
    object : Members → Any
    other : ℕ → Any

  pub data Members : Type 0 where
    end : Members
    member : Bytes → Any → Members → Members

-- An error of the database, or the answer that no row was found.
pub data DbError : Type 0 where
  no_rows : DbError
  db_error : ℕ → DbError

pub data StoreError : Type 0 where
  database : DbError → StoreError
  other_project rank_out_of_order : StoreError
  no_events version_conflict empty_mutation invalid_move : StoreError
  invalid_comment_action no_comment_actor no_title no_origin no_field_changes no_field_name :
      StoreError
  not_an_endpoint marshal_failed : StoreError
  callback : ℕ → StoreError

pub record Event : Type 0 where
  pub item_id : Uuid
  pub has_item : Bool
  pub actor_id : Uuid
  pub has_actor : Bool
  pub kind : Bytes
  pub field : Option Bytes
  pub old_value : Option Bytes
  pub new_value : Option Bytes
  pub seq : ℕ

pub record ItemInsert : Type 0 where
  pub id : Uuid
  pub project_id : Uuid
  pub item_type_id : Uuid
  pub status_id : Uuid
  pub parent_id : Option Uuid
  pub title : Bytes
  pub body : Option Bytes
  pub assignee_id : Option Uuid
  pub points : Option ℕ
  pub start_date : Option Bytes
  pub due_date : Option Bytes
  pub fields : Option Members
  pub origin_id : Uuid
  pub origin_seq : Option ℕ
  pub config_version : Option ℤ
  pub key : Bytes
  pub path : Bytes
  pub rank : Bytes

pub record ItemUpdate : Type 0 where
  pub id : Uuid
  pub title : Option Bytes
  pub body : Option Bytes
  pub set_body : Bool
  pub status_id : Option Uuid
  pub config_version : Option ℤ
  pub assignee_id : Option Uuid
  pub set_assignee : Bool
  pub points : Option ℕ
  pub set_points : Bool
  pub start_date : Option Bytes
  pub set_start_date : Bool
  pub due_date : Option Bytes
  pub set_due_date : Bool
  pub rank : Option Bytes
  pub fields : Option Members

pub record ItemReparent : Type 0 where
  pub id : Uuid
  pub new_parent_id : Option Uuid
  pub set_rank : Bool
  pub rank_after : Option Uuid

pub record LinkChange : Type 0 where
  pub id : Uuid
  pub from_item_id : Uuid
  pub to_item_id : Uuid
  pub acting_item_id : Uuid
  pub kind : Bytes

pub record CommentChange : Type 0 where
  pub id : Uuid
  pub item_id : Uuid
  pub action : Bytes
  pub body : Bytes
  pub old_body : Option Bytes

-- The kind of a change with what it carries.
pub data ChangeKind : Type 0 where
  change_insert : ItemInsert → ChangeKind
  change_update : ItemUpdate → ChangeKind
  change_reparent : ItemReparent → ChangeKind
  change_soft_delete change_hard_delete : ChangeKind
  change_link change_unlink : LinkChange → ChangeKind
  change_comment : CommentChange → ChangeKind

pub record Change : Type 0 where
  pub kind : ChangeKind
  pub item_id : Uuid
  pub events : List Event

pub record FieldChange : Type 0 where
  pub kind : Bytes
  pub field : Bytes
  pub old : Any
  pub new : Any

pub record Mutation : Type 0 where
  pub expected : List (Uuid × ℤ)
  pub workspace_id : Uuid
  pub actor_id : Uuid
  pub has_actor : Bool
  pub changes : List Change
  pub touched_paths : List Bytes
  pub err : Option StoreError

-- A call of a callback on its mutation, with the UUID that it draws.
pub data Call : Type 0 where
  comment_call : Uuid → CommentChange → Call
  create_call : Uuid → ItemInsert → Call
  update_call : ItemUpdate → List FieldChange → Call
  reparent_call : ItemReparent → Call
  soft_delete_call hard_delete_call : Uuid → Call
  link_call : Uuid → LinkChange → Call
  unlink_call : LinkChange → Call
