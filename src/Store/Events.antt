-- ===== src/Store/Events.antt =====
-- internal/store/events.go: how a mutation registers changes. The JSON encoder, the spelling of a UUID
-- and the fresh UUID of a call are arguments.
use sierx.Prelude.{
  ℕ, ◌+◌, true, not, ◌&&◌, ◌||◌, Option, none, some, List, [], ◌∷◌, ◌++◌, ◌⊎◌, inl, inr, Bytes,
  codes, ◌==◌, if◌then◌else◌, eqb_bytes, length,
}
use sierx.Store.Changes.{
  Uuid, Any, nil, str, flag, object, end, member, StoreError, invalid_comment_action,
  no_comment_actor, no_title, no_origin, no_field_changes, no_field_name, not_an_endpoint,
  marshal_failed, Event, ItemInsert, ItemUpdate, ItemReparent, LinkChange, CommentChange,
  ChangeKind, change_insert, change_update, change_reparent, change_soft_delete, change_hard_delete,
  change_link, change_unlink, change_comment, Change, FieldChange, Mutation, Call, comment_call,
  create_call, update_call, reparent_call, soft_delete_call, hard_delete_call, link_call,
  unlink_call,
}

abbrev first_error : Option StoreError → StoreError → Option StoreError
first_error none e = some e
first_error (some old) e = some old

unfoldable pub fail : Mutation → StoreError → Mutation
fail m e = record m { err = first_error m.err e }

unfoldable pub add_change : Mutation → ChangeKind → Uuid → List Event → Mutation
add_change m kind id events = record m {
  changes = m.changes ++ record { kind = kind; item_id = id; events = events } ∷ [];
}

unfoldable pub new_event :
    Mutation → Uuid → Bytes → Option Bytes → Option Bytes → Option Bytes → Event
new_event m id kind field old new = record {
  item_id = id;
  has_item = not (id == 0);
  actor_id = m.actor_id;
  has_actor = m.has_actor;
  kind = kind;
  field = field;
  old_value = old;
  new_value = new;
  seq = 0;
}

unfoldable pub count_events : List Change → ℕ
count_events [] = 0
count_events (c ∷ cs) = length c.events + count_events cs

unfoldable pub event_count : Mutation → ℕ
event_count m = count_events m.changes

abbrev pub or_fresh : Uuid → Uuid → Uuid
or_fresh id fresh = if id == 0 then fresh else id

-- The bytes of an optional value, and the errors of the encoder.
unfoldable pub marshal_value : (Any → Option Bytes) → Any → StoreError ⊎ Option Bytes
marshal_value marshal nil = inr none
marshal_value marshal v = marshalled (marshal v)
  where
    marshalled : Option Bytes → StoreError ⊎ Option Bytes
    marshalled none = inl marshal_failed
    marshalled (some b) = inr (some b)

abbrev pub then_do {ℓ κ} :
    {A : Type ℓ} {B : Type κ} → StoreError ⊎ A → (A → StoreError ⊎ B) → StoreError ⊎ B
then_do (inl e) f = inl e
then_do (inr a) f = f a

-- What a call does with the events that it made.
abbrev pub register : Mutation → ChangeKind → Uuid → StoreError ⊎ List Event → Mutation
register m kind id (inl e) = fail m e
register m kind id (inr evs) = add_change m kind id evs

abbrev pub one_event : StoreError ⊎ Event → StoreError ⊎ List Event
one_event r = then_do r λ ev. inr (ev ∷ [])

-- The item whose page the link is removed from, and the item at the other end.
abbrev pub unlink_item : LinkChange → Uuid
unlink_item l = if l.acting_item_id == 0 then l.from_item_id else l.acting_item_id

abbrev pub unlink_other : LinkChange → Uuid
unlink_other l =
    if not (l.acting_item_id == 0) && (l.acting_item_id == l.to_item_id)
    then l.from_item_id
    else l.to_item_id

module _ (marshal : Any → Option Bytes) (uuid_string : Uuid → Bytes) where
  unfoldable pub field_event : Mutation → Uuid → FieldChange → StoreError ⊎ Event
  field_event m id fc =
      if eqb_bytes fc.field []
      then inl no_field_name
      else then_do (marshal_value marshal fc.old) λ old.
        then_do (marshal_value marshal fc.new) λ new. inr (
          new_event m id (if eqb_bytes fc.kind [] then codes "field_changed" else fc.kind)
            (some fc.field) old new)

  unfoldable pub field_events : Mutation → Uuid → List FieldChange → StoreError ⊎ List Event
  field_events m id [] = inr []
  field_events m id (fc ∷ fcs) =
      then_do (field_event m id fc) λ ev. then_do (field_events m id fcs) λ evs. inr (ev ∷ evs)

  -- One event with a marshalled payload.
  unfoldable pub described : Mutation → Uuid → Bytes → Option Bytes → Any → StoreError ⊎ List Event
  described m id kind field payload =
      then_do (marshal_value marshal payload) λ new. inr (new_event m id kind field none new ∷ [])

  abbrev old_comment : Uuid → Option Bytes → Any
  old_comment id none = nil
  old_comment id (some body) =
      object (member (codes "id") (str (uuid_string id)) (member (codes "body") (str body) end))

  abbrev new_comment : Uuid → CommentChange → Any
  new_comment id c = object (
      member (codes "id") (str (uuid_string id)) (
        member (codes "body") (if eqb_bytes c.action (codes "delete") then nil else str c.body)
          (member (codes "deleted") (flag (eqb_bytes c.action (codes "delete"))) end)))

  unfoldable pub comment : Uuid → CommentChange → Mutation → Mutation
  comment fresh c m =
      let id = or_fresh c.id fresh in
      if not (
        eqb_bytes c.action (codes "create")
        || eqb_bytes c.action (codes "edit")
        || eqb_bytes c.action (codes "delete"))
      then fail m invalid_comment_action
      else if not m.has_actor
      then fail m no_comment_actor
      else register m (change_comment (record c { id = id })) c.item_id (
          one_event (
            field_event m c.item_id (record {
              kind = [];
              field = codes "comment";
              old = old_comment id c.old_body;
              new = new_comment id c;
            })))

  unfoldable pub create : Uuid → ItemInsert → Mutation → Mutation
  create fresh item m =
      let id = or_fresh item.id fresh in
      if eqb_bytes item.title []
      then fail m no_title
      else if item.origin_id == 0
      then fail m no_origin
      else register m (change_insert (record item { id = id })) id (
          described m id (codes "created") none (
            object (
              member (codes "title") (str item.title)
                (member (codes "project_id") (str (uuid_string item.project_id)) end))))

  unfoldable pub update : ItemUpdate → List FieldChange → Mutation → Mutation
  update up [] m = fail m no_field_changes
  update up (fc ∷ fcs) m = register m (change_update up) up.id (field_events m up.id (fc ∷ fcs))

  abbrev parent_text : Option Uuid → Bytes
  parent_text none = codes "null"
  parent_text (some p) = uuid_string p

  unfoldable pub reparent : ItemReparent → Mutation → Mutation
  reparent r m = register m (change_reparent r) r.id (
      described m r.id (codes "moved") (some (codes "parent_id"))
        (object (member (codes "new_parent_id") (str (parent_text r.new_parent_id)) end)))

  unfoldable pub soft_delete : Uuid → Mutation → Mutation
  soft_delete id m =
      add_change m change_soft_delete id (new_event m id (codes "deleted") none none none ∷ [])

  -- The encoder's error is dropped; the payload is then nil.
  unfoldable pub hard_delete : Uuid → Mutation → Mutation
  hard_delete id m = add_change m change_hard_delete id (
      new_event m id (codes "deleted") none none
        (marshal (object (member (codes "hard") (flag true) end)))
      ∷ [])

  abbrev link_payload : Uuid → Bytes → Any
  link_payload to kind =
      object (member (codes "to") (str (uuid_string to)) (member (codes "kind") (str kind) end))

  unfoldable pub link : Uuid → LinkChange → Mutation → Mutation
  link fresh l m =
      register m (change_link (record l { id = or_fresh l.id fresh })) l.from_item_id
        (described m l.from_item_id (codes "linked") none (link_payload l.to_item_id l.kind))

  unfoldable pub unlink : LinkChange → Mutation → Mutation
  unlink l m =
      if not (unlink_item l == l.from_item_id) && not (unlink_item l == l.to_item_id)
      then fail m not_an_endpoint
      else register m (change_unlink l) (unlink_item l) (
          described m (unlink_item l) (codes "unlinked") none
            (link_payload (unlink_other l) l.kind))

  unfoldable pub call : Call → Mutation → Mutation
  call (comment_call fresh c) m = comment fresh c m
  call (create_call fresh item) m = create fresh item m
  call (update_call up fcs) m = update up fcs m
  call (reparent_call r) m = reparent r m
  call (soft_delete_call id) m = soft_delete id m
  call (hard_delete_call id) m = hard_delete id m
  call (link_call fresh l) m = link fresh l m
  call (unlink_call l) m = unlink l m

  unfoldable pub calls : List Call → Mutation → Mutation
  calls [] m = m
  calls (c ∷ cs) m = calls cs (call c m)
