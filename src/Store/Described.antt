-- ===== src/Store/Described.antt =====
-- The events of the changes that a mutation of internal/store/events.go registers.
use sierx.Prelude.{
  ◌≡◌, ◌≢◌, refl, ◌⊎◌, inl, inr, Bool, true, false, not, ◌&&◌, ◌||◌, Option, none, List, [], ◌∷◌,
  Bytes, codes, ◌==◌, if◌then◌else◌, eqb_bytes, All, All-append,
}
use sierx.Store.Changes.{
  Uuid, Any, StoreError, invalid_comment_action, no_comment_actor, no_title, no_origin,
  not_an_endpoint, Event, ItemInsert, ItemUpdate, LinkChange, CommentChange, ChangeKind,
  change_insert, change_update, change_reparent, change_soft_delete, change_hard_delete,
  change_link, change_unlink, change_comment, Change, FieldChange, Mutation, Call, comment_call,
  create_call, update_call, reparent_call, soft_delete_call, hard_delete_call, link_call,
  unlink_call,
}
use sierx.Store.Events.{
  fail, add_change, new_event, marshal_value, field_event, field_events, described, register,
  one_event, then_do, or_fresh, unlink_item, comment, create, update, reparent, soft_delete,
  hard_delete, link, unlink, call, calls,
}

-- The kind of event that a kind of change has.
abbrev pub IsKindFor : ChangeKind → Bytes → Type 0
IsKindFor (change_insert i) k = k ≡ codes "created"
IsKindFor (change_update u) k = k ≢ []
IsKindFor (change_reparent r) k = k ≡ codes "moved"
IsKindFor change_soft_delete k = k ≡ codes "deleted"
IsKindFor change_hard_delete k = k ≡ codes "deleted"
IsKindFor (change_link l) k = k ≡ codes "linked"
IsKindFor (change_unlink l) k = k ≡ codes "unlinked"
IsKindFor (change_comment c) k = k ≡ codes "field_changed"

-- An event of the item `id` by the actor, if any.
pub record IsEventOf (actor : Uuid) (acting : Bool) (id : Uuid) (kind : ChangeKind) (ev : Event)
    : Type 0 where
  pub item : ev.item_id ≡ id
  pub marked : ev.has_item ≡ not (id == 0)
  pub by : ev.actor_id ≡ actor
  pub acts : ev.has_actor ≡ acting
  pub named : IsKindFor kind ev.kind

pub record IsDescribed (actor : Uuid) (acting : Bool) (c : Change) : Type 0 where
  pub some_event : c.events ≢ []
  pub events_of : All (IsEventOf actor acting c.item_id c.kind) c.events

-- Every change of the mutation is described.
pub record Described (m : Mutation) : Type 0 where
  pub each : All (IsDescribed m.actor_id m.has_actor) m.changes

fail-Described : (m : Mutation) (e : StoreError) → Described m → Described (fail m e)
unfolding fail
fail-Described m e h = record { each = h.each }

add_change-Described :
    (m : Mutation) (kind : ChangeKind) (id : Uuid) (evs : List Event)
    → evs ≢ []
    → All (IsEventOf m.actor_id m.has_actor id kind) evs
    → Described m
    → Described (add_change m kind id evs)
unfolding add_change
add_change-Described m kind id evs ne all h = record {
  each =
      All-append (IsDescribed m.actor_id m.has_actor) m.changes _ h.each
        (record { some_event = ne; events_of = all }, tt);
}

new_event-IsEventOf :
    (m : Mutation) (id : Uuid) (kind : ChangeKind) (k : Bytes) (field old new : Option Bytes)
    → IsKindFor kind k
    → IsEventOf m.actor_id m.has_actor id kind (new_event m id k field old new)
unfolding new_event
new_event-IsEventOf m id kind k field old new h = record {
  item = refl;
  marked = refl;
  by = refl;
  acts = refl;
  named = h;
}

-- A property of what a call made, if it made it.
abbrev Good {ℓ} : {A : Type ℓ} → (A → Type 0) → StoreError ⊎ A → Type 0
Good P (inl e) = Unit {0}
Good P (inr a) = P a

then_do-Good {ℓ κ} :
    {A : Type ℓ} {B : Type κ} {Q : A → Type 0} (P : B → Type 0) (r : StoreError ⊎ A)
    (f : A → StoreError ⊎ B)
    → Good Q r
    → ((a : A) → Q a → Good P (f a))
    → Good P (then_do r f)
then_do-Good P (inl e) f h k = tt
then_do-Good P (inr a) f h k = k a h

Good-any {ℓ} : {A : Type ℓ} (r : StoreError ⊎ A) → Good (λ a. Unit {0}) r
Good-any (inl e) = tt
Good-any (inr a) = tt

-- Events that describe a change.
abbrev Describing : Mutation → ChangeKind → Uuid → List Event → Type 0
Describing m kind id evs = (evs ≢ []) × All (IsEventOf m.actor_id m.has_actor id kind) evs

register-Described :
    (m : Mutation) (kind : ChangeKind) (id : Uuid) (r : StoreError ⊎ List Event)
    → Good (Describing m kind id) r
    → Described m
    → Described (register m kind id r)
register-Described m kind id (inl e) d h = fail-Described m e h
register-Described m kind id (inr evs) (ne, all) h = add_change-Described m kind id evs ne all h

if_Good {ℓ} :
    {A : Type ℓ} (P : A → Type 0) (b : Bool) (x y : StoreError ⊎ A)
    → Good P x
    → Good P y
    → Good P (if b then x else y)
if_Good P true x y hx hy = hx
if_Good P false x y hx hy = hy

if_Described :
    (b : Bool) (m n : Mutation) → Described m → Described n → Described (if b then m else n)
if_Described true m n hm hn = hm
if_Described false m n hm hn = hn

module _ (marshal : Any → Option Bytes) (uuid_string : Uuid → Bytes) where
  described-Good :
      (m : Mutation) (kind : ChangeKind) (id : Uuid) (k : Bytes) (field : Option Bytes)
      (payload : Any)
      → IsKindFor kind k
      → Good (Describing m kind id) (described marshal uuid_string m id k field payload)
  unfolding described
  described-Good m kind id k field payload h =
      then_do-Good (Describing m kind id) (marshal_value marshal payload) _
        (Good-any (marshal_value marshal payload))
        λ new _. (λ e. cc, (new_event-IsEventOf m id kind k field none new h, tt))

  field_event-Good :
      (m : Mutation) (kind : ChangeKind) (id : Uuid) (fc : FieldChange)
      → IsKindFor kind (if eqb_bytes fc.kind [] then codes "field_changed" else fc.kind)
      → Good (IsEventOf m.actor_id m.has_actor id kind) (field_event marshal uuid_string m id fc)
  unfolding field_event
  field_event-Good m kind id fc h =
      if_Good (IsEventOf m.actor_id m.has_actor id kind) (eqb_bytes fc.field []) _ _ tt (
        then_do-Good (IsEventOf m.actor_id m.has_actor id kind) (marshal_value marshal fc.old) _
          (Good-any _)
          λ old _.
            then_do-Good (IsEventOf m.actor_id m.has_actor id kind) (marshal_value marshal fc.new) _
              (Good-any _) λ new _. new_event-IsEventOf m id kind _ _ old new h)

  -- The default, or a kind that is written.
  event_kind : (k : Bytes) → (if eqb_bytes k [] then codes "field_changed" else k) ≢ []
  unfolding eqb_bytes
  event_kind [] e = cc
  event_kind (c ∷ k) e = cc

  field_events-Good :
      (m : Mutation) (up : ItemUpdate) (fcs : List FieldChange)
      → Good
          (All (IsEventOf m.actor_id m.has_actor up.id (change_update up)))
          (field_events marshal uuid_string m up.id fcs)
  unfolding field_events
  field_events-Good m up [] = tt
  field_events-Good m up (fc ∷ fcs) =
      then_do-Good _ (field_event marshal uuid_string m up.id fc) _
        (field_event-Good m (change_update up) up.id fc (event_kind fc.kind))
        λ ev h.
          then_do-Good _ (field_events marshal uuid_string m up.id fcs) _
            (field_events-Good m up fcs) λ evs hs. (h, hs)

  one_event-Good :
      (m : Mutation) (kind : ChangeKind) (id : Uuid) (r : StoreError ⊎ Event)
      → Good (IsEventOf m.actor_id m.has_actor id kind) r
      → Good (Describing m kind id) (one_event r)
  one_event-Good m kind id (inl e) h = tt
  one_event-Good m kind id (inr ev) h = (λ e. cc, (h, tt))

  comment-Described :
      (fresh : Uuid) (c : CommentChange) (m : Mutation)
      → Described m
      → Described (comment marshal uuid_string fresh c m)
  unfolding comment eqb_bytes
  comment-Described fresh c m h =
      let kind = change_comment (record c { id = or_fresh c.id fresh }) in
      let valid =
        eqb_bytes c.action (codes "create")
        || eqb_bytes c.action (codes "edit")
        || eqb_bytes c.action (codes "delete") in
      if_Described (not valid) (fail m invalid_comment_action) _ (fail-Described m _ h) (
        if_Described (not m.has_actor) (fail m no_comment_actor) _ (fail-Described m _ h) (
          register-Described m kind c.item_id _
            (one_event-Good m kind c.item_id _ (field_event-Good m kind c.item_id _ refl)) h))

  update-Described :
      (up : ItemUpdate) (fcs : List FieldChange) (m : Mutation)
      → Described m
      → Described (update marshal uuid_string up fcs m)
  unfolding update field_events
  update-Described up [] m h = fail-Described m _ h
  update-Described up (fc ∷ fcs) m h =
      register-Described m _ up.id (field_events marshal uuid_string m up.id (fc ∷ fcs))
        (then_do-Good (Describing m (change_update up) up.id)
          (field_event marshal uuid_string m up.id fc) _
          (field_event-Good m (change_update up) up.id fc (event_kind fc.kind))
          λ ev h1.
            then_do-Good (Describing m (change_update up) up.id)
              (field_events marshal uuid_string m up.id fcs) _ (field_events-Good m up fcs)
              λ evs hs. (λ e. cc, (h1, hs)))
        h

  create-Described :
      (fresh : Uuid) (item : ItemInsert) (m : Mutation)
      → Described m
      → Described (create marshal uuid_string fresh item m)
  unfolding create
  create-Described fresh item m h =
      let id = or_fresh item.id fresh in
      let kind = change_insert (record item { id = id }) in
      if_Described (eqb_bytes item.title []) (fail m no_title) _ (fail-Described m _ h) (
        if_Described (item.origin_id == 0) (fail m no_origin) _ (fail-Described m _ h) (
          register-Described m kind id _ (described-Good m kind id (codes "created") none _ refl)
            h))

  unlink-Described :
      (l : LinkChange) (m : Mutation) → Described m → Described (unlink marshal uuid_string l m)
  unfolding unlink
  unlink-Described l m h =
      let id = unlink_item l in
      if_Described (not (id == l.from_item_id) && not (id == l.to_item_id)) (fail m not_an_endpoint)
        _ (fail-Described m _ h)
        (register-Described m (change_unlink l) id _
          (described-Good m (change_unlink l) id (codes "unlinked") none _ refl) h)

  call-Described :
      (c : Call) (m : Mutation) → Described m → Described (call marshal uuid_string c m)
  unfolding call reparent soft_delete hard_delete link
  call-Described (comment_call fresh c) m h = comment-Described fresh c m h
  call-Described (create_call fresh item) m h = create-Described fresh item m h
  call-Described (update_call up fcs) m h = update-Described up fcs m h
  call-Described (reparent_call r) m h =
      register-Described m (change_reparent r) r.id _
        (described-Good m (change_reparent r) r.id (codes "moved") _ _ refl) h
  call-Described (soft_delete_call id) m h =
      add_change-Described m change_soft_delete id _ (λ e. cc)
        (new_event-IsEventOf m id change_soft_delete (codes "deleted") _ _ _ refl, tt) h
  call-Described (hard_delete_call id) m h =
      add_change-Described m change_hard_delete id _ (λ e. cc)
        (new_event-IsEventOf m id change_hard_delete (codes "deleted") _ _ _ refl, tt) h
  call-Described (link_call fresh l) m h =
      let kind = change_link (record l { id = or_fresh l.id fresh }) in
      register-Described m kind l.from_item_id _
        (described-Good m kind l.from_item_id (codes "linked") none _ refl) h
  call-Described (unlink_call l) m h = unlink-Described l m h

  -- Whatever a callback calls, each change that it has registered has an event, and each of these
  -- names the item and the actor of the change and is of the kind that belongs to the change.
  pub calls-Described :
      (cs : List Call) (m : Mutation) → Described m → Described (calls marshal uuid_string cs m)
  unfolding calls
  calls-Described [] m h = h
  calls-Described (c ∷ cs) m h =
      calls-Described cs (call marshal uuid_string c m) (call-Described c m h)
