-- ===== src/Store/Failures.antt =====
-- The error of a mutation in internal/store/events.go.
use sierx.Prelude.{
  ◌≡◌, refl, Bool, true, false, not, ◌&&◌, Option, none, some, List, [], ◌∷◌, ◌⊎◌, inl, inr, Bytes,
  ◌==◌, if◌then◌else◌, eqb_bytes, Option-cases,
}
use sierx.Store.Changes.{
  Uuid, Any, StoreError, Event, ItemUpdate, ChangeKind, FieldChange, Mutation, Call, comment_call,
  create_call, update_call, reparent_call, soft_delete_call, hard_delete_call, link_call,
  unlink_call, invalid_comment_action, no_comment_actor, no_title, no_origin, not_an_endpoint,
}
use sierx.Store.Events.{
  fail, add_change, register, comment, create, update, reparent, soft_delete, hard_delete, link,
  unlink, call, calls, unlink_item,
}

abbrev Failed : StoreError → Mutation → Type 0
Failed e m = m.err ≡ some e

module _ (e : StoreError) where
  fail-Failed : (m : Mutation) (late : StoreError) → Failed e m → Failed e (fail m late)
  unfolding fail
  fail-Failed m late h = rw h refl

  add_change-Failed :
      (m : Mutation) (kind : ChangeKind) (id : Uuid) (evs : List Event)
      → Failed e m
      → Failed e (add_change m kind id evs)
  unfolding add_change
  add_change-Failed m kind id evs h = h

  register-Failed :
      (m : Mutation) (kind : ChangeKind) (id : Uuid) (r : StoreError ⊎ List Event)
      → Failed e m
      → Failed e (register m kind id r)
  register-Failed m kind id (inl late) h = fail-Failed m late h
  register-Failed m kind id (inr evs) h = add_change-Failed m kind id evs h

  if_Failed : (b : Bool) (m n : Mutation) → Failed e m → Failed e n → Failed e (if b then m else n)
  if_Failed true m n hm hn = hm
  if_Failed false m n hm hn = hn

module _ (marshal : Any → Option Bytes) (uuid_string : Uuid → Bytes) where
  update-Failed :
      (e : StoreError) (up : ItemUpdate) (fcs : List FieldChange) (m : Mutation)
      → Failed e m
      → Failed e (update marshal uuid_string up fcs m)
  unfolding update
  update-Failed e up [] m h = fail-Failed e m _ h
  update-Failed e up (fc ∷ fcs) m h = register-Failed e m _ _ _ h

  call-Failed :
      (e : StoreError) (c : Call) (m : Mutation)
      → Failed e m
      → Failed e (call marshal uuid_string c m)
  unfolding call comment create reparent soft_delete hard_delete link unlink
  call-Failed e (comment_call fresh c) m h =
      if_Failed e _ (fail m invalid_comment_action) _ (fail-Failed e m _ h) (
        if_Failed e (not m.has_actor) (fail m no_comment_actor) _ (fail-Failed e m _ h)
          (register-Failed e m _ _ _ h))
  call-Failed e (create_call fresh item) m h =
      if_Failed e (eqb_bytes item.title []) (fail m no_title) _ (fail-Failed e m _ h) (
        if_Failed e (item.origin_id == 0) (fail m no_origin) _ (fail-Failed e m _ h)
          (register-Failed e m _ _ _ h))
  call-Failed e (update_call up fcs) m h = update-Failed e up fcs m h
  call-Failed e (reparent_call r) m h = register-Failed e m _ _ _ h
  call-Failed e (soft_delete_call id) m h = add_change-Failed e m _ _ _ h
  call-Failed e (hard_delete_call id) m h = add_change-Failed e m _ _ _ h
  call-Failed e (link_call fresh l) m h = register-Failed e m _ _ _ h
  call-Failed e (unlink_call l) m h =
      if_Failed e (not (unlink_item l == l.from_item_id) && not (unlink_item l == l.to_item_id))
        (fail m not_an_endpoint) _ (fail-Failed e m _ h) (register-Failed e m _ _ _ h)

  calls-Failed :
      (e : StoreError) (cs : List Call) (m : Mutation)
      → Failed e m
      → Failed e (calls marshal uuid_string cs m)
  unfolding calls
  calls-Failed e [] m h = h
  calls-Failed e (c ∷ cs) m h =
      calls-Failed e cs (call marshal uuid_string c m) (call-Failed e c m h)

  -- The first of the calls that fails does so with this error.
  pub data FirstError (e : StoreError) : List Call → Mutation → Type 0 where
    here :
        {c : Call} {cs : List Call} {m : Mutation}
        → (call marshal uuid_string c m).err ≡ some e
        → FirstError e (c ∷ cs) m
    later :
        {c : Call} {cs : List Call} {m : Mutation}
        → (call marshal uuid_string c m).err ≡ none
        → FirstError e cs (call marshal uuid_string c m)
        → FirstError e (c ∷ cs) m

  -- No call fails.
  pub data NoError : List Call → Mutation → Type 0 where
    finished : {m : Mutation} → NoError [] m
    passed :
        {c : Call} {cs : List Call} {m : Mutation}
        → (call marshal uuid_string c m).err ≡ none
        → NoError cs (call marshal uuid_string c m)
        → NoError (c ∷ cs) m

  pub calls_outcome :
      (cs : List Call) (m : Mutation)
      → m.err ≡ none
      → (NoError cs m × ((calls marshal uuid_string cs m).err ≡ none))
        ⊎ ((e : StoreError) × FirstError e cs m × ((calls marshal uuid_string cs m).err ≡ some e))
  unfolding calls
  calls_outcome [] m h = inl (finished, h)
  calls_outcome (c ∷ cs) m h = elim (Option-cases (call marshal uuid_string c m).err) [
    | inr (e, failed_) ↦
        inr (e, here failed_, calls-Failed e cs (call marshal uuid_string c m) failed_)
    | inl fine ↦ elim (calls_outcome cs (call marshal uuid_string c m) fine) [
      | inl (n, q) ↦ inl (passed fine n, q)
      | inr (e, f, q) ↦ inr (e, later fine f, q)
    ]
  ]
