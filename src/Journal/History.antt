-- ===== src/Journal/History.antt =====
-- Histories of a journal: appends that work, that are refused, or that stop before the checkpoint and are recovered.
use sierx.Prelude.{
  ◌<◌, ◌≤◌, ◌≡◌, ◌≢◌, refl, ap, sym, ◌∙◌, subst, ◌⊎◌, inl, inr, true, [], ◌∷◌, ◌++◌, Bytes,
  eqb_bytes, eq_of_eqb_bytes, length, Option, none, arith,
}
use sierx.Prelude.Results.{ok, err, Result-cases, >>-eq-ok, bind-value}
use sierx.Journal.{File, Action, Head, Record, Journal, Primitives, Failure, Disk, line_limit}
use sierx.Journal.Append.{
  checked_line, HeadWrite, Device, sound_device, next_record, seal_record, with_room, advance,
  append_to, write_head, settle, write_record, append,
}
use sierx.Journal.Laws.{IsText, Documented}
use sierx.Journal.Stored.{Holds, set_file-Holds}
use sierx.Journal.Extended.{append_to-Holds}

-- The device stores the line; the checkpoint may fail.
abbrev pub storing : HeadWrite → Device
storing w = record { cut_at = none; flushed = true; checkpoint = w }

with_room-eq : (o : Option File) (b : Bytes) {b' : Bytes} → with_room o b ≡ ok b' → b ≡ b'
unfolding with_room
with_room-eq o b e = ground arith

with_room_self :
    (o : Option File) (b : Bytes) {b' : Bytes} → with_room o b ≡ ok b' → with_room o b ≡ ok b
with_room_self o b e = e ∙ ap ok (sym (with_room-eq o b e))

module _ (p : Primitives) where
  -- The line of the action has not just the length that is appended and not read.
  abbrev pub Fits : Bytes → Journal → Action → Type 0
  Fits nonce j a =
      (b : Bytes) → seal_record p nonce j (next_record j a) ≡ ok b → length b ≢ line_limit

  -- What a line that may be written says of its action.
  pub checked_line_lem :
      (nonce : Bytes) (d : Disk) (j : Journal) (a : Action) {b : Bytes}
      → checked_line p nonce d j a ≡ ok b
      → (a.instance_id ≡ j.head.instance_id)
        × (seal_record p nonce j (next_record j a) ≡ ok b)
        × (with_room (d j.path) b ≡ ok b)
  unfolding checked_line
  checked_line_lem nonce d j a e =
      let (same, h) = >>-eq-ok (eqb_bytes a.instance_id j.head.instance_id) _ _ e in
      let (b', sealed, room) = bind-value (seal_record p nonce j (next_record j a)) _ h in
      let eq = with_room-eq (d j.path) b' room in
      (
        eq_of_eqb_bytes _ _ same,
        subst (λ (x : Bytes). seal_record p nonce j (next_record j a) ≡ ok x) eq sealed,
        subst (λ (x : Bytes). with_room (d j.path) x ≡ ok x) eq (with_room_self (d j.path) b' room),
      )

  pub append-refused :
      (v : Device) (nonce : Bytes) (d : Disk) (j : Journal) (a : Action) {e : Failure}
      → checked_line p nonce d j a ≡ err e
      → append p v nonce d j a ≡ record { disk = d; journal = j; answer = err e }
  unfolding append
  append-refused v nonce d j a e = rw (e, append) refl

  pub append-written :
      (v : Device) (nonce : Bytes) (d : Disk) (j : Journal) (a : Action) {b : Bytes}
      → checked_line p nonce d j a ≡ ok b
      → append p v nonce d j a ≡ write_record p v d j (next_record j a) b
  unfolding append
  append-written v nonce d j a e = rw (e, append) refl

  seal_record-le :
      (nonce : Bytes) (j : Journal) (r : Record) {b : Bytes}
      → seal_record p nonce j r ≡ ok b
      → length b ≤ line_limit
  unfolding seal_record
  seal_record-le nonce j r e = ground arith

module _ {p : Primitives} (c : Documented p) (key_path : Bytes) where
  private_line-lt :
      (nonce b : Bytes) (j : Journal) (a : Action)
      → Fits p nonce j a
      → seal_record p nonce j (next_record j a) ≡ ok b
      → length b < line_limit
  private_line-lt nonce b j a fits made =
      ground (arith, seal_record-le p nonce j (next_record j a) made, fits b made)

  -- A line that is stored before the checkpoint is written: the journal holds behind its old checkpoint.
  pub stored_line-Holds :
      (d : Disk) (saved : Head) (j : Journal) (nonce b : Bytes) (a : Action)
      → Holds p c d key_path saved j
      → IsText c.valid a
      → length nonce ≡ p.nonce_size
      → Fits p nonce j a
      → checked_line p nonce d j a ≡ ok b
      → Holds p c
          (append_to d j.path (b ++ 10 ∷ []))
          key_path
          saved
          (advance p j (next_record j a) b)
  stored_line-Holds d saved j nonce b a h t sized fits e =
      let (same, made, room) = checked_line_lem p nonce d j a e in
      append_to-Holds p c d key_path saved j nonce b a h same t sized made
        (private_line-lt nonce b j a fits made) room

  -- After Append the journal and its checkpoint are stored, and the records have grown by the action's, or nothing has
  -- changed and there is an error.
  pub append-Holds :
      (d : Disk) (j : Journal) (nonce : Bytes) (a : Action)
      → Holds p c d key_path j.head j
      → IsText c.valid a
      → length nonce ≡ p.nonce_size
      → Fits p nonce j a
      → let x = append p sound_device nonce d j a in
        Holds p c x.disk key_path x.journal.head x.journal
        × (((r : Record) × (x.answer ≡ ok r)
              × (r.action ≡ a)
              × (x.journal.records ≡ j.records ++ r ∷ []))
            ⊎ ((e : Failure) × (x ≡ record { disk = d; journal = j; answer = err e })))
  unfolding write_record settle write_head advance next_record
  append-Holds d j nonce a h t sized fits = elim (Result-cases (checked_line p nonce d j a)) [
    | inr (e, refused) ↦ rw (append-refused p sound_device nonce d j a refused) (h, inr (e, refl))
    | inl (b, e) ↦ rw (append-written p sound_device nonce d j a e) (
      set_file-Holds p c _ key_path j.head _
          (stored_line-Holds d j.head j nonce b a h t sized fits e),
      inl (_, refl, refl, refl),
    )
  ]
