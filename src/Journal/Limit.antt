-- ===== src/Journal/Limit.antt =====
-- Append's limit on a line, and that of load's scanner, in internal/lifecycle/journal.go.
use sierx.Prelude.{
  ◌≤◌, ◌≡◌, refl, Bool, false, [], ◌∷◌, ◌++◌, Bytes, eqb_bytes_refl, length, All, arith, ltb,
}
use sierx.Prelude.Results.{ok, err}
use sierx.Journal.{Action, Head, Record, Journal, Primitives, Disk, long_record, line_limit}
use sierx.Journal.Load.{lines_from, read_lines, start, load}
use sierx.Journal.Append.{
  with_room, sound_device, next_record, advance, append_to, set_file, head_file, write_head, settle,
  write_record, append, checked_line,
}
use sierx.Journal.Laws.{Documented, lines_from-append, read_lines-append}
use sierx.Journal.Stored.{
  Holds, IsStorable, signed, signed-kept, read_other, signed-authentic, written-read,
}
use sierx.Journal.Extended.{room-extend_file, seal_record-IsSealed, advance-IsStorable}
use sierx.Journal.History.{append-written, checked_line_lem}

module _ {p : Primitives} (c : Documented p) (key_path : Bytes) where
  -- The old lines are read, and the new one is refused.
  read_lines-long :
      (d : Disk) (saved other : Head) (j : Journal) (b : Bytes) (h : Holds p c d key_path saved j)
      → other.instance_id ≡ j.head.instance_id
      → All (λ x. 32 ≤ x) b
      → length b ≡ line_limit
      → read_lines p j.key
          (signed p j.key other)
          (start (signed p j.key other))
          (lines_from [] (h.content ++ (b ++ 10 ∷ [])))
        ≡ err long_record
  unfolding read_lines
  read_lines-long d saved other j b h same printed long =
      let s : Head = signed p j.key other in
      let (m, e) = read_other p c d key_path saved s j h same in
      let full : ltb (length b) line_limit ≡ false = ground arith in
      rw
        (
          lines_from-append h.content b h.whole printed,
          read_lines-append p j.key s (start s) (lines_from [] h.content) (b ∷ []),
          e,
          full,
        )
        refl

  too_long-load :
      (d : Disk) (j : Journal) (b : Bytes) (a : Action) (allow_tail : Bool)
      → Holds p c d key_path j.head j
      → a.instance_id ≡ j.head.instance_id
      → with_room (d j.path) b ≡ ok b
      → All (λ x. 32 ≤ x) b
      → length b ≡ line_limit
      → let k = advance p j (next_record j a) b in
        load p
          (set_file (append_to d j.path (b ++ 10 ∷ [])) j.checkpoint (head_file p k))
          j.path
          key_path
          j.checkpoint
          allow_tail
        ≡ err long_record
  unfolding load advance next_record
  too_long-load d j b a allow_tail h same room printed long =
      let k : Journal = advance p j (next_record j a) b in
      let storable : IsStorable c k.head = advance-IsStorable p c d key_path j.head j b a h room in
      rw
        (
          h.key_apart',
          h.key_apart,
          h.key_read,
          eqb_bytes_refl j.checkpoint,
          written-read p c k storable,
          signed-kept p c j.key k.head storable,
          signed-authentic p c j.key k.head storable h.named,
          h.path_apart,
          eqb_bytes_refl j.path,
          room-extend_file p c (d j.path) b h.content_read room,
          read_lines-long d j.head k.head j b h refl printed long,
        )
        refl

  -- A line of just 2 MiB is appended without an error, and then the journal is neither loaded nor recovered.
  pub append-long :
      (d : Disk) (j : Journal) (nonce b : Bytes) (a : Action) (allow_tail : Bool)
      → Holds p c d key_path j.head j
      → checked_line p nonce d j a ≡ ok b
      → length b ≡ line_limit
      → let x = append p sound_device nonce d j a in
        ((r : Record) × (x.answer ≡ ok r))
        × (load p x.disk j.path key_path j.checkpoint allow_tail ≡ err long_record)
  unfolding write_record settle write_head
  append-long d j nonce b a allow_tail h e long =
      let (same, made, room) = checked_line_lem p nonce d j a e in
      let sealed = seal_record-IsSealed p c nonce j (next_record j a) made in
      rw (append-written p sound_device nonce d j a e) (
        (_, refl),
        too_long-load d j b a allow_tail h same room (rw sealed.sealed (c.envelope_printed _)) long,
      )
