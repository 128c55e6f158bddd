-- ===== src/Journal/Extended.antt =====
-- A record is sealed, written and checkpointed: the journal with it is stored.
use sierx.Prelude.{
  eqb_bytes_iff, suc, ◌<◌, ◌≤◌, ◌≡◌, refl, ap, sym, ◌∙◌, subst, true, [], ◌∷◌, ◌++◌, Bytes,
  eqb_bytes_refl, length, length-append, All, Option, none, some, arith, ltb, ◌==◌, append_assoc,
  lt→ltb,
}
use sierx.Prelude.Int.{pos, ◌+ℤ◌}
use sierx.Prelude.Results.{or_fail, ok, bind-value, or_fail-eq-ok}
use sierx.Prelude.Hex.{hex}
use sierx.Journal.{
  bad_data, Action, Head, Record, Journal, Primitives, File, Disk, chain_data, file_limit,
  line_limit, private_file,
}
use sierx.Journal.Load.{lines_from, chains, take_record, open_line, read_line, read_lines, start}
use sierx.Journal.Append.{next_record, seal_record, with_room, advance, append_to, extend_file}
use sierx.Prelude.Hex.{length-hex}
use sierx.Journal.Laws.{
  IsText, IsRecordText, Documented, lines, lines_from-append, drop_cr-printed, read_lines-append,
}
use sierx.Journal.Stored.{signed, IsStorable, private_file-le, some-inj, Holds}

module _ (p : Primitives) (c : Documented p) where
  -- The line of a record.
  pub record IsSealed (nonce : Bytes) (j : Journal) (r : Record) (b : Bytes) : Type 0 where
    pub plain : Bytes
    pub marshalled : p.encode_record r ≡ some plain
    pub sealed :
        b
        ≡ p.encode_envelope (record {
          nonce = nonce;
          ciphertext = p.seal j.key nonce plain (chain_data r.instance_id r.previous);
        })

  pub seal_record-IsSealed :
      (nonce : Bytes) (j : Journal) (r : Record) {b : Bytes}
      → seal_record p nonce j r ≡ ok b
      → IsSealed nonce j r b
  unfolding seal_record
  seal_record-IsSealed nonce j r e =
      let (plain, e1, e2) = bind-value (or_fail (p.encode_record r) bad_data) _ e in
      record { plain = plain; marshalled = or_fail-eq-ok _ _ e1; sealed = ground arith }

  next_record-IsText :
      (j : Journal) (a : Action)
      → IsStorable c j.head
      → a.instance_id ≡ j.head.instance_id
      → IsText c.valid a
      → IsRecordText c.valid (next_record j a)
  unfolding next_record
  next_record-IsText j a s same t =
      (s.valid_instance, rw s.numbered (ground (arith, s.small)), s.valid_hash, t)

  next_record-chains :
      (j : Journal) (a : Action)
      → a.instance_id ≡ j.head.instance_id
      → chains j.head.instance_id j.head (next_record j a) ≡ true
  unfolding next_record
  next_record-chains j a same = ground (
    arith,
    eqb_bytes_refl j.head.instance_id,
    eqb_bytes_refl j.head.hash,
    eqb_bytes_iff a.instance_id j.head.instance_id,
  )

  -- A line that Append has made is read as its record.
  seal-open_line :
      (nonce b : Bytes) (j : Journal) (a : Action)
      → IsStorable c j.head
      → a.instance_id ≡ j.head.instance_id
      → IsText c.valid a
      → length nonce ≡ p.nonce_size
      → IsSealed nonce j (next_record j a) b
      → open_line p j.key j.head.instance_id j.head b ≡ ok (next_record j a)
  unfolding open_line next_record
  seal-open_line nonce b j a s same t sized h =
      let r : Record = next_record j a in
      let (plain, e1, e2) = c.record_kept r (next_record-IsText j a s same t) in
      let decoded : p.decode_record h.plain ≡ some r =
        subst (λ (x : Bytes). p.decode_record x ≡ some r) (some-inj (sym e1 ∙ h.marshalled)) e2 in
      let whole : (length nonce == p.nonce_size) ≡ true = ground arith in
      let opened =
        c.seal_kept j.key nonce h.plain (chain_data j.head.instance_id j.head.hash) sized in
      rw (h.sealed, c.envelope_kept _, whole, opened, decoded, next_record-chains j a same) refl

  pub room-extend_file :
      (o : Option File) (b : Bytes) {content : Bytes}
      → private_file o ≡ ok content
      → with_room o b ≡ ok b
      → private_file (extend_file o (b ++ 10 ∷ [])) ≡ ok (content ++ (b ++ 10 ∷ []))
  unfolding private_file with_room extend_file
  room-extend_file none b e room = cc
  room-extend_file (some f) b e room =
      ground (arith, length-append f.content (b ++ 10 ∷ []), length-append b (10 ∷ []))

  records_fit :
      (d : Disk) (key_path : Bytes) (saved : Head) (j : Journal) (b : Bytes) (r : Record)
      (h : Holds p c d key_path saved j)
      → with_room (d j.path) b ≡ ok b
      → (length (j.records ++ r ∷ []) ≤ length (h.content ++ (b ++ 10 ∷ [])))
        × (suc (length j.records) ≤ file_limit)
  records_fit d key_path saved j b r h room = omega (
    arith,
    h.few,
    private_file-le (extend_file (d j.path) (b ++ 10 ∷ []))
        (room-extend_file (d j.path) b h.content_read room),
    length-append j.records (r ∷ []),
    length-append h.content (b ++ 10 ∷ []),
    length-append b (10 ∷ []),
  )

  -- Reading goes on with the new line.
  extended-read :
      (d : Disk) (key_path : Bytes) (saved : Head) (j : Journal) (nonce b : Bytes) (a : Action)
      (h : Holds p c d key_path saved j)
      → a.instance_id ≡ j.head.instance_id
      → IsText c.valid a
      → length nonce ≡ p.nonce_size
      → IsSealed nonce j (next_record j a) b
      → length b < line_limit
      → read_lines p j.key
          (signed p j.key saved)
          (start (signed p j.key saved))
          (lines_from [] (h.content ++ (b ++ 10 ∷ [])))
        ≡ ok (record {
          head = (advance p j (next_record j a) b).head;
          records = (advance p j (next_record j a) b).records;
          matched = true;
        })
  unfolding read_lines read_line take_record advance
  extended-read d key_path saved j nonce b a h same t sized made short =
      let printed : All (λ x. 32 ≤ x) b = rw made.sealed (c.envelope_printed _) in
      let room : ltb (length b) line_limit ≡ true = lt→ltb _ _ short in
      let opened = seal-open_line nonce b j a h.head_storable same t sized made in
      let opened' : open_line p j.key saved.instance_id j.head b ≡ ok (next_record j a) =
        rw h.same opened in
      rw
        (
          lines_from-append h.content b h.whole printed,
          read_lines-append p j.key (signed p j.key saved) (start (signed p j.key saved))
              (lines_from [] h.content) (b ∷ []),
          h.read,
        )
        (rw (room, drop_cr-printed b printed, opened') refl)

  pub advance-IsStorable :
      (d : Disk) (key_path : Bytes) (saved : Head) (j : Journal) (b : Bytes) (a : Action)
      → Holds p c d key_path saved j
      → with_room (d j.path) b ≡ ok b
      → IsStorable c (advance p j (next_record j a) b).head
  unfolding advance next_record
  advance-IsStorable d key_path saved j b a h room =
      let sizes = records_fit d key_path saved j b (next_record j a) h room in
      record {
        valid_instance = h.head_storable.valid_instance;
        valid_hash = c.valid_hex (p.sha256 b);
        short_instance = h.head_storable.short_instance;
        short_hash = omega (arith, length-hex (p.sha256 b), c.length-sha256 b);
        number = suc (length j.records);
        numbered = rw h.counted (ground arith);
        small = sizes.1;
      }

  -- The line at the end of the file, and the journal with its record.
  pub append_to-Holds :
      (d : Disk) (key_path : Bytes) (saved : Head) (j : Journal) (nonce b : Bytes) (a : Action)
      → Holds p c d key_path saved j
      → a.instance_id ≡ j.head.instance_id
      → IsText c.valid a
      → length nonce ≡ p.nonce_size
      → seal_record p nonce j (next_record j a) ≡ ok b
      → length b < line_limit
      → with_room (d j.path) b ≡ ok b
      → Holds p c
          (append_to d j.path (b ++ 10 ∷ []))
          key_path
          saved
          (advance p j (next_record j a) b)
  unfolding advance next_record
  append_to-Holds d key_path saved j nonce b a h same t sized made short room =
      let number : j.head.sequence +ℤ pos 1 ≡ pos (suc (length j.records)) =
        rw h.counted (ground arith) in
      let sizes =
        records_fit d key_path saved j b (record (next_record j a) { hash = hex (p.sha256 b) }) h
          room in
      record {
        path_apart = h.path_apart;
        checkpoint_apart = h.checkpoint_apart;
        key_apart = h.key_apart;
        key_apart' = h.key_apart';
        key_read = rw h.key_apart h.key_read;
        content = h.content ++ (b ++ 10 ∷ []);
        content_read =
            rw (eqb_bytes_refl j.path) (room-extend_file (d j.path) b h.content_read room);
        whole = lines (h.content ++ b) _ (sym (append_assoc h.content b (10 ∷ [])));
        few = sizes.0;
        checkpoint_read = rw h.checkpoint_apart h.checkpoint_read;
        read =
            extended-read d key_path saved j nonce b a h same t sized
              (seal_record-IsSealed nonce j (next_record j a) made) short;
        same = h.same;
        named = h.named;
        storable = h.storable;
        head_storable = advance-IsStorable d key_path saved j b a h room;
        counted =
            number
            ∙ ap pos (
                omega (
                  arith,
                  length-append j.records
                      (record (next_record j a) { hash = hex (p.sha256 b) } ∷ []),
                ));
        unsigned = h.unsigned;
      }
