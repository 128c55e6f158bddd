-- ===== src/Journal/Stored.antt =====
-- A disk on which a journal and its checkpoint are stored; how load, an appended line and a rewritten checkpoint act on it.
use sierx.Prelude.{
  ℕ, ◌≤◌, ◌≡◌, refl, sym, ◌∙◌, subst, Bool, true, false, ◌||◌, [], ◌∷◌, ◌++◌, Bytes, eqb_bytes,
  eqb_bytes_refl, length, length-append, Option, none, some, arith, get_last?, get_last?-append,
}
use sierx.Prelude.Int.{pos}
use sierx.Prelude.Results.{ok, ◌>>◌, guard}
use sierx.Journal.{
  Head, Journal, Primitives, File, Disk, guard_key, authenticate, file_limit, not_trusted,
  private_file, key_file, first_head,
}
use sierx.Journal.Load.{lines_from, is_saved, is_whole, is_authentic, read_lines, start, load}
use sierx.Journal.Append.{set_file, head_file}
use sierx.Prelude.Hex.{length-hex}
use sierx.Journal.Laws.{
  IsInt64, Documented, IsWhole, no_line, lines, read_lines_other, read_lines-matched,
}

-- A head as writeHead stores it.
abbrev pub signed : Primitives → Bytes → Head → Head
signed p key h = record h { mac = authenticate p h (guard_key p key) }

-- A head that JSON keeps.
pub record IsStorable {p : Primitives} (c : Documented p) (h : Head) : Type 0 where
  pub valid_instance : c.valid h.instance_id ≡ true
  pub valid_hash : c.valid h.hash ≡ true
  pub short_instance : length h.instance_id ≤ 36
  pub short_hash : length h.hash ≤ 64
  pub number : ℕ
  pub numbered : h.sequence ≡ pos number
  pub small : number ≤ file_limit

pub private_file-le : (o : Option File) {b : Bytes} → private_file o ≡ ok b → length b ≤ file_limit
unfolding private_file
private_file-le none e = cc
private_file-le (some f) e = ground arith

pub IsWhole-is_whole : {s : Bytes} → IsWhole s → is_whole s ≡ true
IsWhole-is_whole no_line = refl
IsWhole-is_whole (lines s t e) =
    let last : get_last? t ≡ some 10 = rw e (get_last?-append s 10) in rw (last, is_whole) refl

pub some-inj : {x y : Bytes} → some x ≡ some y → x ≡ y
some-inj e = cc

module _ (p : Primitives) (c : Documented p) where
  -- The checkpoint is of the head `saved`, which is the journal's or one before it.
  pub record Holds (d : Disk) (key_path : Bytes) (saved : Head) (j : Journal) : Type 0 where
    pub path_apart : eqb_bytes j.path j.checkpoint ≡ false
    pub checkpoint_apart : eqb_bytes j.checkpoint j.path ≡ false
    pub key_apart : eqb_bytes key_path j.path ≡ false
    pub key_apart' : eqb_bytes key_path j.checkpoint ≡ false
    pub key_read : key_file (d key_path) ≡ ok j.key
    pub content : Bytes
    pub content_read : private_file (d j.path) ≡ ok content
    pub whole : IsWhole content
    pub few : length j.records ≤ length content
    pub checkpoint_read :
        private_file (d j.checkpoint) ≡ ok (p.encode_head (signed p j.key saved) ++ 10 ∷ [])
    pub read :
        read_lines p j.key
          (signed p j.key saved)
          (start (signed p j.key saved))
          (lines_from [] content)
        ≡ ok (record { head = j.head; records = j.records; matched = true })
    pub same : saved.instance_id ≡ j.head.instance_id
    pub named : eqb_bytes j.head.instance_id [] ≡ false
    pub storable : IsStorable c saved
    pub head_storable : IsStorable c j.head
    pub counted : j.head.sequence ≡ pos (length j.records)
    pub unsigned : j.head.mac ≡ []

  pub signed-kept :
      (key : Bytes) (h : Head)
      → IsStorable c h
      → p.decode_head (p.encode_head (signed p key h) ++ 10 ∷ []) ≡ some (signed p key h)
  unfolding authenticate
  signed-kept key h s =
      c.head_kept (signed p key h) s.valid_instance s.valid_hash (c.valid_hex _)
        (rw s.numbered (omega (arith, s.small)))

  pub signed-authentic :
      (key : Bytes) (h : Head)
      → IsStorable c h
      → eqb_bytes h.instance_id [] ≡ false
      → is_authentic p key (signed p key h) ≡ true
  unfolding authenticate
  signed-authentic key h s named =
      rw (eqb_bytes_refl (authenticate p h (guard_key p key)), named, s.numbered) (ground arith)

  -- What load makes of it: the journal, unless the checkpoint is behind and may not be.
  pub load_lem :
      (d : Disk) (key_path : Bytes) (saved : Head) (j : Journal) (allow_tail : Bool)
      → Holds d key_path saved j
      → load p d j.path key_path j.checkpoint allow_tail
        ≡ (guard (allow_tail || is_saved saved j.head.sequence j.head.hash) not_trusted >> ok j)
  unfolding load
  load_lem d key_path saved j allow_tail h =
      rw
        (
          h.key_read,
          h.checkpoint_read,
          signed-kept j.key saved h.storable,
          signed-authentic j.key saved h.storable (rw h.same h.named),
          h.content_read,
          h.read,
          IsWhole-is_whole h.whole,
        )
        refl

  mac_short : (key : Bytes) (h : Head) → length (authenticate p h (guard_key p key)) ≤ 64
  unfolding authenticate
  mac_short key h = omega (
    arith,
    length-hex (p.hmac (guard_key p key) (p.encode_head (record h { mac = [] }))),
    c.length-hmac (guard_key p key) (p.encode_head (record h { mac = [] })),
  )

  IsStorable-IsInt64 : (h : Head) → IsStorable c h → IsInt64 h.sequence
  IsStorable-IsInt64 h s = rw s.numbered (omega (arith, s.small))

  pub written-read :
      (j : Journal)
      → IsStorable c j.head
      → private_file (some (head_file p j)) ≡ ok (p.encode_head (signed p j.key j.head) ++ 10 ∷ [])
  unfolding private_file head_file
  written-read j s = ground (
    arith,
    length-append (p.encode_head (signed p j.key j.head)) (10 ∷ []),
    c.head_short (signed p j.key j.head) s.short_instance s.short_hash (mac_short j.key j.head)
        (IsStorable-IsInt64 j.head s),
  )

  pub is_saved_self : (h : Head) → is_saved h h.sequence h.hash ≡ true
  is_saved_self h = ground (arith, eqb_bytes_refl h.hash)

  -- The journal read under another checkpoint.
  pub read_other :
      (d : Disk) (key_path : Bytes) (saved other : Head) (j : Journal)
      (h : Holds d key_path saved j)
      → other.instance_id ≡ j.head.instance_id
      → (m : Bool) × (read_lines p j.key other (start other) (lines_from [] h.content)
          ≡ ok (record { head = j.head; records = j.records; matched = m }))
  read_other d key_path saved other j h same =
      let (m, e) =
        read_lines_other p j.key (signed p j.key saved) other (start (signed p j.key saved)) _
          (start other).matched (lines_from [] h.content) (same ∙ sym h.same) h.read in
      (
        m,
        subst
            (λ (i : Bytes).
              read_lines p j.key other
                (record { head = first_head i; records = []; matched = (start other).matched })
                (lines_from [] h.content)
              ≡ ok (record { head = j.head; records = j.records; matched = m }))
            (h.same ∙ sym same) e,
      )

  -- The journal read under its own head.
  reread :
      (d : Disk) (key_path : Bytes) (saved : Head) (j : Journal) (h : Holds d key_path saved j)
      → read_lines p j.key
          (signed p j.key j.head)
          (start (signed p j.key j.head))
          (lines_from [] h.content)
        ≡ ok (record { head = j.head; records = j.records; matched = true })
  reread d key_path saved j h =
      let other : Head = signed p j.key j.head in
      let (m, e) = read_other d key_path saved other j h refl in
      let found : m ≡ true =
        read_lines-matched p j.key other (lines_from [] h.content) _ e (is_saved_self j.head) in
      subst
        (λ (b : Bool).
          read_lines p j.key other (start other) (lines_from [] h.content)
          ≡ ok (record { head = j.head; records = j.records; matched = b }))
        found e

  -- A rewritten checkpoint is of the journal's head.
  pub set_file-Holds :
      (d : Disk) (key_path : Bytes) (saved : Head) (j : Journal)
      → Holds d key_path saved j
      → Holds (set_file d j.checkpoint (head_file p j)) key_path j.head j
  set_file-Holds d key_path saved j h = record {
    path_apart = h.path_apart;
    checkpoint_apart = h.checkpoint_apart;
    key_apart = h.key_apart;
    key_apart' = h.key_apart';
    key_read = rw h.key_apart' h.key_read;
    content = h.content;
    content_read = rw h.path_apart h.content_read;
    whole = h.whole;
    few = h.few;
    checkpoint_read = rw (eqb_bytes_refl j.checkpoint) (written-read j h.head_storable);
    read = reread d key_path saved j h;
    same = refl;
    named = h.named;
    storable = h.head_storable;
    head_storable = h.head_storable;
    counted = h.counted;
    unsigned = h.unsigned;
  }
