-- ===== src/Journal/Fresh.antt =====
-- The journal that Init makes, and what can become of it.
use sierx.Prelude.{
  ◌≤◌, ◌≡◌, refl, ◌∙◌, subst, inl, inr, true, false, not, ◌&&◌, ◌||◌, [], map, Bytes, eqb_bytes,
  eqb_bytes_refl, eqb_bytes_comm, eq_of_eqb_bytes, length, none, some, arith, Bool-cases,
  Option-cases, ||-eq-false, not-eq-true,
}
use sierx.Prelude.Results.{ok, Ensures, holds, Ensures-bind, Ensures-guard, Ensures-eq_ok, ok-inj}
use sierx.Prelude.Hex.{hex}
use sierx.Journal.{
  Record, Journal, Primitives, File, Disk, private_file, key_file, first_head, guard_key,
}
use sierx.Journal.Load.{load, read_lines, lines_from}
use sierx.Journal.Append.{create_file, is_free, set_file, private_content, head_file, init_journal}
use sierx.Journal.Laws.{Documented, no_line}
use sierx.Journal.Stored.{Holds, IsStorable, written-read}
use sierx.Journal.Runs.{State, Refines, Reach, Reach-load}

create_file_lem :
    (d : Disk) (path b : Bytes) {e : Disk}
    → create_file d path b ≡ ok e
    → (d path ≡ none) × (set_file d path (private_content b) ≡ e)
unfolding create_file
create_file_lem d path b h = elim (Option-cases (d path)) [
  | inl e ↦ (e, ok-inj (rw (e, create_file) at h))
  | inr (f, e) ↦ absurd (cc (rw (e, create_file) at h))
]

-- Files of which one is there and the other is not have different names.
apart : (d : Disk) (q v : Bytes) {f : File} → d v ≡ none → d q ≡ some f → eqb_bytes q v ≡ false
apart d q v e h = elim (Bool-cases (eqb_bytes q v)) [
  | inr differs ↦ differs
  | inl same ↦ cc (eq_of_eqb_bytes q v same)
]

module _ (p : Primitives) (c : Documented p) (d : Disk)
    (key path key_path checkpoint instance_id : Bytes) where
  abbrev fresh : Journal
  fresh = record {
    path = path;
    checkpoint = checkpoint;
    key = key;
    head = first_head instance_id;
    records = [];
  }

  abbrev with_files : Bytes → Disk
  with_files v =
      set_file
        (set_file (set_file (set_file d key_path (private_content key)) path (private_content [])) v
          (private_content (guard_key p key)))
        checkpoint (head_file p fresh)

  fresh-IsStorable :
      c.valid instance_id ≡ true → length instance_id ≤ 36 → IsStorable c (first_head instance_id)
  unfolding hex
  fresh-IsStorable v l = record {
    valid_instance = v;
    valid_hash = c.valid_hex [];
    short_instance = l;
    short_hash = omega arith;
    number = 0;
    numbered = refl;
    small = omega arith;
  }

  fresh-Holds :
      (v : Bytes)
      → length key ≡ 32
      → c.valid instance_id ≡ true
      → length instance_id ≤ 36
      → eqb_bytes path key_path ≡ false
      → eqb_bytes path checkpoint ≡ false
      → eqb_bytes key_path checkpoint ≡ false
      → eqb_bytes instance_id [] ≡ false
      → eqb_bytes path v ≡ false
      → eqb_bytes key_path v ≡ false
      → Holds p c (with_files v) key_path (first_head instance_id) fresh
  unfolding read_lines private_file key_file lines_from eqb_bytes
  fresh-Holds v size valid short pk pc kc named pv kv = record {
    path_apart = pc;
    checkpoint_apart = eqb_bytes_comm checkpoint path ∙ pc;
    key_apart = eqb_bytes_comm key_path path ∙ pk;
    key_apart' = kc;
    key_read =
        rw (kc, kv, eqb_bytes_comm key_path path ∙ pk, eqb_bytes_refl key_path) (ground arith);
    content = [];
    content_read = rw (pc, pv, eqb_bytes_refl path) refl;
    whole = no_line;
    few = omega arith;
    checkpoint_read =
        rw (eqb_bytes_refl checkpoint) (written-read p c fresh (fresh-IsStorable valid short));
    read = refl;
    same = refl;
    named = named;
    storable = fresh-IsStorable valid short;
    head_storable = fresh-IsStorable valid short;
    counted = refl;
    unsigned = refl;
  }

  set_file_self : (e : Disk) (q : Bytes) (f : File) → set_file e q f q ≡ some f
  set_file_self e q f = rw (eqb_bytes_refl q) refl

  -- The files are there one after the other.
  made-Holds :
      (v : Bytes) (d1 d2 d3 : Disk)
      → length key ≡ 32
      → c.valid instance_id ≡ true
      → length instance_id ≤ 36
      → not (
          eqb_bytes path key_path
          || eqb_bytes path checkpoint
          || eqb_bytes key_path checkpoint
          || eqb_bytes instance_id [])
        ≡ true
      → create_file d key_path key ≡ ok d1
      → create_file d1 path [] ≡ ok d2
      → create_file d2 v (guard_key p key) ≡ ok d3
      → Holds p c
          (set_file d3 checkpoint (head_file p fresh))
          key_path
          (first_head instance_id)
          fresh
  made-Holds v d1 d2 d3 size valid short distinct e1 e2 e3 =
      let (h, named) = ||-eq-false _ (eqb_bytes instance_id []) (not-eq-true _ distinct) in
      let (h', kc) = ||-eq-false _ (eqb_bytes key_path checkpoint) h in
      let (pk, pc) = ||-eq-false _ (eqb_bytes path checkpoint) h' in
      let (_, s1) = create_file_lem d key_path key e1 in
      let (_, s2) = create_file_lem d1 path [] e2 in
      let (free, s3) = create_file_lem d2 v (guard_key p key) e3 in
      let there : d2 path ≡ some (private_content []) =
        rw (← s2) (set_file_self d1 path (private_content [])) in
      let key_there : d2 key_path ≡ some (private_content key) =
        rw (← s2, eqb_bytes_comm key_path path, pk, ← s1)
          (set_file_self d key_path (private_content key)) in
      let all : with_files v ≡ set_file d3 checkpoint (head_file p fresh) = rw (s1, s2, s3) refl in
      subst (λ (x : Disk). Holds p c x key_path (first_head instance_id) fresh) all
        (fresh-Holds v size valid short pk pc kc named (apart d2 path v free there)
          (apart d2 key_path v free key_there))

  pub init_journal-Refines :
      length key ≡ 32
      → c.valid instance_id ≡ true
      → length instance_id ≤ 36
      → Ensures
          (λ x. Refines c key_path (record { disk = x.0; journal = x.1; log = [] }))
          (init_journal p d key path key_path checkpoint instance_id)
  unfolding init_journal
  init_journal-Refines size valid short =
      let v = p.verification_path checkpoint in
      Ensures-guard
        (not (
          eqb_bytes path key_path
          || eqb_bytes path checkpoint
          || eqb_bytes key_path checkpoint
          || eqb_bytes instance_id []))
        _ _
        λ distinct.
          Ensures-guard
            (is_free d path && is_free d key_path && is_free d checkpoint && is_free d v) _ _
            λ free. Ensures-bind (create_file d key_path key) _ λ d1 e1.
              Ensures-bind (create_file d1 path []) _ λ d2 e2.
                Ensures-bind (create_file d2 v (guard_key p key)) _ λ d3 e3. holds (record {
                  held = made-Holds v d1 d2 d3 size valid short distinct e1 e2 e3;
                  written = refl;
                })

-- Whatever happens to a new journal in appends that work, are refused, or stop before the checkpoint and are recovered:
-- it is loaded again as it is, and its records are of the actions that were accepted, in their order. (The instance and
-- the actions are UTF-8, the instance has at most 36 bytes, the key 32, a nonce its size, and no line has just 2 MiB.)
pub init_journal-load :
    (p : Primitives) (c : Documented p) (d : Disk)
    (key path key_path checkpoint instance_id : Bytes) {e : Disk} {j : Journal} {t : State}
    → length key ≡ 32
    → c.valid instance_id ≡ true
    → length instance_id ≤ 36
    → init_journal p d key path key_path checkpoint instance_id ≡ ok (e, j)
    → Reach c key_path (record { disk = e; journal = j; log = [] }) t
    → (load p t.disk t.journal.path key_path t.journal.checkpoint false ≡ ok t.journal)
      × (map Record.action t.journal.records ≡ t.log)
init_journal-load p c d key path key_path checkpoint instance_id size valid short made reach =
    Reach-load c key_path
      (Ensures-eq_ok
        (init_journal-Refines p c d key path key_path checkpoint instance_id size valid short) made)
      reach
