-- ===== src/Journal/Append.antt =====
-- Append, writeHead, RecoverCheckpoint and Init of internal/lifecycle/journal.go.
use sierx.Prelude.{
  codes, ℕ, zero, suc, ◌+◌, Bool, true, false, not, ◌&&◌, ◌||◌, [], ◌∷◌, ◌++◌, Bytes, eqb_bytes,
  length, Option, none, some, ltb, if◌then◌else◌,
}
use sierx.Prelude.Int.{pos, ◌+ℤ◌}
use sierx.Prelude.Results.{Result, ok, err, ◌>>=◌, ◌>>◌, guard, or_fail}
use sierx.Prelude.Hex.{hex}
use sierx.Journal.{
  Action, Record, Journal, Primitives, Failure, File, Disk, bad_data, long_record, other_instance,
  capacity, not_distinct, never_overwrites, write_failed, checkpoint_failed, locked, line_limit,
  file_limit, private_file, guard_key, authenticate, chain_data, first_head,
}
use sierx.Journal.Load.{load}

-- How a rewriting of the checkpoint goes: all of it works, a step up to the renaming fails, or the directory
-- cannot be synced after it.
pub data HeadWrite : Type 0 where
  replaced kept unsynced : HeadWrite

-- How the writing of a record goes: how many of its bytes reach the file before an error, whether Sync and Close work,
-- and the checkpoint.
pub record Device : Type 0 where
  pub cut_at : Option ℕ
  pub flushed : Bool
  pub checkpoint : HeadWrite

abbrev pub sound_device : Device
sound_device = record { cut_at = none; flushed = true; checkpoint = replaced }

abbrev pub set_file : Disk → Bytes → File → Disk
set_file d path f q = if eqb_bytes q path then some f else d q

unfoldable pub extend_file : Option File → Bytes → Option File
extend_file none bytes = none
extend_file (some f) bytes = some (record f { content = f.content ++ bytes })

abbrev pub append_to : Disk → Bytes → Bytes → Disk
append_to d path bytes q = if eqb_bytes q path then extend_file (d q) bytes else d q

unfoldable pub head_file : Primitives → Journal → File
head_file p j = record {
  regular = true;
  owner_only = true;
  content =
      p.encode_head (record j.head { mac = authenticate p j.head (guard_key p j.key) }) ++ 10 ∷ [];
}

-- The checkpoint is written to a new file, which takes its place.
unfoldable pub write_head :
    Primitives → HeadWrite → Disk → Journal → Disk × Result Failure (Unit {0})
unfolding head_file
write_head p replaced d j = (set_file d j.checkpoint (head_file p j), ok tt)
write_head p kept d j = (d, err checkpoint_failed)
write_head p unsynced d j = (set_file d j.checkpoint (head_file p j), err checkpoint_failed)

unfoldable pub recover_checkpoint :
    Primitives → HeadWrite → Disk → Bytes → Bytes → Bytes → Disk × Result Failure Journal
unfolding write_head
recover_checkpoint p w d path key_path checkpoint = elim (load p d path key_path checkpoint true) [
  | err e ↦ (d, err e)
  | ok j ↦ let (d', r) = write_head p w d j in (d', r >> ok j)
]

unfoldable pub next_record : Journal → Action → Record
next_record j a = record {
  instance_id = j.head.instance_id;
  sequence = j.head.sequence +ℤ pos 1;
  previous = j.head.hash;
  action = a;
  hash = [];
}

-- The line of a record, without its newline.
unfoldable pub seal_record : Primitives → Bytes → Journal → Record → Result Failure Bytes
seal_record p nonce j r = do
  plain ← or_fail (p.encode_record r) bad_data
  let b = p.encode_envelope (record {
    nonce = nonce;
    ciphertext = p.seal j.key nonce plain (chain_data r.instance_id r.previous);
  })
  guard (not (ltb line_limit (length b))) long_record
  ok b

unfoldable pub with_room : Option File → Bytes → Result Failure Bytes
unfolding private_file
with_room o b = do
  content ← private_file o
  guard (not (ltb file_limit (length content + length b + 1))) capacity
  ok b

unfoldable pub advance : Primitives → Journal → Record → Bytes → Journal
advance p j r b =
    let hash = hex (p.sha256 b) in
    record j {
      head = record (j.head) { sequence = r.sequence; hash = hash };
      records = j.records ++ record r { hash = hash } ∷ [];
    }

pub record Appended : Type 0 where
  pub disk : Disk
  pub journal : Journal
  pub answer : Result Failure Record

abbrev pub first_bytes : ℕ → Bytes → Bytes
first_bytes zero b = []
first_bytes (suc n) [] = []
first_bytes (suc n) (c ∷ b) = c ∷ first_bytes n b

-- The journal's head has moved before the checkpoint is written.
unfoldable pub settle : Primitives → HeadWrite → Disk → Journal → Record → Bytes → Appended
unfolding write_head advance
settle p w d j r b =
    let j' = advance p j r b in
    let (d', done) = write_head p w d j' in
    record { disk = d'; journal = j'; answer = done >> ok (record r { hash = hex (p.sha256 b) }) }

unfoldable pub write_record : Primitives → Device → Disk → Journal → Record → Bytes → Appended
unfolding settle
write_record p v d j r b = elim v.cut_at [
  | some n ↦ record {
    disk = append_to d j.path (first_bytes n (b ++ 10 ∷ []));
    journal = j;
    answer = err write_failed;
  }
  | none ↦
      let d' = append_to d j.path (b ++ 10 ∷ []) in
      if v.flushed
      then settle p v.checkpoint d' j r b
      else record { disk = d'; journal = j; answer = err write_failed }
]

-- The line that Append writes, if nothing forbids it.
unfoldable pub checked_line : Primitives → Bytes → Disk → Journal → Action → Result Failure Bytes
unfolding next_record seal_record with_room
checked_line p nonce d j a = do
  guard (eqb_bytes a.instance_id j.head.instance_id) other_instance
  b ← seal_record p nonce j (next_record j a)
  with_room (d j.path) b

unfoldable pub append : Primitives → Device → Bytes → Disk → Journal → Action → Appended
unfolding checked_line write_record extend_file
append p v nonce d j a = elim (checked_line p nonce d j a) [
  | err e ↦ record { disk = d; journal = j; answer = err e }
  | ok b ↦ write_record p v d j (next_record j a) b
]

abbrev pub private_content : Bytes → File
private_content b = record { regular = true; owner_only = true; content = b }

-- A file that O_EXCL makes.
unfoldable pub create_file : Disk → Bytes → Bytes → Result Failure Disk
create_file d path b = elim (d path) [
  | none ↦ ok (set_file d path (private_content b))
  | some f ↦ err never_overwrites
]

abbrev pub is_free : Disk → Bytes → Bool
is_free d path = elim (d path) [ none ↦ true | some f ↦ false ]

-- Init with the key that was drawn.
unfoldable pub init_journal :
    Primitives → Disk → Bytes → Bytes → Bytes → Bytes → Bytes → Result Failure (Disk × Journal)
unfolding create_file head_file
init_journal p d key path key_path checkpoint instance_id = do
  guard
      (not (
        eqb_bytes path key_path
        || eqb_bytes path checkpoint
        || eqb_bytes key_path checkpoint
        || eqb_bytes instance_id []))
      not_distinct
  let verification = p.verification_path checkpoint
  guard (is_free d path && is_free d key_path && is_free d checkpoint && is_free d verification)
      never_overwrites
  d1 ← create_file d key_path key
  d2 ← create_file d1 path []
  d3 ← create_file d2 verification (guard_key p key)
  let j : Journal = record {
    path = path;
    checkpoint = checkpoint;
    key = key;
    head = first_head instance_id;
    records = [];
  }
  ok (set_file d3 checkpoint (head_file p j), j)

-- os.Mkdir of the lock: a directory of which Lstat does not say that it is a regular file.
unfoldable pub lock : Disk → Bytes → Result Failure Disk
lock d path =
    let name = path ++ codes ".lock" in
    elim (d name) [
      | some f ↦ err locked
      | none ↦ ok (set_file d name (record { regular = false; owner_only = true; content = [] }))
    ]

-- What Lock returns: os.Remove of the lock.
unfoldable pub unlock : Disk → Bytes → Disk
unlock d path q = if eqb_bytes q (path ++ codes ".lock") then none else d q
