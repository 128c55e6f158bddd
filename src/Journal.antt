-- ===== src/Journal.antt =====
-- internal/lifecycle/journal.go: the types, what the code takes of encoding/json, crypto and path/filepath, and the
-- protected files.
pub mod Load
pub mod Append
pub mod Chain
pub mod Laws
pub mod Stored
pub mod Extended
pub mod History
pub mod Runs
pub mod Fresh
pub mod Limit
pub mod Examples
use sierx.Prelude.{
  ℕ, ◌+◌, ◌-◌, ◌*◌, ◌/◌, ◌%◌, ◌^◌, Bool, true, false, not, Option, none, some, List, [], ◌∷◌, ◌++◌,
  Bytes, codes, eqb_bytes, length, ltb, ◌==◌, if◌then◌else◌,
}
use sierx.Prelude.Int.{ℤ}
use sierx.Prelude.Hex.{hex}
use sierx.Prelude.Results.{Result, ok, err, ◌>>=◌, ◌>>◌, guard, or_fail}

pub record Action : Type 0 where
  pub kind : Bytes
  pub case_ref : Bytes
  pub workspace_id : Bytes
  pub target_id : Bytes
  pub replacement_id : Bytes
  pub authority_ref : Bytes
  pub review_at : Bytes
  pub cutoff : Bytes
  pub correction : Bytes
  pub event_seq : ℤ
  pub at : Bytes
  pub instance_id : Bytes
  pub workspace_origin : Bytes
  pub item_ids : List Bytes
  pub comment_ids : List Bytes
  pub view_ids : List Bytes

pub record Head : Type 0 where
  pub instance_id : Bytes
  pub sequence : ℤ
  pub hash : Bytes
  pub mac : Bytes

pub record Record : Type 0 where
  pub instance_id : Bytes
  pub sequence : ℤ
  pub previous : Bytes
  pub action : Action
  pub hash : Bytes

pub record Envelope : Type 0 where
  pub nonce : Bytes
  pub ciphertext : Bytes

pub record Journal : Type 0 where
  pub path : Bytes
  pub checkpoint : Bytes
  pub key : Bytes
  pub head : Head
  pub records : List Record

pub data Failure : Type 0 where
  unavailable not_private too_large bad_key bad_data bad_checkpoint bad_nonce bad_chain : Failure
  mismatched long_record partial_record not_trusted other_instance capacity : Failure
  not_distinct never_overwrites write_failed checkpoint_failed locked : Failure

-- The functions of other packages: json.Marshal and strictJSON at the three types, cipher.AEAD with its key, the
-- hashes, and filepath.Join(filepath.Dir(checkpoint), "verification.key").
pub record Primitives : Type 0 where
  pub encode_record : Record → Option Bytes
  pub decode_record : Bytes → Option Record
  pub encode_envelope : Envelope → Bytes
  pub decode_envelope : Bytes → Option Envelope
  pub encode_head : Head → Bytes
  pub decode_head : Bytes → Option Head
  pub nonce_size : ℕ
  pub seal : Bytes → Bytes → Bytes → Bytes → Bytes
  pub unseal : Bytes → Bytes → Bytes → Bytes → Option Bytes
  pub sha256 : Bytes → Bytes
  pub hmac : Bytes → Bytes → Bytes
  pub verification_path : Bytes → Bytes

-- What Lstat says of a file, and its bytes.
pub record File : Type 0 where
  pub regular : Bool
  pub owner_only : Bool
  pub content : Bytes

abbrev pub Disk : Type 0
Disk = Bytes → Option File

abbrev pub file_limit : ℕ
file_limit = 128 * 2 ^ 20

abbrev pub line_limit : ℕ
line_limit = 2 * 2 ^ 20

unfoldable pub private_file : Option File → Result Failure Bytes
private_file o = do
  f ← or_fail o unavailable
  guard f.regular unavailable
  guard f.owner_only not_private
  guard (not (ltb file_limit (length f.content))) too_large
  ok f.content

unfoldable pub key_file : Option File → Result Failure Bytes
key_file o = do b ← private_file o; guard (length b == 32) bad_key; ok b

unfoldable pub guard_key : Primitives → Bytes → Bytes
guard_key p key = p.hmac key (codes "sierx-lifecycle-checkpoint-v1")

unfoldable pub authenticate : Primitives → Head → Bytes → Bytes
authenticate p h key = hex (p.hmac key (p.encode_head (record h { mac = [] })))

-- The associated data of a record: the instance and the hash of the record before it.
abbrev pub chain_data : Bytes → Bytes → Bytes
chain_data instance_id hash = instance_id ++ codes ":" ++ hash

-- Nothing has been read of a journal of this instance.
abbrev pub first_head : Bytes → Head
first_head instance_id = record {
  instance_id = instance_id;
  sequence = ℤ.pos 0;
  hash = [];
  mac = [];
}
