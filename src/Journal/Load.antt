-- ===== src/Journal/Load.antt =====
-- load of internal/lifecycle/journal.go, with bufio.Scanner's lines, and Load.
use sierx.Prelude.{
  Bool, true, false, not, ◌&&◌, ◌||◌, List, [], ◌∷◌, ◌++◌, Bytes, eqb_bytes, length, get_last?,
  init, none, some, ltb, ◌==◌, if◌then◌else◌,
}
use sierx.Prelude.Int.{ℤ, pos, ◌+ℤ◌, eqb_ℤ, ltb_ℤ}
use sierx.Prelude.Results.{Result, ok, ◌>>=◌, ◌>>◌, guard, or_fail}
use sierx.Prelude.Hex.{hex}
use sierx.Journal.{
  Head, Record, Journal, Primitives, Failure, Disk, bad_data, bad_checkpoint, bad_nonce, bad_chain,
  mismatched, long_record, partial_record, not_trusted, line_limit, private_file, key_file,
  guard_key, authenticate, chain_data, first_head,
}

-- The lines of the rest of the file, with the bytes of the line so far.
unfoldable pub lines_from : Bytes → Bytes → List Bytes
lines_from [] [] = []
lines_from (c ∷ cur) [] = (c ∷ cur) ∷ []
lines_from cur (c ∷ s) = elim (c == 10) [
  | true ↦ cur ∷ lines_from [] s
  | false ↦ lines_from (cur ++ c ∷ []) s
]

-- bufio.ScanLines drops one carriage return at the end.
unfoldable pub drop_cr : Bytes → Bytes
drop_cr line = elim (get_last? line) [ none ↦ line | some c ↦ if c == 13 then init line else line ]

-- What the loop of load keeps.
pub record Reading : Type 0 where
  pub head : Head
  pub records : List Record
  pub matched : Bool

abbrev pub chains : Bytes → Head → Record → Bool
chains instance_id head r =
    eqb_bytes r.instance_id instance_id
    && eqb_ℤ r.sequence (head.sequence +ℤ pos 1)
    && eqb_bytes r.previous head.hash
    && eqb_bytes r.action.instance_id instance_id

abbrev pub is_saved : Head → ℤ → Bytes → Bool
is_saved saved sequence hash = eqb_ℤ sequence saved.sequence && eqb_bytes hash saved.hash

-- A record that fits is taken with the hash of its line.
unfoldable pub take_record : Head → Reading → Record → Bytes → Reading
take_record saved s r hash = record {
  head = record s.head { sequence = r.sequence; hash = hash };
  records = s.records ++ record r { hash = hash } ∷ [];
  matched = s.matched || is_saved saved r.sequence hash;
}

-- The record of a line that follows a head.
unfoldable pub open_line : Primitives → Bytes → Bytes → Head → Bytes → Result Failure Record
open_line p key instance_id head line = do
  e ← or_fail (p.decode_envelope line) bad_data
  guard (length e.nonce == p.nonce_size) bad_nonce
  plain ←
      or_fail (p.unseal key e.nonce e.ciphertext (chain_data head.instance_id head.hash)) bad_chain
  r ← or_fail (p.decode_record plain) bad_data
  guard (chains instance_id head r) mismatched
  ok r

unfoldable pub read_line : Primitives → Bytes → Head → Reading → Bytes → Result Failure Reading
read_line p key saved s line = do
  r ← open_line p key saved.instance_id s.head line
  ok (take_record saved s r (hex (p.sha256 line)))

-- The scanner's buffer of 2 MiB has to hold a line with its newline: a line of that length stops it.
unfoldable pub read_lines :
    Primitives → Bytes → Head → Reading → List Bytes → Result Failure Reading
read_lines p key saved s [] = ok s
read_lines p key saved s (line ∷ lines) =
    guard (ltb (length line) line_limit) long_record
    >> (read_line p key saved s (drop_cr line) >>= λ t. read_lines p key saved t lines)

abbrev pub start : Head → Reading
start saved = record {
  head = first_head saved.instance_id;
  records = [];
  matched = eqb_ℤ saved.sequence (pos 0) && eqb_bytes saved.hash [];
}

abbrev pub is_whole : Bytes → Bool
is_whole content = elim (get_last? content) [ none ↦ true | some c ↦ c == 10 ]

abbrev pub is_authentic : Primitives → Bytes → Head → Bool
is_authentic p key saved =
    eqb_bytes saved.mac (authenticate p saved (guard_key p key))
    && not (eqb_bytes saved.instance_id [])
    && not (ltb_ℤ saved.sequence (pos 0))

abbrev pub is_trusted : Bool → Head → Reading → Bool
is_trusted allow_tail saved s =
    s.matched && (allow_tail || is_saved saved s.head.sequence s.head.hash)

unfoldable pub load : Primitives → Disk → Bytes → Bytes → Bytes → Bool → Result Failure Journal
unfolding private_file key_file
load p d path key_path checkpoint allow_tail = do
  key ← key_file (d key_path)
  hb ← private_file (d checkpoint)
  saved ← or_fail (p.decode_head hb) bad_data
  guard (is_authentic p key saved) bad_checkpoint
  content ← private_file (d path)
  s ← read_lines p key saved (start saved) (lines_from [] content)
  guard (is_whole content) partial_record
  guard (is_trusted allow_tail saved s) not_trusted
  ok (record {
    path = path;
    checkpoint = checkpoint;
    key = key;
    head = s.head;
    records = s.records;
  })
