-- ===== src/Journal/Examples/Long.antt =====
-- A line of just 2 MiB: the examples' codec puts 2,097,097 bytes before a line of 55.
use sierx.Prelude.{
  not, ltb, ◌++◌, ℕ, ◌+◌, ◌≤◌, ◌≡◌, refl, ap, ◌∙◌, [], Bytes, codes, length, arith, eqb_bytes, true,
}
use sierx.Prelude.Results.{ok, err, Ensures-eq_ok}
use sierx.Journal.{file_limit, Disk, Record, private_file, guard_key, line_limit, long_record}
use sierx.Journal.Load.{load}
use sierx.Journal.Append.{
  init_journal, append, next_record, seal_record, with_room, checked_line, sound_device,
  private_content, head_file, set_file,
}
use sierx.Journal.Stored.{Holds}
use sierx.Journal.Fresh.{init_journal-Refines}
use sierx.Journal.Limit.{append-long}
use sierx.Journal.Examples.Codec.{put_list, put_bytes}
use sierx.Journal.Examples.Toy.{
  put_envelope, put_record, pad, length-pad, toy, toy-Documented, toy-valid,
}
use sierx.Journal.Examples.Runs.{no_files, key, nonce, hold_action, first_journal}

abbrev prefix_length : ℕ
prefix_length = 2097097

short_line : Bytes
unfolding next_record put_envelope put_record put_list
short_line = put_envelope (record {
  nonce = nonce;
  ciphertext = put_bytes (codes "x:") ++ put_record (next_record first_journal hold_action);
})

-- The line does not fill a line's limit before its prefix.
length-short_line : length short_line ≡ 55
unfolding short_line
length-short_line = refl

fits_line : (b : Bytes) → length b ≤ line_limit → not (ltb line_limit (length b)) ≡ true
fits_line b h = ground arith

module _ (n : ℕ) where
  long_disk : Disk
  unfolding head_file
  long_disk =
      set_file
        (set_file
          (set_file (set_file no_files (codes "k") (private_content key)) (codes "j")
            (private_content []))
          (codes "c.verification") (private_content (guard_key (toy n) key)))
        (codes "c") (head_file (toy n) first_journal)

  made_long :
      init_journal (toy n) no_files key (codes "j") (codes "k") (codes "c") (codes "x")
      ≡ ok (long_disk, first_journal)
  unfolding init_journal long_disk toy eqb_bytes
  made_long = refl

  long_line_lem :
      n + 55 ≤ line_limit
      → checked_line (toy n) nonce long_disk first_journal hold_action ≡ ok (pad n short_line)
  unfolding checked_line next_record seal_record with_room toy put_list long_disk short_line
      private_file eqb_bytes
  long_line_lem h =
      let size : length (pad n short_line) ≤ line_limit =
        omega (arith, length-pad n short_line, length-short_line) in
      let room : not (ltb file_limit (0 + length (pad n short_line) + 1)) ≡ true = ground (arith) in
      rw (fits_line (pad n short_line) size, room) refl

  long_held :
      Holds (toy n) (toy-Documented n) long_disk (codes "k") first_journal.head first_journal
  long_held =
      (Ensures-eq_ok
        (init_journal-Refines (toy n) (toy-Documented n) no_files key (codes "j") (codes "k")
          (codes "c") (codes "x") refl (toy-valid n (codes "x")) (omega arith))
        made_long).held

append-long_example :
    let x =
      append
        (toy prefix_length)
        sound_device
        nonce
        (long_disk prefix_length)
        first_journal
        hold_action in
    ((r : Record) × (x.answer ≡ ok r))
    × (load (toy prefix_length) x.disk (codes "j") (codes "k") (codes "c") true ≡ err long_record)
append-long_example =
    append-long (toy-Documented prefix_length) (codes "k") (long_disk prefix_length) first_journal
      nonce (pad prefix_length short_line) hold_action true (long_held prefix_length)
      (long_line_lem prefix_length (omega arith))
      (length-pad prefix_length short_line ∙ ap (λ (k : ℕ). prefix_length + k) length-short_line)
