-- ===== src/Journal/Examples/Runs.antt =====
-- A journal that is made, gets a record, and gets another one whose append stops before the checkpoint.
use sierx.Prelude.{
  ◌≡◌, refl, ap, sym, false, none, [], ◌∷◌, map, Bytes, codes, length, replicate, arith, eqb_bytes,
}
use sierx.Prelude.Int.{pos}
use sierx.Prelude.Results.{Result, ok, ok-inj, Ensures}
use sierx.Prelude.Hex.{hex}
use sierx.Journal.{Record, Action, Journal, Disk, Failure, guard_key, authenticate}
use sierx.Journal.Load.{load}
use sierx.Journal.Append.{
  Appended, kept, extend_file, private_content, init_journal, append, next_record, seal_record,
  checked_line, write_record, head_file, set_file,
}
use sierx.Journal.Chain.{Trusts, load-Trusts}
use sierx.Journal.Runs.{State, here, next, Step, appends, recovers, after_append, after_recovery}
use sierx.Journal.History.{storing}
use sierx.Journal.Fresh.{init_journal-load}
use sierx.Journal.Examples.Codec.{put_list}
use sierx.Journal.Examples.Toy.{pad, toy, toy-Documented, toy-valid, toy-IsText}

abbrev pub no_files : Disk
no_files q = none

abbrev pub key : Bytes
key = replicate 32 7

abbrev pub nonce : Bytes
nonce = replicate 12 5

abbrev pub hold_action : Action
hold_action = record {
  kind = codes "hold";
  case_ref = codes "C1";
  workspace_id = [];
  target_id = codes "i1";
  replacement_id = [];
  authority_ref = [];
  review_at = [];
  cutoff = [];
  correction = [];
  event_seq = pos 3;
  at = codes "now";
  instance_id = codes "x";
  workspace_origin = [];
  item_ids = codes "i1" ∷ [];
  comment_ids = [];
  view_ids = [];
}

abbrev release_action : Action
release_action = record hold_action { kind = codes "release"; item_ids = [] }

abbrev made : Result Failure (Disk × Journal)
made = init_journal (toy 0) no_files key (codes "j") (codes "k") (codes "c") (codes "x")

abbrev pub first_journal : Journal
first_journal = record {
  path = codes "j";
  checkpoint = codes "c";
  key = key;
  head = record { instance_id = codes "x"; sequence = pos 0; hash = []; mac = [] };
  records = [];
}

first_disk : Disk
unfolding head_file
first_disk =
    set_file
      (set_file
        (set_file (set_file no_files (codes "k") (private_content key)) (codes "j")
          (private_content []))
        (codes "c.verification") (private_content (guard_key (toy 0) key)))
      (codes "c") (head_file (toy 0) first_journal)

made_first : made ≡ ok (first_disk, first_journal)
unfolding init_journal first_disk toy eqb_bytes
made_first = refl

abbrev first_state : State
first_state = record { disk = first_disk; journal = first_journal; log = [] }

line_length :
    (b : Bytes)
    → seal_record (toy 0) nonce first_journal (next_record first_journal hold_action) ≡ ok b
    → length b ≡ 55
unfolding seal_record next_record toy pad put_list
line_length b e = ap length (sym (ok-inj e))

abbrev second_state : State
second_state = after_append (toy 0) first_state nonce hold_action

second_line :
    (b : Bytes)
    → seal_record
        (toy 0)
        nonce
        second_state.journal
        (next_record second_state.journal release_action)
      ≡ ok b
    → length b ≡ 183
unfolding seal_record next_record toy pad put_list append eqb_bytes first_disk hex
second_line b e = ap length (sym (ok-inj e))

first_step : Step (toy-Documented 0) (codes "k") first_state second_state
unfolding toy
first_step =
    appends nonce hold_action (toy-IsText 0 hold_action (omega arith)) refl
      (λ (b : Bytes) e. omega (arith, line_length b e)) refl

abbrev third_state : State
third_state = after_recovery (toy 0) (codes "k") second_state nonce release_action

second_step : Step (toy-Documented 0) (codes "k") second_state third_state
unfolding toy pad put_list append checked_line write_record first_disk head_file authenticate hex
    guard_key eqb_bytes seal_record next_record extend_file
second_step =
    recovers nonce _ release_action (toy-IsText 0 release_action (omega arith)) refl
      (λ (b : Bytes) e. omega (arith, second_line b e)) refl refl

init_journal-load_example :
    (load
        (toy 0)
        third_state.disk
        third_state.journal.path
        (codes "k")
        third_state.journal.checkpoint
        false
      ≡ ok third_state.journal)
    × (map Record.action third_state.journal.records ≡ third_state.log)
init_journal-load_example =
    init_journal-load (toy 0) (toy-Documented 0) no_files key (codes "j") (codes "k") (codes "c")
      (codes "x") refl (toy-valid 0 (codes "x")) (omega arith) made_first
      (next (next here first_step) second_step)

-- The accepted actions, in order.
third_log : third_state.log ≡ hold_action ∷ release_action ∷ []
unfolding toy pad put_list append checked_line write_record first_disk head_file authenticate hex
    guard_key eqb_bytes seal_record next_record extend_file
third_log = refl

load-Trusts_example :
    Ensures
      (Trusts (toy 0) third_state.disk (codes "c") false)
      (load (toy 0) third_state.disk (codes "j") (codes "k") (codes "c") false)
load-Trusts_example = load-Trusts (toy 0) third_state.disk (codes "j") (codes "k") (codes "c") false

abbrev kept_append : Appended
kept_append = append (toy 0) (storing kept) nonce first_disk first_journal hold_action
