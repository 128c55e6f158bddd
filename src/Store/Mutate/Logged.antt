-- ===== src/Store/Mutate/Logged.antt =====
-- The events that a flush of internal/store/mutate.go logs.
use sierx.Prelude.{
  count_up, ℕ, ◌+◌, ◌-◌, ◌≤◌, ◌≡◌, refl, sym, ap, ◌∙◌, Bool, true, false, Option, List, [], ◌∷◌,
  ◌++◌, append_assoc, append-nil, Bytes, arith, if◌then◌else◌,
}
use sierx.Prelude.Int.{ℤ, eqb_ℤ}
use sierx.Store.Changes.{Uuid, Any, Event, Change, Mutation, no_rows, db_error, version_conflict}
use sierx.Store.Events.{event_count}
use sierx.Store.Numbering.{seq_of, first_numbering, number_changes}
use sierx.Store.Numbering.Consecutive.{all_events, seqs, number_changes_consecutive}
use sierx.Store.Rollups.{dirty_ancestors}
use sierx.Store.Database.{Database, Tx, Reply, reply, refused, answered, done, failed}
use sierx.Store.Mutate.{
  Applied, Summary, live_ids, versions_agree, check_versions, apply_changes, insert_rollups,
  recompute_rollups, insert_events, insert_change_events, flush_numbered, flush,
}
use sierx.Store.Mutate.Ends.{
  Ends, ended, undone, Ends-map, Ends-and_then, EventLog, Silent, ask-Silent,
}
use sierx.Store.Mutate.Silent.{apply_kind-Silent}

-- An operation with what its reply implies.
answered-Ends :
    {S A : Type 0} {P : A → S → Type 0} (r : Reply S A)
    → ((a : A) (s' : S) → r ≡ reply a s' → P a s')
    → Ends P (answered r)
answered-Ends (reply a s) h = ended (h a s refl)
answered-Ends (refused e) h = undone

module _ {S : Type 0} (db : Database S) (log : S → List Event) (laws : EventLog S db log)
    (marshal : Any → Option Bytes) (uuid_string : Uuid → Bytes) (parse_uuid : Bytes → Option Uuid)
    (fuel : ℕ) where
  -- A transaction adds some events to the log.
  abbrev Adds : {A : Type 0} → List Event → Tx S A → Type 0
  Adds evs t = (s : S) (l : List Event) → log s ≡ l → Ends (λ a s'. log s' ≡ l ++ evs) (t s)

  insert_events-Adds :
      (w : Uuid) (evs : List Event)
      → Adds evs (insert_events db marshal uuid_string parse_uuid fuel w evs)
  unfolding insert_events
  insert_events-Adds w [] s l h = ended (h ∙ sym (append-nil l))
  insert_events-Adds w (ev ∷ evs) s l h =
      Ends-and_then {Q = λ u s1. log s1 ≡ l ++ ev ∷ []}
        (answered-Ends (db.insert_event w ev s)
          λ u s1 e. laws.inserts w ev s u s1 e ∙ ap (λ x. x ++ ev ∷ []) h)
        λ u s1 h1.
          Ends-map (λ v s2 h2. h2 ∙ append_assoc l (ev ∷ []) evs)
            (insert_events-Adds w evs s1 (l ++ ev ∷ []) h1)

  insert_change_events-Adds :
      (w : Uuid) (cs : List Change)
      → Adds (all_events cs) (insert_change_events db marshal uuid_string parse_uuid fuel w cs)
  unfolding insert_change_events
  insert_change_events-Adds w [] s l h = ended (h ∙ sym (append-nil l))
  insert_change_events-Adds w (c ∷ cs) s l h =
      Ends-and_then (insert_events-Adds w c.events s l h) λ u s1 h1.
        Ends-map (λ v s2 h2. h2 ∙ append_assoc l c.events (all_events cs))
          (insert_change_events-Adds w cs s1 (l ++ c.events) h1)

  versions_agree-Silent :
      (l : List Event) (v : ℤ) (r : Reply S ℤ)
      → ((a : ℤ) (s' : S) → r ≡ reply a s' → log s' ≡ l)
      → Silent log l (versions_agree v r)
  versions_agree-Silent l v (reply a s) h = agree (eqb_ℤ a v)
    where
      agree : (b : Bool) → Silent log l (if b then done tt s else failed version_conflict)
      agree true = ended (h a s refl)
      agree false = undone
  versions_agree-Silent l v (refused no_rows) h = undone
  versions_agree-Silent l v (refused (db_error n)) h = undone

  check_versions-Silent :
      (w : Uuid) (entries : List (Uuid × ℤ)) (s : S) (l : List Event)
      → log s ≡ l
      → Silent log l (check_versions db marshal uuid_string parse_uuid fuel w entries s)
  unfolding check_versions
  check_versions-Silent w [] s l h = ended h
  check_versions-Silent w ((id, v) ∷ entries) s l h =
      Ends-and_then
        (versions_agree-Silent l v (db.item_version id w s)
          λ a s1 e. laws.item_version_keeps id w s a s1 e ∙ h)
        λ u s1 h1. check_versions-Silent w entries s1 l h1

  insert_rollups-Silent :
      (ids : List Uuid) (s : S) (l : List Event)
      → log s ≡ l
      → Silent log l (insert_rollups db marshal uuid_string parse_uuid fuel ids s)
  unfolding insert_rollups
  insert_rollups-Silent [] s l h = ended h
  insert_rollups-Silent (id ∷ ids) s l h =
      Ends-and_then (ask-Silent log l _ s (laws.insert_rollup_row_keeps id) h)
        λ u s1 h1. insert_rollups-Silent ids s1 l h1

  recompute_rollups-Silent :
      (ids : List Uuid) (s : S) (l : List Event)
      → log s ≡ l
      → Silent log l (recompute_rollups db marshal uuid_string parse_uuid fuel ids s)
  unfolding recompute_rollups
  recompute_rollups-Silent [] s l h = ended h
  recompute_rollups-Silent (id ∷ ids) s l h =
      Ends-and_then (ask-Silent log l _ s (laws.recompute_rollup_keeps id) h)
        λ u s1 h1. recompute_rollups-Silent ids s1 l h1

  apply_changes-Silent :
      (m : Mutation) (ns : List (Uuid × ℕ)) (cs : List Change) (a : Applied) (s : S)
      (l : List Event)
      → log s ≡ l
      → Silent log l (apply_changes db marshal uuid_string parse_uuid fuel m ns cs a s)
  unfolding apply_changes
  apply_changes-Silent m ns [] a s l h = ended h
  apply_changes-Silent m ns (c ∷ cs) a s l h =
      Ends-and_then
        (apply_kind-Silent db log laws marshal uuid_string parse_uuid fuel l m c c.kind
          (seq_of ns c.item_id) a s h)
        λ b s1 h1. apply_changes-Silent m ns cs _ s1 l h1

  -- What is known of a summary.
  abbrev Numbers : Mutation → ℕ → Summary → Type 0
  Numbers m highest r =
      (r.highest_seq ≡ highest)
      × (r.lowest_seq ≡ highest - event_count m + 1)
      × (r.event_total ≡ event_count m)

  flush_numbered-Adds :
      (m : Mutation) (highest : ℕ) (cs : List Change) (ns : List (Uuid × ℕ)) (s : S)
      (l : List Event)
      → log s ≡ l
      → Ends
          (λ r s'. (log s' ≡ l ++ all_events cs) × Numbers m highest r)
          (flush_numbered db marshal uuid_string parse_uuid fuel m highest cs ns s)
  unfolding flush_numbered
  flush_numbered-Adds m highest cs ns s l h =
      Ends-and_then (apply_changes-Silent m ns cs _ s l h) λ a s1 h1.
        Ends-and_then (insert_rollups-Silent a.created s1 l h1) λ u s2 h2.
          Ends-and_then
            (recompute_rollups-Silent
              (live_ids a.hard_deleted (dirty_ancestors parse_uuid a.touched)) s2 l h2)
            λ v s3 h3.
              Ends-and_then (insert_change_events-Adds m.workspace_id cs s3 l h3)
                λ w s4 h4. ended (h4, (refl, refl, refl))

  -- If a flush succeeds on a database with an event log, the highest number of the result is what the database allocated
  -- for as many numbers as the mutation has events, and the log has grown by events of the mutation, and nothing else: their
  -- sequence numbers count up without a gap from the lowest to the highest number of the result, which are as many
  -- as the mutation has events.
  pub flush_logs :
      (m : Mutation) (s : S)
      → Ends
          (λ r s'.
            (s1 : S) × (db.allocate_seq (event_count m) m.workspace_id s ≡ reply r.highest_seq s1)
            × (evs : List Event) × (log s' ≡ log s ++ evs)
            × (evs
                ≡ all_events (number_changes (first_numbering r.highest_seq m.changes) m.changes).0)
            × (seqs evs ≡ count_up r.lowest_seq r.event_total)
            × (r.lowest_seq + event_count m ≡ r.highest_seq + 1))
          (flush db marshal uuid_string parse_uuid fuel m s)
  unfolding flush event_count
  flush_logs m s =
      Ends-and_then
        {Q = λ highest s1.
          (event_count m ≤ highest)
          × (log s1 ≡ log s)
          × (db.allocate_seq (event_count m) m.workspace_id s ≡ reply highest s1)}
        (answered-Ends (db.allocate_seq (event_count m) m.workspace_id s) λ highest s1 e.
          (laws.allocates _ _ s highest s1 e, laws.allocate_seq_keeps _ _ s highest s1 e, e))
        λ highest s1 (le, h1, allocated).
          Ends-and_then (check_versions-Silent m.workspace_id m.expected s1 (log s) h1) λ u s2 h2.
            Ends-map
              (λ r s3 (grown, (eh, el, et)).
                let (evs, added, numbered, counted, width) =
                  summarised r s3 highest le grown eh el et in
                (
                  s1,
                  allocated ∙ ap (λ (z : ℕ). reply z s1) (sym eh),
                  evs,
                  added,
                  numbered,
                  counted,
                  width,
                ))
              (flush_numbered-Adds m highest
                (number_changes (first_numbering highest m.changes) m.changes).0
                (number_changes (first_numbering highest m.changes) m.changes).1.item_seq s2 (log s)
                h2)
    where
      summarised :
          (r : Summary) (s3 : S) (highest : ℕ)
          → event_count m ≤ highest
          → log s3
            ≡ log s ++ all_events (number_changes (first_numbering highest m.changes) m.changes).0
          → r.highest_seq ≡ highest
          → r.lowest_seq ≡ highest - event_count m + 1
          → r.event_total ≡ event_count m
          → (evs : List Event) × (log s3 ≡ log s ++ evs)
            × (evs
                ≡ all_events (number_changes (first_numbering r.highest_seq m.changes) m.changes).0)
            × (seqs evs ≡ count_up r.lowest_seq r.event_total)
            × (r.lowest_seq + event_count m ≡ r.highest_seq + 1)
      summarised r s3 highest le grown eh el et =
          let (numbers, _, _) = number_changes_consecutive highest m.changes le in
          (_, grown, rw eh refl, rw (el, et) numbers, omega (arith, le, eh, el))
