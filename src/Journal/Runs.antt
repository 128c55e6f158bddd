-- ===== src/Journal/Runs.antt =====
-- The journal against its specification, a list of actions that only grows.
use mathlib.Core.List.{map-append}
use sierx.Prelude.{
  ◌≡◌, refl, ◌∙◌, inl, inr, true, false, List, [], ◌∷◌, ◌++◌, map, Bytes, length, arith,
}
use sierx.Prelude.Results.{Result, ok, err}
use sierx.Journal.{
  Action, Record, Journal, Primitives, Failure, Disk, checkpoint_failed, not_trusted,
}
use sierx.Journal.Load.{load, is_saved}
use sierx.Journal.Append.{
  checked_line, replaced, kept, sound_device, next_record, advance, append_to, set_file, head_file,
  write_head, settle, write_record, append, recover_checkpoint,
}
use sierx.Journal.Laws.{IsText, Documented}
use sierx.Journal.Stored.{Holds, load_lem, set_file-Holds, is_saved_self}
use sierx.Journal.History.{storing, Fits, append-written, stored_line-Holds, append-Holds}

pub record State : Type 0 where
  pub disk : Disk
  pub journal : Journal
  pub log : List Action

abbrev pub logged : List Action → Result Failure Record → List Action
logged log (ok r) = log ++ r.action ∷ []
logged log (err e) = log

module _ (p : Primitives) where
  abbrev pub after_append : State → Bytes → Action → State
  after_append s nonce a =
      let x = append p sound_device nonce s.disk s.journal a in
      record { disk = x.disk; journal = x.journal; log = logged s.log x.answer }

  -- Append stops before the checkpoint, and RecoverCheckpoint follows.
  abbrev pub after_recovery : Bytes → State → Bytes → Action → State
  after_recovery key_path s nonce a =
      let x = append p (storing kept) nonce s.disk s.journal a in
      let y = recover_checkpoint p replaced x.disk s.journal.path key_path s.journal.checkpoint in
      record { disk = y.0; journal = x.journal; log = s.log ++ a ∷ [] }

module _ {p : Primitives} (c : Documented p) (key_path : Bytes) where
  append-kept :
      (d : Disk) (j : Journal) (nonce b : Bytes) (a : Action)
      → checked_line p nonce d j a ≡ ok b
      → append p (storing kept) nonce d j a ≡ record {
        disk = append_to d j.path (b ++ 10 ∷ []);
        journal = advance p j (next_record j a) b;
        answer = err checkpoint_failed;
      }
  unfolding write_record settle write_head
  append-kept d j nonce b a e = append-written p (storing kept) nonce d j a e

  recover_checkpoint-loaded :
      (d : Disk) (path checkpoint : Bytes) (j : Journal)
      → load p d path key_path checkpoint true ≡ ok j
      → recover_checkpoint p replaced d path key_path checkpoint
        ≡ (set_file d j.checkpoint (head_file p j), ok j)
  unfolding recover_checkpoint write_head
  recover_checkpoint-loaded d path checkpoint j e = rw (e, recover_checkpoint) refl

  pub interrupted_append :
      (d : Disk) (j : Journal) (nonce b : Bytes) (a : Action)
      → Holds p c d key_path j.head j
      → IsText c.valid a
      → length nonce ≡ p.nonce_size
      → Fits p nonce j a
      → checked_line p nonce d j a ≡ ok b
      → let x = append p (storing kept) nonce d j a in
        let y = recover_checkpoint p replaced x.disk j.path key_path j.checkpoint in
        (x.answer ≡ err checkpoint_failed)
        × (load p x.disk j.path key_path j.checkpoint false ≡ err not_trusted)
        × (y.1 ≡ ok x.journal)
        × (map Record.action x.journal.records ≡ map Record.action j.records ++ a ∷ [])
        × Holds p c y.0 key_path x.journal.head x.journal
        × (load p y.0 j.path key_path j.checkpoint false ≡ ok x.journal)
  unfolding advance next_record
  interrupted_append d j nonce b a h t sized fits e =
      let d' : Disk = append_to d j.path (b ++ 10 ∷ []) in
      let k : Journal = advance p j (next_record j a) b in
      let held : Holds p c d' key_path j.head k =
        stored_line-Holds c key_path d j.head j nonce b a h t sized fits e in
      let behind : is_saved j.head k.head.sequence k.head.hash ≡ false =
        rw h.counted (ground arith) in
      let recovered : load p d' j.path key_path j.checkpoint true ≡ ok k =
        load_lem p c d' key_path j.head k true held in
      let stored = set_file-Holds p c d' key_path j.head k held in
      rw (append-kept d j nonce b a e, recover_checkpoint-loaded d' j.path j.checkpoint k recovered)
        (
          refl,
          load_lem p c d' key_path j.head k false held ∙ rw behind refl,
          refl,
          map-append Record.action j.records _,
          stored,
          load_lem p c _ key_path k.head k false stored ∙ rw (is_saved_self p c k.head) refl,
        )

  Trusted-load :
      (d : Disk) (j : Journal)
      → Holds p c d key_path j.head j
      → load p d j.path key_path j.checkpoint false ≡ ok j
  Trusted-load d j h = load_lem p c d key_path j.head j false h ∙ rw (is_saved_self p c j.head) refl

  -- An action is appended, or it is appended without the checkpoint and then recovered.
  pub data Step (s : State) : State → Type 0 where
    appends :
        {t : State} (nonce : Bytes) (a : Action)
        → IsText c.valid a
        → length nonce ≡ p.nonce_size
        → Fits p nonce s.journal a
        → t ≡ after_append p s nonce a
        → Step s t
    recovers :
        {t : State} (nonce b : Bytes) (a : Action)
        → IsText c.valid a
        → length nonce ≡ p.nonce_size
        → Fits p nonce s.journal a
        → checked_line p nonce s.disk s.journal a ≡ ok b
        → t ≡ after_recovery p key_path s nonce a
        → Step s t

  pub data Reach (s : State) : State → Type 0 where
    here : Reach s s
    next : {t u : State} → Reach s t → Step t u → Reach s u

  pub record Refines (s : State) : Type 0 where
    pub held : Holds p c s.disk key_path s.journal.head s.journal
    pub written : map Record.action s.journal.records ≡ s.log

  appends-Refines :
      (s : State) (nonce : Bytes) (a : Action)
      → IsText c.valid a
      → length nonce ≡ p.nonce_size
      → Fits p nonce s.journal a
      → Refines s
      → Refines (after_append p s nonce a)
  appends-Refines s nonce a t sized fits r =
      let (h, grown) = append-Holds c key_path s.disk s.journal nonce a r.held t sized fits in
      elim grown [
        | inl (q, e1, e2, e3) ↦ record {
          held = h;
          written =
              rw (e1, e2, e3)
                (map-append Record.action s.journal.records (q ∷ []) ∙ rw (e2, r.written) refl);
        }
        | inr (f, e) ↦ rw e (record { held = r.held; written = r.written })
      ]

  Step-Refines : {s t : State} → Step s t → Refines s → Refines t
  Step-Refines {s} (appends nonce a t sized fits e) r =
      rw e (appends-Refines s nonce a t sized fits r)
  Step-Refines {s} (recovers nonce b a t sized fits done e) r =
      let (_, _, _, w, h, _) =
        interrupted_append s.disk s.journal nonce b a r.held t sized fits done in
      rw e (record { held = h; written = w ∙ rw r.written refl })

  Reach-Refines : {s t : State} → Reach s t → Refines s → Refines t
  Reach-Refines here r = r
  Reach-Refines (next q st) r = Step-Refines st (Reach-Refines q r)

  pub Reach-load :
      {s t : State}
      → Refines s
      → Reach s t
      → (load p t.disk t.journal.path key_path t.journal.checkpoint false ≡ ok t.journal)
        × (map Record.action t.journal.records ≡ t.log)
  Reach-load {s} {t} r q =
      let r' = Reach-Refines q r in (Trusted-load t.disk t.journal r'.held, r'.written)
