-- ===== src/Workflow/Examples.antt =====
-- Drafts at concrete inputs; the texts are ASCII without blanks.
use sierx.Prelude.{◌≡◌, refl, Bool, true, List, [], ◌∷◌, ◌++◌, Bytes, codes, length}
use sierx.Prelude.Int.{pos}
use sierx.Prelude.Results.{ok, err}
use sierx.Prelude.Decides.{Decides}
use sierx.Workflow.{
  Status, Draft, Config, Texts, update_workflow, bad_target, not_retained, key_twice, conflict,
}
use sierx.Workflow.Accepted.{IsAccepted, update_workflow-Decides}

abbrev texts : Texts
texts = record { trim = λ s. s; lower = λ s. s; runes = length }

abbrev todo : Status
todo = record { key = codes "todo"; name = codes "to do"; category = codes "open" }

abbrev done : Status
done = record { key = codes "done"; name = codes "done"; category = codes "done" }

abbrev current : Config
current = record {
  version = pos 3;
  statuses = todo ∷ [];
  types = codes "task" ∷ [];
  fields = codes "team" ∷ [];
}

abbrev draft_of : List Status → Bytes → Draft
draft_of statuses end = record {
  statuses = statuses;
  transitions =
      (
        codes "todo",
        record { to_key = end; requires = codes "assignee" ∷ codes "fields.team" ∷ [] } ∷ [],
      )
      ∷ [];
  initial = (codes "task", codes "todo") ∷ [];
}

update_workflow-Decides_example :
    Decides
      ((true ≡ true)
        × IsAccepted texts (pos 3) (draft_of (todo ∷ done ∷ []) (codes "done")) current)
      (update_workflow texts true (pos 3) (draft_of (todo ∷ done ∷ []) (codes "done")) current)
update_workflow-Decides_example =
    update_workflow-Decides texts true (pos 3) (draft_of (todo ∷ done ∷ []) (codes "done")) current

good_draft :
    update_workflow texts true (pos 3) (draft_of (todo ∷ done ∷ []) (codes "done")) current ≡ ok tt
unfolding update_workflow sierx.Prelude.eqb_bytes
good_draft = refl

own_end :
    update_workflow texts true (pos 3) (draft_of (todo ∷ done ∷ []) (codes "todo")) current
    ≡ err bad_target
unfolding update_workflow sierx.Prelude.eqb_bytes
own_end = refl

dropped_status :
    update_workflow texts true (pos 3) (draft_of (done ∷ []) (codes "done")) current
    ≡ err not_retained
unfolding update_workflow sierx.Prelude.eqb_bytes
dropped_status = refl

stale :
    update_workflow texts true (pos 2) (draft_of (todo ∷ done ∷ []) (codes "done")) current
    ≡ err conflict
unfolding update_workflow sierx.Prelude.eqb_bytes
stale = refl

twice :
    update_workflow texts true (pos 3) (draft_of (todo ∷ todo ∷ []) (codes "done")) current
    ≡ err key_twice
unfolding update_workflow sierx.Prelude.eqb_bytes
twice = refl
