-- ===== src/Store/Numbering.antt =====
-- internal/store/mutate.go, flush: the sequence numbers of the events of a mutation. They are int64
-- values that the database has allocated, so none overflows and they are numbers here.
pub mod Consecutive
use sierx.Prelude.{
  ℕ, zero, suc, ◌+◌, ◌-◌, Bool, true, false, List, [], ◌∷◌, ◌++◌, ltb, ◌==◌, if◌then◌else◌,
}
use sierx.Store.Events.{count_events}
use sierx.Store.Changes.{Uuid, Event, Change}

-- The next number, and the map from an item to the highest number of its events.
pub record Numbering : Type 0 where
  pub next : ℕ
  pub item_seq : List (Uuid × ℕ)

-- A missing key is 0.
unfoldable pub seq_of : List (Uuid × ℕ) → Uuid → ℕ
seq_of [] id = 0
seq_of ((key, seq) ∷ entries) id = if key == id then seq else seq_of entries id

unfoldable pub raise_seq : Uuid → ℕ → List (Uuid × ℕ) → List (Uuid × ℕ)
raise_seq id next entries =
    if id == 0
    then entries
    else if ltb (seq_of entries id) next
    then (id, next) ∷ entries
    else entries

unfoldable pub number_event : Numbering → Event → Event × Numbering
number_event n ev = (
  record ev { seq = n.next },
  record { next = n.next + 1; item_seq = raise_seq ev.item_id n.next n.item_seq },
)

unfoldable pub number_events : Numbering → List Event → List Event × Numbering
number_events n [] = ([], n)
number_events n (ev ∷ evs) =
    let (ev1, n1) = number_event n ev in let (evs1, n2) = number_events n1 evs in (ev1 ∷ evs1, n2)

unfoldable pub number_changes : Numbering → List Change → List Change × Numbering
number_changes n [] = ([], n)
number_changes n (c ∷ cs) =
    let (evs, n1) = number_events n c.events in
    let (cs1, n2) = number_changes n1 cs in (record c { events = evs } ∷ cs1, n2)

-- lowest := highest - int64(n) + 1, and an empty map.
unfoldable pub first_numbering : ℕ → List Change → Numbering
first_numbering highest cs = record { next = highest - count_events cs + 1; item_seq = [] }
