-- ===== src/Store/Numbering/Consecutive.antt =====
-- The numbers that internal/store/mutate.go gives to the events of a mutation.
use sierx.Prelude.{
  count_up, count_up-add, ℕ, ◌+◌, ◌-◌, ◌≤◌, ◌≡◌, ◌≢◌, refl, ap, List, [], ◌∷◌, ◌++◌, ltb, ◌==◌,
  if◌then◌else◌, arith, length,
}
use sierx.Store.Changes.{Uuid, Event, Change}
use sierx.Store.Events.{count_events}
use sierx.Store.Numbering.{
  Numbering, seq_of, raise_seq, number_event, number_events, number_changes, first_numbering,
}

-- The events of the changes, in the order in which they are registered.
abbrev pub all_events : List Change → List Event
all_events [] = []
all_events (c ∷ cs) = c.events ++ all_events cs

abbrev pub seqs : List Event → List ℕ
seqs [] = []
seqs (ev ∷ evs) = ev.seq ∷ seqs evs

-- The highest number of the events of an item, 0 if it has none.
abbrev pub highest_of : Uuid → List Event → ℕ
highest_of id [] = 0
highest_of id (ev ∷ evs) =
    let rest = highest_of id evs in
    if ev.item_id == id then (if ltb rest ev.seq then ev.seq else rest) else rest

seqs-append : (xs ys : List Event) → seqs (xs ++ ys) ≡ seqs xs ++ seqs ys
seqs-append [] ys = refl
seqs-append (x ∷ xs) ys = ap (λ zs. x.seq ∷ zs) (seqs-append xs ys)

number_events-next :
    (n : Numbering) (evs : List Event) → (number_events n evs).1.next ≡ n.next + length evs
unfolding number_events number_event
number_events-next n [] = omega arith
number_events-next n (ev ∷ evs) = omega (arith, number_events-next (number_event n ev).1 evs)

number_events-seqs :
    (n : Numbering) (evs : List Event) → seqs (number_events n evs).0 ≡ count_up n.next (length evs)
unfolding number_events number_event
number_events-seqs n [] = refl
number_events-seqs n (ev ∷ evs) =
    ap (λ zs. n.next ∷ zs) (number_events-seqs (number_event n ev).1 evs)

number_changes-next :
    (n : Numbering) (cs : List Change) → (number_changes n cs).1.next ≡ n.next + count_events cs
unfolding number_changes count_events
number_changes-next n [] = omega arith
number_changes-next n (c ∷ cs) =
    omega
      (arith, number_changes-next (number_events n c.events).1 cs, number_events-next n c.events)

number_changes-seqs :
    (n : Numbering) (cs : List Change)
    → seqs (all_events (number_changes n cs).0) ≡ count_up n.next (count_events cs)
unfolding number_changes count_events
number_changes-seqs n [] = refl
number_changes-seqs n (c ∷ cs) =
    rw
      (
        seqs-append (number_events n c.events).0
            (all_events (number_changes (number_events n c.events).1 cs).0),
        number_events-seqs n c.events,
        number_changes-seqs (number_events n c.events).1 cs,
        number_events-next n c.events,
        count_up-add n.next (length c.events) (count_events cs),
      )
      refl

abbrev max : ℕ → ℕ → ℕ
max a b = if ltb a b then b else a

highest_of-append :
    (id : Uuid) (xs ys : List Event)
    → highest_of id (xs ++ ys) ≡ max (highest_of id xs) (highest_of id ys)
highest_of-append id [] ys = ground arith
highest_of-append id (x ∷ xs) ys = ground (arith, highest_of-append id xs ys)

seq_of-raise_seq :
    (id key : Uuid) (next : ℕ) (entries : List (Uuid × ℕ))
    → id ≢ 0
    → seq_of (raise_seq key next entries) id
      ≡ (if key == id then max (seq_of entries id) next else seq_of entries id)
unfolding raise_seq seq_of
seq_of-raise_seq id key next entries ne = ground arith

number_events-seq_of :
    (id : Uuid) (n : Numbering) (evs : List Event)
    → id ≢ 0
    → seq_of (number_events n evs).1.item_seq id
      ≡ max (seq_of n.item_seq id) (highest_of id (number_events n evs).0)
unfolding number_events number_event
number_events-seq_of id n [] ne = ground arith
number_events-seq_of id n (ev ∷ evs) ne = ground (
  arith,
  number_events-seq_of id (number_event n ev).1 evs ne,
  seq_of-raise_seq id ev.item_id n.next n.item_seq ne,
)

number_changes-seq_of :
    (id : Uuid) (n : Numbering) (cs : List Change)
    → id ≢ 0
    → seq_of (number_changes n cs).1.item_seq id
      ≡ max (seq_of n.item_seq id) (highest_of id (all_events (number_changes n cs).0))
unfolding number_changes
number_changes-seq_of id n [] ne = ground arith
number_changes-seq_of id n (c ∷ cs) ne = ground (
  arith,
  number_changes-seq_of id (number_events n c.events).1 cs ne,
  number_events-seq_of id n c.events ne,
  highest_of-append id (number_events n c.events).0
      (all_events (number_changes (number_events n c.events).1 cs).0),
)

-- If the database hands out numbers up to `highest`, the events of a mutation have, in the order in
-- which they are registered, the numbers from highest - n + 1 to `highest`, for n events; and the
-- number that the mutation writes to an item is the highest one of this item's events.
pub number_changes_consecutive :
    (highest : ℕ) (cs : List Change)
    → count_events cs ≤ highest
    → (seqs (all_events (number_changes (first_numbering highest cs) cs).0)
        ≡ count_up (highest - count_events cs + 1) (count_events cs))
      × ((number_changes (first_numbering highest cs) cs).1.next ≡ highest + 1)
      × ((id : Uuid)
          → id ≢ 0
          → seq_of (number_changes (first_numbering highest cs) cs).1.item_seq id
            ≡ highest_of id (all_events (number_changes (first_numbering highest cs) cs).0))
unfolding first_numbering seq_of
number_changes_consecutive highest cs le = (
  number_changes-seqs (first_numbering highest cs) cs,
  omega (arith, le, number_changes-next (first_numbering highest cs) cs),
  λ id ne. ground (arith, number_changes-seq_of id (first_numbering highest cs) cs ne),
)
