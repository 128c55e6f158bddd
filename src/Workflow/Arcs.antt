-- ===== src/Workflow/Arcs.antt =====
-- The transitions of a draft of internal/api/workflow.go.
use sierx.Prelude.{
  ◌≡◌, ◌≢◌, inl, inr, true, false, not, ◌&&◌, List, [], ◌∷◌, Bytes, eqb_bytes, eqb_bytes_refl,
  eq_of_eqb_bytes, map, All, arith, Bool-cases,
}
use sierx.Prelude.Decides.{Decides, accepted, Decides-guard, Decides-step, Decides-map}
use sierx.Projection.Parse.{has_name}
use sierx.Projection.Parse.Collected.{NoRepeat}
use sierx.Workflow.{
  Arc, check_required, check_targets, check_transitions, bad_requirement, bad_target, bad_start,
}
use sierx.Workflow.Fresh.{Fresh, Fresh-NoRepeat, NoRepeat-Fresh_nil}

eqb_bytes-ne : {x y : Bytes} → eqb_bytes x y ≡ false → x ≢ y
eqb_bytes-ne {x} {y} h e = cc (eqb_bytes_refl x)

ne-eqb_bytes : {x y : Bytes} → x ≢ y → eqb_bytes x y ≡ false
ne-eqb_bytes {x} {y} h = elim (Bool-cases (eqb_bytes x y)) [
  | inr e ↦ e
  | inl e ↦ absurd (h (eq_of_eqb_bytes x y e))
]

check_required-Decides :
    (known seen fs : List Bytes)
    → Decides (All (λ f. has_name f known ≡ true) fs × Fresh seen fs) (check_required known seen fs)
unfolding check_required
check_required-Decides known seen [] = accepted (tt, tt)
check_required-Decides known seen (f ∷ fs) =
    Decides-map (λ h. ((ground (arith, h.0), h.1.0), (ground (arith, h.0), h.1.1)))
      (λ h. (ground (arith, h.0.0, h.1.0), (h.0.1, h.1.1)))
      (Decides-step (Decides-guard (has_name f known && not (has_name f seen)) bad_requirement)
        (check_required-Decides known (f ∷ seen) fs))

-- An arc from a status: it ends at another one, and what it requires are fields, each once.
pub record IsArc (keys known : List Bytes) (from : Bytes) (a : Arc) : Type 0 where
  pub known_end : has_name a.to_key keys ≡ true
  pub other_end : a.to_key ≢ from
  pub all_fields : All (λ f. has_name f known ≡ true) a.requires
  pub unrepeated : NoRepeat a.requires

check_targets-Decides :
    (keys known : List Bytes) (from : Bytes) (seen : List Bytes) (arcs : List Arc)
    → Decides
        (All (IsArc keys known from) arcs × Fresh seen (map (λ a. a.to_key) arcs))
        (check_targets keys known from seen arcs)
unfolding check_targets
check_targets-Decides keys known from seen [] = accepted (tt, tt)
check_targets-Decides keys known from seen (a ∷ arcs) =
    Decides-map
      (λ h. (
        (
          record {
            known_end = ground (arith, h.0);
            other_end = eqb_bytes-ne (ground (arith, h.0));
            all_fields = h.1.0.0;
            unrepeated = (Fresh-NoRepeat [] a.requires h.1.0.1).1;
          },
          h.1.1.0,
        ),
        (ground (arith, h.0), h.1.1.1),
      ))
      (λ h. (
        ground (arith, h.0.0.known_end, ne-eqb_bytes h.0.0.other_end, h.1.0),
        ((h.0.0.all_fields, NoRepeat-Fresh_nil a.requires h.0.0.unrepeated), (h.0.1, h.1.1)),
      ))
      (Decides-step
        (Decides-guard
          (has_name a.to_key keys && not (eqb_bytes a.to_key from) && not (has_name a.to_key seen))
          bad_target)
        (Decides-step (check_required-Decides known [] a.requires)
          (check_targets-Decides keys known from (a.to_key ∷ seen) arcs)))

-- The arcs of a status of the draft, to different statuses.
pub record IsFrom (keys known : List Bytes) (row : Bytes × List Arc) : Type 0 where
  pub known_start : has_name row.0 keys ≡ true
  pub arcs : All (IsArc keys known row.0) row.1
  pub different : NoRepeat (map (λ a. a.to_key) row.1)

pub check_transitions-Decides :
    (keys known : List Bytes) (rows : List (Bytes × List Arc))
    → Decides (All (IsFrom keys known) rows) (check_transitions keys known rows)
unfolding check_transitions
check_transitions-Decides keys known [] = accepted tt
check_transitions-Decides keys known ((from, targets) ∷ rows) =
    Decides-map
      (λ h. (
        record {
          known_start = h.0;
          arcs = h.1.0.0;
          different = (Fresh-NoRepeat [] (map (λ a. a.to_key) targets) h.1.0.1).1;
        },
        h.1.1,
      ))
      (λ h. (
        h.0.known_start,
        ((h.0.arcs, NoRepeat-Fresh_nil (map (λ a. a.to_key) targets) h.0.different), h.1),
      ))
      (Decides-step (Decides-guard (has_name from keys) bad_start) (
        Decides-step (check_targets-Decides keys known from [] targets)
          (check_transitions-Decides keys known rows)))
