-- ===== src/Workflow/Accepted.antt =====
-- The drafts that updateWorkflow of internal/api/workflow.go accepts.
use sierx.Prelude.{
  ◌≤◌, ◌≡◌, refl, inl, inr, Bool, true, not, ◌&&◌, some, List, [], ◌∷◌, Bytes, eqb_bytes,
  eqb_bytes_refl, eq_of_eqb_bytes, map, length, All, leb, ◌==◌, arith, Bool-cases, &&-eq-true,
}
use sierx.Prelude.Int.{ℤ, eqb_ℤ}
use sierx.Prelude.Decides.{Decides, accepted, Decides-guard, Decides-step, Decides-map}
use sierx.Journal.Chain.{eq_of_eqb_ℤ}
use sierx.Projection.Parse.{has_name}
use sierx.Projection.Parse.Collected.{NoRepeat, has_name_cons}
use sierx.Workflow.{
  Status, Draft, Config, Texts, is_status, categories, name_of, check_statuses, find_status,
  is_same, check_retained, known_fields, count_arcs, initial_of, check_initial, keys_of,
  update_workflow, forbidden, wrong_count, bad_status, key_twice, name_twice, bad_category,
  conflict, not_retained, too_many, wrong_types, bad_initial,
}
use sierx.Workflow.Fresh.{Fresh, Fresh-NoRepeat, NoRepeat-Fresh_nil}
use sierx.Workflow.Arcs.{IsFrom, check_transitions-Decides}

pub data Has (old : Status) : List Status → Type 0 where
  here : {s : Status} {rest : List Status} → s ≡ old → Has old (s ∷ rest)
  there : {s : Status} {rest : List Status} → Has old rest → Has old (s ∷ rest)

pub record IsStated (t : Texts) (s : Status) : Type 0 where
  pub named : is_status t s ≡ true
  pub categorized : has_name s.category categories ≡ true

check_statuses-Decides :
    (t : Texts) (keys names : List Bytes) (ss : List Status)
    → Decides
        (All (IsStated t) ss
          × (Fresh keys (map (λ s. s.key) ss) × Fresh names (map (name_of t) ss)))
        (check_statuses t keys names ss)
unfolding check_statuses
check_statuses-Decides t keys names [] = accepted (tt, (tt, tt))
check_statuses-Decides t keys names (s ∷ ss) =
    Decides-map
      (λ h. (
        (record { named = h.0; categorized = h.1.1.1.0 }, h.1.1.1.1.0),
        ((ground (arith, h.1.0), h.1.1.1.1.1.0), (ground (arith, h.1.1.0), h.1.1.1.1.1.1)),
      ))
      (λ h. (
        h.0.0.named,
        (
          ground (arith, h.1.0.0),
          (ground (arith, h.1.1.0), (h.0.0.categorized, (h.0.1, (h.1.0.1, h.1.1.1)))),
        ),
      ))
      (Decides-step (Decides-guard (is_status t s) bad_status) (
        Decides-step (Decides-guard (not (has_name s.key keys)) key_twice) (
          Decides-step (Decides-guard (not (has_name (name_of t s) names)) name_twice) (
            Decides-step (Decides-guard (has_name s.category categories) bad_category)
              (check_statuses-Decides t (s.key ∷ keys) (name_of t s ∷ names) ss)))))

is_same-eq : (s old : Status) → is_same (some s) old ≡ true → s ≡ old
unfolding is_same
is_same-eq s old h =
    let (kn, c) =
      &&-eq-true (eqb_bytes s.key old.key && eqb_bytes s.name old.name)
        (eqb_bytes s.category old.category) h in
    let (k, n) = &&-eq-true (eqb_bytes s.key old.key) (eqb_bytes s.name old.name) kn in
    λ i. record {
      key = eq_of_eqb_bytes s.key old.key k i;
      name = eq_of_eqb_bytes s.name old.name n i;
      category = eq_of_eqb_bytes s.category old.category c i;
    }

is_same_self : (s : Status) → is_same (some s) s ≡ true
unfolding is_same
is_same_self s = rw (eqb_bytes_refl s.key, eqb_bytes_refl s.name, eqb_bytes_refl s.category) refl

found-Has :
    (old : Status) (ss : List Status) → is_same (find_status old.key ss) old ≡ true → Has old ss
unfolding find_status is_same
found-Has old [] h = cc
found-Has old (s ∷ ss) h = elim (Bool-cases (eqb_bytes old.key s.key)) [
  | inl e ↦ here (is_same-eq s old (rw e at h))
  | inr e ↦ there (found-Has old ss (rw e at h))
]

Has-has_name :
    (old : Status) (ss : List Status) → Has old ss → has_name old.key (map (λ s. s.key) ss) ≡ true
Has-has_name old [] h = elim h [ ]
Has-has_name old (s ∷ ss) (here e) =
    rw (← e) (ground (arith, has_name_cons s.key s.key (map (λ x. x.key) ss), eqb_bytes_refl s.key))
Has-has_name old (s ∷ ss) (there h) =
    ground (arith, has_name_cons old.key s.key (map (λ x. x.key) ss), Has-has_name old ss h)

Has-found :
    (old : Status) (ss : List Status)
    → NoRepeat (map (λ s. s.key) ss)
    → Has old ss
    → is_same (find_status old.key ss) old ≡ true
unfolding find_status
Has-found old [] u h = elim h [ ]
Has-found old (s ∷ ss) (n, r) (here e) = rw (← e) (rw (eqb_bytes_refl s.key) (is_same_self s))
Has-found old (s ∷ ss) (n, r) (there h) = elim (Bool-cases (eqb_bytes old.key s.key)) [
  | inr e ↦ rw e (Has-found old ss r h)
  | inl e ↦ absurd (cc (eq_of_eqb_bytes old.key s.key e, Has-has_name old ss h))
]

check_retained-Decides :
    (ss olds : List Status)
    → Decides
        (All (λ old. is_same (find_status old.key ss) old ≡ true) olds)
        (check_retained ss olds)
unfolding check_retained
check_retained-Decides ss [] = accepted tt
check_retained-Decides ss (old ∷ olds) =
    Decides-step (Decides-guard (is_same (find_status old.key ss) old) not_retained)
      (check_retained-Decides ss olds)

check_initial-Decides :
    (keys : List Bytes) (initial : List (Bytes × Bytes)) (types : List Bytes)
    → Decides
        (All (λ k. has_name (initial_of k initial) keys ≡ true) types)
        (check_initial keys initial types)
unfolding check_initial
check_initial-Decides keys initial [] = accepted tt
check_initial-Decides keys initial (k ∷ types) =
    Decides-step (Decides-guard (has_name (initial_of k initial) keys) bad_initial)
      (check_initial-Decides keys initial types)

All-found :
    (ss olds : List Status)
    → All (λ old. is_same (find_status old.key ss) old ≡ true) olds
    → All (λ old. Has old ss) olds
All-found ss [] h = tt
All-found ss (old ∷ olds) (f, h) = (found-Has old ss f, All-found ss olds h)

found-All :
    (ss olds : List Status)
    → NoRepeat (map (λ s. s.key) ss)
    → All (λ old. Has old ss) olds
    → All (λ old. is_same (find_status old.key ss) old ≡ true) olds
found-All ss [] u h = tt
found-All ss (old ∷ olds) u (f, h) = (Has-found old ss u f, found-All ss olds u h)

-- A draft that keeps the statuses of the configuration, with transitions between its statuses.
pub record IsAccepted (t : Texts) (expected : ℤ) (draft : Draft) (current : Config) : Type 0 where
  pub some_statuses : 1 ≤ length draft.statuses
  pub few_statuses : length draft.statuses ≤ 50
  pub stated : All (IsStated t) draft.statuses
  pub different_keys : NoRepeat (keys_of draft)
  pub different_names : NoRepeat (map (name_of t) draft.statuses)
  pub same_version : current.version ≡ expected
  pub retained : All (λ old. Has old draft.statuses) current.statuses
  pub connected : All (IsFrom (keys_of draft) (known_fields current.fields)) draft.transitions
  pub few_arcs : count_arcs draft.transitions ≤ 200
  pub as_many : length draft.initial ≡ length current.types
  pub starts : All (λ k. has_name (initial_of k draft.initial) (keys_of draft) ≡ true) current.types

-- updateWorkflow gets past its checks exactly if the caller is an administrator and the draft is made for the current version,
-- has 1 to 50 statuses with good and different keys and names, among them each of the current ones unchanged, at most 200
-- transitions, each between two of its statuses, once, and requiring known fields, each once, and as many initial statuses
-- as there are types, with one of its statuses for each type.
pub update_workflow-Decides :
    (t : Texts) (admin : Bool) (expected : ℤ) (draft : Draft) (current : Config)
    → Decides
        ((admin ≡ true) × IsAccepted t expected draft current)
        (update_workflow t admin expected draft current)
unfolding update_workflow
update_workflow-Decides t admin expected draft current =
    Decides-map
      (λ (a, (n, ((st, (k, m)), (v, (r, (c, (f, (l, i)))))))). (
        a,
        record {
          some_statuses = ground (arith, n);
          few_statuses = ground (arith, n);
          stated = st;
          different_keys = (Fresh-NoRepeat [] (keys_of draft) k).1;
          different_names = (Fresh-NoRepeat [] (map (name_of t) draft.statuses) m).1;
          same_version = eq_of_eqb_ℤ current.version expected v;
          retained = All-found draft.statuses current.statuses r;
          connected = c;
          few_arcs = ground (arith, f);
          as_many = ground (arith, l);
          starts = i;
        },
      ))
      (λ (a, h). (
        a,
        (
          ground (arith, h.some_statuses, h.few_statuses),
          (
            (
              h.stated,
              (
                NoRepeat-Fresh_nil (keys_of draft) h.different_keys,
                NoRepeat-Fresh_nil (map (name_of t) draft.statuses) h.different_names,
              ),
            ),
            (
              ground (arith, h.same_version),
              (
                found-All draft.statuses current.statuses h.different_keys h.retained,
                (h.connected, (ground (arith, h.few_arcs), (ground (arith, h.as_many), h.starts))),
              ),
            ),
          ),
        ),
      ))
      (Decides-step (Decides-guard admin forbidden) (
        Decides-step
          (Decides-guard (leb 1 (length draft.statuses) && leb (length draft.statuses) 50)
            wrong_count)
          (Decides-step (check_statuses-Decides t [] [] draft.statuses) (
            Decides-step (Decides-guard (eqb_ℤ current.version expected) conflict) (
              Decides-step (check_retained-Decides draft.statuses current.statuses) (
                Decides-step
                  (check_transitions-Decides (keys_of draft) (known_fields current.fields)
                    draft.transitions)
                  (Decides-step (Decides-guard (leb (count_arcs draft.transitions) 200) too_many) (
                    Decides-step
                      (Decides-guard (length draft.initial == length current.types) wrong_types)
                      (check_initial-Decides (keys_of draft) draft.initial current.types)))))))))
