-- ===== src/Journal/Examples/Codec.antt =====
-- A codec that stands for encoding/json and crypto in the examples: fields one after the other, each with its length.
use sierx.Prelude.{
  ℕ, zero, suc, ◌+◌, ◌-◌, ◌%◌, ◌≤◌, ◌<◌, ◌≡◌, refl, ap, ◌∙◌, Bool, true, false, Option, none, some,
  List, [], ◌∷◌, ◌++◌, map, Bytes, eqb_bytes, eqb_bytes_refl, length, length-append, All,
  All-append, replicate, append_assoc, arith, if◌then◌else◌,
}
use sierx.Prelude.Int.{ℤ, pos, negsuc}
use sierx.Journal.{Action}

abbrev pub Reader : Type 0 → Type 0
Reader A = Bytes → Option (A × Bytes)

infixl 5 ◌>>=◌
abbrev pub ◌>>=◌ : {A B : Type 0} → Reader A → (A → Reader B) → Reader B
◌>>=◌ r f s = elim (r s) [ none ↦ none | some (a, t) ↦ f a t ]

abbrev pub shifted : Bytes → Bytes
shifted s = map (λ x. x + 32) s

unfoldable pub put_bytes : Bytes → Bytes
put_bytes s = (length s + 32) ∷ shifted s

unfoldable pub take_exact : ℕ → Reader Bytes
take_exact zero s = some ([], s)
take_exact (suc n) [] = none
take_exact (suc n) (x ∷ s) = elim (take_exact n s) [
  | none ↦ none
  | some (a, t) ↦ some ((x - 32) ∷ a, t)
]

unfoldable pub get_bytes : Reader Bytes
unfolding take_exact
get_bytes [] = none
get_bytes (n ∷ s) = take_exact (n - 32) s

unfoldable pub put_int : ℤ → Bytes
put_int (pos n) = 32 ∷ (n + 32) ∷ []
put_int (negsuc n) = 33 ∷ (n + 32) ∷ []

unfoldable pub get_int : Reader ℤ
get_int [] = none
get_int (x ∷ []) = none
get_int (x ∷ n ∷ s) =
    if sierx.Prelude.◌==◌ x 32 then some (pos (n - 32), s) else some (negsuc (n - 32), s)

unfoldable pub put_each : List Bytes → Bytes
unfolding put_bytes
put_each [] = []
put_each (x ∷ xs) = put_bytes x ++ put_each xs

unfoldable pub put_list : List Bytes → Bytes
unfolding put_each
put_list xs = (length xs + 32) ∷ put_each xs

unfoldable pub get_each : ℕ → Reader (List Bytes)
unfolding get_bytes
get_each zero s = some ([], s)
get_each (suc n) s = elim (get_bytes s) [
  | none ↦ none
  | some (a, t) ↦ elim (get_each n t) [ none ↦ none | some (as', u) ↦ some (a ∷ as', u) ]
]

unfoldable pub get_list : Reader (List Bytes)
unfolding get_each
get_list [] = none
get_list (n ∷ s) = get_each (n - 32) s

take_exact-shifted : (s t : Bytes) → take_exact (length s) (shifted s ++ t) ≡ some (s, t)
unfolding take_exact
take_exact-shifted [] t = refl
take_exact-shifted (x ∷ s) t = rw (take_exact-shifted s t) (ground arith)

pub get-put_bytes : (s t : Bytes) → get_bytes (put_bytes s ++ t) ≡ some (s, t)
unfolding get_bytes put_bytes
get-put_bytes s t =
    let e : length s + 32 - 32 ≡ length s = omega arith in rw e (take_exact-shifted s t)

pub get-put_int : (z : ℤ) (t : Bytes) → get_int (put_int z ++ t) ≡ some (z, t)
unfolding get_int put_int
get-put_int (pos n) t = ground arith
get-put_int (negsuc n) t = ground arith

pub get-put_each :
    (xs : List Bytes) (t : Bytes) → get_each (length xs) (put_each xs ++ t) ≡ some (xs, t)
unfolding get_each put_each
get-put_each [] t = refl
get-put_each (x ∷ xs) t =
    rw (append_assoc (put_bytes x) (put_each xs) t)
      (rw (get-put_bytes x (put_each xs ++ t), get-put_each xs t, get_each) refl)

pub get-put_list : (xs : List Bytes) (t : Bytes) → get_list (put_list xs ++ t) ≡ some (xs, t)
unfolding get_list put_list
get-put_list xs t =
    let e : length xs + 32 - 32 ≡ length xs = omega arith in rw e (get-put_each xs t)

unfoldable pub put_action : Action → Bytes
put_action a =
    put_list (
      a.kind ∷ a.case_ref ∷ a.workspace_id ∷ a.target_id ∷ a.replacement_id ∷ a.authority_ref
      ∷ a.review_at ∷ a.cutoff ∷ a.correction ∷ a.at ∷ a.instance_id ∷ a.workspace_origin ∷ [])
    ++ (put_int a.event_seq
        ++ (put_list a.item_ids ++ (put_list a.comment_ids ++ (put_list a.view_ids ++ []))))

unfoldable pub action_of : List Bytes → ℤ → List Bytes → List Bytes → List Bytes → Option Action
action_of (k ∷ ca ∷ w ∷ t ∷ re ∷ au ∷ rv ∷ cu ∷ co ∷ at_ ∷ i ∷ wo ∷ []) n is cs vs = some (record {
  kind = k;
  case_ref = ca;
  workspace_id = w;
  target_id = t;
  replacement_id = re;
  authority_ref = au;
  review_at = rv;
  cutoff = cu;
  correction = co;
  event_seq = n;
  at = at_;
  instance_id = i;
  workspace_origin = wo;
  item_ids = is;
  comment_ids = cs;
  view_ids = vs;
})
action_of _ n is cs vs = none

unfoldable pub get_action : Bytes → Option Action
unfolding get_list get_int action_of
get_action s = elim (get_list s) [
  | none ↦ none
  | some (xs, s1) ↦ elim (get_int s1) [
    | none ↦ none
    | some (n, s2) ↦ elim (get_list s2) [
      | none ↦ none
      | some (is, s3) ↦ elim (get_list s3) [
        | none ↦ none
        | some (cs, s4) ↦ elim (get_list s4) [
          | none ↦ none
          | some (vs, s5) ↦ action_of xs n is cs vs
        ]
      ]
    ]
  ]
]

pub get-put_action : (a : Action) → get_action (put_action a) ≡ some a
unfolding get_action put_action
get-put_action a =
    rw
      (
        get-put_list _ _,
        get-put_int a.event_seq _,
        get-put_list a.item_ids _,
        get-put_list a.comment_ids _,
        get-put_list a.view_ids [],
        get_action,
      )
      refl
