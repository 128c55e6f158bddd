-- ===== src/Projection/Parse/Collected.antt =====
-- The first loop of Parse of internal/api/projection/registry.go.
use sierx.Prelude.{
  ℕ, ◌≡◌, refl, inl, inr, true, false, ◌||◌, List, [], ◌∷◌, ◌++◌, Bytes, eqb_bytes, eqb_bytes_refl,
  eqb_bytes_comm, All, All-append, arith, Bool-cases, ap,
}
use sierx.Prelude.Results.{Result, ok, err}
use sierx.Projection.Parse.{has_name, collect_names, FieldsError, unknown_field, nearest_name}

abbrev pub NoRepeat : List Bytes → Type 0
NoRepeat [] = Unit
NoRepeat (x ∷ xs) = (has_name x xs ≡ false) × NoRepeat xs

pub has_name-append :
    (x : Bytes) (xs ys : List Bytes) → has_name x (xs ++ ys) ≡ (has_name x xs || has_name x ys)
unfolding has_name
has_name-append x [] ys = refl
has_name-append x (y ∷ xs) ys = ground (arith, has_name-append x xs ys)

pub has_name_self : (x : Bytes) (xs : List Bytes) → has_name x (x ∷ xs) ≡ true
unfolding has_name
has_name_self x xs = rw (eqb_bytes_refl x) refl

pub has_name_cons :
    (x y : Bytes) (xs : List Bytes) → has_name x (y ∷ xs) ≡ (eqb_bytes x y || has_name x xs)
unfolding has_name
has_name_cons x y xs = refl

pub has_name_nil : (x : Bytes) → has_name x [] ≡ false
unfolding has_name
has_name_nil x = refl

NoRepeat-append :
    (xs : List Bytes) (y : Bytes) → NoRepeat xs → has_name y xs ≡ false → NoRepeat (xs ++ y ∷ [])
NoRepeat-append [] y h ne = (has_name_nil y, tt)
NoRepeat-append (x ∷ xs) y (new, h) ne = (
  ground (
    arith,
    has_name-append x xs (y ∷ []),
    has_name_cons x y [],
    has_name_nil x,
    has_name_cons y x xs,
    eqb_bytes_comm x y,
  ),
  NoRepeat-append xs y h (ground (arith, has_name_cons y x xs)),
)

-- What the first loop has.
pub record IsCollected (trim : Bytes → Bytes) (valid out raws res : List Bytes) : Type 0 where
  pub kept : (x : Bytes) → has_name x out ≡ true → has_name x res ≡ true
  pub taken : All (λ raw. has_name (trim raw) res ≡ true) raws
  pub allowed : All (λ f. has_name f valid ≡ true) res
  pub unrepeated : NoRepeat res

-- The first unknown name of a request, and what is said of it.
pub record IsRefused (trim : Bytes → Bytes) (runes : Bytes → List ℕ) (valid raws : List Bytes)
    (e : FieldsError) : Type 0 where
  pub before : List Bytes
  pub raw : Bytes
  pub after : List Bytes
  pub parts : raws ≡ before ++ raw ∷ after
  pub all_known : All (λ r. has_name (trim r) valid ≡ true) before
  pub not_known : has_name (trim raw) valid ≡ false
  pub said : e ≡ unknown_field (trim raw) (nearest_name runes (trim raw) valid)

module _ (trim : Bytes → Bytes) (runes : Bytes → List ℕ) (valid : List Bytes) where
  pub data Collected (out raws : List Bytes) : Result FieldsError (List Bytes) → Type 0 where
    collected :
        {res : List Bytes} → IsCollected trim valid out raws res → Collected out raws (ok res)
    refused : {e : FieldsError} → IsRefused trim runes valid raws e → Collected out raws (err e)

  IsRefused-cons :
      (raw : Bytes) (raws : List Bytes) {e : FieldsError}
      → has_name (trim raw) valid ≡ true
      → IsRefused trim runes valid raws e
      → IsRefused trim runes valid (raw ∷ raws) e
  IsRefused-cons raw raws known k = record {
    before = raw ∷ k.before;
    raw = k.raw;
    after = k.after;
    parts = ap (λ x. raw ∷ x) k.parts;
    all_known = (known, k.all_known);
    not_known = k.not_known;
    said = k.said;
  }

  step_seen :
      (out : List Bytes) (raw : Bytes) (raws : List Bytes) {r : Result FieldsError (List Bytes)}
      → has_name (trim raw) valid ≡ true
      → has_name (trim raw) out ≡ true
      → Collected out raws r
      → Collected out (raw ∷ raws) r
  step_seen out raw raws known seen (refused k) = refused (IsRefused-cons raw raws known k)
  step_seen out raw raws known seen (collected k) = collected (record {
    kept = k.kept;
    taken = (k.kept (trim raw) seen, k.taken);
    allowed = k.allowed;
    unrepeated = k.unrepeated;
  })

  step_new :
      (out : List Bytes) (raw : Bytes) (raws : List Bytes) {r : Result FieldsError (List Bytes)}
      → has_name (trim raw) valid ≡ true
      → Collected (out ++ trim raw ∷ []) raws r
      → Collected out (raw ∷ raws) r
  step_new out raw raws known (refused k) = refused (IsRefused-cons raw raws known k)
  step_new out raw raws known (collected k) = collected (record {
    kept = λ x e. k.kept x (ground (arith, has_name-append x out (trim raw ∷ [])));
    taken = (
      k.kept (trim raw) (
          ground
            (arith, has_name-append (trim raw) out (trim raw ∷ []), has_name_self (trim raw) [])),
      k.taken,
    );
    allowed = k.allowed;
    unrepeated = k.unrepeated;
  })

  pub collect_names-Collected :
      (out raws : List Bytes)
      → All (λ f. has_name f valid ≡ true) out
      → NoRepeat out
      → Collected out raws (collect_names trim runes valid out raws)
  unfolding collect_names
  collect_names-Collected out [] a n =
      collected (record { kept = λ x e. e; taken = tt; allowed = a; unrepeated = n })
  collect_names-Collected out (raw ∷ raws) a n = elim (Bool-cases (has_name (trim raw) valid)) [
    | inr unknown ↦ rw unknown (
        refused (record {
          before = [];
          raw = raw;
          after = raws;
          parts = refl;
          all_known = tt;
          not_known = unknown;
          said = refl;
        }))
    | inl known ↦ elim (Bool-cases (has_name (trim raw) out)) [
      | inl seen ↦
          rw (known, seen)
            (step_seen out raw raws known seen (collect_names-Collected out raws a n))
      | inr new ↦
          rw (known, new)
            (step_new out raw raws known (
              collect_names-Collected (out ++ trim raw ∷ []) raws
                (All-append _ out (trim raw ∷ []) a (known, tt))
                (NoRepeat-append out (trim raw) n new)))
    ]
  ]
