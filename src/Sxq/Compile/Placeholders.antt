-- ===== src/Sxq/Compile/Placeholders.antt =====
-- The placeholders of the SQL that internal/sxq/compile.go makes.
use sierx.Prelude.{
  ℕ, ◌+◌, ◌-◌, ◌≤◌, ◌≡◌, refl, sym, ap, ◌∙◌, Bool, true, false, not, Option, none, some, List, [],
  ◌∷◌, ◌++◌, append-nil, ◌⊎◌, inl, inr, String, Bytes, codes, arith, if◌then◌else◌, eqb_bytes,
  length, length-append, count_up, count_up-add, Bool-cases,
}
use sierx.Prelude.Int.{ℤ}
use sierx.Sxq.Syntax.{Value}
use sierx.Sxq.Values.{spelled}
use sierx.Sxq.Compile.{
  Piece, sql, placeholder, Arg, text_arg, Field, CustomField, Options, CompileError, Compiler,
  and_then, txt, find, fields, start_of, sort_strings, project_ids, cast_of,
}
use sierx.Sxq.Compile.Conditions.{
  separated, cast_suffix, param, project_params, custom_field, field, literal_arg, value,
  value_params, extracted, cast_field, in_projects, named_field, some_arg,
}

-- The numbers of the placeholders, in order.
abbrev pub numbers : List Piece → List ℕ
numbers [] = []
numbers (sql s ∷ ps) = numbers ps
numbers (placeholder n ∷ ps) = n ∷ numbers ps

abbrev pub all_numbers : List (List Piece) → List ℕ
all_numbers [] = []
all_numbers (p ∷ ps) = numbers p ++ all_numbers ps

pub numbers-append : (p q : List Piece) → numbers (p ++ q) ≡ numbers p ++ numbers q
numbers-append [] q = refl
numbers-append (sql s ∷ p) q = numbers-append p q
numbers-append (placeholder n ∷ p) q = ap (λ ns. n ∷ ns) (numbers-append p q)

-- Text behind a condition has no placeholder.
pub numbers_text : (p : List Piece) (s : Bytes) → numbers (p ++ sql s ∷ []) ≡ numbers p
numbers_text p s = numbers-append p (sql s ∷ []) ∙ append-nil (numbers p)

pub numbers-separated : (ps : List (List Piece)) → numbers (separated ps) ≡ all_numbers ps
numbers-separated [] = refl
numbers-separated (p ∷ []) = sym (append-nil (numbers p))
numbers-separated (p ∷ q ∷ ps) =
    numbers-append (p ++ txt ",") (separated (q ∷ ps))
    ∙ ap (λ ns. ns ++ numbers (separated (q ∷ ps))) (numbers_text p (codes ","))
    ∙ ap (λ ns. numbers p ++ ns) (numbers-separated (q ∷ ps))

-- If the compiler does not refuse, `P` holds of its result and arguments.
pub data Yields {A : Type 0} (P : A → List Arg → Type 0)
    : CompileError ⊎ (A × List Arg) → Type 0 where
  yielded : {a : A} {args : List Arg} → P a args → Yields P (inr (a, args))
  refused : {e : CompileError} → Yields P (inl e)

pub Yields-and_then :
    {A B : Type 0} {P : B → List Arg → Type 0} {Q : A → List Arg → Type 0}
    {r : CompileError ⊎ (A × List Arg)} {f : A → List Arg → CompileError ⊎ (B × List Arg)}
    → Yields Q r
    → ((a : A) (args : List Arg) → Q a args → Yields P (f a args))
    → Yields P (and_then r f)
Yields-and_then (yielded {a} {args} h) k = k a args h
Yields-and_then refused k = refused

pub Yields-if :
    {A : Type 0} {P : A → List Arg → Type 0} (b : Bool) (m n : Compiler A) (args : List Arg)
    → (b ≡ true → Yields P (m args))
    → (b ≡ false → Yields P (n args))
    → Yields P ((if b then m else n) args)
Yields-if true m n args hm hn = hm refl
Yields-if false m n args hm hn = hn refl

module _ (start : ℕ) where
  -- The numbers belong to the arguments from one count to another.
  pub record Numbered (from : ℕ) (ns : List ℕ) (to : ℕ) : Type 0 where
    pub grows : from ≤ to
    pub counted : ns ≡ count_up (start + from) (to - from)

  pub Numbered-none : (n : ℕ) → Numbered n [] n
  Numbered-none n =
      let same : n - n ≡ 0 = omega arith in record { grows = omega arith; counted = rw same refl }

  pub Numbered-append :
      (a b c : ℕ) (xs ys : List ℕ) → Numbered a xs b → Numbered b ys c → Numbered a (xs ++ ys) c
  Numbered-append a b c xs ys h k =
      let split : c - a ≡ (b - a) + (c - b) = omega (arith, h.grows, k.grows) in
      let shift : start + a + (b - a) ≡ start + b = omega (arith, h.grows) in
      record {
        grows = omega (arith, h.grows, k.grows);
        counted =
            rw (h.counted, k.counted, split, count_up-add (start + a) (b - a) (c - b), shift) refl;
      }

pub numbers_joined :
    (a b : List Piece) (mid : String)
    → numbers (txt "(" ++ a ++ txt mid ++ b ++ txt ")") ≡ numbers a ++ numbers b
numbers_joined a b mid = simp (numbers-append, append-nil) refl

pub numbers_not : (a : List Piece) → numbers (txt "(NOT " ++ a ++ txt ")") ≡ numbers a
numbers_not a = simp (numbers-append, append-nil) refl

-- Whether a table of fields has no placeholder.
abbrev plain_table : List (Bytes × Field) → Bool
plain_table [] = true
plain_table (e ∷ es) = elim (numbers e.1.column) [ [] ↦ plain_table es | ◌∷◌ n ns ↦ false ]

plain_cons :
    (e : Bytes × Field) (es : List (Bytes × Field)) (ns : List ℕ)
    → numbers e.1.column ≡ ns
    → plain_table (e ∷ es) ≡ true
    → (numbers e.1.column ≡ []) × (plain_table es ≡ true)
plain_cons e es [] q t = (q, ground (arith, q))
plain_cons e es (n ∷ ns) q t = absurd (ground (arith, q))

same_field : (f g : Field) → some g ≡ some f → g ≡ f
same_field f g h = cc

find_plain :
    (es : List (Bytes × Field)) (name : Bytes) (f : Field)
    → plain_table es ≡ true
    → find es name ≡ some f
    → numbers f.column ≡ []
unfolding find
find_plain [] name f t h = cc
find_plain (e ∷ es) name f t h =
    let (plain, rest) = plain_cons e es (numbers e.1.column) refl t in
    elim (Bool-cases (eqb_bytes e.0 name)) [
      | inl same ↦ ap (λ x. numbers x.column) (same_field e.1 f (ground (arith, same))) ∙ plain
      | inr other ↦ find_plain es name f rest (ground (arith, other))
    ]

fields_plain : plain_table fields ≡ true
unfolding fields
fields_plain = refl

module _ (valid_uuid valid_date valid_timestamp : Bytes → Bool) (now_date now_timestamp : ℤ → Bytes)
    (options : Options) where
  abbrev pub first : ℕ
  first = start_of options.start

  -- The placeholders of a result belong to the arguments that it has added.
  abbrev pub Adds : {A : Type 0} → (A → List ℕ) → List Arg → CompileError ⊎ (A × List Arg) → Type 0
  Adds ns args r = Yields (λ a args'. Numbered first (length args) (ns a) (length args')) r

  pub param-Adds :
      (a : Arg) (args : List Arg)
      → Adds numbers args
          (param valid_uuid valid_date valid_timestamp now_date now_timestamp options a args)
  unfolding param
  param-Adds a args =
      let len : length (args ++ a ∷ []) ≡ length args + 1 = length-append args (a ∷ []) in
      let one : length (args ++ a ∷ []) - length args ≡ 1 = omega (arith, len) in
      yielded (record { grows = omega (arith, len); counted = rw one refl })

  project_params-Adds :
      (ids : List Bytes) (args : List Arg)
      → Adds all_numbers args (
          project_params valid_uuid valid_date valid_timestamp now_date now_timestamp options ids
            args)
  unfolding project_params
  project_params-Adds [] args = yielded (Numbered-none first (length args))
  project_params-Adds (id ∷ ids) args =
      Yields-and_then (param-Adds (text_arg id) args) λ p args1 h1.
        Yields-and_then (project_params-Adds ids args1) λ ps args2 h2. yielded (
          rw (numbers_text p (codes "::uuid")) (
            Numbered-append first (length args) (length args1) (length args2) (numbers p)
              (all_numbers ps) h1 h2))

  some_arg-Adds :
      (a : Option Arg) (args : List Arg)
      → Adds
          (λ a. [])
          args
          (some_arg valid_uuid valid_date valid_timestamp now_date now_timestamp options a args)
  some_arg-Adds none args = refused
  some_arg-Adds (some a) args = yielded (Numbered-none first (length args))

  pub value-Adds :
      (v : Value) (kind : Bytes) (args : List Arg)
      → Adds
          (λ a. [])
          args
          (value valid_uuid valid_date valid_timestamp now_date now_timestamp options v kind args)
  unfolding value
  value-Adds v kind args =
      let none_added = Numbered-none first (length args) in
      Yields-if (spelled v.function "me") _ _ args
        (λ _.
          Yields-if (not (spelled kind "uuid")) _ _ args (λ _. refused)
            λ _.
              Yields-if (valid_uuid options.user_id) _ _ args (λ _. yielded none_added)
                λ _. refused)
        λ _.
          Yields-if (spelled v.function "now") _ _ args
            (λ _.
              Yields-if (spelled kind "date") _ _ args (λ _. yielded none_added)
                λ _.
                  Yields-if (spelled kind "timestamp") _ _ args (λ _. yielded none_added)
                    λ _. refused)
            λ _.
              some_arg-Adds
                (literal_arg valid_uuid valid_date valid_timestamp now_date now_timestamp options
                  kind v.literal)
                args

  pub cast_suffix_plain :
      (p : List Piece) (kind : Bytes) → numbers (p ++ cast_suffix kind) ≡ numbers p
  unfolding cast_suffix
  cast_suffix_plain p kind =
      by_kind (spelled kind "number") (spelled kind "date") (spelled kind "timestamp")
        (spelled kind "uuid")
    where
      by_kind :
          (a b c d : Bool)
          → numbers (
              p
              ++ (if a
                  then txt "::text::numeric"
                  else if b
                  then txt "::text::date"
                  else if c
                  then txt "::text::timestamptz"
                  else if d
                  then txt "::text::uuid"
                  else []))
            ≡ numbers p
      by_kind true b c d = numbers_text p _
      by_kind false true c d = numbers_text p _
      by_kind false false true d = numbers_text p _
      by_kind false false false true = numbers_text p _
      by_kind false false false false = ap numbers (append-nil p)

  pub value_params-Adds :
      (kind : Bytes) (vs : List Value) (args : List Arg)
      → Adds all_numbers args (
          value_params valid_uuid valid_date valid_timestamp now_date now_timestamp options kind vs
            args)
  unfolding value_params
  value_params-Adds kind [] args = yielded (Numbered-none first (length args))
  value_params-Adds kind (v ∷ vs) args = Yields-and_then (value-Adds v kind args) λ a args1 h1.
      Yields-and_then (param-Adds a args1) λ p args2 h2.
        Yields-and_then (value_params-Adds kind vs args2) λ ps args3 h3. yielded (
          rw (cast_suffix_plain p kind) (
            Numbered-append first (length args) (length args1) (length args3) [] _ h1 (
              Numbered-append first (length args1) (length args2) (length args3) (numbers p)
                (all_numbers ps) h2 h3)))

  abbrev pub field_numbers : Field → List ℕ
  field_numbers f = numbers f.column

  custom_numbers :
      (ps : List (List Piece)) (k : List Piece) (kind cast : Bytes)
      → numbers (
          txt "CASE WHEN i.project_id IN ("
          ++ separated ps
          ++ txt ") THEN "
          ++ extracted valid_uuid valid_date valid_timestamp now_date now_timestamp options kind
              cast k
          ++ txt " ELSE NULL END")
        ≡ all_numbers ps ++ numbers k
  custom_numbers ps k kind cast = by_kind (spelled kind "multiselect")
    where
      by_kind :
          (b : Bool)
          → numbers (
              txt "CASE WHEN i.project_id IN ("
              ++ separated ps
              ++ txt ") THEN "
              ++ (if b
                  then txt "(i.fields -> " ++ k ++ txt "::text)"
                  else txt "(i.fields ->> " ++ k ++ txt "::text)::" ++ sql cast ∷ [])
              ++ txt " ELSE NULL END")
            ≡ all_numbers ps ++ numbers k
      by_kind true = simp (numbers-append, append-nil, numbers-separated) refl
      by_kind false = simp (numbers-append, append-nil, numbers-separated) refl

  cast_field-Adds :
      (kind : Bytes) (ps : List (List Piece)) (k : List Piece) (cast : Option Bytes) (from : ℕ)
      (args : List Arg)
      → Numbered first from (all_numbers ps ++ numbers k) (length args)
      → Yields
          (λ f args'. Numbered first from (field_numbers f) (length args'))
          (cast_field valid_uuid valid_date valid_timestamp now_date now_timestamp options kind ps k
            cast args)
  cast_field-Adds kind ps k none from args h = refused
  cast_field-Adds kind ps k (some cast) from args h = yielded (rw (custom_numbers ps k kind cast) h)

  in_projects-Adds :
      (key kind : Bytes) (ids : Option (List Bytes)) (args : List Arg)
      → Adds field_numbers args (
          in_projects valid_uuid valid_date valid_timestamp now_date now_timestamp options key kind
            ids args)
  in_projects-Adds key kind none args = refused
  in_projects-Adds key kind (some ids) args =
      Yields-and_then (project_params-Adds (sort_strings ids) args) λ ps args1 h1.
        Yields-and_then (param-Adds (text_arg key) args1) λ k args2 h2.
          cast_field-Adds kind ps k (cast_of kind) (length args) args2 (
            Numbered-append first (length args) (length args1) (length args2) (all_numbers ps)
              (numbers k) h1 h2)

  custom_field-Adds :
      (key : Bytes) (ds : Option (List CustomField)) (args : List Arg)
      → Adds field_numbers args (
          custom_field valid_uuid valid_date valid_timestamp now_date now_timestamp options key ds
            args)
  unfolding custom_field
  custom_field-Adds key none args = refused
  custom_field-Adds key (some []) args = refused
  custom_field-Adds key (some (d ∷ ds)) args =
      in_projects-Adds key d.kind (project_ids d.kind (d ∷ ds)) args

  named_field-Adds :
      (key : Option Bytes) (o : Option Field) (name : Bytes) (args : List Arg)
      → find fields name ≡ o
      → Adds field_numbers args (
          named_field valid_uuid valid_date valid_timestamp now_date now_timestamp options key o
            args)
  named_field-Adds key (some f) name args e =
      yielded (rw (find_plain fields name f fields_plain e) (Numbered-none first (length args)))
  named_field-Adds none none name args e = refused
  named_field-Adds (some key) none name args e =
      custom_field-Adds key (find options.custom key) args

  pub field-Adds :
      (name : Bytes) (args : List Arg)
      → Adds field_numbers args
          (field valid_uuid valid_date valid_timestamp now_date now_timestamp options name args)
  unfolding field
  field-Adds name args = named_field-Adds _ (find fields name) name args refl
