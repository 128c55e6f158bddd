-- ===== src/Sxq/Compile/Conditions.antt =====
-- internal/sxq/compile.go: the fields, values and expressions of a query, and Compile.
use sierx.Prelude.{
  ◌+◌, Bool, false, not, ◌&&◌, ◌||◌, Option, none, some, List, [], ◌∷◌, ◌++◌, ◌⊎◌, inl, inr, Bytes,
  codes, ◌==◌, if◌then◌else◌, length,
}
use sierx.Prelude.Int.{ℤ}
use sierx.Sxq.Syntax.{
  Literal, absent, text, number, boolean, Value, Expr, expr, ExprRef, no_expr, ref, Query,
}
use sierx.Sxq.Values.{spelled, is_blank}
use sierx.Sxq.Compile.{
  Piece, sql, placeholder, Arg, text_arg, bool_arg, Field, CustomField, Options, Plan, CompileError,
  unknown_field, different_types, unsupported_field, no_value, full_text_field, full_text_value,
  full_text_operator, needs_null, null_value, array_value, unsupported_operator, me_field, no_user,
  now_field, wrong_value, unordered_field, Compiler, give, reject, ◌>>=◌, txt, find, fields,
  start_of, sort_strings, project_ids, cast_of, type_of,
}

abbrev pub after_prefix : Bytes → Bytes → Option Bytes
after_prefix [] s = some s
after_prefix (c ∷ p) [] = none
after_prefix (c ∷ p) (d ∷ s) = if c == d then after_prefix p s else none

abbrev pub separated : List (List Piece) → List Piece
separated [] = []
separated (p ∷ []) = p
separated (p ∷ q ∷ ps) = p ++ txt "," ++ separated (q ∷ ps)

-- The SQL operator of a comparison.
unfoldable pub operator_sql : Bytes → Option Bytes
operator_sql op =
    find
      ((codes "=", codes "=")
        ∷ (codes "!=", codes "<>")
        ∷ (codes ">", codes ">")
        ∷ (codes ">=", codes ">=")
        ∷ (codes "<", codes "<")
        ∷ (codes "<=", codes "<=")
        ∷ (codes "in", codes "IN")
        ∷ (codes "not in", codes "NOT IN")
        ∷ [])
      op

unfoldable pub cast_suffix : Bytes → List Piece
cast_suffix kind =
    if spelled kind "number"
    then txt "::text::numeric"
    else if spelled kind "date"
    then txt "::text::date"
    else if spelled kind "timestamp"
    then txt "::text::timestamptz"
    else if spelled kind "uuid"
    then txt "::text::uuid"
    else []

abbrev pub is_null : Value → Bool
is_null v = elim v.literal [
  | absent ↦ is_blank v.function
  | text t ↦ false
  | number n ↦ false
  | boolean b ↦ false
]

module _ (valid_uuid valid_date valid_timestamp : Bytes → Bool) (now_date now_timestamp : ℤ → Bytes)
    (options : Options) where
  unfoldable pub param : Arg → Compiler (List Piece)
  param a args = inr (placeholder (start_of options.start + length args) ∷ [], args ++ a ∷ [])

  unfoldable pub project_params : List Bytes → Compiler (List (List Piece))
  project_params [] = give []
  project_params (id ∷ ids) = do
    p ← param (text_arg id)
    ps ← project_params ids
    give ((p ++ txt "::uuid") ∷ ps)

  -- The value of the key in the JSON of an item.
  abbrev pub extracted : Bytes → Bytes → List Piece → List Piece
  extracted kind cast k =
      if spelled kind "multiselect"
      then txt "(i.fields -> " ++ k ++ txt "::text)"
      else txt "(i.fields ->> " ++ k ++ txt "::text)::" ++ sql cast ∷ []

  abbrev pub cast_field : Bytes → List (List Piece) → List Piece → Option Bytes → Compiler Field
  cast_field kind params k none = reject unsupported_field
  cast_field kind params k (some cast) = give (record {
    column =
        txt "CASE WHEN i.project_id IN ("
        ++ separated params
        ++ txt ") THEN "
        ++ extracted kind cast k
        ++ txt " ELSE NULL END";
    kind = type_of kind;
  })

  abbrev pub in_projects : Bytes → Bytes → Option (List Bytes) → Compiler Field
  in_projects key kind none = reject different_types
  in_projects key kind (some ids) = do
    params ← project_params (sort_strings ids)
    k ← param (text_arg key)
    cast_field kind params k (cast_of kind)

  unfoldable pub custom_field : Bytes → Option (List CustomField) → Compiler Field
  custom_field key none = reject unknown_field
  custom_field key (some []) = reject unknown_field
  custom_field key (some (d ∷ ds)) = in_projects key d.kind (project_ids d.kind (d ∷ ds))

  abbrev pub named_field : Option Bytes → Option Field → Compiler Field
  named_field key (some f) = give f
  named_field none none = reject unknown_field
  named_field (some key) none = custom_field key (find options.custom key)

  unfoldable pub field : Bytes → Compiler Field
  field name = named_field (after_prefix (codes "fields.") name) (find fields name)

  unfoldable pub literal_arg : Bytes → Literal → Option Arg
  literal_arg kind absent = none
  literal_arg kind (number n) = if spelled kind "number" then some (text_arg n) else none
  literal_arg kind (boolean b) = if spelled kind "bool" then some (bool_arg b) else none
  literal_arg kind (text t) =
      if (spelled kind "uuid" && valid_uuid t)
        || spelled kind "text"
        || (spelled kind "date" && valid_date t)
        || (spelled kind "timestamp" && valid_timestamp t)
      then some (text_arg t)
      else none

  abbrev pub some_arg : Option Arg → Compiler Arg
  some_arg none = reject wrong_value
  some_arg (some a) = give a

  unfoldable pub value : Value → Bytes → Compiler Arg
  value v kind =
      if spelled v.function "me"
      then (if not (spelled kind "uuid")
          then reject me_field
          else if valid_uuid options.user_id
          then give (text_arg options.user_id)
          else reject no_user)
      else if spelled v.function "now"
      then (if spelled kind "date"
          then give (text_arg (now_date v.offset))
          else if spelled kind "timestamp"
          then give (text_arg (now_timestamp v.offset))
          else reject now_field)
      else some_arg (literal_arg kind v.literal)

  unfoldable pub value_params : Bytes → List Value → Compiler (List (List Piece))
  value_params kind [] = give []
  value_params kind (v ∷ vs) = do
    a ← value v kind
    p ← param a
    ps ← value_params kind vs
    give ((p ++ cast_suffix kind) ∷ ps)

  abbrev pub document : Bytes → Field → List Piece
  document name f =
      if spelled name "text"
      then f.column
      else txt "to_tsvector('english',coalesce(" ++ f.column ++ txt ",''))"

  abbrev pub matched : Bytes → Field → Literal → Compiler (List Piece)
  matched name f absent = reject full_text_value
  matched name f (number n) = reject full_text_value
  matched name f (boolean b) = reject full_text_value
  matched name f (text t) = do
    p ← param (text_arg t)
    give (txt "(" ++ document name f ++ txt " @@ plainto_tsquery('english'," ++ p ++ txt "))")

  unfoldable pub full_text : Bytes → Field → Value → Compiler (List Piece)
  full_text name f v =
      if not (spelled name "text") && not (spelled name "title") && not (spelled name "body")
      then reject full_text_field
      else matched name f v.literal

  abbrev pub first_piece : List (List Piece) → List Piece
  first_piece [] = []
  first_piece (p ∷ ps) = p

  abbrev pub compared_values : Bytes → Field → List (List Piece) → List Piece
  compared_values op f ps =
      txt "("
      ++ f.column
      ++ txt " "
      ++ sql op
        ∷ (if spelled op "IN" || spelled op "NOT IN"
            then txt " (" ++ separated ps ++ txt "))"
            else txt " " ++ first_piece ps ++ txt ")")

  abbrev pub with_operator : Option Bytes → Field → List Value → Compiler (List Piece)
  with_operator none f vs = reject unsupported_operator
  with_operator (some op) f vs = do ps ← value_params f.kind vs; give (compared_values op f ps)

  unfoldable pub null_test : Bytes → Field → Compiler (List Piece)
  null_test op f =
      if spelled op "is not" || spelled op "!="
      then give (txt "(" ++ f.column ++ txt " IS NOT NULL)")
      else give (txt "(" ++ f.column ++ txt " IS NULL)")

  unfoldable pub comparison_on : Bytes → Bytes → Field → Value → List Value → Compiler (List Piece)
  comparison_on op name f v vs =
      if spelled op "~" || spelled op ":"
      then full_text name f v
      else if spelled f.kind "search"
      then reject full_text_operator
      else if spelled op "is"
          || spelled op "is not"
          || ((spelled op "=" || spelled op "!=") && is_null v)
      then (if is_null v then null_test op f else reject needs_null)
      else if is_null v
      then reject null_value
      else if spelled f.kind "array"
      then reject array_value
      else with_operator (operator_sql op) f (v ∷ vs)

  unfoldable pub comparison : Bytes → Bytes → Field → List Value → Compiler (List Piece)
  comparison op name f [] = reject no_value
  comparison op name f (v ∷ vs) = comparison_on op name f v vs

  unfoldable mutual
    pub condition_of : ExprRef → Compiler (List Piece)
    condition_of no_expr args = inr (txt "TRUE", args)
    condition_of (ref e) args = expr_condition_of e args

    pub expr_condition_of : Expr → Compiler (List Piece)
    expr_condition_of (expr op name vs l r) =
        if spelled op "and"
        then (do
          a ← condition_of l
          b ← condition_of r
          give (txt "(" ++ a ++ txt " AND " ++ b ++ txt ")"))
        else if spelled op "or"
        then (do
          a ← condition_of l
          b ← condition_of r
          give (txt "(" ++ a ++ txt " OR " ++ b ++ txt ")"))
        else if spelled op "not"
        then (do a ← condition_of l; give (txt "(NOT " ++ a ++ txt ")"))
        else (do f ← field name; comparison op name f vs)

  -- The plan, with the arguments that the condition and the order have collected.
  abbrev pub planned : Query → List Piece → Field → Compiler Plan
  planned q cond order args =
      if spelled order.kind "search" || spelled order.kind "array"
      then inl unordered_field
      else inr (
        record {
          condition = cond;
          order_expr = order.column;
          order_kind = order.kind;
          desc = q.desc;
          args = args;
        },
        args,
      )

  unfoldable pub compile : Query → CompileError ⊎ (Plan × List Arg)
  compile q = (do cond ← condition_of q.root; order ← field q.order; planned q cond order) []
