-- ===== src/Sxq/Compile.antt =====
-- internal/sxq/compile.go: from a query to a condition in SQL with numbered placeholders. A condition is a list of
-- pieces; a placeholder is written $n, and its number is kept. The texts that uuid.Parse and time.Parse accept and the texts of
-- now() are arguments; of an error the kind is kept.
pub mod Conditions
pub mod Placeholders
pub mod Covered
pub mod Plans
mod Examples
use sierx.Prelude.{
  ℕ, zero, suc, ◌+◌, ◌-◌, Bool, true, false, not, ◌&&◌, ◌||◌, Option, none, some, List, [], ◌∷◌,
  ◌++◌, ◌⊎◌, inl, inr, String, Bytes, codes, ltb_bytes, ◌==◌, if◌then◌else◌, eqb_bytes, length,
}
use sierx.Prelude.Int.{ℤ, pos, negsuc}
use sierx.Sxq.Syntax.{
  Literal, absent, text, number, boolean, Value, Expr, expr, ExprRef, no_expr, ref, Query,
}
use sierx.Sxq.Values.{spelled, is_blank}

pub data Piece : Type 0 where
  sql : Bytes → Piece
  placeholder : ℕ → Piece

pub data Arg : Type 0 where
  text_arg : Bytes → Arg
  bool_arg : Bool → Arg

pub record Field : Type 0 where
  pub column : List Piece
  pub kind : Bytes

pub record CustomField : Type 0 where
  pub project_id : Bytes
  pub kind : Bytes

pub record Options : Type 0 where
  pub user_id : Bytes
  pub start : ℤ
  pub custom : List (Bytes × List CustomField)

pub record Plan : Type 0 where
  pub condition : List Piece
  pub order_expr : List Piece
  pub order_kind : Bytes
  pub desc : Bool
  pub args : List Arg

pub data CompileError : Type 0 where
  unknown_field different_types unsupported_field no_value full_text_field full_text_value :
      CompileError
  full_text_operator needs_null null_value array_value unsupported_operator : CompileError
  me_field no_user now_field wrong_value unordered_field : CompileError

-- A compiler takes the arguments so far.
abbrev pub Compiler : Type 0 → Type 0
Compiler A = List Arg → CompileError ⊎ (A × List Arg)

abbrev pub give : {A : Type 0} → A → Compiler A
give a args = inr (a, args)

abbrev pub reject : {A : Type 0} → CompileError → Compiler A
reject e args = inl e

abbrev pub and_then :
    {A B : Type 0}
    → CompileError ⊎ (A × List Arg)
    → (A → List Arg → CompileError ⊎ (B × List Arg))
    → CompileError ⊎ (B × List Arg)
and_then (inl e) f = inl e
and_then (inr r) f = f r.0 r.1

infixl 5 ◌>>=◌ ◌>>◌
abbrev pub ◌>>=◌ : {A B : Type 0} → Compiler A → (A → Compiler B) → Compiler B
(m >>= f) args = and_then (m args) f

abbrev pub ◌>>◌ : {A B : Type 0} → Compiler A → Compiler B → Compiler B
(m >> n) args = and_then (m args) (λ a. n)

abbrev pub txt : String → List Piece
txt s = sql (codes s) ∷ []

abbrev pub column_field : String → String → Field
column_field c k = record { column = txt c; kind = codes k }

-- A map lookup; `none` is a missing key.
unfoldable pub find {ℓ} : {A : Type ℓ} → List (Bytes × A) → Bytes → Option A
find [] name = none
find ((key, a) ∷ entries) name = if eqb_bytes key name then some a else find entries name

abbrev pub entry : String → String → String → Bytes × Field
entry name c k = (codes name, column_field c k)

unfoldable pub fields : List (Bytes × Field)
fields =
    entry "id" "i.id" "uuid"
    ∷ entry "key" "i.key" "text"
    ∷ entry "title" "i.title" "text"
    ∷ entry "body" "i.body" "text"
    ∷ entry "rank" "i.rank" "text"
    ∷ entry "project" "p.key_prefix" "text"
    ∷ entry "type" "t.key" "text"
    ∷ entry "type.level" "t.level" "number"
    ∷ entry "status" "s.key" "text"
    ∷ entry "status.category" "s.category" "text"
    ∷ entry "assignee" "i.assignee_id" "uuid"
    ∷ entry "parent" "par.key" "text"
    ∷ entry "points" "i.points" "number"
    ∷ entry "version" "i.version" "number"
    ∷ entry "change_seq" "i.change_seq" "number"
    ∷ entry "config_version" "i.config_version" "number"
    ∷ entry "start_date" "i.start_date" "date"
    ∷ entry "due_date" "i.due_date" "date"
    ∷ entry "created_at" "i.created_at" "timestamp"
    ∷ entry "updated_at" "i.updated_at" "timestamp"
    ∷ entry "deleted_at" "i.deleted_at" "timestamp"
    ∷ entry "rollup.descendant_count" "r.descendant_count" "number"
    ∷ entry "rollup.done_count" "r.done_count" "number"
    ∷ entry "rollup.points_total" "r.points_total" "number"
    ∷ entry "rollup.points_done" "r.points_done" "number"
    ∷ entry "rollup.earliest_start" "r.earliest_start" "date"
    ∷ entry "rollup.latest_due" "r.latest_due" "date"
    ∷ entry "text" "i.search_tsv" "search"
    ∷ []

abbrev pub start_of : ℤ → ℕ
start_of (pos zero) = 1
start_of (pos (suc n)) = suc n
start_of (negsuc n) = 1

-- sort.Strings.
unfoldable pub insert_string : Bytes → List Bytes → List Bytes
insert_string s [] = s ∷ []
insert_string s (t ∷ ts) = elim (ltb_bytes t s) [
  | true ↦ t ∷ insert_string s ts
  | false ↦ s ∷ t ∷ ts
]

unfoldable pub sort_strings : List Bytes → List Bytes
sort_strings [] = []
sort_strings (s ∷ ss) = insert_string s (sort_strings ss)

-- The projects of the definitions, if these are all of one kind.
unfoldable pub project_ids : Bytes → List CustomField → Option (List Bytes)
project_ids kind [] = some []
project_ids kind (d ∷ ds) = elim (project_ids kind ds) [
  | none ↦ none
  | some ids ↦ if eqb_bytes d.kind kind then some (d.project_id ∷ ids) else none
]

abbrev text_entry : String → String → Bytes × Bytes
text_entry a b = (codes a, codes b)

unfoldable pub cast_of : Bytes → Option Bytes
cast_of kind =
    find
      (text_entry "text" "text"
        ∷ text_entry "number" "numeric"
        ∷ text_entry "bool" "boolean"
        ∷ text_entry "date" "date"
        ∷ text_entry "url" "text"
        ∷ text_entry "user" "uuid"
        ∷ text_entry "select" "text"
        ∷ text_entry "multiselect" "jsonb"
        ∷ [])
      kind

-- The kind of a field whose cast is known.
unfoldable pub type_of : Bytes → Bytes
type_of kind =
    if spelled kind "url" || spelled kind "select"
    then codes "text"
    else if spelled kind "user"
    then codes "uuid"
    else if spelled kind "multiselect"
    then codes "array"
    else kind
