-- ===== src/Sxq/Projects.antt =====
-- internal/sxq/parser.go: the projects that a query is narrowed to.
pub mod Narrowing
use sierx.Prelude.{
  ℕ, zero, suc, ◌+◌, ◌≡◌, ◌≢◌, refl, ◌⊎◌, inl, inr, Bool, true, false, ◌&&◌, ◌||◌, Option, none,
  some, List, [], ◌∷◌, ◌++◌, arith, Bytes, codes, if◌then◌else◌, Bool-cases, eqb_bytes,
  eq_of_eqb_bytes,
}
use sierx.Sxq.Syntax.{
  Literal, absent, text, number, boolean, Value, Expr, expr, ExprRef, no_expr, ref, Query,
}
use sierx.Sxq.Values.{spelled}

-- The texts of the values, and nothing if one of them is no text.
abbrev add_key : Literal → Option (List Bytes) → Option (List Bytes)
add_key (text k) (some keys) = some (k ∷ keys)
add_key l keys = none

unfoldable pub text_keys : List Value → Option (List Bytes)
text_keys [] = some []
text_keys (v ∷ vs) = add_key v.literal (text_keys vs)

abbrev keys_of : Option (List Bytes) → List Bytes
keys_of none = []
keys_of (some keys) = keys

unfoldable pub and_keys : List Bytes → List Bytes → List Bytes
and_keys [] b = b
and_keys (k ∷ a) b = k ∷ a

unfoldable pub or_keys : List Bytes → List Bytes → List Bytes
or_keys [] b = []
or_keys (k ∷ a) [] = []
or_keys (k ∷ a) (l ∷ b) = k ∷ a ++ l ∷ b

unfoldable pub comparison_keys : Bytes → Bytes → List Value → List Bytes
comparison_keys op field vs =
    if spelled field "project" && (spelled op "=" || spelled op "in")
    then keys_of (text_keys vs)
    else []

unfoldable mutual
  pub project_keys : ExprRef → List Bytes
  project_keys no_expr = []
  project_keys (ref e) = expr_keys e

  pub expr_keys : Expr → List Bytes
  expr_keys (expr op field vs l r) =
      if spelled op "and"
      then and_keys (project_keys l) (project_keys r)
      else if spelled op "or"
      then or_keys (project_keys l) (project_keys r)
      else comparison_keys op field vs
