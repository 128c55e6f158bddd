-- ===== src/Sxq/Parser.antt =====
-- internal/sxq/parser.go: recursive descent from tokens to a query.
pub mod Reading
pub mod Comparisons
pub mod Sound
use sierx.Prelude.{
  ℕ, zero, suc, ◌+◌, ◌*◌, Bool, true, false, not, ◌&&◌, ◌||◌, List, [], ◌∷◌, ◌++◌, String, Bytes,
  codes, ltb, if◌then◌else◌, length,
}
use sierx.Sxq.Lexer.{Token, LexResult, lexed, refused, spent, lex}
use sierx.Sxq.Syntax.{Value, Expr, expr, ExprRef, no_expr, ref, Query, canonical}
use sierx.Sxq.Values.{
  ParseError, lexical, not_available, unknown_operator, too_many_values, Step, parsed, failed,
  stuck, bind, is_blank, spelled, peek, is, expected_at, value,
}

-- The operators that stand for themselves.
unfoldable pub plain_operator : Bytes → Bool
plain_operator w =
    spelled w "="
    || spelled w "!="
    || spelled w ">"
    || spelled w ">="
    || spelled w "<"
    || spelled w "<="
    || spelled w "in"
    || spelled w "~"
    || spelled w ":"

module _ (is_float : Bytes → Bool) (tokens : List Token) where
  -- The loop over a list of values, the rounds bounded by `fuel`.
  unfoldable pub value_list : ℕ → List Value → ℕ → Step (List Value)
  value_list zero vs at = stuck
  value_list (suc f) vs at = bind (value is_float tokens at) λ v at1.
      elim (ltb 200 (length (vs ++ v ∷ []))) [
        | true ↦ failed too_many_values
        | false ↦ elim (is is_float tokens at1 ",") [
          | true ↦ value_list f (vs ++ v ∷ []) (at1 + 1)
          | false ↦ parsed (vs ++ v ∷ []) at1
        ]
      ]

  -- What stands behind the operator.
  unfoldable pub operands : Bytes → ℕ → Step (List Value)
  operands op at =
      if spelled op "in" || spelled op "not in"
      then (if not (is is_float tokens at "(")
          then expected_at is_float tokens "a parenthesized list" at
          else bind (value_list 201 [] (at + 1)) λ vs at1.
            if is is_float tokens at1 ")"
            then parsed vs (at1 + 1)
            else expected_at is_float tokens "a closing list parenthesis" at1)
      else bind (value is_float tokens at) λ v at1. parsed (v ∷ []) at1

  unfoldable pub finish : Bytes → Bytes → ℕ → Step Expr
  finish field op at = bind (operands op at) λ vs at1. parsed (expr op field vs no_expr no_expr) at1

  -- The switch on the operator `op`, which stands before `at`.
  unfoldable pub operator : Bytes → Bytes → ℕ → Step Expr
  operator field op at =
      if spelled op "not"
      then (if is is_float tokens at "in"
          then finish field (codes "not in") (at + 1)
          else expected_at is_float tokens "in after not" at)
      else if spelled op "is"
      then (if is is_float tokens at "not"
          then finish field (codes "is not") (at + 1)
          else finish field op at)
      else if plain_operator op
      then finish field op at
      else failed (unknown_operator op)

  unfoldable pub comparison : ℕ → Step Expr
  comparison at =
      let field = canonical (peek is_float tokens at).text in
      if spelled field "descendants" || spelled field "ancestors"
      then failed (not_available field)
      else if (peek is_float tokens at).quoted || is_blank field
      then expected_at is_float tokens "a field name" at
      else if (peek is_float tokens (at + 1)).quoted
      then expected_at is_float tokens "a comparison operator" (at + 1)
      else operator field (canonical (peek is_float tokens (at + 1)).text) (at + 2)

  -- The closing parenthesis.
  abbrev closed : Expr → ℕ → Step Expr
  closed e at =
      if is is_float tokens at ")"
      then parsed e (at + 1)
      else expected_at is_float tokens "a closing parenthesis" at

  abbrev negation : Expr → ℕ → Step Expr
  negation e at = parsed (expr (codes "not") [] [] (ref e) no_expr) at

  abbrev joined : String → Expr → Expr → Expr
  joined op left right = expr (codes op) [] [] (ref left) (ref right)

  -- Each call costs a unit of fuel.
  unfoldable mutual
    pub or_expr : ℕ → ℕ → ℕ → Step Expr
    or_expr zero depth at = stuck
    or_expr (suc f) depth at = bind (and_expr f depth at) λ left at1. or_loop f depth left at1

    pub or_loop : ℕ → ℕ → Expr → ℕ → Step Expr
    or_loop zero depth left at = stuck
    or_loop (suc f) depth left at = elim (is is_float tokens at "or") [
      | true ↦
          bind (and_expr f depth (at + 1)) λ right at1. or_loop f depth (joined "or" left right) at1
      | false ↦ parsed left at
    ]

    pub and_expr : ℕ → ℕ → ℕ → Step Expr
    and_expr zero depth at = stuck
    and_expr (suc f) depth at = bind (unary f depth at) λ left at1. and_loop f depth left at1

    pub and_loop : ℕ → ℕ → Expr → ℕ → Step Expr
    and_loop zero depth left at = stuck
    and_loop (suc f) depth left at = elim (is is_float tokens at "and") [
      | true ↦
          bind (unary f depth (at + 1)) λ right at1. and_loop f depth (joined "and" left right) at1
      | false ↦ parsed left at
    ]

    pub unary : ℕ → ℕ → ℕ → Step Expr
    unary zero depth at = stuck
    unary (suc f) depth at = elim (ltb 64 (depth + 1)) [
      | true ↦ expected_at is_float tokens "less than 64 levels of nesting" at
      | false ↦ elim (is is_float tokens at "not") [
        | true ↦ bind (unary f (depth + 1) (at + 1)) negation
        | false ↦ elim (is is_float tokens at "(") [
          | true ↦ bind (or_expr f (depth + 1) (at + 1)) closed
          | false ↦ comparison at
        ]
      ]
    ]

  -- order by, and what must be the end.
  unfoldable pub ended : ExprRef → Bytes → Bool → ℕ → Step Query
  ended root order desc at =
      if is_blank (peek is_float tokens at).text
      then parsed (record { root = root; order = order; desc = desc }) at
      else expected_at is_float tokens "and, or, or order by" at

  unfoldable pub direction : ExprRef → Bytes → ℕ → Step Query
  direction root order at =
      if is is_float tokens at "desc"
      then ended root order true (at + 1)
      else if is is_float tokens at "asc"
      then ended root order false (at + 1)
      else ended root order false at

  unfoldable pub ordering : ExprRef → ℕ → Step Query
  ordering root at =
      if not (is is_float tokens at "order")
      then ended root (codes "id") false at
      else if not (is is_float tokens (at + 1) "by")
      then expected_at is_float tokens "by after order" (at + 1)
      else if (peek is_float tokens (at + 2)).quoted
          || is_blank (canonical (peek is_float tokens (at + 2)).text)
      then expected_at is_float tokens "an order field" (at + 2)
      else direction root (canonical (peek is_float tokens (at + 2)).text) (at + 3)

  unfoldable pub parse_tokens : Step Query
  parse_tokens =
      if not (is_blank (peek is_float tokens 0).text) && not (is is_float tokens 0 "order")
      then (bind (or_expr (4 * length tokens + 4) 0 0) λ e at. ordering (ref e) at)
      else ordering no_expr 0

-- Parse.
unfoldable pub parse_lexed : (Bytes → Bool) → LexResult (List Token) → Step Query
parse_lexed is_float (lexed tokens) = parse_tokens is_float tokens
parse_lexed is_float (refused e) = failed (lexical e)
parse_lexed is_float spent = stuck

unfoldable pub parse : (Bytes → Bool) → Bytes → Step Query
parse is_float input = parse_lexed is_float (lex input)
