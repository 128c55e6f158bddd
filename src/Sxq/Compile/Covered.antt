-- ===== src/Sxq/Compile/Covered.antt =====
-- Which placeholders the conditions of internal/sxq/compile.go have.
use sierx.Prelude.{
  ℕ, ◌≡◌, refl, sym, ap, ◌∙◌, Bool, true, false, not, ◌&&◌, ◌||◌, Option, none, some, List, [], ◌∷◌,
  ◌++◌, append-nil, ◌⊎◌, inl, inr, String, Bytes, codes, arith, if◌then◌else◌, eqb_bytes, length,
  Bool-cases,
}
use sierx.Prelude.Int.{ℤ}
use sierx.Sxq.Syntax.{
  Literal, absent, text, number, boolean, Value, Expr, expr, ExprRef, no_expr, ref, Query,
}
use sierx.Sxq.Values.{spelled}
use sierx.Sxq.Outcomes.{IsOperands, is_list_operator, IsQueryExpr, compared, negated, joined}
use sierx.Sxq.Parser.Sound.{IsQuery}
use sierx.Sxq.Parser.Reading.{spelled→eq}
use sierx.Sxq.Compile.{
  Piece, sql, Arg, text_arg, Field, Options, CompileError, Compiler, give, ◌>>=◌, txt, find,
}
use sierx.Sxq.Compile.Conditions.{
  operator_sql, cast_suffix, value_params, full_text, null_test, comparison_on, comparison,
  condition_of, expr_condition_of, is_null, document, matched, compared_values, with_operator,
}
use sierx.Sxq.Compile.Placeholders.{
  numbers, all_numbers, numbers-append, numbers-separated, numbers_text, numbers_joined,
  numbers_not, Yields, yielded, refused, Yields-and_then, Yields-if, Numbered, Numbered-none,
  Numbered-append, first, param-Adds, value_params-Adds, value-Adds, cast_suffix_plain, field-Adds,
}

same_text : (a b : Bytes) → some a ≡ some b → a ≡ b
same_text a b h = cc

-- A list of values stands behind one of the two list operators.
list_operator_sql :
    (op o : Bytes)
    → is_list_operator op ≡ true
    → operator_sql op ≡ some o
    → (spelled o "IN" || spelled o "NOT IN") ≡ true
unfolding operator_sql find eqb_bytes
list_operator_sql op o h e = elim (Bool-cases (spelled op "in")) [
  | inl i ↦ in_sql o (sym (ap operator_sql (spelled→eq op "in" i)) ∙ e)
  | inr i ↦ not_in_sql o (sym (ap operator_sql (spelled→eq op "not in" (ground (arith, i)))) ∙ e)
]
  where
    in_sql :
        (o : Bytes)
        → operator_sql (codes "in") ≡ some o
        → (spelled o "IN" || spelled o "NOT IN") ≡ true
    in_sql o e = rw (same_text o (codes "IN") (sym e)) refl

    not_in_sql :
        (o : Bytes)
        → operator_sql (codes "not in") ≡ some o
        → (spelled o "IN" || spelled o "NOT IN") ≡ true
    not_in_sql o e = rw (same_text o (codes "NOT IN") (sym e)) refl

module _ (valid_uuid valid_date valid_timestamp : Bytes → Bool) (now_date now_timestamp : ℤ → Bytes)
    (options : Options) where
  -- The placeholders of the condition belong to the arguments from the count `from` on.
  abbrev Covers : ℕ → CompileError ⊎ (List Piece × List Arg) → Type 0
  Covers from r =
      Yields
        (λ p args'.
          Numbered (first valid_uuid valid_date valid_timestamp now_date now_timestamp options) from
            (numbers p) (length args'))
        r

  numbers-document :
      (name : Bytes) (f : Field)
      → numbers
          (document valid_uuid valid_date valid_timestamp now_date now_timestamp options name f)
        ≡ numbers f.column
  numbers-document name f = by_name (spelled name "text")
    where
      by_name :
          (b : Bool)
          → numbers (
              if b
              then f.column
              else txt "to_tsvector('english',coalesce(" ++ f.column ++ txt ",''))")
            ≡ numbers f.column
      by_name true = refl
      by_name false = numbers_text f.column _

  matched-Covers :
      (name : Bytes) (f : Field) (l : Literal) (from : ℕ) (args : List Arg)
      → Numbered
          (first valid_uuid valid_date valid_timestamp now_date now_timestamp options)
          from
          (numbers f.column)
          (length args)
      → Covers from (
          matched valid_uuid valid_date valid_timestamp now_date now_timestamp options name f l
            args)
  matched-Covers name f absent from args h = refused
  matched-Covers name f (number n) from args h = refused
  matched-Covers name f (boolean b) from args h = refused
  matched-Covers name f (text t) from args h =
      Yields-and_then
        (param-Adds valid_uuid valid_date valid_timestamp now_date now_timestamp options
          (text_arg t) args)
        λ p args1 h1. yielded (
          rw (matched_numbers p) (
            Numbered-append
              (first valid_uuid valid_date valid_timestamp now_date now_timestamp options) from
              (length args) (length args1) (numbers f.column) (numbers p) h h1))
    where
      matched_numbers :
          (p : List Piece)
          → numbers (
              txt "("
              ++ document valid_uuid valid_date valid_timestamp now_date now_timestamp options name
                  f
              ++ txt " @@ plainto_tsquery('english',"
              ++ p
              ++ txt "))")
            ≡ numbers f.column ++ numbers p
      matched_numbers p = simp (numbers-append, append-nil, numbers-document) refl

  full_text-Covers :
      (name : Bytes) (f : Field) (v : Value) (from : ℕ) (args : List Arg)
      → Numbered
          (first valid_uuid valid_date valid_timestamp now_date now_timestamp options)
          from
          (numbers f.column)
          (length args)
      → Covers from (
          full_text valid_uuid valid_date valid_timestamp now_date now_timestamp options name f v
            args)
  unfolding full_text
  full_text-Covers name f v from args h =
      Yields-if
        (not (spelled name "text") && not (spelled name "title") && not (spelled name "body")) _ _
        args (λ _. refused) λ _. matched-Covers name f v.literal from args h

  null_test-Covers :
      (op : Bytes) (f : Field) (from : ℕ) (args : List Arg)
      → Numbered
          (first valid_uuid valid_date valid_timestamp now_date now_timestamp options)
          from
          (numbers f.column)
          (length args)
      → Covers from
          (null_test valid_uuid valid_date valid_timestamp now_date now_timestamp options op f args)
  unfolding null_test
  null_test-Covers op f from args h =
      Yields-if (spelled op "is not" || spelled op "!=") _ _ args
        (λ _. yielded (rw (numbers_text f.column (codes " IS NOT NULL)")) h))
        λ _. yielded (rw (numbers_text f.column (codes " IS NULL)")) h)

  single_numbers :
      (o : Bytes) (f : Field) (p : List Piece)
      → numbers (
          compared_values valid_uuid valid_date valid_timestamp now_date now_timestamp options o f
            (p ∷ []))
        ≡ numbers f.column ++ numbers p
  single_numbers o f p = by_operator (spelled o "IN" || spelled o "NOT IN")
    where
      by_operator :
          (b : Bool)
          → numbers (
              txt "("
              ++ f.column
              ++ txt " "
              ++ sql o ∷ (if b then txt " (" ++ p ++ txt "))" else txt " " ++ p ++ txt ")"))
            ≡ numbers f.column ++ numbers p
      by_operator true = simp (numbers-append, append-nil) refl
      by_operator false = simp (numbers-append, append-nil) refl

  list_numbers :
      (o : Bytes) (f : Field) (ps : List (List Piece))
      → (spelled o "IN" || spelled o "NOT IN") ≡ true
      → numbers (
          compared_values valid_uuid valid_date valid_timestamp now_date now_timestamp options o f
            ps)
        ≡ numbers f.column ++ all_numbers ps
  list_numbers o f ps h = rw h (simp (numbers-append, append-nil, numbers-separated) refl)

  one_param-Yields :
      (v : Value) (kind : Bytes) (args : List Arg)
      → Yields
          (λ ps args'.
            (p : List Piece) × (ps ≡ p ∷ [])
            × Numbered
                (first valid_uuid valid_date valid_timestamp now_date now_timestamp options)
                (length args)
                (numbers p)
                (length args'))
          (value_params valid_uuid valid_date valid_timestamp now_date now_timestamp options kind
            (v ∷ [])
            args)
  unfolding value_params
  one_param-Yields v kind args =
      Yields-and_then
        (value-Adds valid_uuid valid_date valid_timestamp now_date now_timestamp options v kind
          args)
        λ a args1 h1.
          Yields-and_then
            (param-Adds valid_uuid valid_date valid_timestamp now_date now_timestamp options a
              args1)
            λ p args2 h2. yielded (
              p ++ cast_suffix kind,
              refl,
              rw
                  (cast_suffix_plain valid_uuid valid_date valid_timestamp now_date now_timestamp
                    options p kind)
                  (Numbered-append
                    (first valid_uuid valid_date valid_timestamp now_date now_timestamp options)
                    (length args) (length args1) (length args2) [] (numbers p) h1 h2),
            )

  is_list :
      (op : Bytes) (v w : Value) (vs : List Value)
      → IsOperands op (v ∷ w ∷ vs)
      → is_list_operator op ≡ true
  is_list op v w vs ok = elim (Bool-cases (is_list_operator op)) [
    | inl e ↦ e
    | inr e ↦ absurd (omega (arith, ok.scalar e))
  ]

  with_operator-Covers :
      (op : Bytes) (r : Option Bytes) (f : Field) (v : Value) (vs : List Value) (from : ℕ)
      (args : List Arg)
      → operator_sql op ≡ r
      → IsOperands op (v ∷ vs)
      → Numbered
          (first valid_uuid valid_date valid_timestamp now_date now_timestamp options)
          from
          (numbers f.column)
          (length args)
      → Covers from (
          with_operator valid_uuid valid_date valid_timestamp now_date now_timestamp options r f
            (v ∷ vs)
            args)
  unfolding value_params
  with_operator-Covers op none f v vs from args e ok h = refused
  with_operator-Covers op (some o) f v [] from args e ok h =
      Yields-and_then (one_param-Yields v f.kind args) λ ps args1 (p, one, h1). yielded (
        rw (one, single_numbers o f p)
          (Numbered-append
            (first valid_uuid valid_date valid_timestamp now_date now_timestamp options) from
            (length args) (length args1) (numbers f.column) (numbers p) h h1))
  with_operator-Covers op (some o) f v (w ∷ vs) from args e ok h =
      Yields-and_then
        (value_params-Adds valid_uuid valid_date valid_timestamp now_date now_timestamp options
          f.kind (v ∷ w ∷ vs) args)
        λ ps args1 h1. yielded (
          rw (list_numbers o f ps (list_operator_sql op o (is_list op v w vs ok) e)) (
            Numbered-append
              (first valid_uuid valid_date valid_timestamp now_date now_timestamp options) from
              (length args) (length args1) (numbers f.column) (all_numbers ps) h h1))

  comparison-Covers :
      (op name : Bytes) (f : Field) (vs : List Value) (from : ℕ) (args : List Arg)
      → IsOperands op vs
      → Numbered
          (first valid_uuid valid_date valid_timestamp now_date now_timestamp options)
          from
          (numbers f.column)
          (length args)
      → Covers from (
          comparison valid_uuid valid_date valid_timestamp now_date now_timestamp options op name f
            vs args)
  unfolding comparison comparison_on
  comparison-Covers op name f [] from args ok h = refused
  comparison-Covers op name f (v ∷ vs) from args ok h =
      Yields-if (spelled op "~" || spelled op ":") _ _ args
        (λ _. full_text-Covers name f v from args h)
        λ _.
          Yields-if (spelled f.kind "search") _ _ args (λ _. refused)
            λ _.
              Yields-if
                (spelled op "is"
                  || spelled op "is not"
                  || ((spelled op "=" || spelled op "!=") && is_null v))
                _ _ args
                (λ _.
                  Yields-if (is_null v) _ _ args (λ _. null_test-Covers op f from args h)
                    λ _. refused)
                λ _.
                  Yields-if (is_null v) _ _ args (λ _. refused)
                    λ _.
                      Yields-if (spelled f.kind "array") _ _ args (λ _. refused)
                        λ _. with_operator-Covers op (operator_sql op) f v vs from args refl ok h

  -- A condition, from any arguments on.
  abbrev Condition : Compiler (List Piece) → Type 0
  Condition m = (args : List Arg) → Covers (length args) (m args)

  no_expr-Covers :
      Condition
        (condition_of valid_uuid valid_date valid_timestamp now_date now_timestamp options no_expr)
  unfolding condition_of
  no_expr-Covers args = yielded (
      Numbered-none (first valid_uuid valid_date valid_timestamp now_date now_timestamp options)
        (length args))

  two-Covers :
      (l r : ExprRef) (mid : String) (args : List Arg)
      → Condition
          (condition_of valid_uuid valid_date valid_timestamp now_date now_timestamp options l)
      → Condition
          (condition_of valid_uuid valid_date valid_timestamp now_date now_timestamp options r)
      → Covers (length args) (
          (condition_of valid_uuid valid_date valid_timestamp now_date now_timestamp options l
              >>= λ a.
                  condition_of valid_uuid valid_date valid_timestamp now_date now_timestamp options
                    r
                  >>= λ b. give (txt "(" ++ a ++ txt mid ++ b ++ txt ")"))
            args)
  two-Covers l r mid args hl hr = Yields-and_then (hl args) λ a args1 h1.
      Yields-and_then (hr args1) λ b args2 h2. yielded (
        rw (numbers_joined a b mid) (
          Numbered-append
            (first valid_uuid valid_date valid_timestamp now_date now_timestamp options)
            (length args) (length args1) (length args2) (numbers a) (numbers b) h1 h2))

  by_words :
      (op name : Bytes) (vs : List Value) (l r : ExprRef)
      → Condition
          (condition_of valid_uuid valid_date valid_timestamp now_date now_timestamp options l)
      → Condition
          (condition_of valid_uuid valid_date valid_timestamp now_date now_timestamp options r)
      → ((f : Field) (from : ℕ) (args : List Arg)
          → Numbered
              (first valid_uuid valid_date valid_timestamp now_date now_timestamp options)
              from
              (numbers f.column)
              (length args)
          → Covers from (
              comparison valid_uuid valid_date valid_timestamp now_date now_timestamp options op
                name f vs args))
      → Condition (
          expr_condition_of valid_uuid valid_date valid_timestamp now_date now_timestamp options
            (expr op name vs l r))
  unfolding expr_condition_of
  by_words op name vs l r hl hr hc args =
      Yields-if (spelled op "and") _ _ args (λ _. two-Covers l r " AND " args hl hr)
        λ _.
          Yields-if (spelled op "or") _ _ args (λ _. two-Covers l r " OR " args hl hr)
            λ _.
              Yields-if (spelled op "not") _ _ args
                (λ _. Yields-and_then (hl args) λ a args1 h1. yielded (rw (numbers_not a) h1))
                λ _.
                  Yields-and_then
                    (field-Adds valid_uuid valid_date valid_timestamp now_date now_timestamp options
                      name args)
                    λ f args1 h1. hc f (length args) args1 h1

  refused-Covers :
      (op name : Bytes) (f : Field) (from : ℕ) (args : List Arg)
      → Numbered
          (first valid_uuid valid_date valid_timestamp now_date now_timestamp options)
          from
          (numbers f.column)
          (length args)
      → Covers from (
          comparison valid_uuid valid_date valid_timestamp now_date now_timestamp options op name f
            [] args)
  unfolding comparison
  refused-Covers op name f from args h = refused

  ref-Covers :
      (e : Expr)
      → Condition
          (expr_condition_of valid_uuid valid_date valid_timestamp now_date now_timestamp options e)
      → Condition (
          condition_of valid_uuid valid_date valid_timestamp now_date now_timestamp options (ref e))
  unfolding condition_of
  ref-Covers e h args = h args

  expr-Covers :
      (e : Expr)
      → IsQueryExpr e
      → Condition
          (expr_condition_of valid_uuid valid_date valid_timestamp now_date now_timestamp options e)
  expr-Covers e0 (compared {op = op} {field = name} {vs = vs} ne known ok) args =
      by_words op name vs no_expr no_expr no_expr-Covers no_expr-Covers
        (λ f from args1 h. comparison-Covers op name f vs from args1 ok h) args
  expr-Covers e0 (negated {op} {e} w q) args =
      by_words op [] [] (ref e) no_expr (ref-Covers e (expr-Covers e q)) no_expr-Covers
        (refused-Covers op []) args
  expr-Covers e0 (joined {op} {l} {r} w p q) args =
      by_words op [] [] (ref l) (ref r) (ref-Covers l (expr-Covers l p))
        (ref-Covers r (expr-Covers r q)) (refused-Covers op []) args

  pub root-Covers :
      (q : Query)
      → IsQuery q
      → Condition
          (condition_of valid_uuid valid_date valid_timestamp now_date now_timestamp options q.root)
  root-Covers q ok args = elim ok.rooted [
    | inl e ↦ rw e (no_expr-Covers args)
    | inr (e, is_ref, good) ↦ rw is_ref (ref-Covers e (expr-Covers e good) args)
  ]
