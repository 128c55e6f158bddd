-- ===== src/Sxq/Parser/Sound.antt =====
-- The end of the parser of internal/sxq/parser.go, and the queries that it accepts.
use sierx.Prelude.{
  ℕ, zero, suc, ◌+◌, ◌-◌, ◌*◌, ◌<◌, ◌≤◌, ◌≡◌, ◌≢◌, refl, ◌⊎◌, inl, inr, Bool, true, false, not,
  ◌&&◌, ◌||◌, List, [], arith, Bytes, codes, ltb, length, eqb_bytes,
}
use sierx.Sxq.Lexer.{Token, LexResult, lexed, refused, spent, lex}
use sierx.Sxq.Lexer.Sound.{lex_sound, lex-ne-spent}
use sierx.Sxq.Syntax.{Expr, ExprRef, no_expr, ref, Query, canonical}
use sierx.Sxq.Values.{Step, is_blank, peek, is, expected_at}
use sierx.Sxq.Outcomes.{
  Ensures, holds, rejected, Ensures-if, Ensures-elim, Ensures-bind, IsQueryExpr, negated, joined,
}
use sierx.Sxq.Parser.{
  or_expr, or_loop, and_expr, and_loop, unary, ended, direction, ordering, parse_tokens,
  parse_lexed, parse,
}
use sierx.Sxq.Parser.Reading.{HasEnd, is-lt}
use sierx.Sxq.Parser.Comparisons.{comparison-Ensures, nonblank}

-- What a query has: a well-formed expression, if it has one, and a field to order by.
pub record IsQuery (q : Query) : Type 0 where
  pub ordered : q.order ≢ []
  pub rooted : (q.root ≡ no_expr) ⊎ ((e : Expr) × (q.root ≡ ref e) × IsQueryExpr e)

abbrev Rooted : ExprRef → Type 0
Rooted r = (r ≡ no_expr) ⊎ ((e : Expr) × (r ≡ ref e) × IsQueryExpr e)

module _ (is_float : Bytes → Bool) (tokens : List Token) (end : HasEnd tokens) where
  -- A well-formed expression that starts at `at` and is not empty.
  abbrev Reads : ℕ → Step Expr → Type 0
  Reads at r = Ensures (λ e at'. IsQueryExpr e × (at < at')) r

  left : ℕ → ℕ
  left at = 4 * (length tokens - at)

  mutual
    unfolding left or_expr or_loop and_expr and_loop unary expected_at eqb_bytes

    or_expr-Reads :
        (f depth at : ℕ) → left at + 4 ≤ f → Reads at (or_expr is_float tokens f depth at)
    or_expr-Reads zero depth at h = absurd (omega (arith, h))
    or_expr-Reads (suc f) depth at h =
        Ensures-bind (and_expr-Reads f depth at (omega (arith, h)))
          λ e at1 (q, less). or_loop-Reads f depth e at at1 (omega (arith, h, less)) q less

    or_loop-Reads :
        (f depth : ℕ) (e : Expr) (from at : ℕ)
        → left at + 1 ≤ f
        → IsQueryExpr e
        → from < at
        → Reads from (or_loop is_float tokens f depth e at)
    or_loop-Reads zero depth e from at h q less = absurd (omega (arith, h))
    or_loop-Reads (suc f) depth e from at h q less =
        Ensures-elim (is is_float tokens at "or")
          (λ i.
            let before = is-lt is_float tokens end at "or" refl i in
            Ensures-bind (and_expr-Reads f depth (at + 1) (omega (arith, h, before)))
              λ r at1 (q1, less1).
                or_loop-Reads f depth _ from at1 (omega (arith, h, before, less1))
                  (joined (inr refl) q q1) (omega (arith, less, less1)))
          λ _. holds (q, less)

    and_expr-Reads :
        (f depth at : ℕ) → left at + 3 ≤ f → Reads at (and_expr is_float tokens f depth at)
    and_expr-Reads zero depth at h = absurd (omega (arith, h))
    and_expr-Reads (suc f) depth at h =
        Ensures-bind (unary-Reads f depth at (omega (arith, h)))
          λ e at1 (q, less). and_loop-Reads f depth e at at1 (omega (arith, h, less)) q less

    and_loop-Reads :
        (f depth : ℕ) (e : Expr) (from at : ℕ)
        → left at + 1 ≤ f
        → IsQueryExpr e
        → from < at
        → Reads from (and_loop is_float tokens f depth e at)
    and_loop-Reads zero depth e from at h q less = absurd (omega (arith, h))
    and_loop-Reads (suc f) depth e from at h q less =
        Ensures-elim (is is_float tokens at "and")
          (λ i.
            let before = is-lt is_float tokens end at "and" refl i in
            Ensures-bind (unary-Reads f depth (at + 1) (omega (arith, h, before)))
              λ r at1 (q1, less1).
                and_loop-Reads f depth _ from at1 (omega (arith, h, before, less1))
                  (joined (inl refl) q q1) (omega (arith, less, less1)))
          λ _. holds (q, less)

    unary-Reads : (f depth at : ℕ) → left at + 2 ≤ f → Reads at (unary is_float tokens f depth at)
    unary-Reads zero depth at h = absurd (omega (arith, h))
    unary-Reads (suc f) depth at h =
        Ensures-elim (ltb 64 (depth + 1)) (λ _. rejected)
          λ _.
            Ensures-elim (is is_float tokens at "not")
              (λ i.
                let before = is-lt is_float tokens end at "not" refl i in
                Ensures-bind (unary-Reads f (depth + 1) (at + 1) (omega (arith, h, before)))
                  λ e at1 (q, less). holds (negated refl q, omega (arith, less)))
              λ _.
                Ensures-elim (is is_float tokens at "(")
                  (λ i.
                    let before = is-lt is_float tokens end at "(" refl i in
                    Ensures-bind (or_expr-Reads f (depth + 1) (at + 1) (omega (arith, h, before)))
                      λ e at1 (q, less).
                        Ensures-if (is is_float tokens at1 ")")
                          (λ _. holds (q, omega (arith, less))) λ _. rejected)
                  λ _. comparison-Ensures is_float tokens end at

  ended-IsQuery :
      (root : ExprRef) (order : Bytes) (desc : Bool) (at : ℕ)
      → order ≢ []
      → Rooted root
      → Ensures (λ q at'. IsQuery q) (ended is_float tokens root order desc at)
  unfolding ended expected_at
  ended-IsQuery root order desc at ne ok =
      Ensures-if (is_blank (peek is_float tokens at).text)
        (λ _. holds (record { ordered = ne; rooted = ok })) λ _. rejected

  direction-IsQuery :
      (root : ExprRef) (order : Bytes) (at : ℕ)
      → order ≢ []
      → Rooted root
      → Ensures (λ q at'. IsQuery q) (direction is_float tokens root order at)
  unfolding direction
  direction-IsQuery root order at ne ok =
      Ensures-if (is is_float tokens at "desc") (λ _. ended-IsQuery root order true (at + 1) ne ok)
        λ _.
          Ensures-if (is is_float tokens at "asc")
            (λ _. ended-IsQuery root order false (at + 1) ne ok)
            λ _. ended-IsQuery root order false at ne ok

  ordering-IsQuery :
      (root : ExprRef) (at : ℕ)
      → Rooted root
      → Ensures (λ q at'. IsQuery q) (ordering is_float tokens root at)
  unfolding ordering expected_at
  ordering-IsQuery root at ok =
      Ensures-if (not (is is_float tokens at "order"))
        (λ _. ended-IsQuery root (codes "id") false at (λ e. cc) ok)
        λ _.
          Ensures-if (not (is is_float tokens (at + 1) "by")) (λ _. rejected)
            λ _.
              Ensures-if
                ((peek is_float tokens (at + 2)).quoted
                  || is_blank (canonical (peek is_float tokens (at + 2)).text))
                (λ _. rejected) λ e. direction-IsQuery root _ (at + 3) (nonblank _ _ e) ok

  parse_tokens-IsQuery : Ensures (λ q at'. IsQuery q) (parse_tokens is_float tokens)
  unfolding parse_tokens left
  parse_tokens-IsQuery =
      Ensures-if
        (not (is_blank (peek is_float tokens 0).text) && not (is is_float tokens 0 "order"))
        (λ _.
          Ensures-bind (or_expr-Reads (4 * length tokens + 4) 0 0 (omega arith))
            λ e at (q, less). ordering-IsQuery (ref e) at (inr (e, refl, q)))
        λ _. ordering-IsQuery no_expr 0 (inl refl)

parse_lexed-IsQuery :
    (is_float : Bytes → Bool) (input : Bytes) (r : LexResult (List Token))
    → lex input ≡ r
    → Ensures (λ q at. IsQuery q) (parse_lexed is_float r)
unfolding parse_lexed
parse_lexed-IsQuery is_float input (lexed ts) e =
    let (us, split, _, _) = lex_sound input ts e in
    parse_tokens-IsQuery is_float ts (us, _, split, refl)
parse_lexed-IsQuery is_float input (refused er) e = rejected
parse_lexed-IsQuery is_float input spent e = absurd (lex-ne-spent input e)

-- On every input the parser ends, and a query that it accepts is well formed: it has a field to
-- order by; its expression, if any, joins comparisons by and, or and not; a comparison has a field,
-- one of the twelve operators, and one value or, behind in and not in, from one to 200; a value is
-- a literal or me() or now(), and an offset, which only now() has, is less than 2^63.
pub parse-IsQuery :
    (is_float : Bytes → Bool) (input : Bytes) → Ensures (λ q at. IsQuery q) (parse is_float input)
unfolding parse
parse-IsQuery is_float input = parse_lexed-IsQuery is_float input (lex input) refl
