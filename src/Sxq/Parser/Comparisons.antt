-- ===== src/Sxq/Parser/Comparisons.antt =====
-- The comparisons that internal/sxq/parser.go reads.
use sierx.Prelude.{
  ℕ, zero, suc, ◌+◌, ◌<◌, ◌≤◌, ◌≡◌, ◌≢◌, refl, Bool, true, false, not, ◌||◌, List, [], ◌∷◌, ◌++◌,
  arith, Bytes, codes, ltb, length, length-append, All, All-append, eqb_bytes,
}
use sierx.Sxq.Lexer.{Token}
use sierx.Sxq.Syntax.{Value, canonical}
use sierx.Sxq.Values.{spelled, is_blank, peek, is, expected_at, value}
use sierx.Sxq.Outcomes.{
  Ensures, holds, rejected, Ensures-if, Ensures-elim, Ensures-bind, Ensures-map, Ensures-of,
  IsValue, IsOperands, OneOf, OneOf-one_of, comparison_operators, is_list_operator, IsQueryExpr,
  compared,
}
use sierx.Sxq.Parser.{plain_operator, value_list, operands, finish, operator, comparison}
use sierx.Sxq.Parser.Reading.{HasEnd, value-Reads, value-ne-stuck, spelled→eq}

pub nonblank : (field : Bytes) (q : Bool) → (q || is_blank field) ≡ false → field ≢ []
nonblank field q e blank = ground arith

module _ (is_float : Bytes → Bool) (tokens : List Token) (end : HasEnd tokens) where
  value-Ensures : (at : ℕ) → Ensures (λ v at'. IsValue v × (at < at')) (value is_float tokens at)
  value-Ensures at =
      Ensures-of (value is_float tokens at) (value-ne-stuck is_float tokens end at)
        (value-Reads is_float tokens end at)

  record ListReads (at : ℕ) (vs : List Value) (at' : ℕ) : Type 0 where
    nonempty : 1 ≤ length vs
    bounded : length vs ≤ 200
    each : All IsValue vs
    further : at < at'

  ListReads-lt :
      (at at1 : ℕ)
      → at < at1
      → (vs : List Value) (at' : ℕ) → ListReads (at1 + 1) vs at'
      → ListReads at vs at'
  ListReads-lt at at1 less vs at' r = record {
    nonempty = r.nonempty;
    bounded = r.bounded;
    each = r.each;
    further = omega (arith, less, r.further);
  }

  value_list-Ensures :
      (f : ℕ) (vs : List Value) (at : ℕ)
      → 200 < length vs + f
      → length vs ≤ 200
      → All IsValue vs
      → Ensures (ListReads at) (value_list is_float tokens f vs at)
  unfolding value_list
  value_list-Ensures zero vs at enough few all = absurd (omega (arith, enough, few))
  value_list-Ensures (suc f) vs at enough few all =
      Ensures-bind (value-Ensures at) λ v at1 (ok, less).
        let len : length (vs ++ v ∷ []) ≡ length vs + 1 = length-append vs (v ∷ []) in
        let all1 : All IsValue (vs ++ v ∷ []) = All-append IsValue vs (v ∷ []) all (ok, tt) in
        Ensures-elim (ltb 200 (length (vs ++ v ∷ []))) (λ e. rejected)
          λ e.
            let few1 : length (vs ++ v ∷ []) ≤ 200 = ground arith in
            Ensures-elim (is is_float tokens at1 ",")
              (λ c. Ensures-map (ListReads-lt at at1 less) (
                value_list-Ensures f (vs ++ v ∷ []) (at1 + 1) (omega (arith, len, enough)) few1
                  all1))
              λ c. holds (record {
                nonempty = omega (arith, len);
                bounded = few1;
                each = all1;
                further = less;
              })

  both_lists :
      (op : Bytes) → (spelled op "in" || spelled op "not in") ≡ true → is_list_operator op ≢ false
  both_lists op h ne = ground arith

  operands-Ensures :
      (op : Bytes) (at : ℕ)
      → Ensures (λ vs at'. IsOperands op vs × (at < at')) (operands is_float tokens op at)
  unfolding operands expected_at
  operands-Ensures op at =
      Ensures-if (spelled op "in" || spelled op "not in")
        (λ e.
          Ensures-if (not (is is_float tokens at "(")) (λ _. rejected)
            λ _.
              Ensures-bind (value_list-Ensures 201 [] (at + 1) (omega arith) (omega arith) tt)
                λ vs at1 r.
                  Ensures-if (is is_float tokens at1 ")")
                    (λ _. holds (
                      record {
                        nonempty = r.nonempty;
                        bounded = r.bounded;
                        scalar = λ ne. absurd (both_lists op e ne);
                        values = r.each;
                      },
                      omega (arith, r.further),
                    ))
                    λ _. rejected)
        λ e. Ensures-bind (value-Ensures at) λ v at1 (ok, less). holds (
          record {
            nonempty = omega arith;
            bounded = omega arith;
            scalar = λ _. refl;
            values = (ok, tt);
          },
          less,
        )

  finish-Ensures :
      (field op : Bytes) (at : ℕ)
      → field ≢ []
      → OneOf comparison_operators op
      → Ensures (λ e at'. IsQueryExpr e × (at < at')) (finish is_float tokens field op at)
  unfolding finish
  finish-Ensures field op at ne ok =
      Ensures-bind (operands-Ensures op at) λ vs at1 (good, less). holds (compared ne ok good, less)

  finish_at :
      (at : ℕ) (field op : Bytes) (k : ℕ)
      → field ≢ []
      → OneOf comparison_operators op
      → at ≤ k
      → Ensures (λ e at'. IsQueryExpr e × (at < at')) (finish is_float tokens field op k)
  finish_at at field op k ne ok le =
      Ensures-map (λ e at' (q, less). (q, omega (arith, le, less)))
        (finish-Ensures field op k ne ok)

  plain_operator-OneOf : (op : Bytes) → plain_operator op ≡ true → OneOf comparison_operators op
  unfolding plain_operator
  plain_operator-OneOf op h = ground (
    arith,
    spelled→eq op "=",
    spelled→eq op "!=",
    spelled→eq op ">",
    spelled→eq op ">=",
    spelled→eq op "<",
    spelled→eq op "<=",
    spelled→eq op "in",
    spelled→eq op "~",
    spelled→eq op ":",
  )

  is_operator_word : (op : Bytes) → spelled op "is" ≡ true → OneOf comparison_operators op
  is_operator_word op h = ground (arith, spelled→eq op "is")

  operator-Ensures :
      (field op : Bytes) (at : ℕ)
      → field ≢ []
      → Ensures (λ e at'. IsQueryExpr e × (at < at')) (operator is_float tokens field op at)
  unfolding operator expected_at eqb_bytes
  operator-Ensures field op at ne =
      Ensures-if (spelled op "not")
        (λ _.
          Ensures-if (is is_float tokens at "in")
            (λ _.
              finish_at at field (codes "not in") (at + 1) ne
                (OneOf-one_of comparison_operators (codes "not in") refl) (omega arith))
            λ _. rejected)
        λ _.
          Ensures-if (spelled op "is")
            (λ e.
              Ensures-if (is is_float tokens at "not")
                (λ _.
                  finish_at at field (codes "is not") (at + 1) ne
                    (OneOf-one_of comparison_operators (codes "is not") refl) (omega arith))
                λ _. finish_at at field op at ne (is_operator_word op e) (omega arith))
            λ _.
              Ensures-if (plain_operator op)
                (λ e. finish_at at field op at ne (plain_operator-OneOf op e) (omega arith))
                λ _. rejected

  pub comparison-Ensures :
      (at : ℕ) → Ensures (λ e at'. IsQueryExpr e × (at < at')) (comparison is_float tokens at)
  unfolding comparison expected_at
  comparison-Ensures at =
      let field = canonical (peek is_float tokens at).text in
      Ensures-if (spelled field "descendants" || spelled field "ancestors") (λ _. rejected)
        λ _.
          Ensures-if ((peek is_float tokens at).quoted || is_blank field) (λ _. rejected)
            λ e.
              Ensures-if (peek is_float tokens (at + 1)).quoted (λ _. rejected)
                λ _.
                  Ensures-map (λ e at' (q, less). (q, omega (arith, less)))
                    (operator-Ensures field (canonical (peek is_float tokens (at + 1)).text)
                      (at + 2) (nonblank field _ e))
