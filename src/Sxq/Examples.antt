-- ===== src/Sxq/Examples.antt =====
-- Tests of internal/sxq, and the theorems on it at concrete inputs.
use sierx.Prelude.{
  Bool, Bytes, ◌≡◌, ◌≢◌, refl, ap, inl, ◌||◌, if◌then◌else◌, Option, some, none, eqb_bytes,
  eq_of_eqb_bytes, true, false, inr, List, [], ◌∷◌, ◌++◌, arith, codes, length, All,
}
use sierx.Sxq.Utf8.{valid_utf8}
use sierx.Sxq.Syntax.{
  Query, Literal, absent, text, number, boolean, Value, literal_value, Expr, expr, ref, no_expr,
  canonical,
}
use sierx.Sxq.Values.{spelled, parsed, peek, is, value, bare_value, word_value, contains_any}
use sierx.Sxq.Parser.{
  parse, parse_lexed, parse_tokens, or_expr, comparison, operator, operands, finish, value_list,
  plain_operator, ordering, direction, ended,
}
use sierx.Sxq.Lexer.{contains_byte, Token, token, lexed, refused, spent, use_not_equal, lex}
use sierx.Sxq.Lexer.Tokens.{IsToken, Positions}
use sierx.Sxq.Outcomes.{Ensures, OneOf}
use sierx.Sxq.Projects.{project_keys, expr_keys, and_keys, comparison_keys, text_keys}
use sierx.Sxq.Projects.Narrowing.{HasText, condition, expr_condition, project_keys_narrow}
use sierx.Sxq.Parser.Sound.{IsQuery, parse-IsQuery}
use sierx.Sxq.Lexer.Sound.{lex-ne-spent, lex_sound}
use sierx.Sxq.Lexer.Quoting.{quote_text, lex-quote_text}

euro_sign : valid_utf8 (0xE2 ∷ 0x82 ∷ 0xAC ∷ []) ≡ true
unfolding valid_utf8
euro_sign = refl

surrogate : valid_utf8 (0xED ∷ 0xA0 ∷ 0x80 ∷ []) ≡ false
unfolding valid_utf8
surrogate = refl

one_condition :
    lex (codes "a!= 'x\\'y'")
    ≡ lexed (
        token (codes "a") false 0
        ∷ token (codes "!=") false 1
        ∷ token (codes "x'y") true 4
        ∷ token [] false 10
        ∷ [])
unfolding lex
one_condition = refl

lone_bang : lex (codes "a ! b") ≡ refused (use_not_equal 2)
unfolding lex
lone_bang = refl

lex-ne-spent_example : lex (codes "a = 'b") ≢ spent
lex-ne-spent_example = lex-ne-spent (codes "a = 'b")

lex_sound_example :
    (us : List Token) × (token (codes "a") false 0
        ∷ token (codes "!=") false 1
        ∷ token (codes "x'y") true 4
        ∷ token [] false 10
        ∷ []
      ≡ us ++ token [] false 10 ∷ [])
    × All (IsToken (codes "a!= 'x\\'y'")) us
    × Positions 0 us 10
lex_sound_example = lex_sound (codes "a!= 'x\\'y'") _ one_condition

lex-quote_text_example :
    lex (quote_text b'"' (codes "say \"hi\""))
    ≡ lexed (
        token (codes "say \"hi\"") true 0
        ∷ token [] false (length (quote_text b'"' (codes "say \"hi\"")))
        ∷ [])
lex-quote_text_example =
    lex-quote_text b'"' (codes "say \"hi\"") (inr refl) (unfold valid_utf8 in refl)
      (unfold quote_text in omega arith)

-- No text of these tests is a number.
abbrev pub no_float : Bytes → Bool
no_float w = false

parsed_query :
    parse no_float (codes "project = SIX and not status in (done, 'x') order by rank desc")
    ≡ parsed
        (record {
          root = ref (
              expr
                (codes "and")
                []
                []
                (ref (
                  expr
                    (codes "=")
                    (codes "project")
                    (literal_value (text (codes "SIX")) ∷ [])
                    no_expr
                    no_expr))
                (ref (
                  expr
                    (codes "not")
                    []
                    []
                    (ref (
                      expr
                        (codes "in")
                        (codes "status")
                        (literal_value (text (codes "done"))
                          ∷ literal_value (text (codes "x"))
                          ∷ [])
                        no_expr
                        no_expr))
                    no_expr)));
          order = codes "rank";
          desc = true;
        })
        16
unfolding parse parse_lexed lex parse_tokens or_expr comparison operator operands finish value_list
    plain_operator ordering direction ended peek is value bare_value word_value contains_any
    canonical contains_byte
parsed_query = refl

parse-IsQuery_example :
    Ensures (λ q at. IsQuery q) (parse no_float (codes "a in (me(), 'x') or b is null"))
parse-IsQuery_example = parse-IsQuery no_float (codes "a in (me(), 'x') or b is null")

-- An empty quoted string is taken for the end, and the tokens behind it for nothing.
blank_quote :
    parse no_float (codes "'' no query = at ) all")
    ≡ parsed (record { root = no_expr; order = codes "id"; desc = false }) 0
unfolding lex parse parse_lexed parse_tokens peek ordering is ended
blank_quote = refl

-- project = SIX and a = b.
abbrev six : Expr
six =
    expr (codes "and") [] []
      (ref (
        expr (codes "=") (codes "project") (literal_value (text (codes "SIX")) ∷ []) no_expr
          no_expr))
      (ref (expr (codes "=") (codes "a") (literal_value (text (codes "b")) ∷ []) no_expr no_expr))

-- The comparisons on an item of the project SIX.
abbrev is_six : Literal → Option Bool
is_six absent = none
is_six (text k) = some (eqb_bytes k (codes "SIX"))
is_six (number n) = some false
is_six (boolean b) = some false

abbrev in_six : Bytes → Bytes → List Value → Option Bool
in_six op field [] = none
in_six op field (v ∷ vs) = if spelled field "project" then is_six v.literal else some true

is_six-text : (l : Literal) → is_six l ≡ some true → l ≡ text (codes "SIX")
is_six-text absent h = cc
is_six-text (text k) h = ap text (eq_of_eqb_bytes k (codes "SIX") (cc))
is_six-text (number n) h = cc
is_six-text (boolean b) h = cc

in_six-HasText :
    (op : Bytes) (vs : List Value)
    → (spelled op "=" || spelled op "in") ≡ true
    → in_six op (codes "project") vs ≡ some true
    → HasText (codes "SIX") vs
unfolding eqb_bytes
in_six-HasText op [] o h = cc
in_six-HasText op (v ∷ vs) o h = inl (is_six-text v.literal h)

project_keys_narrow_example : OneOf (project_keys (ref six)) (codes "SIX")
unfolding project_keys expr_keys and_keys comparison_keys text_keys condition expr_condition
    eqb_bytes
project_keys_narrow_example =
    project_keys_narrow (codes "SIX") in_six in_six-HasText
      (record { root = ref six; order = codes "id"; desc = false }) refl (λ e. cc)

-- A word in capitals, the second one the dotted I.
capitals : canonical (codes "N" ++ 0xC4 ∷ 0xB0 ∷ codes "L") ≡ codes "nil"
unfolding canonical
capitals = refl

abbrev pub two_keys : Query
two_keys = record {
  root = ref (
      expr (codes "in") (codes "key")
        (literal_value (text (codes "a")) ∷ literal_value (text (codes "b")) ∷ []) no_expr no_expr);
  order = codes "rank";
  desc = false;
}

pub parsed_two_keys : parse no_float (codes "key in (a, b) order by rank") ≡ parsed two_keys 10
unfolding parse parse_lexed lex parse_tokens or_expr comparison operator operands finish value_list
    plain_operator ordering direction ended peek is value bare_value word_value contains_any
    canonical contains_byte
parsed_two_keys = refl
