-- ===== src/Sxq/Values.antt =====
-- internal/sxq/parser.go: the tokens under the parser, and the values of a comparison. A parser takes the index of the
-- next token, `p.at`; `p.depth` is an argument, since every return restores it.
use sierx.Prelude.{
  ℕ, zero, suc, ◌+◌, ◌-◌, ◌*◌, ◌/◌, ◌^◌, Bool, true, false, not, ◌&&◌, ◌||◌, Option, none, some,
  List, [], ◌∷◌, String, Bytes, codes, ltb, leb, ◌==◌, if◌then◌else◌, eqb_bytes, length, get_elem?,
  get_last?, init,
}
use sierx.Prelude.Int.{ℤ, pos, negsuc}
use sierx.Sxq.Lexer.{Token, token, LexError, contains_byte}
use sierx.Sxq.Syntax.{absent, text, number, boolean, Value, literal_value, canonical}

pub data ParseError : Type 0 where
  lexical : LexError → ParseError
  expected : String → ℕ → ParseError
  not_available unknown_operator : Bytes → ParseError
  too_many_values invalid_duration : ParseError

-- A value with the index behind it, an error, or no outcome of the program: the fuel ran out.
pub data Step {ℓ} (A : Type ℓ) : Type ℓ where
  parsed : A → ℕ → Step A
  failed : ParseError → Step A
  stuck : Step A

abbrev pub bind {ℓ κ} : {A : Type ℓ} {B : Type κ} → Step A → (A → ℕ → Step B) → Step B
bind (parsed a at) f = f a at
bind (failed e) f = failed e
bind stuck f = stuck

abbrev pub is_blank : Bytes → Bool
is_blank [] = true
is_blank (c ∷ s) = false

abbrev pub spelled : Bytes → String → Bool
spelled w s = eqb_bytes w (codes s)

-- strings.ContainsAny.
unfoldable pub contains_any : Bytes → Bytes → Bool
contains_any [] chars = false
contains_any (c ∷ s) chars = contains_byte chars c || contains_any s chars

-- strconv.ParseInt(s, 10, 64); `none` is its error.
unfoldable pub parse_digits : Bytes → ℕ → Option ℕ
parse_digits [] n = some n
parse_digits (c ∷ s) n =
    if leb b'0' c && leb c b'9' then parse_digits s (n * 10 + (c - b'0')) else none

abbrev pub negated : ℕ → ℤ
negated zero = pos 0
negated (suc n) = negsuc n

abbrev pub in_int64 : Bool → Option ℕ → Option ℤ
in_int64 minus none = none
in_int64 true (some n) = if ltb (2 ^ 63) n then none else some (negated n)
in_int64 false (some n) = if ltb n (2 ^ 63) then some (pos n) else none

abbrev pub unsigned : Bytes → Option ℕ
unsigned [] = none
unsigned (c ∷ s) = parse_digits (c ∷ s) 0

unfoldable pub parse_int : Bytes → Option ℤ
parse_int [] = none
parse_int (c ∷ s) =
    if c == b'-'
    then in_int64 true (unsigned s)
    else if c == b'+'
    then in_int64 false (unsigned s)
    else in_int64 false (parse_digits (c ∷ s) 0)

-- The units of a duration, in nanoseconds.
unfoldable pub unit_of : ℕ → Option ℕ
unit_of c =
    if c == b'd'
    then some 86400000000000
    else if c == b'w'
    then some 604800000000000
    else if c == b'h'
    then some 3600000000000
    else if c == b'm'
    then some 60000000000
    else none

unfoldable pub unit_at : Option ℕ → Option ℕ
unfolding unit_of
unit_at none = none
unit_at (some c) = unit_of c

-- The number of units, if it is in bounds, times the unit.
unfoldable pub bounded_offset : Option ℤ → Option ℕ → Option ℕ
bounded_offset (some (pos n)) (some unit) =
    if ltb 1000000 n || ltb ((2 ^ 63 - 1) / unit) n then none else some (n * unit)
bounded_offset n unit = none

unfoldable pub duration : Bytes → Option ℕ
duration w = bounded_offset (parse_int (init w)) (unit_at (get_last? w))

abbrev pub signed_offset : Bool → ℕ → ℤ
signed_offset negative n = if negative then negated n else pos n

-- strconv.ParseFloat succeeds with a finite number: floats stay outside the model.
module _ (is_float : Bytes → Bool) (tokens : List Token) where
  -- The token at an index, the last one past the end.
  unfoldable pub peek : ℕ → Token
  peek at = elim (get_elem? tokens at) [
    | some t ↦ t
    | none ↦ elim (get_last? tokens) [ some t ↦ t | none ↦ token [] false 0 ]
  ]

  unfoldable pub is : ℕ → String → Bool
  is at s = not (peek at).quoted && spelled (canonical (peek at).text) s

  unfoldable pub expected_at {ℓ} : {A : Type ℓ} → String → ℕ → Step A
  expected_at s at = failed (expected s (peek at).pos)

  -- The number behind now() + or now() -.
  unfoldable pub duration_value : Bool → ℕ → Step Value
  duration_value negative at =
      if (peek at).quoted || ltb (length (peek at).text) 2
      then expected_at "a duration such as 7d" (at + 1)
      else elim (duration (peek at).text) [
        | none ↦ failed invalid_duration
        | some n ↦
            parsed
              (record {
                literal = absent;
                function = codes "now";
                offset = signed_offset negative n;
              })
              (at + 1)
      ]

  unfoldable pub function_value : Bytes → ℕ → Step Value
  function_value name at =
      if not (is at "(")
      then expected_at "empty function parentheses" at
      else if not (is (at + 1) ")")
      then expected_at "empty function parentheses" (at + 1)
      else if spelled name "now" && (is (at + 2) "+" || is (at + 2) "-")
      then duration_value (is (at + 2) "-") (at + 3)
      else parsed (record { literal = absent; function = name; offset = pos 0 }) (at + 2)

  -- A number or a bare word; `name` is the canonical spelling of `t`.
  unfoldable pub word_value : Token → Bytes → ℕ → Step Value
  word_value t name at =
      if is at "-"
      then (if is_float (b'-' ∷ (peek (at + 1)).text)
          then parsed (literal_value (number (b'-' ∷ (peek (at + 1)).text))) (at + 2)
          else expected_at "a number after -" (at + 1))
      else if is_float t.text
      then parsed (literal_value (number t.text)) (at + 1)
      else if contains_any t.text (codes "()~,+:=<>!")
          || spelled name "and"
          || spelled name "or"
          || spelled name "order"
      then expected_at "a literal value" at
      else parsed (literal_value (text t.text)) (at + 1)

  unfoldable pub bare_value : Token → Bytes → ℕ → Step Value
  bare_value t name at =
      if spelled name "startofsprint" || spelled name "endofsprint"
      then failed (not_available t.text)
      else if spelled name "me" || spelled name "now"
      then function_value name (at + 1)
      else if spelled name "null"
      then parsed (literal_value absent) (at + 1)
      else if spelled name "true" || spelled name "false"
      then parsed (literal_value (boolean (spelled name "true"))) (at + 1)
      else word_value t name at

  unfoldable pub value : ℕ → Step Value
  value at =
      if is_blank (peek at).text
      then expected_at "a value" at
      else if (peek at).quoted
      then parsed (literal_value (text (peek at).text)) (at + 1)
      else bare_value (peek at) (canonical (peek at).text) at
