-- ===== src/Sxq/Syntax.antt =====
-- internal/sxq: the values, expressions and queries of parser.go, and the spelling of words.
use sierx.Prelude.{
  [], ◌∷◌, zero, suc, ◌==◌, true, false, ℕ, ◌+◌, Bool, ◌&&◌, List, [], Bytes, codes, leb,
  if◌then◌else◌, eqb_bytes,
}
use sierx.Prelude.Int.{ℤ, pos}

-- What a Go `any` holds here: nil, a string, a json.Number or a bool.
pub data Literal : Type 0 where
  absent : Literal
  text : Bytes → Literal
  number : Bytes → Literal
  boolean : Bool → Literal

-- The offset is a time.Duration, in nanoseconds.
pub record Value : Type 0 where
  pub literal : Literal
  pub function : Bytes
  pub offset : ℤ

abbrev pub literal_value : Literal → Value
literal_value l = record { literal = l; function = []; offset = pos 0 }

-- *Expr is a reference, which may be nil.
mutual
  pub data Expr : Type 0 where
    expr : Bytes → Bytes → List Value → ExprRef → ExprRef → Expr

  pub data ExprRef : Type 0 where
    no_expr : ExprRef
    ref : Expr → ExprRef

pub record Query : Type 0 where
  pub root : ExprRef
  pub order : Bytes
  pub desc : Bool

-- strings.ToLower. Besides the ASCII letters, it lowers the Kelvin sign and the dotted capital I to
-- ASCII letters, which the words of the language have; other letters are left alone here.
unfoldable pub to_lower : ℕ → ℕ
to_lower c = if leb b'A' c && leb c b'Z' then c + 32 else c

abbrev is_kelvin : Bytes → Bool
is_kelvin (a ∷ b ∷ c ∷ s) = a == 0xE2 && b == 0x84 && c == 0xAA
is_kelvin s = false

abbrev is_dotted_capital_i : Bytes → Bool
is_dotted_capital_i (a ∷ b ∷ s) = a == 0xC4 && b == 0xB0
is_dotted_capital_i s = false

-- `skip` bytes belong to a letter that is written already.
unfoldable pub lower : ℕ → Bytes → Bytes
lower skip [] = []
lower (suc skip) (c ∷ s) = lower skip s
lower zero (c ∷ s) = elim (is_kelvin (c ∷ s)) [
  | true ↦ b'k' ∷ lower 2 s
  | false ↦ elim (is_dotted_capital_i (c ∷ s)) [
    | true ↦ b'i' ∷ lower 1 s
    | false ↦ to_lower c ∷ lower 0 s
  ]
]

-- The aliases currentuser and empty.
unfoldable pub alias : Bytes → Bytes
alias w =
    if eqb_bytes w (codes "currentuser")
    then codes "me"
    else if eqb_bytes w (codes "empty")
    then codes "null"
    else w

unfoldable pub canonical : Bytes → Bytes
unfolding to_lower lower alias eqb_bytes
canonical w = alias (lower 0 w)
