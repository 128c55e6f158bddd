-- ===== src/Sxq/Lexer.antt =====
-- internal/sxq/lexer.go: bytes to tokens, each with the position that it starts at.
pub mod Rounds
pub mod Tokens
pub mod Sound
pub mod Quoting
use sierx.Prelude.{
  ℕ, zero, suc, ◌+◌, ◌≡◌, refl, Bool, true, false, not, ◌&&◌, ◌||◌, Option, none, some, List, [],
  ◌∷◌, ◌++◌, Bytes, codes, ltb, leb, ◌==◌, if◌then◌else◌, length,
}
use sierx.Sxq.Utf8.{valid_utf8}

pub record Token : Type 0 where
  pub text : Bytes
  pub quoted : Bool
  pub pos : ℕ

abbrev pub token : Bytes → Bool → ℕ → Token
token t q p = record { text = t; quoted = q; pos = p }

-- The errors of the lexer, with the byte that each names.
pub data LexError : Type 0 where
  too_long not_utf8 too_many_terms : LexError
  invalid_escape unterminated use_not_equal unexpected : ℕ → LexError

-- `spent` is no outcome of the program: the fuel ran out.
pub data LexResult {ℓ} (A : Type ℓ) : Type ℓ where
  lexed : A → LexResult A
  refused : LexError → LexResult A
  spent : LexResult A

-- strings.ContainsRune(s, rune(c)) for a byte c and an ASCII text s.
unfoldable pub contains_byte : Bytes → ℕ → Bool
contains_byte [] c = false
contains_byte (d ∷ s) c = d == c || contains_byte s c

abbrev pub space_bytes : Bytes
space_bytes = codes " \t\r\n"

abbrev pub operator_bytes : Bytes
operator_bytes = codes "()~,+:=<>!-"

abbrev pub is_space : ℕ → Bool
is_space = contains_byte space_bytes

abbrev pub is_operator : ℕ → Bool
is_operator = contains_byte operator_bytes

pub is_word : ℕ → Bool
is_word c =
    leb b'a' c && leb c b'z'
    || leb b'A' c && leb c b'Z'
    || leb b'0' c && leb c b'9'
    || c == b'_'
    || c == b'.'
    || c == b'-'

-- The byte that an escape stands for.
pub unescape : ℕ → Option ℕ
unescape c =
    if c == b'n'
    then some 10
    else if c == b'r'
    then some 13
    else if c == b't'
    then some 9
    else if c == b'\\' || c == b'\'' || c == b'"'
    then some c
    else none

-- What a scan consumed of the input: its value, the input left and the position there.
pub record Piece : Type 0 where
  pub value : Bytes
  pub rest : Bytes
  pub next : ℕ

-- The loop over a quoted string: `i` is the position of the input given, `start` that of the quote.
pub read_string : ℕ → ℕ → Bytes → ℕ → Bytes → LexResult Piece
read_string quote start [] i value = refused (unterminated start)
read_string quote start (c ∷ []) i value =
    if c == quote
    then lexed (record { value = value; rest = []; next = i + 1 })
    else refused (unterminated start)
read_string quote start (c ∷ d ∷ s) i value = elim (c == quote) [
  | true ↦ lexed (record { value = value; rest = d ∷ s; next = i + 1 })
  | false ↦ elim (c == b'\\') [
    | true ↦ elim (unescape d) [
      | none ↦ refused (invalid_escape (i + 2))
      | some e ↦ read_string quote start s (i + 2) (value ++ e ∷ [])
    ]
    | false ↦ read_string quote start (d ∷ s) (i + 1) (value ++ c ∷ [])
  ]
]

-- The loop over a word.
pub read_word : Bytes → ℕ → Bytes → Piece
read_word [] i value = record { value = value; rest = []; next = i }
read_word (c ∷ s) i value = elim (is_word c) [
  | true ↦ read_word s (i + 1) (value ++ c ∷ [])
  | false ↦ record { value = value; rest = c ∷ s; next = i }
]

-- One or two bytes of an operator.
pub read_operator : ℕ → Bytes → ℕ → Piece
read_operator c [] i = record { value = c ∷ []; rest = []; next = i + 1 }
read_operator c (d ∷ s) i =
    if d == b'=' && contains_byte (codes "<>!") c
    then record { value = c ∷ d ∷ []; rest = s; next = i + 2 }
    else record { value = c ∷ []; rest = d ∷ s; next = i + 1 }

-- Between two rounds of the main loop: the input left, its position, the tokens so far.
pub record State : Type 0 where
  pub rest : Bytes
  pub pos : ℕ
  pub out : List Token

pub push_string : List Token → ℕ → LexResult Piece → LexResult State
push_string out start (lexed p) =
    lexed (record { rest = p.rest; pos = p.next; out = out ++ token p.value true start ∷ [] })
push_string out start (refused e) = refused e
push_string out start spent = spent

pub push_operator : ℕ → List Token → ℕ → Piece → LexResult State
push_operator c out start p =
    if c == b'!' && p.next == start + 1
    then refused (use_not_equal start)
    else lexed (record { rest = p.rest; pos = p.next; out = out ++ token p.value false start ∷ [] })

pub push_word : List Token → ℕ → Piece → LexResult State
push_word out start p =
    if p.next == start
    then refused (unexpected start)
    else if ltb 1024 (length (out ++ token p.value false start ∷ []))
    then refused too_many_terms
    else lexed (record { rest = p.rest; pos = p.next; out = out ++ token p.value false start ∷ [] })

-- A round of the main loop, at the byte `c` before `s`.
pub lex_round : ℕ → Bytes → ℕ → List Token → LexResult State
lex_round c s i out =
    if is_space c
    then lexed (record { rest = s; pos = i + 1; out = out })
    else if c == b'\'' || c == b'"'
    then push_string out i (read_string c i s (i + 1) [])
    else if is_operator c
    then push_operator c out i (read_operator c s i)
    else push_word out i (read_word (c ∷ s) i [])

-- The main loop. `go_on` passes on what a round gives.
abbrev pub go_on : LexResult State → (State → LexResult (List Token)) → LexResult (List Token)
go_on (lexed st) next = next st
go_on (refused e) next = refused e
go_on spent next = spent

pub lex_loop : ℕ → Bytes → ℕ → List Token → LexResult (List Token)
lex_loop zero s i out = spent
lex_loop (suc f) [] i out = lexed out
lex_loop (suc f) (c ∷ s) i out =
    go_on (lex_round c s i out) (λ st. lex_loop f st.rest st.pos st.out)

-- The end token stands behind the others.
abbrev pub close : ℕ → LexResult (List Token) → LexResult (List Token)
close n (lexed out) = lexed (out ++ token [] false n ∷ [])
close n (refused e) = refused e
close n spent = spent

unfoldable pub lex : Bytes → LexResult (List Token)
unfolding lex_loop lex_round read_string read_word read_operator push_string push_operator push_word
    contains_byte unescape is_word valid_utf8
lex input =
    if ltb 4096 (length input)
    then refused too_long
    else if not (valid_utf8 input)
    then refused not_utf8
    else close (length input) (lex_loop (length input + 1) input 0 [])
