-- ===== src/Sxq/Lexer/Quoting.antt =====
-- Quoted text of internal/sxq/lexer.go.
use native.Mathlib.Numerals.{add-one}
use sierx.Prelude.{
  ℕ, zero, suc, ◌+◌, ◌<◌, ◌≤◌, ◌≡◌, ◌≢◌, refl, sym, ap, ◌∙◌, ◌⊎◌, inl, inr, true, false, ◌||◌, [],
  ◌∷◌, ◌++◌, append_assoc, append-nil, arith, Bytes, ◌==◌, if◌then◌else◌, length, length-append,
  Bool-cases,
}
use sierx.Sxq.Utf8.{
  valid_utf8, scan_utf8, scan_ascii, scan_end, scan_short, scan_start, scan_next, Continues,
}
use sierx.Sxq.Lexer.{
  token, lexed, unescape, read_string, push_string, contains_byte, is_space, lex_round, lex_loop,
  close, lex,
}
use sierx.Sxq.Lexer.Tokens.{IsQuote}
use sierx.Sxq.Lexer.Sound.{lex_accepts}

-- A text with the quote and the backslash escaped, and with quotes round it.
pub escape : ℕ → Bytes → Bytes
escape q [] = []
escape q (c ∷ s) = if c == q || c == b'\\' then b'\\' ∷ c ∷ escape q s else c ∷ escape q s

unfoldable pub quote_text : ℕ → Bytes → Bytes
unfolding escape
quote_text q s = q ∷ (escape q s ++ q ∷ [])

plain_round :
    (q start c : ℕ) (t : Bytes) (i : ℕ) (v : Bytes)
    → c ≢ q
    → c ≢ b'\\'
    → t ≢ []
    → read_string q start (c ∷ t) i v ≡ read_string q start t (i + 1) (v ++ c ∷ [])
plain_round q start c [] i v nq nb ne = absurd (ne refl)
plain_round q start c (d ∷ t) i v nq nb ne = unfold read_string in ground arith

escaped_round :
    (q start c : ℕ) (t : Bytes) (i : ℕ) (v : Bytes)
    → IsQuote q
    → (c ≡ q) ⊎ (c ≡ b'\\')
    → read_string q start (b'\\' ∷ c ∷ t) i v ≡ read_string q start t (i + 2) (v ++ c ∷ [])
unfolding read_string unescape
escaped_round q start c t i v hq hc = ground arith

closing_round :
    (q start : ℕ) (rest : Bytes) (i : ℕ) (v : Bytes)
    → read_string q start (q ∷ rest) i v ≡ lexed (record { value = v; rest = rest; next = i + 1 })
unfolding read_string
closing_round q start [] i v = ground arith
closing_round q start (d ∷ rest) i v = ground arith

tail_ne : (q : ℕ) (s rest : Bytes) → escape q s ++ q ∷ rest ≢ []
unfolding escape
tail_ne q [] rest h = cc
tail_ne q (c ∷ s) rest h = absurd (ground arith)

escape_special :
    (q c : ℕ) (s : Bytes)
    → (c == q || c == b'\\') ≡ true
    → (escape q (c ∷ s) ≡ b'\\' ∷ c ∷ escape q s) × ((c ≡ q) ⊎ (c ≡ b'\\'))
unfolding escape
escape_special q c s h = (rw h, ground arith)

escape_plain :
    (q c : ℕ) (s : Bytes)
    → (c == q || c == b'\\') ≡ false
    → (escape q (c ∷ s) ≡ c ∷ escape q s) × (c ≢ q) × (c ≢ b'\\')
unfolding escape
escape_plain q c s h = (rw h, λ e. absurd (ground arith), λ e. absurd (ground arith))

-- Reading an escaped text gives the text, in any surroundings.
pub read_string-escape :
    (q start : ℕ) (s rest : Bytes) (i : ℕ) (v : Bytes) (n : ℕ)
    → IsQuote q
    → n ≡ i + length (escape q s) + 1
    → read_string q start (escape q s ++ q ∷ rest) i v
      ≡ lexed (record { value = v ++ s; rest = rest; next = n })
read_string-escape q start [] rest i v n hq e =
    unfold escape in
    rw (append-nil v) (
      closing_round q start rest i v
      ∙ ap (λ m. lexed (record { value = v; rest = rest; next = m }))
          (unfold escape in omega arith))
read_string-escape q start (c ∷ s) rest i v n hq e = elim (Bool-cases (c == q || c == b'\\')) [
  | inl special ↦
      let (shape, kind) = escape_special q c s special in
      rw shape (
        escaped_round q start c (escape q s ++ q ∷ rest) i v hq kind
        ∙ read_string-escape q start s rest (i + 2) (v ++ c ∷ []) n hq
            (omega (arith, ap length shape))
        ∙ ap (λ w. lexed (record { value = w; rest = rest; next = n })) (append_assoc v (c ∷ []) s))
  | inr plain ↦
      let (shape, nq, nb) = escape_plain q c s plain in
      rw shape (
        plain_round q start c (escape q s ++ q ∷ rest) i v nq nb (tail_ne q s rest)
        ∙ read_string-escape q start s rest (i + 1) (v ++ c ∷ []) n hq
            (omega (arith, ap length shape))
        ∙ ap (λ w. lexed (record { value = w; rest = rest; next = n })) (append_assoc v (c ∷ []) s))
]

-- A scan that goes on behind a plain byte.
scan_past :
    (due lo hi c : ℕ) (s t : Bytes)
    → (go : Continues due lo hi c) → scan_utf8 due lo hi (c ∷ s) ≡ true
    → (scan_utf8 go.0 go.1 go.2 s ≡ true → scan_utf8 go.0 go.1 go.2 t ≡ true)
    → scan_utf8 due lo hi (c ∷ t) ≡ true
scan_past due lo hi c s t go h later = go.4 t ∙ later (sym (go.4 s) ∙ h)

ascii_special : (q c : ℕ) → IsQuote q → (c ≡ q) ⊎ (c ≡ b'\\') → c < 0x80
ascii_special q c hq hc = ground arith

special_round :
    (q c : ℕ) (t : Bytes) (lo hi : ℕ)
    → c < 0x80
    → scan_utf8 0 lo hi (b'\\' ∷ c ∷ t) ≡ scan_utf8 0 0 0 t
special_round q c t lo hi ascii =
    scan_ascii lo hi b'\\' (c ∷ t) (omega arith) ∙ scan_ascii 0 0 c t ascii

-- Escaping keeps a text valid.
utf8_escape :
    (q : ℕ) (s : Bytes) (due lo hi : ℕ)
    → IsQuote q
    → (0 < due → 0x80 ≤ lo)
    → scan_utf8 due lo hi s ≡ true
    → scan_utf8 due lo hi (escape q s ++ q ∷ []) ≡ true
utf8_escape q [] zero lo hi hq low h =
    unfold escape in (scan_ascii lo hi q [] (ground arith) ∙ scan_end 0 0)
utf8_escape q [] (suc due) lo hi hq low h = cc (scan_short due lo hi)
utf8_escape q (c ∷ s) zero lo hi hq low h = elim (Bool-cases (c == q || c == b'\\')) [
  | inl special ↦
      let (shape, kind) = escape_special q c s special in
      let ascii = ascii_special q c hq kind in
      rw shape (
        special_round q c (escape q s ++ q ∷ []) lo hi ascii
        ∙ utf8_escape q s 0 0 0 hq (λ p. absurd (omega arith))
            (sym (scan_ascii lo hi c s ascii) ∙ h))
  | inr plain ↦
      let go = scan_start lo hi c s h in
      rw ((escape_plain q c s plain).0)
        (scan_past 0 lo hi c s (escape q s ++ q ∷ []) go h (utf8_escape q s go.0 go.1 go.2 hq go.3))
]
utf8_escape q (c ∷ s) (suc due) lo hi hq low h =
    let (above, go) = scan_next due lo hi c s h in
    elim (Bool-cases (c == q || c == b'\\')) [
      | inl special ↦
          let (shape, kind) = escape_special q c s special in
          absurd (omega (arith, ascii_special q c hq kind, low (omega arith)))
      | inr plain ↦ rw ((escape_plain q c s plain).0) (
          scan_past (suc due) lo hi c s (escape q s ++ q ∷ []) go h
            (utf8_escape q s go.0 go.1 go.2 hq go.3))
    ]

quote_valid :
    (q : ℕ) (s : Bytes) → IsQuote q → valid_utf8 s ≡ true → valid_utf8 (quote_text q s) ≡ true
unfolding quote_text valid_utf8
quote_valid q s hq h =
    scan_ascii 0 0 q (escape q s ++ q ∷ []) (ground arith)
    ∙ utf8_escape q s 0 0 0 hq (λ p. absurd (omega arith)) h

not_space : (q : ℕ) → IsQuote q → is_space q ≡ false
unfolding contains_byte
not_space q hq = ground arith

is_quote : (q : ℕ) → IsQuote q → (q == b'\'' || q == b'"') ≡ true
is_quote q hq = ground arith

-- The round at the opening quote takes the whole text.
quote_round :
    (q : ℕ) (s : Bytes)
    → IsQuote q
    → lex_round q (escape q s ++ q ∷ []) 0 []
      ≡ lexed (record { rest = []; pos = length (quote_text q s); out = token s true 0 ∷ [] })
unfolding lex_round push_string
quote_round q s hq = rw (
  not_space q hq,
  is_quote q hq,
  read_string-escape q 0 s [] 1 [] (length (quote_text q s)) hq
      (unfold quote_text in omega (arith, length-append (escape q s) (q ∷ []))),
)

quote_loop :
    (f q : ℕ) (s : Bytes)
    → IsQuote q
    → lex_loop (suc (suc f)) (quote_text q s) 0 [] ≡ lexed (token s true 0 ∷ [])
unfolding lex_loop quote_text
quote_loop f q s hq = rw (quote_round q s hq)

-- A valid text in quotes, with the quote and the backslashes in it escaped, is read as one quoted
-- token with that text, if it has at most 4096 bytes with its quotes.
pub lex-quote_text :
    (q : ℕ) (s : Bytes)
    → IsQuote q
    → valid_utf8 s ≡ true
    → length (quote_text q s) ≤ 4096
    → lex (quote_text q s) ≡ lexed (token s true 0 ∷ token [] false (length (quote_text q s)) ∷ [])
lex-quote_text q s hq ok fits =
    lex_accepts (quote_text q s) fits (quote_valid q s hq ok)
    ∙ ap (close (length (quote_text q s)))
        (enough (length (quote_text q s)) (unfold quote_text in omega arith))
  where
    enough : (n : ℕ) → 1 ≤ n → lex_loop (n + 1) (quote_text q s) 0 [] ≡ lexed (token s true 0 ∷ [])
    enough zero h = absurd (omega arith)
    enough (suc n) h = rw add-one (quote_loop n q s hq)
