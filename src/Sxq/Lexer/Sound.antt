-- ===== src/Sxq/Lexer/Sound.antt =====
-- The end of the loop of internal/sxq/lexer.go, and the tokens of an accepted input.
use sierx.Prelude.{
  ℕ, zero, suc, ◌+◌, ◌<◌, ◌≤◌, ◌≡◌, ◌≢◌, refl, sym, ap, subst, ◌∙◌, ◌⊎◌, inl, inr, true, false,
  ◌||◌, ◌&&◌, List, [], ◌∷◌, ◌++◌, append-nil, arith, Bytes, ◌==◌, length, length-append,
  Bool-cases, Option-cases, All, ltb,
}
use sierx.Sxq.Lexer.{
  Token, token, too_long, not_utf8, LexResult, lexed, refused, spent, Piece, unescape, read_string,
  read_word, read_operator, State, push_string, push_operator, push_word, lex_round, go_on,
  lex_loop, close, lex, is_space, is_operator,
}
use sierx.Sxq.Utf8.{valid_utf8}
use sierx.Sxq.Lexer.Rounds.{Consumed-cons, read_string-Consumed, read_word_ends, read_operator_ends}
use sierx.Sxq.Lexer.Tokens.{
  IsQuote, IsToken, bare, string, Positions, Scanned, Scanned-push, Scanned-space,
}

-- The result of a round: shorter input, and the invariant.
abbrev Advances : Bytes → ℕ → State → Type 0
Advances input n st = Scanned input st.rest st.pos st.out × (length st.rest < n)

lexed_inj {ℓ} : {A : Type ℓ} (a b : A) → lexed a ≡ lexed b → a ≡ b
lexed_inj a b h = cc

shorter :
    (used rest whole : Bytes) → whole ≡ used ++ rest → 0 < length used → length rest < length whole
shorter used rest whole e pos_used = omega (arith, ap length e, length-append used rest)

push_string-Advances :
    (input : Bytes) (c : ℕ) (s : Bytes) (i : ℕ) (out : List Token) (r : LexResult Piece)
    (st : State)
    → read_string c i s (i + 1) [] ≡ r
    → IsQuote c
    → Scanned input (c ∷ s) i out
    → push_string out i r ≡ lexed st
    → Advances input (length (c ∷ s)) st
unfolding push_string
push_string-Advances input c s i out (lexed p) st e q inv h =
    let (used, whole, next, lt) =
      Consumed-cons c s i p (read_string-Consumed c i s (i + 1) [] p e) in
    subst (Advances input (length (c ∷ s))) (lexed_inj _ st h) (
      Scanned-push input (c ∷ s) i out (token p.value true i) used p.rest p.next inv whole next
          (omega arith) refl (string refl c q inv.done s inv.at inv.whole),
      shorter used p.rest (c ∷ s) whole (omega arith),
    )
push_string-Advances input c s i out (refused er) st e q inv h = cc
push_string-Advances input c s i out spent st e q inv h = cc

nonempty : (xs : Bytes) → 0 < length xs → xs ≢ []
nonempty xs h e = absurd (omega (arith, ap length e))

-- An unquoted token is pushed.
bare-Advances :
    (input : Bytes) (rest : Bytes) (i : ℕ) (out : List Token) (p : Piece)
    → i < p.next
    → p.next + length p.rest ≡ i + length rest
    → rest ≡ p.value ++ p.rest
    → Scanned input rest i out
    → Advances input
        (length rest)
        (record { rest = p.rest; pos = p.next; out = out ++ token p.value false i ∷ [] })
bare-Advances input rest i out p lt sum e inv =
    let sizes : length rest ≡ length p.value + length p.rest =
      ap length e ∙ length-append p.value p.rest in
    (
      Scanned-push input rest i out (token p.value false i) p.value p.rest p.next inv e
          (omega arith) lt refl
          (bare refl (nonempty p.value (omega arith)) inv.done p.rest inv.at
            (inv.whole ∙ ap (λ r. inv.done ++ r) e)),
      omega arith,
    )

push_operator-Advances :
    (input : Bytes) (c : ℕ) (s : Bytes) (i : ℕ) (out : List Token) (st : State)
    → Scanned input (c ∷ s) i out
    → push_operator c out i (read_operator c s i) ≡ lexed st
    → Advances input (length (c ∷ s)) st
unfolding push_operator
push_operator-Advances input c s i out st inv h =
    let p = read_operator c s i in
    let (lt, sum, e) = read_operator_ends c s i in
    elim (Bool-cases (c == b'!' && p.next == i + 1)) [
      | inl bad ↦ cc (rw bad at h)
      | inr fine ↦
          subst (Advances input (length (c ∷ s))) (lexed_inj _ st (rw fine at h))
            (bare-Advances input (c ∷ s) i out p lt sum e inv)
    ]

push_word-Advances :
    (input : Bytes) (rest : Bytes) (i : ℕ) (out : List Token) (st : State)
    → Scanned input rest i out
    → push_word out i (read_word rest i []) ≡ lexed st
    → Advances input (length rest) st
unfolding push_word
push_word-Advances input rest i out st inv h =
    let p = read_word rest i [] in
    let (le, sum, e) = read_word_ends rest i [] in
    elim (Bool-cases (p.next == i)) [
      | inl bad ↦ cc (rw bad at h)
      | inr fine ↦ elim (Bool-cases (ltb 1024 (length (out ++ token p.value false i ∷ [])))) [
        | inl many ↦ cc (rw (fine, many) at h)
        | inr few ↦
            subst (Advances input (length rest)) (lexed_inj _ st (rw (fine, few) at h))
              (bare-Advances input rest i out p (ground arith) sum e inv)
      ]
    ]

IsQuote-cases : (c : ℕ) → (c == b'\'' || c == b'"') ≡ true → IsQuote c
IsQuote-cases c h = ground arith

-- A round that goes on keeps the invariant and shortens the input.
round-Advances :
    (input : Bytes) (c : ℕ) (s : Bytes) (i : ℕ) (out : List Token) (st : State)
    → Scanned input (c ∷ s) i out
    → lex_round c s i out ≡ lexed st
    → Advances input (length (c ∷ s)) st
unfolding lex_round
round-Advances input c s i out st inv h = elim (Bool-cases (is_space c)) [
  | inl sp ↦
      subst (Advances input (length (c ∷ s))) (lexed_inj _ st (rw sp at h))
        (Scanned-space input c s i out inv, omega arith)
  | inr ns ↦ elim (Bool-cases (c == b'\'' || c == b'"')) [
    | inl q ↦
        push_string-Advances input c s i out (read_string c i s (i + 1) []) st refl
          (IsQuote-cases c q) inv (rw (ns, q) at h)
    | inr nq ↦ elim (Bool-cases (is_operator c)) [
      | inl o ↦ push_operator-Advances input c s i out st inv (rw (ns, nq, o) at h)
      | inr word ↦ push_word-Advances input (c ∷ s) i out st inv (rw (ns, nq, word) at h)
    ]
  ]
]

-- Whatever the loop returns satisfies the invariant at the end of the input, and its fuel lasts.
abbrev LoopResult : Bytes → LexResult (List Token) → Type 0
LoopResult input (lexed out) = Scanned input [] (length input) out
LoopResult input (refused e) = Unit
LoopResult input spent = ⊥

at_end :
    (input : Bytes) (i : ℕ) (out : List Token)
    → Scanned input [] i out
    → Scanned input [] (length input) out
at_end input i out inv = subst (λ n. Scanned input [] n out) (ends inv) inv
  where
    ends : Scanned input [] i out → i ≡ length input
    ends inv = omega (arith, inv.at, ap length inv.whole, ap length (append-nil inv.done))

read_string-ne-spent :
    (quote start : ℕ) (s : Bytes) (i : ℕ) (v : Bytes) → read_string quote start s i v ≢ spent
unfolding read_string
read_string-ne-spent quote start [] i v h = cc
read_string-ne-spent quote start (c ∷ []) i v h = absurd (ground arith)
read_string-ne-spent quote start (c ∷ d ∷ s) i v h =
    let plain = read_string-ne-spent quote start (d ∷ s) (i + 1) (v ++ c ∷ []) in
    elim (Option-cases (unescape d)) [
      | inl e ↦ absurd (ground (arith, plain, e))
      | inr (e, q) ↦
          absurd
            (ground (arith, plain, q, read_string-ne-spent quote start s (i + 2) (v ++ e ∷ [])))
    ]

push_string-ne-spent :
    (out : List Token) (i : ℕ) (r : LexResult Piece) → r ≢ spent → push_string out i r ≢ spent
unfolding push_string
push_string-ne-spent out i (lexed p) h e = cc
push_string-ne-spent out i (refused er) h e = cc
push_string-ne-spent out i spent h e = h refl

round-ne-spent : (c : ℕ) (s : Bytes) (i : ℕ) (out : List Token) → lex_round c s i out ≢ spent
unfolding lex_round push_operator push_word
round-ne-spent c s i out h =
    let str =
      push_string-ne-spent out i (read_string c i s (i + 1) [])
        (read_string-ne-spent c i s (i + 1) []) in
    absurd (ground (arith, str))

-- A round's result, handed to the rounds after it.
module _ (f : ℕ) (input : Bytes)
    (later : (s : Bytes) (i : ℕ) (out : List Token)
      → length s < f
      → Scanned input s i out
      → LoopResult input (lex_loop f s i out)) where
  from_round :
      (c : ℕ) (s : Bytes) (i : ℕ) (out : List Token) (r : LexResult State)
      → lex_round c s i out ≡ r
      → length s < f
      → Scanned input (c ∷ s) i out
      → LoopResult input (go_on r (λ st. lex_loop f st.rest st.pos st.out))
  from_round c s i out (lexed st) e enough inv =
      let (inv', less) = round-Advances input c s i out st inv e in
      later st.rest st.pos st.out (omega arith) inv'
  from_round c s i out (refused er) e enough inv = tt
  from_round c s i out spent e enough inv = round-ne-spent c s i out e

loop_sound :
    (f : ℕ) (input s : Bytes) (i : ℕ) (out : List Token)
    → length s < f
    → Scanned input s i out
    → LoopResult input (lex_loop f s i out)
unfolding lex_loop
loop_sound zero input s i out enough inv = absurd (omega arith)
loop_sound (suc f) input [] i out enough inv = at_end input i out inv
loop_sound (suc f) input (c ∷ s) i out enough inv =
    from_round f input (λ s i out. loop_sound f input s i out) c s i out (lex_round c s i out) refl
      (omega arith) inv

start : (input : Bytes) → Scanned input input 0 []
start input = record { done = []; whole = refl; at = refl; tokens = tt; positions = omega arith }

main_loop : (input : Bytes) → LoopResult input (lex_loop (length input + 1) input 0 [])
main_loop input = loop_sound (length input + 1) input input 0 [] (omega arith) (start input)

-- An input that passes the two tests goes to the loop.
pub lex_accepts :
    (input : Bytes)
    → length input ≤ 4096
    → valid_utf8 input ≡ true
    → lex input ≡ close (length input) (lex_loop (length input + 1) input 0 [])
unfolding lex
lex_accepts input fits ok = rw (short (length input) fits, ok)
  where
    short : (n : ℕ) → n ≤ 4096 → ltb 4096 n ≡ false
    short n h = ground arith

-- The two refusals before the loop, and the loop.
pub lex_cases :
    (input : Bytes)
    → (lex input ≡ refused too_long)
      ⊎ ((lex input ≡ refused not_utf8)
          ⊎ (lex input ≡ close (length input) (lex_loop (length input + 1) input 0 [])))
unfolding lex
lex_cases input = elim (Bool-cases (ltb 4096 (length input))) [
  | inl long ↦ inl (rw long)
  | inr fits ↦ elim (Bool-cases (valid_utf8 input)) [
    | inl ok ↦ inr (inr (rw (fits, ok)))
    | inr bad ↦ inr (inl (rw (fits, bad)))
  ]
]

close-ne-spent :
    (input : Bytes) (n : ℕ) (r : LexResult (List Token)) → LoopResult input r → close n r ≢ spent
close-ne-spent input n (lexed out) h e = cc
close-ne-spent input n (refused er) h e = cc
close-ne-spent input n spent h e = h

-- The lexer ends on every input: the fuel of one round for each byte and one more lasts.
pub lex-ne-spent : (input : Bytes) → lex input ≢ spent
lex-ne-spent input h = elim (lex_cases input) [
  | inl e ↦ cc
  | inr (inl e) ↦ cc
  | inr (inr e) ↦ close-ne-spent input _ _ (main_loop input) (sym e ∙ h)
]

abbrev Tokenized : Bytes → List Token → Type 0
Tokenized input ts =
    (us : List Token) × (ts ≡ us ++ token [] false (length input) ∷ [])
    × All (IsToken input) us
    × Positions 0 us (length input)

close-Tokenized :
    (input : Bytes) (r : LexResult (List Token)) (ts : List Token)
    → LoopResult input r
    → close (length input) r ≡ lexed ts
    → Tokenized input ts
close-Tokenized input (lexed out) ts inv e =
    (out, sym (lexed_inj _ ts e), inv.tokens, inv.positions)
close-Tokenized input (refused er) ts inv e = cc
close-Tokenized input spent ts inv e = cc

-- If the lexer accepts an input, its tokens are an unquoted empty one at the end of the input behind
-- others with ascending positions, of which each unquoted one is a nonempty piece of the input at
-- its position and each quoted one stands at a quote.
pub lex_sound :
    (input : Bytes) (ts : List Token)
    → lex input ≡ lexed ts
    → (us : List Token) × (ts ≡ us ++ token [] false (length input) ∷ [])
      × All (IsToken input) us
      × Positions 0 us (length input)
lex_sound input ts h = elim (lex_cases input) [
  | inl e ↦ cc
  | inr (inl e) ↦ cc
  | inr (inr e) ↦ close-Tokenized input _ ts (main_loop input) (sym e ∙ h)
]
