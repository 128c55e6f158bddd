-- ===== src/Sxq/Lexer/Rounds.antt =====
-- What one round of the main loop of internal/sxq/lexer.go consumes and adds.
use native.Mathlib.Nat.{add_assoc}
use sierx.Prelude.{
  ℕ, ◌+◌, ◌<◌, ◌≤◌, ◌≡◌, ap, inl, inr, [], ◌∷◌, ◌++◌, append_assoc, arith, Bytes, ◌==◌, length,
  Bool-cases, Option-cases,
}
use sierx.Sxq.Lexer.{lexed, Piece, unescape, read_string, read_word, read_operator}

-- What a scan of the string consumed.
abbrev pub Consumed : Bytes → ℕ → Piece → Type 0
Consumed s i p = (used : Bytes) × (s ≡ used ++ p.rest) × (p.next ≡ i + length used) × (i < p.next)

pub Consumed-cons :
    (c : ℕ) (s : Bytes) (i : ℕ) (p : Piece) → Consumed s (i + 1) p → Consumed (c ∷ s) i p
Consumed-cons c s i p (used, e, n, lt) = (c ∷ used, ap (λ r. c ∷ r) e, omega arith, omega arith)

pub read_string-Consumed :
    (quote start : ℕ) (s : Bytes) (i : ℕ) (v : Bytes) (p : Piece)
    → read_string quote start s i v ≡ lexed p
    → Consumed s i p
unfolding read_string
read_string-Consumed quote start [] i v p h = cc
read_string-Consumed quote start (c ∷ []) i v p h =
    (c ∷ [], ground arith, ground arith, ground arith)
read_string-Consumed quote start (c ∷ d ∷ s) i v p h = elim (Bool-cases (c == quote)) [
  | inl q ↦ (c ∷ [], ground (arith, q), ground (arith, q), ground (arith, q))
  | inr nq ↦ elim (Bool-cases (c == b'\\')) [
    | inl b ↦ elim (Option-cases (unescape d)) [
      | inl e ↦ absurd (ground (arith, nq, b, e))
      | inr (e, u) ↦ Consumed-cons c (d ∷ s) i p (
          Consumed-cons d s (i + 1) p (
            rw (add_assoc i 1 1) (
              read_string-Consumed quote start s (i + 2) (v ++ e ∷ []) p
                (ground (arith, nq, b, u)))))
    ]
    | inr nb ↦
        Consumed-cons c (d ∷ s) i p (
          read_string-Consumed quote start (d ∷ s) (i + 1) (v ++ c ∷ []) p (ground (arith, nq, nb)))
  ]
]

pub read_word_ends :
    (s : Bytes) (i : ℕ) (v : Bytes)
    → let p = read_word s i v in
      (i ≤ p.next) × (p.next + length p.rest ≡ i + length s) × (v ++ s ≡ p.value ++ p.rest)
unfolding read_word
read_word_ends [] i v = ground arith
read_word_ends (c ∷ s) i v =
    ground (arith, read_word_ends s (i + 1) (v ++ c ∷ []), append_assoc v (c ∷ []) s)

pub read_operator_ends :
    (c : ℕ) (s : Bytes) (i : ℕ)
    → let p = read_operator c s i in
      (i < p.next) × (p.next + length p.rest ≡ i + length (c ∷ s)) × (c ∷ s ≡ p.value ++ p.rest)
unfolding read_operator
read_operator_ends c [] i = ground arith
read_operator_ends c (d ∷ s) i = ground arith
