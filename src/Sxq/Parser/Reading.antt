-- ===== src/Sxq/Parser/Reading.antt =====
-- What the values of internal/sxq/parser.go are, and how far reading one advances.
use native.Mathlib.Nat.{le_trans, mul-le-mul_right, div-mul-le_self}
use mathlib.Core.Bool.{◌&&◌}
use sierx.Prelude.{
  ℕ, zero, suc, ◌+◌, ◌-◌, ◌*◌, ◌/◌, ◌^◌, ◌<◌, ◌≤◌, ◌≡◌, ◌≢◌, refl, inl, inr, Bool, true, false, not,
  ◌||◌, Option, none, some, List, [], ◌∷◌, ◌++◌, String, arith, Bytes, codes, length, get_elem?,
  get_last?, get_last?-append, eq_of_eqb_bytes, Bool-cases, Option-cases,
}
use sierx.Prelude.Int.{ℤ, pos, negsuc}
use sierx.Sxq.Lexer.{Token}
use sierx.Sxq.Syntax.{Value, canonical}
use sierx.Sxq.Values.{
  Step, parsed, stuck, spelled, peek, is, expected_at, duration, bounded_offset, duration_value,
  function_value, word_value, bare_value, value,
}
use sierx.Sxq.Outcomes.{IsValue}

-- The lexer's last token, which has no text.
abbrev pub HasEnd : List Token → Type 0
HasEnd ts = (us : List Token) × (t : Token) × (ts ≡ us ++ t ∷ []) × (t.text ≡ [])

get_elem?-lt {ℓ} :
    {A : Type ℓ} (xs : List A) (i : ℕ) (a : A) → get_elem? xs i ≡ some a → i < length xs
get_elem?-lt [] i a h = cc
get_elem?-lt (x ∷ xs) zero a h = omega arith
get_elem?-lt (x ∷ xs) (suc i) a h = omega (arith, get_elem?-lt xs i a h)

pub spelled→eq : (w : Bytes) (s : String) → spelled w s ≡ true → w ≡ codes s
spelled→eq w s h = eq_of_eqb_bytes w (codes s) h

canonical_nil : canonical [] ≡ []
unfolding canonical
canonical_nil = refl

blank_word :
    (q : Bool) (w : Bytes) (s : String)
    → w ≡ []
    → spelled [] s ≡ false
    → (not q && spelled (canonical w) s) ≡ false
blank_word q w s e ne = rw (e, canonical_nil, ne) (both q)
  where
    both : (b : Bool) → (not b && false) ≡ false
    both true = refl
    both false = refl

le-quotient : (n m u : ℕ) → n ≤ m / u → n * u ≤ m
le-quotient n m u h = le_trans (mul-le-mul_right u h) (div-mul-le_self m u)

-- The offset of now() fits an int64.
bounded_offset-lt : (n : Option ℤ) (u : Option ℕ) (r : ℕ) → bounded_offset n u ≡ some r → r < 2 ^ 63
unfolding bounded_offset
bounded_offset-lt none u r h = cc
bounded_offset-lt (some (negsuc n)) u r h = cc
bounded_offset-lt (some (pos n)) none r h = cc
bounded_offset-lt (some (pos n)) (some u) r h = ground (arith, le-quotient n (2 ^ 63 - 1) u)

duration-lt : (w : Bytes) (r : ℕ) → duration w ≡ some r → r < 2 ^ 63
unfolding duration
duration-lt w r h = bounded_offset-lt _ _ r h

module _ (is_float : Bytes → Bool) (tokens : List Token) (end : HasEnd tokens) where
  -- Past the end stands the end.
  peek_past : (at : ℕ) → get_elem? tokens at ≡ none → (peek is_float tokens at).text ≡ []
  unfolding peek
  peek_past at h =
      let (us, t, e, blank) = end in
      let last : get_last? tokens ≡ some t = rw e (get_last?-append us t) in
      rw (h, last, peek) blank

  -- A word that the parser takes is a token before the end of the list.
  pub is-lt :
      (at : ℕ) (s : String)
      → spelled [] s ≡ false
      → is is_float tokens at s ≡ true
      → at < length tokens
  unfolding is
  is-lt at s ne h = elim (Option-cases (get_elem? tokens at)) [
    | inl past ↦ cc (blank_word (peek is_float tokens at).quoted _ s (peek_past at past) ne)
    | inr (t, e) ↦ get_elem?-lt tokens at t e
  ]

  -- Whenever a value is read it is well formed, and the index moves on; no fuel is needed.
  abbrev Reads : ℕ → Step Value → Type 0
  Reads at r = (v : Value) (at' : ℕ) → r ≡ parsed v at' → IsValue v × (at < at')

  duration_value-Reads :
      (negative : Bool) (at : ℕ) → Reads at (duration_value is_float tokens negative at)
  unfolding duration_value expected_at
  duration_value-Reads negative at v at' h =
      elim (Option-cases (duration (peek is_float tokens at).text)) [
        | inl e ↦ absurd (ground (arith, e))
        | inr (n, e) ↦ (ground (arith, e, duration-lt _ n e), ground (arith, e))
      ]

  word_value-Reads :
      (t : Token) (name : Bytes) (at : ℕ) → Reads at (word_value is_float tokens t name at)
  unfolding word_value expected_at
  word_value-Reads t name at v at' h = (ground arith, ground arith)

  function_value-Reads :
      (name : Bytes) (at : ℕ)
      → (spelled name "me" || spelled name "now") ≡ true
      → Reads at (function_value is_float tokens name at)
  unfolding function_value expected_at
  function_value-Reads name at hn v at' h =
      let later = duration_value-Reads (is is_float tokens (at + 2) "-") (at + 3) v at' in
      (ground (arith, later, spelled→eq name "me", spelled→eq name "now"), ground (arith, later))

  bare_value-Reads :
      (t : Token) (name : Bytes) (at : ℕ) → Reads at (bare_value is_float tokens t name at)
  unfolding bare_value
  bare_value-Reads t name at v at' h =
      let fn = function_value-Reads name (at + 1) in
      let word = word_value-Reads t name at v at' in
      elim (Bool-cases (spelled name "me" || spelled name "now")) [
        | inl e ↦ (ground (arith, fn e v at', word, e), ground (arith, fn e v at', word, e))
        | inr e ↦ (ground (arith, word, e), ground (arith, word, e))
      ]

  pub value-Reads : (at : ℕ) → Reads at (value is_float tokens at)
  unfolding value expected_at
  value-Reads at v at' h =
      let bare =
        bare_value-Reads (peek is_float tokens at) (canonical (peek is_float tokens at).text) at v
          at' in
      (ground (arith, bare), ground (arith, bare))

  duration_value-ne-stuck :
      (negative : Bool) (at : ℕ) → duration_value is_float tokens negative at ≢ stuck
  unfolding duration_value expected_at
  duration_value-ne-stuck negative at h = absurd (ground arith)

  pub value-ne-stuck : (at : ℕ) → value is_float tokens at ≢ stuck
  unfolding value expected_at bare_value function_value word_value
  value-ne-stuck at h =
      absurd
        (ground (arith, duration_value-ne-stuck (is is_float tokens (at + 1 + 2) "-") (at + 1 + 3)))
