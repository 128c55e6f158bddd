-- ===== src/Sxq/Lexer/Tokens.antt =====
-- Where the tokens of internal/sxq/lexer.go stand in the input: the invariant of its main loop.
use sierx.Prelude.{
  ℕ, suc, ◌+◌, ◌<◌, ◌≤◌, ◌≡◌, ◌≢◌, sym, ap, ◌∙◌, ◌⊎◌, true, false, List, [], ◌∷◌, ◌++◌,
  append_assoc, arith, Bytes, length, length-append, All, All-append,
}
use sierx.Sxq.Lexer.{Token}

abbrev pub IsQuote : ℕ → Type 0
IsQuote c = (c ≡ b'\'') ⊎ (c ≡ b'"')

-- Where a token comes from: an unquoted one is a nonempty piece of the input at its position, and
-- a quote stands at the position of a quoted one.
pub data IsToken (input : Bytes) (t : Token) : Type 0 where
  bare :
      t.quoted ≡ false
      → t.text ≢ []
      → (before after : Bytes) → length before ≡ t.pos
      → input ≡ before ++ (t.text ++ after)
      → IsToken input t
  string :
      t.quoted ≡ true
      → (quote : ℕ) → IsQuote quote
      → (before after : Bytes) → length before ≡ t.pos
      → input ≡ before ++ quote ∷ after
      → IsToken input t

-- The positions ascend from `lo` and stay below `hi`.
abbrev pub Positions : ℕ → List Token → ℕ → Type 0
Positions lo [] hi = lo ≤ hi
Positions lo (t ∷ ts) hi = (lo ≤ t.pos) × Positions (suc t.pos) ts hi

Positions-snoc :
    (lo : ℕ) (ts : List Token) (t : Token) (i hi : ℕ)
    → t.pos ≡ i
    → i < hi
    → Positions lo ts i
    → Positions lo (ts ++ t ∷ []) hi
Positions-snoc lo [] t i hi e lt h = (omega arith, omega arith)
Positions-snoc lo (u ∷ ts) t i hi e lt (le, h) = (le, Positions-snoc (suc u.pos) ts t i hi e lt h)

Positions-weaken :
    (lo : ℕ) (ts : List Token) (i hi : ℕ) → i ≤ hi → Positions lo ts i → Positions lo ts hi
Positions-weaken lo [] i hi le h = omega arith
Positions-weaken lo (u ∷ ts) i hi le (p, h) = (p, Positions-weaken (suc u.pos) ts i hi le h)

-- What holds between two rounds.
pub record Scanned (input : Bytes) (rest : Bytes) (pos : ℕ) (out : List Token) : Type 0 where
  pub done : Bytes
  pub whole : input ≡ done ++ rest
  pub at : length done ≡ pos
  pub tokens : All (IsToken input) out
  pub positions : Positions 0 out pos

-- A token is added, and the input moves on behind what it took.
pub Scanned-push :
    (input rest : Bytes) (i : ℕ) (out : List Token) (t : Token) (used rest' : Bytes) (next : ℕ)
    → Scanned input rest i out
    → rest ≡ used ++ rest'
    → next ≡ i + length used
    → i < next
    → t.pos ≡ i
    → IsToken input t
    → Scanned input rest' next (out ++ t ∷ [])
Scanned-push input rest i out t used rest' next inv e n lt p h = record {
  done = inv.done ++ used;
  whole = inv.whole ∙ ap (λ r. inv.done ++ r) e ∙ sym (append_assoc inv.done used rest');
  at = omega (arith, length-append inv.done used, inv.at);
  tokens = All-append (IsToken input) out (t ∷ []) inv.tokens (h, tt);
  positions = Positions-snoc 0 out t i next p lt inv.positions;
}

pub Scanned-space :
    (input : Bytes) (c : ℕ) (s : Bytes) (i : ℕ) (out : List Token)
    → Scanned input (c ∷ s) i out
    → Scanned input s (i + 1) out
Scanned-space input c s i out inv = record {
  done = inv.done ++ c ∷ [];
  whole = inv.whole ∙ sym (append_assoc inv.done (c ∷ []) s);
  at = omega (arith, length-append inv.done (c ∷ []), inv.at);
  tokens = inv.tokens;
  positions = Positions-weaken 0 out i (i + 1) (omega arith) inv.positions;
}
