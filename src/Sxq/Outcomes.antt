-- ===== src/Sxq/Outcomes.antt =====
-- Postconditions on the steps of internal/sxq/parser.go, and which queries are well formed.
use mathlib.Core.Path.{subst₂}
use sierx.Prelude.{
  ℕ, ◌^◌, ◌<◌, ◌≤◌, ◌≡◌, ◌≢◌, refl, ◌⊎◌, inl, inr, Bool, true, false, List, [], ◌∷◌, arith, Bytes,
  codes, if◌then◌else◌, length, All, eqb_bytes, eq_of_eqb_bytes, Bool-cases,
}
use sierx.Prelude.Int.{pos, pos_part, neg_part}
use sierx.Sxq.Syntax.{absent, Value, Expr, expr, no_expr, ref}
use sierx.Sxq.Values.{ParseError, Step, parsed, failed, stuck, bind, spelled}

-- The run kept within its fuel, and `P` holds of its value and index if it has one.
pub data Ensures {ℓ κ} {A : Type ℓ} (P : A → ℕ → Type κ) : Step A → Type (ℓ ⊔ κ) where
  holds : {a : A} {at : ℕ} → P a at → Ensures P (parsed a at)
  rejected : {e : ParseError} → Ensures P (failed e)

module _ {ℓ κ} {A : Type ℓ} {P : A → ℕ → Type κ} where
  pub Ensures-if :
      (b : Bool) {x y : Step A}
      → (b ≡ true → Ensures P x)
      → (b ≡ false → Ensures P y)
      → Ensures P (if b then x else y)
  Ensures-if true hx hy = hx refl
  Ensures-if false hx hy = hy refl

  pub Ensures-elim :
      (b : Bool) {x y : Step A}
      → (b ≡ true → Ensures P x)
      → (b ≡ false → Ensures P y)
      → Ensures P (elim b [ true ↦ x | false ↦ y ])
  Ensures-elim true hx hy = hx refl
  Ensures-elim false hx hy = hy refl

  pub Ensures-bind {ℓ' κ'} :
      {B : Type ℓ'} {Q : B → ℕ → Type κ'} {r : Step B} {f : B → ℕ → Step A}
      → Ensures Q r
      → ((b : B) (at : ℕ) → Q b at → Ensures P (f b at))
      → Ensures P (bind r f)
  Ensures-bind (holds {a} {at} h) k = k a at h
  Ensures-bind rejected k = rejected

  pub Ensures-map {κ'} :
      {Q : A → ℕ → Type κ'} {r : Step A}
      → ((a : A) (at : ℕ) → P a at → Q a at)
      → Ensures P r
      → Ensures Q r
  Ensures-map k (holds {a} {at} h) = holds (k a at h)
  Ensures-map k rejected = rejected

  pub Ensures-parsed : {r : Step A} {a : A} {at : ℕ} → Ensures P r → r ≡ parsed a at → P a at
  Ensures-parsed (holds h) e = subst₂ P (cc) (cc) h
  Ensures-parsed rejected e = cc

  pub Ensures-ne-stuck : {r : Step A} → Ensures P r → r ≢ stuck
  Ensures-ne-stuck (holds h) e = cc
  Ensures-ne-stuck rejected e = cc

-- A literal, or one of the functions; only now() has an offset, and it fits a time.Duration.
pub record IsValue (v : Value) : Type 0 where
  pub above : neg_part v.offset < 2 ^ 63
  pub below : pos_part v.offset < 2 ^ 63
  pub named :
      (v.function ≡ [])
      ⊎ ((v.literal ≡ absent) × ((v.function ≡ codes "me") ⊎ (v.function ≡ codes "now")))
  pub steady : v.function ≢ codes "now" → v.offset ≡ pos 0

abbrev pub is_list_operator : Bytes → Bool
is_list_operator op = if spelled op "in" then true else spelled op "not in"

-- One value, or from one to 200 behind in and not in.
pub record IsOperands (op : Bytes) (vs : List Value) : Type 0 where
  pub nonempty : 1 ≤ length vs
  pub bounded : length vs ≤ 200
  pub scalar : is_list_operator op ≡ false → length vs ≡ 1
  pub values : All IsValue vs

abbrev pub comparison_operators : List Bytes
comparison_operators =
    codes "="
    ∷ codes "!="
    ∷ codes ">"
    ∷ codes ">="
    ∷ codes "<"
    ∷ codes "<="
    ∷ codes "in"
    ∷ codes "~"
    ∷ codes ":"
    ∷ codes "is"
    ∷ codes "is not"
    ∷ codes "not in"
    ∷ []

-- Membership in a list of words.
abbrev pub OneOf : List Bytes → Bytes → Type 0
OneOf [] w = ⊥
OneOf (v ∷ vs) w = (w ≡ v) ⊎ OneOf vs w

abbrev pub one_of : List Bytes → Bytes → Bool
one_of [] w = false
one_of (v ∷ vs) w = elim (eqb_bytes w v) [ true ↦ true | false ↦ one_of vs w ]

pub OneOf-one_of : (vs : List Bytes) (w : Bytes) → one_of vs w ≡ true → OneOf vs w
OneOf-one_of [] w h = cc
OneOf-one_of (v ∷ vs) w h = elim (Bool-cases (eqb_bytes w v)) [
  | inl e ↦ inl (eq_of_eqb_bytes w v e)
  | inr e ↦ inr (OneOf-one_of vs w (ground (arith, e)))
]

pub data IsQueryExpr : Expr → Type 0 where
  compared :
      {op field : Bytes} {vs : List Value}
      → field ≢ []
      → OneOf comparison_operators op
      → IsOperands op vs
      → IsQueryExpr (expr op field vs no_expr no_expr)
  negated :
      {op : Bytes} {e : Expr}
      → op ≡ codes "not"
      → IsQueryExpr e
      → IsQueryExpr (expr op [] [] (ref e) no_expr)
  joined :
      {op : Bytes} {l r : Expr}
      → (op ≡ codes "and") ⊎ (op ≡ codes "or")
      → IsQueryExpr l
      → IsQueryExpr r
      → IsQueryExpr (expr op [] [] (ref l) (ref r))

module _ {ℓ κ} {A : Type ℓ} {B : Type κ} where
  -- Inversion of a bind.
  pub bind-eq-parsed :
      (m : Step A) (f : A → ℕ → Step B) (b : B) (at' : ℕ)
      → bind m f ≡ parsed b at'
      → (a : A) × (at : ℕ) × (m ≡ parsed a at) × (f a at ≡ parsed b at')
  bind-eq-parsed (parsed a at) f b at' h = (a, at, refl, h)
  bind-eq-parsed (failed e) f b at' h = cc
  bind-eq-parsed stuck f b at' h = cc

  pub bind-eq-stuck :
      (m : Step A) (f : A → ℕ → Step B)
      → bind m f ≡ stuck
      → (m ≡ stuck) ⊎ ((a : A) × (at : ℕ) × (m ≡ parsed a at) × (f a at ≡ stuck))
  bind-eq-stuck (parsed a at) f h = inr (a, at, refl, h)
  bind-eq-stuck (failed e) f h = cc
  bind-eq-stuck stuck f h = inl refl

-- From the two halves of a postcondition.
pub Ensures-of {ℓ κ} :
    {A : Type ℓ} {P : A → ℕ → Type κ} (r : Step A)
    → r ≢ stuck
    → ((a : A) (at : ℕ) → r ≡ parsed a at → P a at)
    → Ensures P r
Ensures-of (parsed a at) ns h = holds (h a at refl)
Ensures-of (failed e) ns h = rejected
Ensures-of stuck ns h = absurd (ns refl)
