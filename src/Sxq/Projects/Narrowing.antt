-- ===== src/Sxq/Projects/Narrowing.antt =====
-- What the projects of internal/sxq/parser.go mean for the items that a query selects.
use sierx.Prelude.{
  ◌≡◌, ◌≢◌, refl, sym, ◌⊎◌, inl, inr, Bool, true, false, not, ◌&&◌, ◌||◌, Option, none, some, List,
  [], ◌∷◌, ◌++◌, Bytes, codes, if◌then◌else◌, eqb_bytes,
}
use sierx.Sxq.Syntax.{
  Literal, absent, text, number, boolean, Value, Expr, expr, ExprRef, no_expr, ref, Query,
}
use sierx.Sxq.Values.{spelled}
use sierx.Sxq.Outcomes.{OneOf}
use sierx.Sxq.Parser.Reading.{spelled→eq}
use sierx.Sxq.Projects.{
  text_keys, add_key, keys_of, and_keys, or_keys, comparison_keys, project_keys, expr_keys,
}

-- Truth in SQL; `none` is NULL.
abbrev and_sql : Option Bool → Option Bool → Option Bool
and_sql (some false) b = some false
and_sql (some true) b = b
and_sql none (some false) = some false
and_sql none b = none

abbrev or_sql : Option Bool → Option Bool → Option Bool
or_sql (some true) b = some true
or_sql (some false) b = b
or_sql none (some true) = some true
or_sql none b = none

abbrev not_sql : Option Bool → Option Bool
not_sql (some b) = some (not b)
not_sql none = none

-- The condition of a query on an item, from the outcomes of its comparisons.
module _ (compare : Bytes → Bytes → List Value → Option Bool) where
  unfoldable mutual
    pub condition : ExprRef → Option Bool
    condition no_expr = some true
    condition (ref e) = expr_condition e

    pub expr_condition : Expr → Option Bool
    expr_condition (expr op field vs l r) =
        if spelled op "and"
        then and_sql (condition l) (condition r)
        else if spelled op "or"
        then or_sql (condition l) (condition r)
        else if spelled op "not"
        then not_sql (condition l)
        else compare op field vs

-- The text `key` is among the values.
abbrev pub HasText : Bytes → List Value → Type 0
HasText key [] = ⊥
HasText key (v ∷ vs) = (v.literal ≡ text key) ⊎ HasText key vs

OneOf-left : (a b : List Bytes) (k : Bytes) → OneOf a k → OneOf (a ++ b) k
OneOf-left [] b k h = absurd h
OneOf-left (x ∷ a) b k (inl e) = inl e
OneOf-left (x ∷ a) b k (inr h) = inr (OneOf-left a b k h)

OneOf-right : (a b : List Bytes) (k : Bytes) → OneOf b k → OneOf (a ++ b) k
OneOf-right [] b k h = h
OneOf-right (x ∷ a) b k h = inr (OneOf-right a b k h)

-- The keys are a bound, if there are any.
abbrev Bounds : Bytes → List Bytes → Type 0
Bounds key ks = ks ≢ [] → OneOf ks key

add_key_lists :
    (key : Bytes) (l : Literal) (old : Option (List Bytes)) (keys : List Bytes) {P : Type 0}
    → add_key l old ≡ some keys
    → (l ≡ text key) ⊎ P
    → ((ks : List Bytes) → old ≡ some ks → P → OneOf ks key)
    → OneOf keys key
add_key_lists key absent old keys e h rest = cc
add_key_lists key (number n) old keys e h rest = cc
add_key_lists key (boolean b) old keys e h rest = cc
add_key_lists key (text k) none keys e h rest = cc
add_key_lists key (text k) (some ks) [] e h rest = cc
add_key_lists key (text k) (some ks) (x ∷ xs) e (inl h) rest = inl cc
add_key_lists key (text k) (some ks) (x ∷ xs) e (inr p) rest = inr (rest xs (cc) p)

text_keys_list :
    (key : Bytes) (vs : List Value) (keys : List Bytes)
    → text_keys vs ≡ some keys
    → HasText key vs
    → OneOf keys key
unfolding text_keys
text_keys_list key [] keys e h = absurd h
text_keys_list key (v ∷ vs) keys e h =
    add_key_lists key v.literal (text_keys vs) keys e h (text_keys_list key vs)

keys_of-Bounds :
    (key : Bytes) (r : Option (List Bytes))
    → ((keys : List Bytes) → r ≡ some keys → OneOf keys key)
    → Bounds key (keys_of r)
keys_of-Bounds key none h ne = absurd (ne refl)
keys_of-Bounds key (some keys) h ne = h keys refl

true_of_and : (a b : Option Bool) → and_sql a b ≡ some true → (a ≡ some true) × (b ≡ some true)
true_of_and (some false) b h = cc
true_of_and (some true) b h = (refl, h)
true_of_and none none h = cc
true_of_and none (some true) h = cc
true_of_and none (some false) h = cc

true_of_or : (a b : Option Bool) → or_sql a b ≡ some true → (a ≡ some true) ⊎ (b ≡ some true)
true_of_or (some true) b h = inl refl
true_of_or (some false) b h = inr h
true_of_or none none h = cc
true_of_or none (some true) h = inr refl
true_of_or none (some false) h = cc

and_keys-Bounds :
    (key : Bytes) (a b : List Bytes) → Bounds key a → Bounds key b → Bounds key (and_keys a b)
unfolding and_keys
and_keys-Bounds key [] b ha hb ne = hb ne
and_keys-Bounds key (k ∷ a) b ha hb ne = ha ne

or_keys-Bounds :
    (key : Bytes) (a b : List Bytes) → Bounds key a ⊎ Bounds key b → Bounds key (or_keys a b)
unfolding or_keys
or_keys-Bounds key [] b h ne = absurd (ne refl)
or_keys-Bounds key (k ∷ a) [] h ne = absurd (ne refl)
or_keys-Bounds key (k ∷ a) (l ∷ b) (inl ha) ne = OneOf-left (k ∷ a) (l ∷ b) key (ha (λ e. cc))
or_keys-Bounds key (k ∷ a) (l ∷ b) (inr hb) ne = OneOf-right (k ∷ a) (l ∷ b) key (hb (λ e. cc))

if_Bounds :
    (key : Bytes) (b : Bool) {ks : List Bytes}
    → (b ≡ true → Bounds key ks)
    → Bounds key (if b then ks else [])
if_Bounds key true h = h refl
if_Bounds key false h = λ ne. absurd (ne refl)

both_true : (a b : Bool) → (a && b) ≡ true → (a ≡ true) × (b ≡ true)
both_true true b h = (refl, h)
both_true false b h = cc

-- The three words of an expression, and any other.
by_operator :
    (key : Bytes) (a b c : Bool) {x y : Option Bool} (z : Option Bool) {w : Option Bool}
    {p q s : List Bytes}
    → (x ≡ some true → Bounds key p)
    → (y ≡ some true → Bounds key q)
    → (c ≡ true → s ≡ [])
    → (w ≡ some true → Bounds key s)
    → (if a then x else if b then y else if c then z else w) ≡ some true
    → Bounds key (if a then p else if b then q else s)
by_operator key true b c z hx hy hz hw h = hx h
by_operator key false true c z hx hy hz hw h = hy h
by_operator key false false true z hx hy hz hw h = λ ne. absurd (ne (hz refl))
by_operator key false false false z hx hy hz hw h = hw h

comparison_keys-not :
    (op field : Bytes) (vs : List Value)
    → spelled op "not" ≡ true
    → comparison_keys op field vs ≡ []
unfolding comparison_keys eqb_bytes
comparison_keys-not op field vs h = rw (spelled→eq op "not" h) (never (spelled field "project"))
  where
    never : (b : Bool) → (if b && false then keys_of (text_keys vs) else []) ≡ []
    never true = refl
    never false = refl

module _ (key : Bytes) (compare : Bytes → Bytes → List Value → Option Bool)
    (project_law : (op : Bytes) (vs : List Value)
      → (spelled op "=" || spelled op "in") ≡ true
      → compare op (codes "project") vs ≡ some true
      → HasText key vs) where
  comparison_keys-Bounds :
      (op field : Bytes) (vs : List Value)
      → compare op field vs ≡ some true
      → Bounds key (comparison_keys op field vs)
  unfolding comparison_keys
  comparison_keys-Bounds op field vs h =
      if_Bounds key (spelled field "project" && (spelled op "=" || spelled op "in")) λ e.
        let (f, o) = both_true _ _ e in
        keys_of-Bounds key (text_keys vs) λ keys found.
          text_keys_list key vs keys found
            (project_law op vs o (rw (sym (spelled→eq field "project" f)) h))

  mutual
    unfolding project_keys expr_keys condition expr_condition

    project_keys-Bounds :
        (r : ExprRef)
        → condition compare r ≡ some true
        → project_keys r ≢ []
        → OneOf (project_keys r) key
    project_keys-Bounds no_expr h = λ ne. absurd (ne refl)
    project_keys-Bounds (ref e) h = expr_keys-Bounds e h

    expr_keys-Bounds : (e : Expr) → expr_condition compare e ≡ some true → Bounds key (expr_keys e)
    expr_keys-Bounds (expr op field vs l r) h =
        by_operator key (spelled op "and") (spelled op "or") (spelled op "not") _
          (λ t.
            let (hl, hr) = true_of_and _ _ t in
            and_keys-Bounds key _ _ (project_keys-Bounds l hl) (project_keys-Bounds r hr))
          (λ t. elim (true_of_or _ _ t) [
            | inl hl ↦ or_keys-Bounds key _ _ (inl (project_keys-Bounds l hl))
            | inr hr ↦ or_keys-Bounds key _ _ (inr (project_keys-Bounds r hr))
          ])
          (comparison_keys-not op field vs) (comparison_keys-Bounds op field vs) h

  -- If the condition of a query holds of an item, the projects that the query is narrowed to are
  -- none, which is no bound, or the item's project is one of them; a comparison of the project by
  -- = or in holds only if the item's project is among the values.
  pub project_keys_narrow :
      (q : Query)
      → condition compare q.root ≡ some true
      → project_keys q.root ≢ []
      → OneOf (project_keys q.root) key
  project_keys_narrow q h ne = project_keys-Bounds q.root h ne
