-- ===== src/Sxq/Compile/Plans.antt =====
-- The plans that internal/sxq/compile.go makes of parsed queries.
use sierx.Prelude.{
  ℕ, ◌+◌, ◌-◌, ◌≡◌, refl, subst, ◌∙◌, Bool, true, false, ◌||◌, List, [], ◌++◌, ◌⊎◌, inl, inr, Bytes,
  arith, if◌then◌else◌, length, count_up,
}
use sierx.Prelude.Int.{ℤ}
use sierx.Sxq.Syntax.{Query}
use sierx.Sxq.Values.{spelled, parsed}
use sierx.Sxq.Outcomes.{Ensures-parsed}
use sierx.Sxq.Parser.{parse}
use sierx.Sxq.Parser.Sound.{IsQuery, parse-IsQuery}
use sierx.Sxq.Compile.{Piece, Arg, Field, Options, Plan, CompileError, unordered_field, start_of}
use sierx.Sxq.Compile.Conditions.{compile, planned}
use sierx.Sxq.Compile.Placeholders.{
  numbers, numbers-append, Yields, yielded, refused, Yields-and_then, Numbered, Numbered-append,
  first, field-Adds,
}
use sierx.Sxq.Compile.Covered.{root-Covers}

same_plan :
    {p q : Plan} {a b : List Arg}
    → ◌≡◌ {A = CompileError ⊎ (Plan × List Arg)} (inr (p, a)) (inr (q, b))
    → p ≡ q
same_plan h = cc

module _ (valid_uuid valid_date valid_timestamp : Bytes → Bool) (now_date now_timestamp : ℤ → Bytes)
    (options : Options) where
  -- What the theorem on plans says of a plan.
  abbrev IsNumbered : Plan → Type 0
  IsNumbered plan =
      numbers (plan.condition ++ plan.order_expr)
      ≡ count_up (start_of options.start) (length plan.args)

  planned-Yields :
      (q : Query) (cond : List Piece) (f : Field) (args : List Arg)
      → Numbered
          (first valid_uuid valid_date valid_timestamp now_date now_timestamp options)
          0
          (numbers cond ++ numbers f.column)
          (length args)
      → Yields
          (λ plan args'. IsNumbered plan)
          (planned valid_uuid valid_date valid_timestamp now_date now_timestamp options q cond f
            args)
  planned-Yields q cond f args h = by_kind (spelled f.kind "search" || spelled f.kind "array")
    where
      plan : Plan
      plan = record {
        condition = cond;
        order_expr = f.column;
        order_kind = f.kind;
        desc = q.desc;
        args = args;
      }

      plan_numbered : IsNumbered plan
      plan_numbered =
          let from : start_of options.start + 0 ≡ start_of options.start = omega arith in
          let all : length args - 0 ≡ length args = omega arith in
          numbers-append cond f.column ∙ h.counted ∙ (rw (from, all) refl)

      by_kind :
          (b : Bool)
          → Yields (λ p args'. IsNumbered p) (if b then inl unordered_field else inr (plan, args))
      by_kind true = refused
      by_kind false = yielded plan_numbered

  compile-Yields :
      (q : Query)
      → IsQuery q
      → Yields
          (λ plan args. IsNumbered plan)
          (compile valid_uuid valid_date valid_timestamp now_date now_timestamp options q)
  unfolding compile
  compile-Yields q ok =
      Yields-and_then
        (root-Covers valid_uuid valid_date valid_timestamp now_date now_timestamp options q ok [])
        λ cond args1 h1.
          Yields-and_then
            (field-Adds valid_uuid valid_date valid_timestamp now_date now_timestamp options q.order
              args1)
            λ f args2 h2. planned-Yields q cond f args2 (
              Numbered-append
                (first valid_uuid valid_date valid_timestamp now_date now_timestamp options) 0
                (length args1) (length args2) (numbers cond) (numbers f.column) h1 h2)

  plan_of :
      {r : CompileError ⊎ (Plan × List Arg)} {plan : Plan} {args : List Arg}
      → Yields (λ p a. IsNumbered p) r
      → r ≡ inr (plan, args)
      → IsNumbered plan
  plan_of (yielded h) e = subst IsNumbered (same_plan e) h
  plan_of refused e = cc

  -- If the parser accepts an input and the compiler accepts its query, the placeholders of the
  -- condition and then of the order are numbered from the start on without a gap, one for each
  -- argument of the plan.
  pub compile-numbers :
      (is_float : Bytes → Bool) (input : Bytes) (q : Query) (at : ℕ)
      → parse is_float input ≡ parsed q at
      → (plan : Plan) (args : List Arg)
      → compile valid_uuid valid_date valid_timestamp now_date now_timestamp options q
        ≡ inr (plan, args)
      → numbers (plan.condition ++ plan.order_expr)
        ≡ count_up (start_of options.start) (length plan.args)
  compile-numbers is_float input q at e plan args h =
      plan_of (compile-Yields q (Ensures-parsed (parse-IsQuery is_float input) e)) h
