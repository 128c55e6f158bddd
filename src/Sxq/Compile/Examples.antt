-- ===== src/Sxq/Compile/Examples.antt =====
-- A query that internal/sxq/compile.go compiles, and the theorem on its plan.
use sierx.Prelude.{Bool, false, [], ◌∷◌, ◌++◌, Bytes, codes, ◌≡◌, refl, count_up, inr, eqb_bytes}
use sierx.Prelude.Int.{ℤ, pos}
use sierx.Sxq.Compile.{sql, placeholder, text_arg, Options, Plan, find, fields}
use sierx.Sxq.Compile.Conditions.{
  operator_sql, cast_suffix, param, field, literal_arg, value, value_params, comparison_on,
  comparison, condition_of, compile,
}
use sierx.Sxq.Compile.Placeholders.{numbers}
use sierx.Sxq.Compile.Plans.{compile-numbers}
use sierx.Sxq.Examples.{no_float, two_keys, parsed_two_keys}

-- No text is a UUID, a date or a time.
abbrev no_text : Bytes → Bool
no_text w = false

abbrev no_time : ℤ → Bytes
no_time t = []

abbrev from_three : Options
from_three = record { user_id = []; start = pos 3; custom = [] }

abbrev two_keys_plan : Plan
two_keys_plan = record {
  condition =
      sql (codes "(")
      ∷ sql (codes "i.key")
      ∷ sql (codes " ")
      ∷ sql (codes "IN")
      ∷ sql (codes " (")
      ∷ placeholder 3
      ∷ sql (codes ",")
      ∷ placeholder 4
      ∷ sql (codes "))")
      ∷ [];
  order_expr = sql (codes "i.rank") ∷ [];
  order_kind = codes "text";
  desc = false;
  args = text_arg (codes "a") ∷ text_arg (codes "b") ∷ [];
}

compile-two_keys :
    compile no_text no_text no_text no_time no_time from_three two_keys
    ≡ inr (two_keys_plan, two_keys_plan.args)
unfolding operator_sql cast_suffix param field literal_arg value value_params comparison_on
    comparison condition_of compile find fields eqb_bytes
compile-two_keys = refl

compile-numbers_example :
    numbers (two_keys_plan.condition ++ two_keys_plan.order_expr) ≡ count_up 3 2
compile-numbers_example =
    compile-numbers no_text no_text no_text no_time no_time from_three no_float
      (codes "key in (a, b) order by rank") two_keys 10 parsed_two_keys two_keys_plan
      two_keys_plan.args compile-two_keys
