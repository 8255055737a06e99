-- ===== src/Expressions/Choice.antt =====
-- SelectExpr::create of klee/lib/Expr/Expr.cpp, and NotExpr::create and Expr::createImplies.
pub mod Laws
pub mod Complement
use learch.Prelude.{ℕ, Option, none, some, Bool, ◌==◌, if◌then◌else◌}
use learch.Expressions.{Globals, Expr, select, not_expr, get_width, as_constant}
use learch.Expressions.ApInt.{ApInt}
use learch.Expressions.Same.{same}
use learch.Expressions.Constants.{fold_not}
use learch.Expressions.Logical.{create_and, create_or}
use learch.Expressions.Equal.{is_true, create_is_zero}

module _ (g : Globals) (m : ApInt) where
  -- c ? t : f  <=> (c and t) or (not c and f)
  unfoldable pub select_bool : Expr → Expr → Expr → Expr
  select_bool c t f = elim (as_constant t) [
    | some (_, v) ↦ if is_true v then create_or g m c f else create_and g m (create_is_zero g m c) f
    | none ↦ elim (as_constant f) [
      | some (_, v) ↦
          if is_true v then create_or g m (create_is_zero g m c) t else create_and g m c t
      | none ↦ select c t f
    ]
  ]

  unfoldable pub create_select : Expr → Expr → Expr → Expr
  create_select c t f = elim (as_constant c) [
    | some (_, v) ↦ if is_true v then t else f
    | none ↦ if same t f then t else if get_width g t == 1 then select_bool c t f else select c t f
  ]

  unfoldable pub create_not : Expr → Expr
  create_not e = elim (as_constant e) [ some (w, v) ↦ fold_not m w v | none ↦ not_expr e ]

  unfoldable pub create_implies : Expr → Expr → Expr
  create_implies hyp conc = create_or g m (create_is_zero g m hyp) conc
