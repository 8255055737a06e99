-- ===== src/Expressions/Ranges.antt =====
-- The queries that `Solver::getRange` of klee/lib/Solver/Solver.cpp creates about an expression, and
-- getRange over expressions.
mod Tests
pub mod Meaning
pub mod Exact
use learch.Prelude.{ℕ, ◌%◌, ◌^◌, Option, none, some}
use learch.Expressions.{Globals, Expr, constant, get_width, as_constant}
use learch.Expressions.ApInt.{ApInt}
use learch.Expressions.Equal.{create_eq}
use learch.Expressions.Orders.{create_lshr, create_ule}

-- `ConstantExpr::create(v, w)`, whose APInt keeps the low bits.
unfoldable pub create_constant : ℕ → ℕ → Expr
create_constant v w = constant w (v % 2 ^ w)

-- `dyn_cast<ConstantExpr>` and `getZExtValue`.
unfoldable pub constant_number : Expr → Option ℕ
constant_number e = elim (as_constant e) [ some (_, v) ↦ some v | none ↦ none ]

module _ (g : Globals) (m : ApInt) (e : Expr) where
  -- `(e >> mid) == 0`
  unfoldable pub shifted_query : ℕ → Expr
  shifted_query mid =
      create_eq g m (create_lshr g m e (create_constant mid (get_width g e)))
        (create_constant 0 (get_width g e))

  -- `e == 0`
  unfoldable pub zero_query : Expr
  zero_query = create_eq g m e (create_constant 0 (get_width g e))

  -- `e <= mid`
  unfoldable pub bound_query : ℕ → Expr
  bound_query mid = create_ule g m e (create_constant mid (get_width g e))
