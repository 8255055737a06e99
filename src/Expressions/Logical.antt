-- ===== src/Expressions/Logical.antt =====
-- AndExpr::create, OrExpr::create and MulExpr::create of klee/lib/Expr/Expr.cpp.
pub mod Laws
pub mod Product
use learch.Prelude.{ℕ, Bool, ◌==◌, if◌then◌else◌}
use learch.Expressions.{Globals, Expr, constant, arithmetic, and, or, mul, get_width}
use learch.Expressions.ApInt.{ApInt}
use learch.Expressions.Constants.{
  fold_arithmetic, create_with_partials, is_zero, is_one, is_all_ones,
}

unfoldable pub and_partial : Expr → ℕ → ℕ → Expr
and_partial l w v =
    if is_all_ones w v
    then l
    else if is_zero v
    then constant w v
    else arithmetic and l (constant w v)

unfoldable pub or_partial : Expr → ℕ → ℕ → Expr
or_partial l w v =
    if is_all_ones w v
    then constant w v
    else if is_zero v
    then l
    else arithmetic or l (constant w v)

unfoldable pub mul_partial_r : ℕ → ℕ → Expr → Expr
mul_partial_r w v r =
    if w == 1
    then and_partial r w v
    else if is_one v
    then r
    else if is_zero v
    then constant w v
    else arithmetic mul (constant w v) r

module _ (g : Globals) (m : ApInt) where
  unfoldable pub create_and : Expr → Expr → Expr
  create_and =
      create_with_partials (fold_arithmetic m and) (λ w v r. and_partial r w v) and_partial
        (arithmetic and)

  unfoldable pub create_or : Expr → Expr → Expr
  create_or =
      create_with_partials (fold_arithmetic m or) (λ w v r. or_partial r w v) or_partial
        (arithmetic or)

  unfoldable pub mul_create : Expr → Expr → Expr
  mul_create l r = if get_width g l == 1 then arithmetic and l r else arithmetic mul l r

  unfoldable pub create_mul : Expr → Expr → Expr
  create_mul =
      create_with_partials (fold_arithmetic m mul) mul_partial_r (λ l w v. mul_partial_r w v l)
        mul_create
