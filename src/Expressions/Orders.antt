-- ===== src/Expressions/Orders.antt =====
-- The comparisons, shifts and divisions of klee/lib/Expr/Expr.cpp, with their cases for Booleans.
pub mod Booleans
pub mod Divisions
pub mod Laws
pub mod Shifts
use learch.Prelude.{ℕ, Bool, ◌==◌, if◌then◌else◌}
use learch.Expressions.{
  Globals, Expr, constant, arithmetic, comparison, Arithmetic, udiv, sdiv, urem, srem, shl, lshr,
  ashr, Comparison, ult, ule, slt, sle, get_width,
}
use learch.Expressions.ApInt.{ApInt}
use learch.Expressions.Constants.{fold_arithmetic, fold_comparison, create_folding}
use learch.Expressions.Logical.{create_and, create_or}
use learch.Expressions.Equal.{create_is_zero}

module _ (g : Globals) (m : ApInt) where
  -- The result for Booleans, or the node itself.
  abbrev pub for_bool : (Expr → Expr → Expr) → (Expr → Expr → Expr) → Expr → Expr → Expr
  for_bool narrow node l r = if get_width g l == 1 then narrow l r else node l r

  -- !l && r
  unfoldable pub ult_create : Expr → Expr → Expr
  ult_create = for_bool (λ l r. create_and g m (create_is_zero g m l) r) (comparison ult)

  -- !(l && !r)
  unfoldable pub ule_create : Expr → Expr → Expr
  ule_create = for_bool (λ l r. create_or g m (create_is_zero g m l) r) (comparison ule)

  -- l && !r
  unfoldable pub slt_create : Expr → Expr → Expr
  slt_create = for_bool (λ l r. create_and g m l (create_is_zero g m r)) (comparison slt)

  -- !(!l && r)
  unfoldable pub sle_create : Expr → Expr → Expr
  sle_create = for_bool (λ l r. create_or g m l (create_is_zero g m r)) (comparison sle)

  unfoldable pub create_ult : Expr → Expr → Expr
  create_ult = create_folding (fold_comparison m ult) ult_create

  unfoldable pub create_ule : Expr → Expr → Expr
  create_ule = create_folding (fold_comparison m ule) ule_create

  unfoldable pub create_slt : Expr → Expr → Expr
  create_slt = create_folding (fold_comparison m slt) slt_create

  unfoldable pub create_sle : Expr → Expr → Expr
  create_sle = create_folding (fold_comparison m sle) sle_create

  unfoldable pub create_ugt : Expr → Expr → Expr
  create_ugt l r = create_ult r l

  unfoldable pub create_uge : Expr → Expr → Expr
  create_uge l r = create_ule r l

  unfoldable pub create_sgt : Expr → Expr → Expr
  create_sgt l r = create_slt r l

  unfoldable pub create_sge : Expr → Expr → Expr
  create_sge l r = create_sle r l

  -- l & !r
  unfoldable pub shl_create : Expr → Expr → Expr
  shl_create = for_bool (λ l r. create_and g m l (create_is_zero g m r)) (arithmetic shl)

  unfoldable pub lshr_create : Expr → Expr → Expr
  lshr_create = for_bool (λ l r. create_and g m l (create_is_zero g m r)) (arithmetic lshr)

  unfoldable pub ashr_create : Expr → Expr → Expr
  ashr_create = for_bool (λ l r. l) (arithmetic ashr)

  unfoldable pub create_shl : Expr → Expr → Expr
  create_shl = create_folding (fold_arithmetic m shl) shl_create

  unfoldable pub create_lshr : Expr → Expr → Expr
  create_lshr = create_folding (fold_arithmetic m lshr) lshr_create

  unfoldable pub create_ashr : Expr → Expr → Expr
  create_ashr = create_folding (fold_arithmetic m ashr) ashr_create

  -- Where the divisor is a Boolean it must be 1.
  unfoldable pub udiv_create : Expr → Expr → Expr
  udiv_create = for_bool (λ l r. l) (arithmetic udiv)

  unfoldable pub sdiv_create : Expr → Expr → Expr
  sdiv_create = for_bool (λ l r. l) (arithmetic sdiv)

  unfoldable pub urem_create : Expr → Expr → Expr
  urem_create = for_bool (λ l r. constant 1 0) (arithmetic urem)

  unfoldable pub srem_create : Expr → Expr → Expr
  srem_create = for_bool (λ l r. constant 1 0) (arithmetic srem)

  unfoldable pub create_udiv : Expr → Expr → Expr
  create_udiv = create_folding (fold_arithmetic m udiv) udiv_create

  unfoldable pub create_sdiv : Expr → Expr → Expr
  create_sdiv = create_folding (fold_arithmetic m sdiv) sdiv_create

  unfoldable pub create_urem : Expr → Expr → Expr
  create_urem = create_folding (fold_arithmetic m urem) urem_create

  unfoldable pub create_srem : Expr → Expr → Expr
  create_srem = create_folding (fold_arithmetic m srem) srem_create
