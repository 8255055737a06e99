-- ===== src/Expressions/Temporary.antt =====
-- Expr::createTempRead of klee/lib/Expr/Expr.cpp, which reads a number from the first bytes of an
-- array, and the shortcuts for concatenations that it uses.
pub mod Laws
use learch.Prelude.{◌>>=◌, ℕ, Option, some}
use learch.Expressions.{Globals, Expr, constant, no_update}
use learch.Expressions.ApInt.{ApInt}
use learch.Expressions.Reads.{create_read}
use learch.Expressions.Slicing.{create_concat, create_zext}

-- The widths of the types in memory: Expr::Bool, Expr::Int8, Expr::Int16, Expr::Int32, Expr::Int64.
pub data Width : Type 0 where
  bool int8 int16 int32 int64 : Width

unfoldable pub bits : Width → ℕ
bits bool = 1
bits int8 = 8
bits int16 = 16
bits int32 = 32
bits int64 = 64

module _ (g : Globals) (m : ApInt) where
  -- `ReadExpr::create(ul, ConstantExpr::alloc(n, Expr::Int32))`.
  abbrev pub byte : ℕ → ℕ → Expr
  byte id n = create_read g m id no_update (constant 32 n)

  module _ (fuel : ℕ) where
    unfoldable pub create_concat4 : Expr → Expr → Expr → Expr → Option Expr
    create_concat4 kid1 kid2 kid3 kid4 = do
      low ← create_concat g m fuel kid3 kid4
      rest ← create_concat g m fuel kid2 low
      create_concat g m fuel kid1 rest

    unfoldable pub create_concat8 :
        Expr → Expr → Expr → Expr → Expr → Expr → Expr → Expr → Option Expr
    create_concat8 kid1 kid2 kid3 kid4 kid5 kid6 kid7 kid8 = do
      low ← create_concat4 kid5 kid6 kid7 kid8
      rest4 ← create_concat g m fuel kid4 low
      rest3 ← create_concat g m fuel kid3 rest4
      rest2 ← create_concat g m fuel kid2 rest3
      create_concat g m fuel kid1 rest2

    unfoldable pub create_temp_read : ℕ → Width → Option Expr
    create_temp_read id bool = create_zext g m fuel (byte id 0) 1
    create_temp_read id int8 = some (byte id 0)
    create_temp_read id int16 = create_concat g m fuel (byte id 1) (byte id 0)
    create_temp_read id int32 = create_concat4 (byte id 3) (byte id 2) (byte id 1) (byte id 0)
    create_temp_read id int64 =
        create_concat8 (byte id 7) (byte id 6) (byte id 5) (byte id 4) (byte id 3) (byte id 2)
          (byte id 1) (byte id 0)
