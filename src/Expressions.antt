-- ===== src/Expressions.antt =====
-- The expressions of klee/include/klee/Expr/Expr.h and klee/lib/Expr/Expr.cpp: their kinds, widths
-- and kids. A `ref<Expr>` is the tree that it points to; an array, which is compared as a pointer,
-- is a number that `Globals` looks up.
mod Tests
pub mod ApInt
pub mod Meaning
pub mod Same
pub mod Creation
pub mod Queries
pub mod Temporary
pub mod Reads
pub mod Ranges
pub mod Slicing
pub mod Slices
pub mod Choice
pub mod Orders
pub mod Sums
pub mod Equal
pub mod Extending
pub mod Words
pub mod OneBit
pub mod Dispatch
pub mod Logical
pub mod Rewriting
pub mod Constants
pub mod Values
use learch.Prelude.{ℕ, ◌+◌, List, Option, none, some, Bool}

-- The binary kinds whose result has the width of the kids.
pub data Arithmetic : Type 0 where
  add sub mul udiv sdiv urem srem and or xor shl lshr ashr : Arithmetic

-- The binary kinds whose result is a Boolean.
pub data Comparison : Type 0 where
  eq ne ult ule ugt uge slt sle sgt sge : Comparison

-- `constant_values` is empty for a symbolic array.
pub record Array : Type 0 where
  pub size : ℕ
  pub domain : ℕ
  pub range : ℕ
  pub constant_values : List ℕ

-- What the functions read beside their arguments: the arrays, which live for ever, and the option
-- `--const-array-opt`.
pub record Globals : Type 0 where
  pub arrays : ℕ → Array
  pub const_array_opt : Bool

mutual
  pub data Expr : Type 0 where
    -- width and value
    constant : ℕ → ℕ → Expr
    not_optimized : Expr → Expr
    -- an UpdateList, which is an array and its updates, and an index
    read : ℕ → Updates → Expr → Expr
    select : Expr → Expr → Expr → Expr
    concat : Expr → Expr → Expr
    -- offset and width
    extract : Expr → ℕ → ℕ → Expr
    -- the width to extend to
    zext sext : Expr → ℕ → Expr
    not_expr : Expr → Expr
    arithmetic : Arithmetic → Expr → Expr → Expr
    comparison : Comparison → Expr → Expr → Expr

  -- The chain of UpdateNodes, the most recent first, each an index and a value.
  pub data Updates : Type 0 where
    no_update : Updates
    update : Expr → Expr → Updates → Updates

-- `dyn_cast<ConstantExpr>`.
unfoldable pub as_constant : Expr → Option (ℕ × ℕ)
as_constant (constant w v) = some (w, v)
as_constant (not_optimized _) = none
as_constant (read _ _ _) = none
as_constant (select _ _ _) = none
as_constant (concat _ _) = none
as_constant (extract _ _ _) = none
as_constant (zext _ _) = none
as_constant (sext _ _) = none
as_constant (not_expr _) = none
as_constant (arithmetic _ _ _) = none
as_constant (comparison _ _ _) = none

module _ (g : Globals) where
  unfoldable pub get_width : Expr → ℕ
  get_width (constant w _) = w
  get_width (not_optimized e) = get_width e
  get_width (read id _ _) = (g.arrays id).range
  get_width (select _ t _) = get_width t
  get_width (concat l r) = get_width l + get_width r
  get_width (extract _ _ w) = w
  get_width (zext _ w) = w
  get_width (sext _ w) = w
  get_width (not_expr e) = get_width e
  get_width (arithmetic _ l _) = get_width l
  get_width (comparison _ _ _) = 1
