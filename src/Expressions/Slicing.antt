-- ===== src/Expressions/Slicing.antt =====
-- ConcatExpr::create, ExtractExpr::create, ZExtExpr::create and SExtExpr::create of
-- klee/lib/Expr/Expr.cpp. The first two call each other on kids of what they built, so they run on
-- fuel. The width of a slice of the left kid, `w - r + off` in the source, is `(w + off) - r`, which
-- does not wrap.
pub mod Parts
pub mod Extension
pub mod Merging
pub mod Halves
pub mod Laws
use mathlib.Core.Option.{map}
use learch.Prelude.{
  ℕ, zero, suc, ◌+◌, ◌-◌, List, [], ◌∷◌, Option, none, some, Bool, ◌==◌, ltb, leb, ◌&&◌,
  if◌then◌else◌,
}
use learch.Expressions.{
  Globals, Expr, constant, not_optimized, read, select, concat, extract, zext, sext, not_expr,
  arithmetic, comparison, get_width, as_constant,
}
use learch.Expressions.ApInt.{ApInt}
use learch.Expressions.Same.{same}
use learch.Expressions.Constants.{fold_concat, fold_extract, fold_zext, fold_sext}

-- `dyn_cast<ExtractExpr>`: the kid, the offset and the width.
unfoldable pub as_extract : Expr → Option (Expr × ℕ × ℕ)
as_extract (extract e off w) = some (e, off, w)
as_extract _ = none

module _ (g : Globals) (m : ApInt) where
  -- `again` is ExtractExpr::create.
  module _ (again : Expr → ℕ → ℕ → Option Expr) where
    -- Merge contiguous Extracts
    unfoldable pub merge_extracts : Expr → Expr → Option Expr
    merge_extracts l r = elim (as_extract l) [
      | some (e, off, w) ↦ elim (as_extract r) [
        | some (e', off', w') ↦
            if same e e' && off' + w' == off
            then again e off' (get_width g l + get_width g r)
            else some (concat l r)
        | none ↦ some (concat l r)
      ]
      | none ↦ some (concat l r)
    ]

    unfoldable pub concat_create : Expr → Expr → Option Expr
    concat_create l r = elim (as_constant l) [
      | some (w, a) ↦ elim (as_constant r) [
        | some (w', b) ↦ some (fold_concat m w a w' b)
        | none ↦ merge_extracts l r
      ]
      | none ↦ merge_extracts l r
    ]

    -- ExtractExpr::create on a concatenation.
    unfoldable pub extract_concat : Expr → Expr → ℕ → ℕ → Option Expr
    extract_concat l r off w =
        if leb (get_width g r) off
        then again l (off - get_width g r) w
        else if leb (off + w) (get_width g r)
        then again r off w
        -- E(C(x,y)) = C(E(x), E(y))
        else elim (again l 0 ((w + off) - get_width g r)) [
          | some x ↦ elim (again r off (get_width g r - off)) [
            | some y ↦ concat_create x y
            | none ↦ none
          ]
          | none ↦ none
        ]

    unfoldable pub extract_kind : Expr → ℕ → ℕ → Option Expr
    extract_kind (constant w' v) off w = some (fold_extract m w' v off w)
    extract_kind (concat l r) off w = extract_concat l r off w
    extract_kind e off w = some (extract e off w)

  unfoldable pub create_extract : ℕ → Expr → ℕ → ℕ → Option Expr
  create_extract zero e off w = none
  create_extract (suc fuel) e off w =
      if w == get_width g e then some e else extract_kind (create_extract fuel) e off w

  unfoldable pub create_concat : ℕ → Expr → Expr → Option Expr
  create_concat fuel = concat_create (create_extract fuel)

  unfoldable pub create_zext : ℕ → Expr → ℕ → Option Expr
  create_zext fuel e w =
      if w == get_width g e
      then some e
      else if ltb w (get_width g e)
      then create_extract fuel e 0 w
      else elim (as_constant e) [
        | some (w', v) ↦ some (fold_zext m w' v w)
        | none ↦ some (zext e w)
      ]

  unfoldable pub create_sext : ℕ → Expr → ℕ → Option Expr
  create_sext fuel e w =
      if w == get_width g e
      then some e
      else if ltb w (get_width g e)
      then create_extract fuel e 0 w
      else elim (as_constant e) [
        | some (w', v) ↦ some (fold_sext m w' v w)
        | none ↦ some (sext e w)
      ]

-- The nodes that extraction and concatenation look through: what the recursion consumes.
unfoldable pub slices : Expr → ℕ
slices (concat l r) = suc (slices l + slices r)
slices (extract e _ _) = suc (slices e)
slices _ = 0
