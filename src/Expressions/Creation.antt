-- ===== src/Expressions/Creation.antt =====
-- Expr::createFromKind of klee/lib/Expr/Expr.cpp on the binary kinds.
use learch.Prelude.{ℕ, ◌+◌, ◌<◌, ◌≡◌, refl, Option, some, Bool, true, false, ◌==◌, ◌&&◌, arith}
use learch.Expressions.{
  Globals, Expr, arithmetic, comparison, Arithmetic, add, sub, mul, udiv, sdiv, urem, srem, and, or,
  xor, shl, lshr, ashr, Comparison, eq, ne, ult, ule, ugt, uge, slt, sle, sgt, sge, get_width,
}
use learch.Expressions.ApInt.{ApInt}
use learch.Expressions.Meaning.{Assignment, well_typed, value, Means}
use learch.Expressions.Logical.{create_and, create_or, create_mul}
use learch.Expressions.Logical.Laws.{create_and-Means, create_or-Means}
use learch.Expressions.Logical.Product.{create_mul-Means}
use learch.Expressions.Equal.{create_eq, create_ne, create_xor}
use learch.Expressions.Equal.Laws.{create_eq-Means}
use learch.Expressions.Equal.Negation.{create_ne-Means, create_xor-Means}
use learch.Expressions.Sums.{create_add, create_sub, chain}
use learch.Expressions.Sums.Laws.{create_add_lem, create_sub_lem}
use learch.Expressions.Orders.{
  create_ult, create_ule, create_ugt, create_uge, create_slt, create_sle, create_sgt, create_sge,
  create_shl, create_lshr, create_ashr, create_udiv, create_sdiv, create_urem, create_srem,
}
use learch.Expressions.Orders.Laws.{
  create_ult-Means, create_ule-Means, create_ugt-Means, create_uge-Means, create_slt-Means,
  create_sle-Means, create_sgt-Means, create_sge-Means,
}
use learch.Expressions.Orders.Shifts.{create_shl-Means, create_lshr-Means, create_ashr-Means}
use learch.Expressions.Orders.Divisions.{
  Divides, create_udiv-Divides, create_sdiv-Divides, create_urem-Divides, create_srem-Divides,
}

abbrev pub is_division : Arithmetic → Bool
is_division udiv = true
is_division sdiv = true
is_division urem = true
is_division srem = true
is_division _ = false

module _ (g : Globals) (m : ApInt) where
  -- COMPARISON kinds.
  unfoldable pub create_comparison : Comparison → Expr → Expr → Expr
  create_comparison eq l r = create_eq g m l r
  create_comparison ne l r = create_ne g m l r
  create_comparison ult l r = create_ult g m l r
  create_comparison ule l r = create_ule g m l r
  create_comparison ugt l r = create_ugt g m l r
  create_comparison uge l r = create_uge g m l r
  create_comparison slt l r = create_slt g m l r
  create_comparison sle l r = create_sle g m l r
  create_comparison sgt l r = create_sgt g m l r
  create_comparison sge l r = create_sge g m l r

  -- ARITHMETIC kinds. The fuel is for sums.
  unfoldable pub create_arithmetic : ℕ → Arithmetic → Expr → Expr → Option Expr
  create_arithmetic fuel add l r = create_add g m fuel l r
  create_arithmetic fuel sub l r = create_sub g m fuel l r
  create_arithmetic fuel mul l r = some (create_mul g m l r)
  create_arithmetic fuel udiv l r = some (create_udiv g m l r)
  create_arithmetic fuel sdiv l r = some (create_sdiv g m l r)
  create_arithmetic fuel urem l r = some (create_urem g m l r)
  create_arithmetic fuel srem l r = some (create_srem g m l r)
  create_arithmetic fuel and l r = some (create_and g m l r)
  create_arithmetic fuel or l r = some (create_or g m l r)
  create_arithmetic fuel xor l r = some (create_xor g m l r)
  create_arithmetic fuel shl l r = some (create_shl g m l r)
  create_arithmetic fuel lshr l r = some (create_lshr g m l r)
  create_arithmetic fuel ashr l r = some (create_ashr g m l r)

  module _ (opt : g.const_array_opt ≡ false) where
    -- With `--const-array-opt` off, creating a comparison of any of the ten kinds from well-typed
    -- kids of equal width gives a well-typed Boolean expression that has the value of the plain
    -- comparison under every assignment.
    pub create_comparison-Means :
        (k : Comparison) (l r : Expr)
        → well_typed g (comparison k l r) ≡ true
        → Means g m (create_comparison k l r) (comparison k l r)
    unfolding create_comparison
    create_comparison-Means eq l r h = create_eq-Means g m opt l r h
    create_comparison-Means ne l r h = create_ne-Means g m opt l r h
    create_comparison-Means ult l r h = create_ult-Means g m opt l r h
    create_comparison-Means ule l r h = create_ule-Means g m opt l r h
    create_comparison-Means ugt l r h = create_ugt-Means g m opt l r h
    create_comparison-Means uge l r h = create_uge-Means g m opt l r h
    create_comparison-Means slt l r h = create_slt-Means g m opt l r h
    create_comparison-Means sle l r h = create_sle-Means g m opt l r h
    create_comparison-Means sgt l r h = create_sgt-Means g m opt l r h
    create_comparison-Means sge l r h = create_sge-Means g m opt l r h

    -- The created expression, and its value under the assignment `s`.
    abbrev Computes : Option Expr → Expr → Assignment → Type 0
    Computes o node s =
        (e : Expr) × (o ≡ some e)
        × (well_typed g e ≡ true)
        × (get_width g e ≡ get_width g node)
        × (value g m s e ≡ value g m s node)

    at_once : (e node : Expr) (s : Assignment) → Means g m e node → Computes (some e) node s
    at_once e node s (typed, width, same) = (e, refl, typed, width, same s)

    ended :
        (o : Option Expr) (node : Expr) (s : Assignment)
        → (e : Expr) × (o ≡ some e) × Means g m e node
        → Computes o node s
    ended o node s (e, ends, means) = (e, ends, means.0, means.1, means.2 s)

    divided :
        (k : Arithmetic) (e l r : Expr) (s : Assignment)
        → (true && value g m s r == 0) ≡ false
        → Divides g m k e l r
        → Computes (some e) (arithmetic k l r) s
    unfolding get_width
    divided k e l r s nonzero (typed, width, same) =
        (e, refl, typed, width, same s (ground (arith, nonzero)))

    -- With `--const-array-opt` off, creating an expression of any of the thirteen arithmetic kinds
    -- from well-typed kids of equal width ends within the given fuel if this exceeds the sums
    -- along the kids, and gives a well-typed expression of their width whose value under the
    -- assignment is that of the plain operation, provided a divisor is not 0 there.
    pub create_arithmetic_lem :
        (n : ℕ) (k : Arithmetic) (l r : Expr) (s : Assignment)
        → chain l + chain r < n
        → well_typed g (arithmetic k l r) ≡ true
        → (is_division k && value g m s r == 0) ≡ false
        → (e : Expr) × (create_arithmetic n k l r ≡ some e)
          × (well_typed g e ≡ true)
          × (get_width g e ≡ get_width g (arithmetic k l r))
          × (value g m s e ≡ value g m s (arithmetic k l r))
    unfolding create_arithmetic
    create_arithmetic_lem n add l r s fuel h d =
        ended (create_add g m n l r) (arithmetic add l r) s (create_add_lem g m opt n l r fuel h)
    create_arithmetic_lem n sub l r s fuel h d =
        ended (create_sub g m n l r) (arithmetic sub l r) s (create_sub_lem g m opt n l r fuel h)
    create_arithmetic_lem n mul l r s fuel h d =
        at_once (create_mul g m l r) (arithmetic mul l r) s (create_mul-Means g m l r h)
    create_arithmetic_lem n udiv l r s fuel h d =
        divided udiv (create_udiv g m l r) l r s d (create_udiv-Divides g m l r h)
    create_arithmetic_lem n sdiv l r s fuel h d =
        divided sdiv (create_sdiv g m l r) l r s d (create_sdiv-Divides g m l r h)
    create_arithmetic_lem n urem l r s fuel h d =
        divided urem (create_urem g m l r) l r s d (create_urem-Divides g m l r h)
    create_arithmetic_lem n srem l r s fuel h d =
        divided srem (create_srem g m l r) l r s d (create_srem-Divides g m l r h)
    create_arithmetic_lem n and l r s fuel h d =
        at_once (create_and g m l r) (arithmetic and l r) s (create_and-Means g m l r h)
    create_arithmetic_lem n or l r s fuel h d =
        at_once (create_or g m l r) (arithmetic or l r) s (create_or-Means g m l r h)
    create_arithmetic_lem n xor l r s fuel h d =
        at_once (create_xor g m l r) (arithmetic xor l r) s (create_xor-Means g m opt l r h)
    create_arithmetic_lem n shl l r s fuel h d =
        at_once (create_shl g m l r) (arithmetic shl l r) s (create_shl-Means g m opt l r h)
    create_arithmetic_lem n lshr l r s fuel h d =
        at_once (create_lshr g m l r) (arithmetic lshr l r) s (create_lshr-Means g m opt l r h)
    create_arithmetic_lem n ashr l r s fuel h d =
        at_once (create_ashr g m l r) (arithmetic ashr l r) s (create_ashr-Means g m opt l r h)
