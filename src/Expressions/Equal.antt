-- ===== src/Expressions/Equal.antt =====
-- EqExpr::create with its partial evaluation, Expr::createIsZero, NeExpr::create and
-- XorExpr::create of klee/lib/Expr/Expr.cpp.
pub mod Moving
pub mod Steps
pub mod Negation
pub mod Laws
pub mod Parts
use learch.Prelude.{
  ℕ, zero, suc, ◌+◌, ◌%◌, ◌^◌, List, [], ◌∷◌, Option, none, some, Bool, true, false, not, ◌==◌, ltb,
  ◌&&◌, ◌||◌, if◌then◌else◌,
}
use learch.Expressions.{
  Globals, Expr, Updates, constant, not_optimized, read, select, concat, extract, zext, sext,
  not_expr, arithmetic, comparison, add, sub, mul, udiv, sdiv, urem, srem, and, or, xor, shl, lshr,
  ashr, eq, no_update, update, get_width, as_constant,
}
use learch.Expressions.ApInt.{ApInt}
use learch.Expressions.Same.{same}
use learch.Expressions.Constants.{fold_arithmetic, fold_comparison, create_with_partials, is_zero}
use learch.Expressions.Logical.{create_and, create_or}

abbrev pub is_true : ℕ → Bool
is_true v = not (v == 0)

abbrev pub is_false : ℕ → Bool
is_false v = v == 0

unfoldable pub eq_create : Expr → Expr → Expr
eq_create l r = if same l r then constant 1 1 else comparison eq l r

-- `UpdateList::getSize` is not 0.
abbrev pub has_updates : Updates → Bool
has_updates no_update = false
has_updates (update _ _ _) = true

abbrev pub is_symbolic_array : List ℕ → Bool
is_symbolic_array [] = true
is_symbolic_array (_ ∷ _) = false

-- The branch for Booleans, where `unless` is the result for a false constant.
abbrev pub eq_bool : ℕ → Expr → Expr → Expr
eq_bool v r unless = if is_true v then r else unless

-- The branches with no case for the kind.
abbrev pub eq_other : ℕ → ℕ → Expr → Expr
eq_other w v r =
    if w == 1 then eq_bool v r (eq_create (constant w v) r) else eq_create (constant w v) r

module _ (g : Globals) (m : ApInt) where
  -- EqExpr::create on an expression and the constant of width `w` and value `v`, where `rest` is the
  -- result of the partial evaluation.
  abbrev pub eq_constant : Expr → ℕ → ℕ → Expr → Expr
  eq_constant e w v rest = elim (as_constant e) [
    | some (w', v') ↦ fold_comparison m eq w' v' v
    | none ↦ rest
  ]

  -- 0 == (0 == A) => A
  unfoldable pub double_negation : Expr → Expr → Expr → Expr
  double_negation left right otherwise = elim (as_constant left) [
    | some (w, v) ↦ if w == 1 && is_false v then right else otherwise
    | none ↦ otherwise
  ]

  -- The loop over the array's values from number `i`, where `matches` were found.
  unfoldable pub const_array_loop : (ℕ → Expr) → Expr → ℕ → List ℕ → ℕ → ℕ → Expr → Expr
  const_array_loop eq_index initial v [] i matches res = res
  const_array_loop eq_index initial v (c ∷ cs) i matches res =
      if v == c
      then if ltb 100 (matches + 1)
        then initial
        else const_array_loop eq_index initial v cs (i + 1) (matches + 1)
            (create_or g m res (eq_index i))
      else const_array_loop eq_index initial v cs (i + 1) matches res

  unfoldable pub try_const_array_opt : ℕ → ℕ → ℕ → Updates → Expr → (ℕ → Expr) → Expr
  try_const_array_opt w v id us i eq_index =
      if is_symbolic_array (g.arrays id).constant_values || has_updates us
      then eq_create (constant w v) (read id us i)
      else const_array_loop eq_index (eq_create (constant w v) (read id us i)) v
          (g.arrays id).constant_values 0 0 (constant 1 0)

  unfoldable pub eq_partial_r : ℕ → ℕ → Expr → Expr
  eq_partial_r w v (comparison eq l r) =
      if w == 1
      then eq_bool v (comparison eq l r)
          (double_negation l r (eq_create (constant w v) (comparison eq l r)))
      else eq_create (constant w v) (comparison eq l r)
  -- not(or(a,b)) to and(not a, not b)
  eq_partial_r w v (arithmetic or l r) =
      if w == 1
      then eq_bool v (arithmetic or l r) (
          create_and g m (eq_constant l (get_width g l) 0 (eq_partial_r (get_width g l) 0 l))
            (eq_constant r (get_width g r) 0 (eq_partial_r (get_width g r) 0 r)))
      else eq_create (constant w v) (arithmetic or l r)
  eq_partial_r w v (sext e w') =
      if w == 1
      then eq_bool v (sext e w') (eq_create (constant w v) (sext e w'))
      else let from = get_width g e in
        let trunc = m.zext_or_trunc w from v in
        if v == m.sext_or_trunc from w trunc
        then eq_constant e from trunc (eq_partial_r from trunc e)
        else constant 1 0
  eq_partial_r w v (zext e w') =
      if w == 1
      then eq_bool v (zext e w') (eq_create (constant w v) (zext e w'))
      else let from = get_width g e in
        let trunc = m.zext_or_trunc w from v in
        if v == m.zext_or_trunc from w trunc
        then eq_constant e from trunc (eq_partial_r from trunc e)
        else constant 1 0
  -- c0 = c1 + b => c0 - c1 = b
  eq_partial_r w v (arithmetic add l r) =
      if w == 1
      then eq_bool v (arithmetic add l r) (eq_create (constant w v) (arithmetic add l r))
      else elim (as_constant l) [
        | some (w', c) ↦ eq_partial_r w (m.operate sub w v c) r
        | none ↦ eq_create (constant w v) (arithmetic add l r)
      ]
  -- c0 = c1 - b => c1 - c0 = b
  eq_partial_r w v (arithmetic sub l r) =
      if w == 1
      then eq_bool v (arithmetic sub l r) (eq_create (constant w v) (arithmetic sub l r))
      else elim (as_constant l) [
        | some (w', c) ↦ eq_partial_r w' (m.operate sub w' c v) r
        | none ↦ eq_create (constant w v) (arithmetic sub l r)
      ]
  eq_partial_r w v (read id us i) =
      if w == 1
      then eq_bool v (read id us i) (eq_create (constant w v) (read id us i))
      else if g.const_array_opt
      then try_const_array_opt w v id us i (λ n.
        let index = n % 2 ^ get_width g i in
        eq_constant i (get_width g i) index (eq_partial_r (get_width g i) index i))
      else eq_create (constant w v) (read id us i)
  eq_partial_r w v r = eq_other w v r

  unfoldable pub create_eq : Expr → Expr → Expr
  create_eq =
      create_with_partials (fold_comparison m eq) eq_partial_r (λ l w v. eq_partial_r w v l)
        eq_create

  unfoldable pub create_is_zero : Expr → Expr
  create_is_zero e = create_eq e (constant (get_width g e) 0)

  unfoldable pub create_ne : Expr → Expr → Expr
  create_ne l r = create_eq (constant 1 0) (create_eq l r)

  unfoldable pub xor_partial_r : ℕ → ℕ → Expr → Expr
  xor_partial_r w v r =
      if is_zero v
      then r
      else if w == 1
      then eq_partial_r 1 0 r
      else arithmetic xor (constant w v) r

  unfoldable pub create_xor : Expr → Expr → Expr
  create_xor =
      create_with_partials (fold_arithmetic m xor) xor_partial_r (λ l w v. xor_partial_r w v l)
        (arithmetic xor)
