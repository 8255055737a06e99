-- ===== src/Expressions/Sums.antt =====
-- AddExpr::create and SubExpr::create of klee/lib/Expr/Expr.cpp, which gather the constants of sums.
-- They recur on expressions that they have built, so they run on fuel.
pub mod Partial
pub mod Creating
pub mod Added
pub mod Subtracted
pub mod Laws
pub mod Right
pub mod Regrouping
pub mod Gathering
use mathlib.Core.Option.{map}
use learch.Prelude.{ℕ, zero, suc, ◌+◌, Option, none, some, Bool, ◌==◌, if◌then◌else◌}
use learch.Expressions.{
  Globals, Expr, constant, not_optimized, read, select, concat, extract, zext, sext, not_expr,
  arithmetic, comparison, Arithmetic, add, sub, mul, udiv, sdiv, urem, srem, and, or, xor, shl,
  lshr, ashr, get_width, as_constant,
}
use learch.Expressions.ApInt.{ApInt}
use learch.Expressions.Same.{same}
use learch.Expressions.Constants.{fold_arithmetic, is_zero}
use learch.Expressions.Equal.{xor_partial_r}

-- A sum or a difference whose left kid is a constant.
pub data Shape : Type 0 where
  constant_plus : ℕ → ℕ → Expr → Shape
  constant_minus : ℕ → ℕ → Expr → Shape
  no_sum : Shape

-- `rk==Expr::Add && isa<ConstantExpr>(r->getKid(0))`, and the same with Sub.
unfoldable pub shape : Expr → Shape
shape (arithmetic add l r) = elim (as_constant l) [
  | some (w, c) ↦ constant_plus w c r
  | none ↦ no_sum
]
shape (arithmetic sub l r) = elim (as_constant l) [
  | some (w, c) ↦ constant_minus w c r
  | none ↦ no_sum
]
shape _ = no_sum

module _ (g : Globals) (m : ApInt) where
  -- AddExpr::create or SubExpr::create on a constant and an expression, where `partial` is the
  -- result of the partial evaluation.
  abbrev pub with_constant_left : Arithmetic → ℕ → ℕ → Expr → Expr → Expr
  with_constant_left k w a r partial = elim (as_constant r) [
    | some (w', b) ↦ fold_arithmetic m k w a b
    | none ↦ partial
  ]

  -- The branches before the kinds are looked at.
  abbrev pub add_early : ℕ → ℕ → Expr → Expr → Expr
  add_early w v r by_kind =
      if w == 1 then xor_partial_r g m w v r else if is_zero v then r else by_kind

  abbrev pub sub_early : ℕ → ℕ → Expr → Expr → Expr
  sub_early w v r by_kind = if w == 1 then xor_partial_r g m w v r else by_kind

  unfoldable mutual
    pub add_partial_r : ℕ → ℕ → Expr → Expr
    -- A + (B+c) == (A+B) + c
    add_partial_r w v (arithmetic add l r) =
        add_early w v (arithmetic add l r) (elim (as_constant l) [
          | some (w', c) ↦
              with_constant_left add w (m.operate add w v c) r
                (add_partial_r w (m.operate add w v c) r)
          | none ↦ arithmetic add (constant w v) (arithmetic add l r)
        ])
    -- A + (B-c) == (A+B) - c
    add_partial_r w v (arithmetic sub l r) =
        add_early w v (arithmetic sub l r) (elim (as_constant l) [
          | some (w', c) ↦
              with_constant_left sub w (m.operate add w v c) r
                (sub_partial_r w (m.operate add w v c) r)
          | none ↦ arithmetic add (constant w v) (arithmetic sub l r)
        ])
    add_partial_r w v r = add_early w v r (arithmetic add (constant w v) r)

    pub sub_partial_r : ℕ → ℕ → Expr → Expr
    -- A - (B+c) == (A-B) - c
    sub_partial_r w v (arithmetic add l r) =
        sub_early w v (arithmetic add l r) (elim (as_constant l) [
          | some (w', c) ↦
              with_constant_left sub w (m.operate sub w v c) r
                (sub_partial_r w (m.operate sub w v c) r)
          | none ↦ arithmetic sub (constant w v) (arithmetic add l r)
        ])
    -- A - (B-c) == (A-B) + c
    sub_partial_r w v (arithmetic sub l r) =
        sub_early w v (arithmetic sub l r) (elim (as_constant l) [
          | some (w', c) ↦
              with_constant_left add w (m.operate sub w v c) r
                (add_partial_r w (m.operate sub w v c) r)
          | none ↦ arithmetic sub (constant w v) (arithmetic sub l r)
        ])
    sub_partial_r w v r = sub_early w v r (arithmetic sub (constant w v) r)

  -- l - c => l + (-c)
  unfoldable pub sub_partial : Expr → ℕ → ℕ → Expr
  sub_partial l w v = add_partial_r w (m.operate sub w 0 v) l

  -- The constructors where one kid is known to be a constant.
  abbrev pub create_add_left : ℕ → ℕ → Expr → Expr
  create_add_left w c r = with_constant_left add w c r (add_partial_r w c r)

  abbrev pub create_sub_left : ℕ → ℕ → Expr → Expr
  create_sub_left w c r = with_constant_left sub w c r (sub_partial_r w c r)

  abbrev pub create_sub_right : Expr → ℕ → ℕ → Expr
  create_sub_right l w c = elim (as_constant l) [
    | some (w', b) ↦ fold_arithmetic m sub w' b c
    | none ↦ sub_partial l w c
  ]

  -- `again_add` and `again_sub` are the calls of the constructors on smaller kids.
  module _ (again_add again_sub : Expr → Expr → Option Expr) where
    abbrev pub add_shapes : Shape → Shape → Expr → Expr → Option Expr
    -- (k+a)+b = k+(a+b)
    add_shapes (constant_plus w k a) _ l r = map (create_add_left w k) (again_add a r)
    -- (k-a)+b = k+(b-a)
    add_shapes (constant_minus w k a) _ l r = map (create_add_left w k) (again_sub r a)
    -- a + (k+b) = k+(a+b)
    add_shapes no_sum (constant_plus w k b) l r = map (create_add_left w k) (again_add l b)
    -- a + (k-b) = k+(a-b)
    add_shapes no_sum (constant_minus w k b) l r = map (create_add_left w k) (again_sub l b)
    add_shapes no_sum no_sum l r = some (arithmetic add l r)

    unfoldable pub add_create : Expr → Expr → Option Expr
    add_create l r =
        if get_width g l == 1 then some (arithmetic xor l r) else add_shapes (shape l) (shape r) l r

    abbrev pub sub_shapes : Shape → Shape → Expr → Expr → Option Expr
    -- (k+a)-b = k+(a-b)
    sub_shapes (constant_plus w k a) _ l r = map (create_add_left w k) (again_sub a r)
    -- (k-a)-b = k-(a+b)
    sub_shapes (constant_minus w k a) _ l r = map (create_sub_left w k) (again_add a r)
    -- a - (k+b) = (a-b) - k
    sub_shapes no_sum (constant_plus w k b) l r = map (λ d. create_sub_right d w k) (again_sub l b)
    -- a - (k-b) = (a+b) - k
    sub_shapes no_sum (constant_minus w k b) l r = map (λ d. create_sub_right d w k) (again_add l b)
    sub_shapes no_sum no_sum l r = some (arithmetic sub l r)

    unfoldable pub sub_create : Expr → Expr → Option Expr
    sub_create l r =
        if get_width g l == 1
        then some (arithmetic xor l r)
        else if same l r
        then some (constant (get_width g l) 0)
        else sub_shapes (shape l) (shape r) l r

  unfoldable mutual
    pub create_add : ℕ → Expr → Expr → Option Expr
    create_add zero l r = none
    create_add (suc fuel) l r = elim (as_constant l) [
      | some (w, a) ↦ some (create_add_left w a r)
      | none ↦ elim (as_constant r) [
        | some (w, b) ↦ some (add_partial_r w b l)
        | none ↦ add_create (create_add fuel) (create_sub fuel) l r
      ]
    ]

    pub create_sub : ℕ → Expr → Expr → Option Expr
    create_sub zero l r = none
    create_sub (suc fuel) l r = elim (as_constant l) [
      | some (w, a) ↦ some (create_sub_left w a r)
      | none ↦ elim (as_constant r) [
        | some (w, b) ↦ some (sub_partial l w b)
        | none ↦ sub_create (create_add fuel) (create_sub fuel) l r
      ]
    ]

-- The sums and differences along the right kids: what the recursion consumes.
unfoldable pub chain : Expr → ℕ
chain (arithmetic add l r) = suc (chain r)
chain (arithmetic sub l r) = suc (chain r)
chain _ = 0
