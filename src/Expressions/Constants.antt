-- ===== src/Expressions/Constants.antt =====
-- Constant folding, the operations of ConstantExpr, and the dispatch on constant kids that the macros
-- BCREATE_R, CMPCREATE_T, BCREATE and CMPCREATE of klee/lib/Expr/Expr.cpp write out.
use learch.Prelude.{
  ℕ, ◌+◌, ◌-◌, ◌^◌, ◌≡◌, none, some, Bool, ◌==◌, inl, inr, Option-cases, none≢some,
}
use learch.Expressions.{Arithmetic, or, shl, ashr, Comparison, Expr, constant, as_constant}
use learch.Expressions.ApInt.{ApInt}
use learch.Expressions.Meaning.{number}

abbrev pub is_zero : ℕ → Bool
is_zero v = v == 0

abbrev pub is_one : ℕ → Bool
is_one v = v == 1

abbrev pub is_all_ones : ℕ → ℕ → Bool
is_all_ones w v = v == 2 ^ w - 1

module _ (m : ApInt) where
  unfoldable pub fold_arithmetic : Arithmetic → ℕ → ℕ → ℕ → Expr
  fold_arithmetic k w a b = constant w (m.operate k w a b)

  unfoldable pub fold_comparison : Comparison → ℕ → ℕ → ℕ → Expr
  fold_comparison k w a b = constant 1 (number (m.holds k w a b))

  unfoldable pub fold_concat : ℕ → ℕ → ℕ → ℕ → Expr
  fold_concat w a w' b = constant (w + w') (
      m.operate or (w + w') (m.operate shl (w + w') (m.zext_or_trunc w (w + w') a) w')
        (m.zext_or_trunc w' (w + w') b))

  unfoldable pub fold_extract : ℕ → ℕ → ℕ → ℕ → Expr
  fold_extract w a off w' = constant w' (m.zext_or_trunc w w' (m.operate ashr w a off))

  unfoldable pub fold_zext : ℕ → ℕ → ℕ → Expr
  fold_zext w a w' = constant w' (m.zext_or_trunc w w' a)

  unfoldable pub fold_sext : ℕ → ℕ → ℕ → Expr
  fold_sext w a w' = constant w' (m.sext_or_trunc w w' a)

  unfoldable pub fold_not : ℕ → ℕ → Expr
  fold_not w a = constant w (m.complement w a)

-- BCREATE_R and CMPCREATE_T.
module _ (fold : ℕ → ℕ → ℕ → Expr) (partial_r : ℕ → ℕ → Expr → Expr)
    (partial_l : Expr → ℕ → ℕ → Expr) (general : Expr → Expr → Expr) where
  unfoldable pub create_with_partials : Expr → Expr → Expr
  create_with_partials l r = elim (as_constant l) [
    | some (w, a) ↦ elim (as_constant r) [ some (w', b) ↦ fold w a b | none ↦ partial_r w a r ]
    | none ↦ elim (as_constant r) [ some (w', b) ↦ partial_l l w' b | none ↦ general l r ]
  ]

-- BCREATE and CMPCREATE.
module _ (fold : ℕ → ℕ → ℕ → Expr) (general : Expr → Expr → Expr) where
  unfoldable pub create_folding : Expr → Expr → Expr
  create_folding l r = elim (as_constant l) [
    | some (w, a) ↦ elim (as_constant r) [ some (w', b) ↦ fold w a b | none ↦ general l r ]
    | none ↦ general l r
  ]

pub as_constant-≡ : (e : Expr) (w v : ℕ) → as_constant e ≡ some (w, v) → e ≡ constant w v
unfolding as_constant
as_constant-≡ (constant w' v') w v h = cc
as_constant-≡ _ w v h = absurd (none≢some h)

-- Every branch of the dispatch.
pub create_with_partials-cases :
    (P : Expr → Type 0) (fold : ℕ → ℕ → ℕ → Expr) (partial_r : ℕ → ℕ → Expr → Expr)
    (partial_l : Expr → ℕ → ℕ → Expr) (general : Expr → Expr → Expr) (l r : Expr)
    → ((w a w' b : ℕ) → l ≡ constant w a → r ≡ constant w' b → P (fold w a b))
    → ((w a : ℕ) → l ≡ constant w a → P (partial_r w a r))
    → ((w b : ℕ) → r ≡ constant w b → P (partial_l l w b))
    → P (general l r)
    → P (create_with_partials fold partial_r partial_l general l r)
unfolding create_with_partials
create_with_partials-cases P fold partial_r partial_l general l r both left right neither =
    elim (Option-cases (as_constant l)) [
      | inl none_l ↦ elim (Option-cases (as_constant r)) [
        | inl none_r ↦ rw (create_with_partials, none_l, none_r) neither
        | inr ((w', b), e') ↦
            rw (create_with_partials, none_l, e') (right w' b (as_constant-≡ r w' b e'))
      ]
      | inr ((w, a), e) ↦ elim (Option-cases (as_constant r)) [
        | inl none_r ↦ rw (create_with_partials, e, none_r) (left w a (as_constant-≡ l w a e))
        | inr ((w', b), e') ↦
            rw (create_with_partials, e, e')
              (both w a w' b (as_constant-≡ l w a e) (as_constant-≡ r w' b e'))
      ]
    ]

pub create_folding-cases :
    (P : Expr → Type 0) (fold : ℕ → ℕ → ℕ → Expr) (general : Expr → Expr → Expr) (l r : Expr)
    → ((w a w' b : ℕ) → l ≡ constant w a → r ≡ constant w' b → P (fold w a b))
    → P (general l r)
    → P (create_folding fold general l r)
unfolding create_folding
create_folding-cases P fold general l r both otherwise = elim (Option-cases (as_constant l)) [
  | inl none_l ↦ rw (create_folding, none_l) otherwise
  | inr ((w, a), e) ↦ elim (Option-cases (as_constant r)) [
    | inl none_r ↦ rw (create_folding, e, none_r) otherwise
    | inr ((w', b), e') ↦
        rw (create_folding, e, e') (both w a w' b (as_constant-≡ l w a e) (as_constant-≡ r w' b e'))
  ]
]

-- Both outcomes of a cast.
pub as_constant-cases :
    (P : Expr → Type 0) (e : Expr) (f : ℕ → ℕ → Expr) (otherwise : Expr)
    → ((w c : ℕ) → e ≡ constant w c → P (f w c))
    → P otherwise
    → P (elim (as_constant e) [ some (w, c) ↦ f w c | none ↦ otherwise ])
as_constant-cases P e f otherwise here there = elim (Option-cases (as_constant e)) [
  | inl other ↦ rw other there
  | inr ((w, c), q) ↦ rw q (here w c (as_constant-≡ e w c q))
]
