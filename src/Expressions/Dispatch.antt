-- ===== src/Expressions/Dispatch.antt =====
-- What the dispatch on constant kids gives, once its branches are right.
use mathlib.Core.Path.{subst}
use learch.Prelude.{ℕ, ◌^◌, ◌<◌, ◌≡◌, refl, sym, true, both, ltb→lt, arith}
use learch.Expressions.{
  Globals, Arithmetic, Comparison, Expr, constant, arithmetic, comparison, get_width,
}
use learch.Expressions.ApInt.{ApInt}
use learch.Expressions.Meaning.{number, well_typed, value, Means}
use learch.Expressions.Constants.{
  fold_arithmetic, fold_comparison, create_with_partials, create_with_partials-cases,
  create_folding, create_folding-cases,
}
use learch.Expressions.Values.{number-lt}
use learch.Expressions.Rewriting.{constant_typed, arithmetic-Pair}

module _ (g : Globals) (m : ApInt) where
  pub constant_pos : (w v : ℕ) → well_typed g (constant w v) ≡ true → 0 < w
  unfolding well_typed
  constant_pos w v h = ltb→lt 0 w (both h).0

  pub constant-lt : (w v : ℕ) → well_typed g (constant w v) ≡ true → v < 2 ^ w
  unfolding well_typed
  constant-lt w v h = ltb→lt v (2 ^ w) (both h).1

  pub fold_arithmetic-Means :
      (k : Arithmetic) (w a w' b : ℕ)
      → well_typed g (arithmetic k (constant w a) (constant w' b)) ≡ true
      → Means g m (fold_arithmetic m k w a b) (arithmetic k (constant w a) (constant w' b))
  unfolding value get_width fold_arithmetic
  fold_arithmetic-Means k w a w' b h =
      let (hl, _, _) = arithmetic-Pair g m k (constant w a) (constant w' b) h in
      (
        constant_typed g m w (m.operate k w a b) (constant_pos w a hl) (m.operate-lt k w a b),
        refl,
        λ s. refl,
      )

  pub fold_comparison-Means :
      (k : Comparison) (w a w' b : ℕ)
      → well_typed g (comparison k (constant w a) (constant w' b)) ≡ true
      → Means g m (fold_comparison m k w a b) (comparison k (constant w a) (constant w' b))
  unfolding value get_width fold_comparison
  fold_comparison-Means k w a w' b h = (
    constant_typed g m 1 (number (m.holds k w a b)) (omega arith) (number-lt (m.holds k w a b)),
    refl,
    λ s. refl,
  )

  module _ (node : Expr → Expr → Expr) (fold : ℕ → ℕ → ℕ → Expr)
      (fold-Means : (w a w' b : ℕ)
        → well_typed g (node (constant w a) (constant w' b)) ≡ true
        → Means g m (fold w a b) (node (constant w a) (constant w' b)))
      (l r : Expr) (typed : well_typed g (node l r) ≡ true) where
    folded :
        (w a w' b : ℕ) → l ≡ constant w a → r ≡ constant w' b → Means g m (fold w a b) (node l r)
    folded w a w' b el er =
        let typed' : well_typed g (node (constant w a) (constant w' b)) ≡ true =
          rw (sym el, sym er) typed in
        rw (el, er) (fold-Means w a w' b typed')

    pub create_folding-Means :
        (general : Expr → Expr → Expr)
        → Means g m (general l r) (node l r)
        → Means g m (create_folding fold general l r) (node l r)
    create_folding-Means general otherwise =
        create_folding-cases (λ e. Means g m e (node l r)) fold general l r folded otherwise

    pub create_with_partials-Means :
        (partial_r : ℕ → ℕ → Expr → Expr) (partial_l : Expr → ℕ → ℕ → Expr)
        (general : Expr → Expr → Expr)
        → ((w a : ℕ)
            → well_typed g (node (constant w a) r) ≡ true
            → Means g m (partial_r w a r) (node (constant w a) r))
        → ((w b : ℕ)
            → well_typed g (node l (constant w b)) ≡ true
            → Means g m (partial_l l w b) (node l (constant w b)))
        → Means g m (general l r) (node l r)
        → Means g m (create_with_partials fold partial_r partial_l general l r) (node l r)
    create_with_partials-Means partial_r partial_l general left right otherwise =
        create_with_partials-cases (λ e. Means g m e (node l r)) fold partial_r partial_l general l
          r folded
          (λ w a e.
            subst (λ x. Means g m (partial_r w a r) (node x r)) (sym e)
              (left w a (subst (λ x. well_typed g (node x r) ≡ true) e typed)))
          (λ w b e.
            subst (λ x. Means g m (partial_l l w b) (node l x)) (sym e)
              (right w b (subst (λ x. well_typed g (node l x) ≡ true) e typed)))
          otherwise
