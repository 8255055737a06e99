-- ===== src/Expressions/Orders/Booleans.antt =====
-- The cases for Booleans of comparisons and shifts.
use learch.Prelude.{◌≡◌, refl, sym, ◌∙◌, ap, false, ◌==◌, ==→≡, if-cases}
use learch.Expressions.{Globals, Arithmetic, Comparison, Expr, arithmetic, comparison, get_width}
use learch.Expressions.ApInt.{ApInt}
use learch.Expressions.Meaning.{Assignment, number, value, Means}
use learch.Expressions.Constants.{fold_arithmetic, fold_comparison, create_folding}
use learch.Expressions.Rewriting.{Means-refl, arithmetic-Means}
use learch.Expressions.Dispatch.{fold_arithmetic-Means, fold_comparison-Means, create_folding-Means}
use learch.Expressions.Equal.{create_is_zero}
use learch.Expressions.Equal.Steps.{Typed}
use learch.Expressions.Equal.Negation.{IsZero, IsZero-value, create_is_zero-Means}
use learch.Expressions.Orders.{for_bool}

module _ (g : Globals) (m : ApInt) where
  pub arithmetic_for_bool-Means :
      (k : Arithmetic) (narrow : Expr → Expr → Expr) (l r : Expr)
      → Typed g m (arithmetic k l r)
      → (get_width g l ≡ 1 → Means g m (narrow l r) (arithmetic k l r))
      → Means g m
          (create_folding (fold_arithmetic m k) (for_bool g m narrow (arithmetic k)) l r)
          (arithmetic k l r)
  arithmetic_for_bool-Means k narrow l r h one_bit =
      create_folding-Means g m (arithmetic k) (fold_arithmetic m k) (fold_arithmetic-Means g m k) l
        r h (for_bool g m narrow (arithmetic k))
        (if-cases (λ e. Means g m e (arithmetic k l r)) (get_width g l == 1) (narrow l r)
          (arithmetic k l r) (λ e. one_bit (==→≡ (get_width g l) 1 e))
          (λ _. Means-refl g m (arithmetic k l r) h))

  pub comparison_for_bool-Means :
      (k : Comparison) (narrow : Expr → Expr → Expr) (l r : Expr)
      → Typed g m (comparison k l r)
      → (get_width g l ≡ 1 → Means g m (narrow l r) (comparison k l r))
      → Means g m
          (create_folding (fold_comparison m k) (for_bool g m narrow (comparison k)) l r)
          (comparison k l r)
  comparison_for_bool-Means k narrow l r h one_bit =
      create_folding-Means g m (comparison k) (fold_comparison m k) (fold_comparison-Means g m k) l
        r h (for_bool g m narrow (comparison k))
        (if-cases (λ e. Means g m e (comparison k l r)) (get_width g l == 1) (narrow l r)
          (comparison k l r) (λ e. one_bit (==→≡ (get_width g l) 1 e))
          (λ _. Means-refl g m (comparison k l r) h))

  -- A conjunction or a disjunction of two Booleans.
  module _ (k : Arithmetic) (create : Expr → Expr → Expr)
      (create-Means : (l r : Expr)
        → Typed g m (arithmetic k l r)
        → Means g m (create l r) (arithmetic k l r))
      (a b l r node : Expr) (ha : Means g m a l) (hb : Means g m b r) (wl : get_width g l ≡ 1)
      (wr : get_width g r ≡ 1) (width : get_width g node ≡ 1) where
    pub joined-Means :
        ((s : Assignment) → m.operate k 1 (value g m s l) (value g m s r) ≡ value g m s node)
        → Means g m (create a b) node
    unfolding get_width value
    joined-Means law =
        let kids = arithmetic-Means g m k a l b r ha hb (wl ∙ sym wr) in
        let (typed, width_e, same) = create-Means a b kids.0 in
        (
          typed,
          width_e ∙ ha.1 ∙ wl ∙ sym width,
          λ s.
              same s
              ∙ kids.2 s
              ∙ ap (λ w. m.operate k w (value g m s l) (value g m s r)) wl
              ∙ law s,
        )

  module _ (opt : g.const_array_opt ≡ false) (l r node : Expr) (hl : Typed g m l) (hr : Typed g m r)
      (wl : get_width g l ≡ 1) (wr : get_width g r ≡ 1) (width : get_width g node ≡ 1) where
    -- The left kid negated.
    pub not_left-Means :
        (k : Arithmetic) (create : Expr → Expr → Expr)
        → ((l r : Expr) → Typed g m (arithmetic k l r) → Means g m (create l r) (arithmetic k l r))
        → ((s : Assignment)
            → m.operate k 1 (number (value g m s l == 0)) (value g m s r) ≡ value g m s node)
        → Means g m (create (create_is_zero g m l) r) node
    unfolding get_width
    not_left-Means k create make law =
        joined-Means k create make (create_is_zero g m l) r (IsZero g m l) r node
          (create_is_zero-Means g m opt l hl) (Means-refl g m r hr) refl wr width
          (λ s. ap (λ x. m.operate k 1 x (value g m s r)) (IsZero-value g m l s) ∙ law s)

    pub not_right-Means :
        (k : Arithmetic) (create : Expr → Expr → Expr)
        → ((l r : Expr) → Typed g m (arithmetic k l r) → Means g m (create l r) (arithmetic k l r))
        → ((s : Assignment)
            → m.operate k 1 (value g m s l) (number (value g m s r == 0)) ≡ value g m s node)
        → Means g m (create l (create_is_zero g m r)) node
    unfolding get_width
    not_right-Means k create make law =
        joined-Means k create make l (create_is_zero g m r) l (IsZero g m r) node
          (Means-refl g m l hl) (create_is_zero-Means g m opt r hr) wl refl width
          (λ s. ap (m.operate k 1 (value g m s l)) (IsZero-value g m r s) ∙ law s)
