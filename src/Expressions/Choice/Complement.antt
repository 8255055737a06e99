-- ===== src/Expressions/Choice/Complement.antt =====
-- The meaning of complements and implications as they are created.
use mathlib.Core.Path.{subst}
use learch.Prelude.{ℕ, ◌^◌, ◌<◌, ◌≡◌, refl, sym, ◌∙◌, ap, false, ◌==◌, ◌||◌, not, arith, pow_pos}
use learch.Expressions.{Globals, Expr, constant, arithmetic, not_expr, or, get_width}
use learch.Expressions.ApInt.{ApInt}
use learch.Expressions.Meaning.{Assignment, number, well_typed, value, Means}
use learch.Expressions.Values.{value-lt_at}
use learch.Expressions.Constants.{as_constant-cases, fold_not}
use learch.Expressions.Rewriting.{constant_typed}
use learch.Expressions.Dispatch.{constant_pos}
use learch.Expressions.OneBit.{all_pairs, or_bit}
use learch.Expressions.Logical.{create_or}
use learch.Expressions.Logical.Laws.{create_or-Means}
use learch.Expressions.Equal.Steps.{Typed}
use learch.Expressions.Equal.Negation.{IsZero, IsZero-value}
use learch.Expressions.Orders.Booleans.{not_left-Means}
use learch.Expressions.Choice.{create_not, create_implies}

module _ (g : Globals) (m : ApInt) where
  pub create_not-Means : (e : Expr) → Typed g m e → Means g m (create_not g m e) (not_expr e)
  unfolding create_not well_typed get_width value fold_not
  create_not-Means e h =
      as_constant-cases (λ x. Means g m x (not_expr e)) e (fold_not m) (not_expr e)
        (λ w v q.
          subst (λ x. Means g m (fold_not m w v) (not_expr x)) (sym q)
            (let hc : Typed g m (constant w v) = subst (Typed g m) q h in
              let small : m.complement w v < 2 ^ w =
                rw (m.complement_law w v) (omega (arith, pow_pos w)) in
              (
                constant_typed g m w (m.complement w v) (constant_pos g m w v hc) small,
                refl,
                λ s. refl,
              )))
        (h, refl, λ s. refl)

  implied :
      (a b : ℕ)
      → a < 2 ^ 1
      → b < 2 ^ 1
      → m.operate or 1 (number (a == 0)) b ≡ number (not (a == 1) || b == 1)
  implied =
      all_pairs (λ a b. m.operate or 1 (number (a == 0)) b ≡ number (not (a == 1) || b == 1))
        (or_bit m 1 0 (omega arith) (omega arith)) (or_bit m 1 1 (omega arith) (omega arith))
        (or_bit m 0 0 (omega arith) (omega arith)) (or_bit m 0 1 (omega arith) (omega arith))

  module _ (opt : g.const_array_opt ≡ false) where
    -- With `--const-array-opt` off, creating an implication of well-typed Boolean expressions
    -- gives a well-typed expression whose value, under every assignment, is 1 where the premise is
    -- not 1 or the conclusion is, and 0 elsewhere.
    pub create_implies_lem :
        (hyp conc : Expr)
        → Typed g m hyp
        → Typed g m conc
        → get_width g hyp ≡ 1
        → get_width g conc ≡ 1
        → Typed g m (create_implies g m hyp conc)
          × ((s : Assignment)
              → value g m s (create_implies g m hyp conc)
                ≡ number (not (value g m s hyp == 1) || value g m s conc == 1))
    unfolding create_implies get_width value
    create_implies_lem hyp conc hh hc wh wc =
        let node = arithmetic or (IsZero g m hyp) conc in
        let (typed, width, same) =
          not_left-Means g m opt hyp conc node hh hc wh wc refl or (create_or g m)
            (create_or-Means g m)
            (λ s. ap (λ x. m.operate or 1 x (value g m s conc)) (sym (IsZero-value g m hyp s))) in
        (
          typed,
          λ s.
              same s
              ∙ ap (λ x. m.operate or 1 x (value g m s conc)) (IsZero-value g m hyp s)
              ∙ implied (value g m s hyp) (value g m s conc) (value-lt_at g m s hyp 1 hh wh)
                  (value-lt_at g m s conc 1 hc wc),
        )
