-- ===== src/Expressions/Sums/Added.antt =====
-- One step of AddExpr_create.
use learch.Prelude.{
  ℕ, suc, ◌+◌, ◌<◌, ◌≡◌, refl, ◌∙◌, ap, Option, some, false, ◌==◌, inl, inr, ==→≡, if-cases, arith,
}
use learch.Expressions.{Globals, Expr, constant, arithmetic, add, sub, xor, get_width}
use learch.Expressions.ApInt.{ApInt}
use learch.Expressions.Rewriting.{Means-refl, arithmetic-Pair, at_one_bit}
use learch.Expressions.Equal.Steps.{Typed}
use learch.Expressions.Sums.{
  constant_plus, constant_minus, no_sum, shape, chain, create_add_left, add_shapes, add_create,
}
use learch.Expressions.Sums.Partial.{xor-add}
use learch.Expressions.Sums.Regrouping.{add_plus_left, add_minus_left}
use learch.Expressions.Sums.Right.{add_plus_right, add_minus_right}
use learch.Expressions.Sums.Creating.{
  Nested, shape-cases, Creates, nested_left, nested_right, Typed-of, chain_plus, chain_minus,
}

module _ (g : Globals) (m : ApInt) (opt : g.const_array_opt ≡ false) where
  module _ (n : ℕ) (ra rs : Expr → Expr → Option Expr)
      (adds : (l r : Expr)
        → chain l + chain r < n
        → Typed g m (arithmetic add l r)
        → Creates g m opt (ra l r) (arithmetic add l r))
      (subs : (l r : Expr)
        → chain l + chain r < n
        → Typed g m (arithmetic sub l r)
        → Creates g m opt (rs l r) (arithmetic sub l r))
      (l r : Expr) (bound : chain l + chain r < suc n) where
    sum_first :
        Typed g m (arithmetic add l r)
        → Nested add constant_plus l
        → Creates g m opt (add_shapes g m ra rs (shape l) (shape r) l r) (arithmetic add l r)
    sum_first h (w, c, a, e, view) =
        let longer = ap chain e ∙ chain_plus g m opt (constant w c) a in
        rw view (
          nested_left g m opt add add add w c a l r a r (ra a r) (create_add_left g m w c) e h
            (λ ha hr. adds a r (omega (arith, bound, longer)) (Typed-of g m opt add w a r ha hr))
            (λ x typed t. add_plus_left g m opt w c a r x typed t))

    difference_first :
        Typed g m (arithmetic add l r)
        → Nested sub constant_minus l
        → Creates g m opt (add_shapes g m ra rs (shape l) (shape r) l r) (arithmetic add l r)
    difference_first h (w, c, a, e, view) =
        let longer = ap chain e ∙ chain_minus g m opt (constant w c) a in
        rw view (
          nested_left g m opt add sub sub w c a l r r a (rs r a) (create_add_left g m w c) e h
            (λ ha hr. subs r a (omega (arith, bound, longer)) (Typed-of g m opt sub w r a hr ha))
            (λ x typed t. add_minus_left g m opt w c a r x typed t))

    sum_second :
        Typed g m (arithmetic add l r)
        → shape l ≡ no_sum
        → Nested add constant_plus r
        → Creates g m opt (add_shapes g m ra rs (shape l) (shape r) l r) (arithmetic add l r)
    sum_second h no_left (w, c, b, e, view) =
        let longer = ap chain e ∙ chain_plus g m opt (constant w c) b in
        rw (no_left, view)
          (nested_right g m opt add add add w c b l r l b (ra l b) (create_add_left g m w c) e h
            (λ hl hb. adds l b (omega (arith, bound, longer)) (Typed-of g m opt add w l b hl hb))
            (λ x typed t. add_plus_right g m opt w c l b x typed t))

    difference_second :
        Typed g m (arithmetic add l r)
        → shape l ≡ no_sum
        → Nested sub constant_minus r
        → Creates g m opt (add_shapes g m ra rs (shape l) (shape r) l r) (arithmetic add l r)
    difference_second h no_left (w, c, b, e, view) =
        let longer = ap chain e ∙ chain_minus g m opt (constant w c) b in
        rw (no_left, view)
          (nested_right g m opt add sub sub w c b l r l b (rs l b) (create_add_left g m w c) e h
            (λ hl hb. subs l b (omega (arith, bound, longer)) (Typed-of g m opt sub w l b hl hb))
            (λ x typed t. add_minus_right g m opt w c l b x typed t))

    pub add_create-Creates :
        Typed g m (arithmetic add l r)
        → Creates g m opt (add_create g m ra rs l r) (arithmetic add l r)
    unfolding add_create
    add_create-Creates h =
        if-cases (λ o. Creates g m opt o (arithmetic add l r)) (get_width g l == 1)
          (some (arithmetic xor l r)) (add_shapes g m ra rs (shape l) (shape r) l r)
          (λ one. (
            arithmetic xor l r,
            refl,
            at_one_bit g m xor add (xor-add m) l r (arithmetic-Pair g m add l r h)
                (==→≡ (get_width g l) 1 one),
          ))
          (λ _. elim (shape-cases l) [
            | inl sum ↦ sum_first h sum
            | inr (inl difference) ↦ difference_first h difference
            | inr (inr no_left) ↦ elim (shape-cases r) [
              | inl sum ↦ sum_second h no_left sum
              | inr (inl difference) ↦ difference_second h no_left difference
              | inr (inr no_right) ↦
                  rw (no_left, no_right)
                    (arithmetic add l r, refl, Means-refl g m (arithmetic add l r) h)
            ]
          ])
