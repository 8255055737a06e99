-- ===== src/Expressions/Sums/Subtracted.antt =====
-- One step of SubExpr_create.
use learch.Prelude.{
  ℕ, suc, ◌+◌, ◌<◌, ◌≡◌, refl, sym, ◌∙◌, ap, Option, some, true, false, ◌==◌, if◌then◌else◌, inl,
  inr, ==→≡, if-cases, arith, pow_pos,
}
use learch.Expressions.{Globals, Expr, constant, arithmetic, add, sub, xor, get_width}
use learch.Expressions.ApInt.{ApInt}
use learch.Expressions.Meaning.{value, Means}
use learch.Expressions.Values.{value-lt_at}
use learch.Expressions.Words.{moved}
use learch.Expressions.Same.{same, same→≡}
use learch.Expressions.Rewriting.{
  Means-refl, arithmetic-Pair, constant_typed, at_one_bit, width_pos,
}
use learch.Expressions.Equal.Steps.{Typed}
use learch.Expressions.Sums.{
  constant_plus, constant_minus, no_sum, shape, chain, create_add_left, create_sub_left,
  create_sub_right, sub_shapes, sub_create,
}
use learch.Expressions.Sums.Partial.{xor-sub, zero_plus}
use learch.Expressions.Sums.Regrouping.{sub_plus_left, sub_minus_left}
use learch.Expressions.Sums.Right.{sub_plus_right, sub_minus_right}
use learch.Expressions.Sums.Creating.{
  Nested, shape-cases, Creates, nested_left, nested_right, Typed-of, chain_plus, chain_minus,
}

module _ (g : Globals) (m : ApInt) (opt : g.const_array_opt ≡ false) where
  module _ (n : ℕ) (ra rs : Expr → Expr → Option Expr)
      (adds : (l r : Expr)
        → chain l + chain r < n
        → Typed g m (arithmetic add l r)
        → Creates g m opt (ra l r) (arithmetic add l r))
      (subs : (l r : Expr)
        → chain l + chain r < n
        → Typed g m (arithmetic sub l r)
        → Creates g m opt (rs l r) (arithmetic sub l r))
      (l r : Expr) (bound : chain l + chain r < suc n) where
    sum_first :
        Typed g m (arithmetic sub l r)
        → Nested add constant_plus l
        → Creates g m opt (sub_shapes g m ra rs (shape l) (shape r) l r) (arithmetic sub l r)
    sum_first h (w, c, a, e, view) =
        let longer = ap chain e ∙ chain_plus g m opt (constant w c) a in
        rw view (
          nested_left g m opt sub add sub w c a l r a r (rs a r) (create_add_left g m w c) e h
            (λ ha hr. subs a r (omega (arith, bound, longer)) (Typed-of g m opt sub w a r ha hr))
            (λ x typed t. sub_plus_left g m opt w c a r x typed t))

    difference_first :
        Typed g m (arithmetic sub l r)
        → Nested sub constant_minus l
        → Creates g m opt (sub_shapes g m ra rs (shape l) (shape r) l r) (arithmetic sub l r)
    difference_first h (w, c, a, e, view) =
        let longer = ap chain e ∙ chain_minus g m opt (constant w c) a in
        rw view (
          nested_left g m opt sub sub add w c a l r a r (ra a r) (create_sub_left g m w c) e h
            (λ ha hr. adds a r (omega (arith, bound, longer)) (Typed-of g m opt add w a r ha hr))
            (λ x typed t. sub_minus_left g m opt w c a r x typed t))

    sum_second :
        Typed g m (arithmetic sub l r)
        → shape l ≡ no_sum
        → Nested add constant_plus r
        → Creates g m opt (sub_shapes g m ra rs (shape l) (shape r) l r) (arithmetic sub l r)
    sum_second h no_left (w, c, b, e, view) =
        let longer = ap chain e ∙ chain_plus g m opt (constant w c) b in
        rw (no_left, view)
          (nested_right g m opt sub add sub w c b l r l b (rs l b) (λ d. create_sub_right g m d w c)
            e h
            (λ hl hb. subs l b (omega (arith, bound, longer)) (Typed-of g m opt sub w l b hl hb))
            (λ x typed t. sub_plus_right g m opt w c l b x typed t))

    difference_second :
        Typed g m (arithmetic sub l r)
        → shape l ≡ no_sum
        → Nested sub constant_minus r
        → Creates g m opt (sub_shapes g m ra rs (shape l) (shape r) l r) (arithmetic sub l r)
    difference_second h no_left (w, c, b, e, view) =
        let longer = ap chain e ∙ chain_minus g m opt (constant w c) b in
        rw (no_left, view)
          (nested_right g m opt sub sub add w c b l r l b (ra l b) (λ d. create_sub_right g m d w c)
            e h
            (λ hl hb. adds l b (omega (arith, bound, longer)) (Typed-of g m opt add w l b hl hb))
            (λ x typed t. sub_minus_right g m opt w c l b x typed t))

    same_difference :
        Typed g m (arithmetic sub l r)
        → same l r ≡ true
        → Means g m (constant (get_width g l) 0) (arithmetic sub l r)
    unfolding get_width value
    same_difference h e =
        let (hl, hr, width) = arithmetic-Pair g m sub l r h in
        let w = get_width g l in
        (
          constant_typed g m w 0 (width_pos g m l hl) (pow_pos w),
          refl,
          λ s.
              moved m w 0 (value g m s r) (value g m s l) (pow_pos w)
                (value-lt_at g m s r w hr (sym width))
                (zero_plus m w (value g m s r) (value-lt_at g m s r w hr (sym width))
                  ∙ ap (value g m s) (sym (same→≡ l r e))),
        )

    pub sub_create-Creates :
        Typed g m (arithmetic sub l r)
        → Creates g m opt (sub_create g m ra rs l r) (arithmetic sub l r)
    unfolding sub_create
    sub_create-Creates h =
        if-cases (λ o. Creates g m opt o (arithmetic sub l r)) (get_width g l == 1)
          (some (arithmetic xor l r))
          (if same l r
            then some (constant (get_width g l) 0)
            else sub_shapes g m ra rs (shape l) (shape r) l r)
          (λ one. (
            arithmetic xor l r,
            refl,
            at_one_bit g m xor sub (xor-sub m) l r (arithmetic-Pair g m sub l r h)
                (==→≡ (get_width g l) 1 one),
          ))
          (λ _.
            if-cases (λ o. Creates g m opt o (arithmetic sub l r)) (same l r)
              (some (constant (get_width g l) 0)) (sub_shapes g m ra rs (shape l) (shape r) l r)
              (λ e. (constant (get_width g l) 0, refl, same_difference h e))
              (λ _. elim (shape-cases l) [
                | inl sum ↦ sum_first h sum
                | inr (inl difference) ↦ difference_first h difference
                | inr (inr no_left) ↦ elim (shape-cases r) [
                  | inl sum ↦ sum_second h no_left sum
                  | inr (inl difference) ↦ difference_second h no_left difference
                  | inr (inr no_right) ↦
                      rw (no_left, no_right)
                        (arithmetic sub l r, refl, Means-refl g m (arithmetic sub l r) h)
                ]
              ]))
