-- ===== src/Expressions/Orders/Laws.antt =====
-- The meaning of comparisons and shifts as they are created.
use learch.Prelude.{◌≡◌, refl, sym, ◌∙◌, ap, false, ltb, leb}
use learch.Expressions.{
  Globals, Expr, comparison, and, or, ult, ule, ugt, uge, slt, sle, sgt, sge, get_width,
}
use learch.Expressions.ApInt.{ApInt, biased}
use learch.Expressions.Meaning.{number, value, Means}
use learch.Expressions.Values.{value-lt_at}
use learch.Expressions.Rewriting.{comparison-Pair, comparison_typed}
use learch.Expressions.OneBit.{ult_bit, ule_bit, slt_bit, sle_bit}
use learch.Expressions.Logical.{create_and, create_or}
use learch.Expressions.Logical.Laws.{create_and-Means, create_or-Means}
use learch.Expressions.Equal.{create_is_zero}
use learch.Expressions.Equal.Steps.{Typed}
use learch.Expressions.Orders.{
  create_ult, create_ule, create_slt, create_sle, create_ugt, create_uge, create_sgt, create_sge,
  ult_create, ule_create, slt_create, sle_create,
}
use learch.Expressions.Orders.Booleans.{comparison_for_bool-Means, not_left-Means, not_right-Means}

module _ (g : Globals) (m : ApInt) (opt : g.const_array_opt ≡ false) where
  pub create_ult-Means :
      (l r : Expr)
      → Typed g m (comparison ult l r)
      → Means g m (create_ult g m l r) (comparison ult l r)
  unfolding create_ult ult_create get_width value
  create_ult-Means l r h =
      let (hl, hr, same_width) = comparison-Pair g m ult l r h in
      comparison_for_bool-Means g m ult (λ l r. create_and g m (create_is_zero g m l) r) l r h
        (λ one.
          let other = sym same_width ∙ one in
          not_left-Means g m opt l r (comparison ult l r) hl hr one other refl and (create_and g m)
            (create_and-Means g m)
            (λ s.
              ult_bit m (value g m s l) (value g m s r) (value-lt_at g m s l 1 hl one)
                (value-lt_at g m s r 1 hr other)
              ∙ ap (λ w. number (m.holds ult w (value g m s l) (value g m s r))) (sym one)))

  pub create_ule-Means :
      (l r : Expr)
      → Typed g m (comparison ule l r)
      → Means g m (create_ule g m l r) (comparison ule l r)
  unfolding create_ule ule_create get_width value
  create_ule-Means l r h =
      let (hl, hr, same_width) = comparison-Pair g m ule l r h in
      comparison_for_bool-Means g m ule (λ l r. create_or g m (create_is_zero g m l) r) l r h
        (λ one.
          let other = sym same_width ∙ one in
          not_left-Means g m opt l r (comparison ule l r) hl hr one other refl or (create_or g m)
            (create_or-Means g m)
            (λ s.
              ule_bit m (value g m s l) (value g m s r) (value-lt_at g m s l 1 hl one)
                (value-lt_at g m s r 1 hr other)
              ∙ ap (λ w. number (m.holds ule w (value g m s l) (value g m s r))) (sym one)))

  pub create_slt-Means :
      (l r : Expr)
      → Typed g m (comparison slt l r)
      → Means g m (create_slt g m l r) (comparison slt l r)
  unfolding create_slt slt_create get_width value
  create_slt-Means l r h =
      let (hl, hr, same_width) = comparison-Pair g m slt l r h in
      comparison_for_bool-Means g m slt (λ l r. create_and g m l (create_is_zero g m r)) l r h
        (λ one.
          let other = sym same_width ∙ one in
          not_right-Means g m opt l r (comparison slt l r) hl hr one other refl and (create_and g m)
            (create_and-Means g m)
            (λ s.
              slt_bit m (value g m s l) (value g m s r) (value-lt_at g m s l 1 hl one)
                (value-lt_at g m s r 1 hr other)
              ∙ ap (λ w. number (m.holds slt w (value g m s l) (value g m s r))) (sym one)))

  pub create_sle-Means :
      (l r : Expr)
      → Typed g m (comparison sle l r)
      → Means g m (create_sle g m l r) (comparison sle l r)
  unfolding create_sle sle_create get_width value
  create_sle-Means l r h =
      let (hl, hr, same_width) = comparison-Pair g m sle l r h in
      comparison_for_bool-Means g m sle (λ l r. create_or g m l (create_is_zero g m r)) l r h
        (λ one.
          let other = sym same_width ∙ one in
          not_right-Means g m opt l r (comparison sle l r) hl hr one other refl or (create_or g m)
            (create_or-Means g m)
            (λ s.
              sle_bit m (value g m s l) (value g m s r) (value-lt_at g m s l 1 hl one)
                (value-lt_at g m s r 1 hr other)
              ∙ ap (λ w. number (m.holds sle w (value g m s l) (value g m s r))) (sym one)))

  pub create_ugt-Means :
      (l r : Expr)
      → Typed g m (comparison ugt l r)
      → Means g m (create_ugt g m l r) (comparison ugt l r)
  unfolding create_ugt get_width value
  create_ugt-Means l r h =
      let (hl, hr, width) = comparison-Pair g m ugt l r h in
      let (typed, one, same) =
        create_ult-Means r l (comparison_typed g m ult r l (hr, hl, sym width)) in
      (
        typed,
        one,
        λ s.
            same s
            ∙ ap number (
                m.holds_ult (get_width g r) (value g m s r) (value g m s l)
                ∙ sym (m.holds_ugt (get_width g l) (value g m s l) (value g m s r))),
      )

  pub create_uge-Means :
      (l r : Expr)
      → Typed g m (comparison uge l r)
      → Means g m (create_uge g m l r) (comparison uge l r)
  unfolding create_uge get_width value
  create_uge-Means l r h =
      let (hl, hr, width) = comparison-Pair g m uge l r h in
      let (typed, one, same) =
        create_ule-Means r l (comparison_typed g m ule r l (hr, hl, sym width)) in
      (
        typed,
        one,
        λ s.
            same s
            ∙ ap number (
                m.holds_ule (get_width g r) (value g m s r) (value g m s l)
                ∙ sym (m.holds_uge (get_width g l) (value g m s l) (value g m s r))),
      )

  pub create_sgt-Means :
      (l r : Expr)
      → Typed g m (comparison sgt l r)
      → Means g m (create_sgt g m l r) (comparison sgt l r)
  unfolding create_sgt get_width value
  create_sgt-Means l r h =
      let (hl, hr, width) = comparison-Pair g m sgt l r h in
      let (typed, one, same) =
        create_slt-Means r l (comparison_typed g m slt r l (hr, hl, sym width)) in
      (
        typed,
        one,
        λ s.
            same s
            ∙ ap number (
                m.holds_slt (get_width g r) (value g m s r) (value g m s l)
                ∙ ap (λ w. ltb (biased w (value g m s r)) (biased w (value g m s l))) (sym width)
                ∙ sym (m.holds_sgt (get_width g l) (value g m s l) (value g m s r))),
      )

  pub create_sge-Means :
      (l r : Expr)
      → Typed g m (comparison sge l r)
      → Means g m (create_sge g m l r) (comparison sge l r)
  unfolding create_sge get_width value
  create_sge-Means l r h =
      let (hl, hr, width) = comparison-Pair g m sge l r h in
      let (typed, one, same) =
        create_sle-Means r l (comparison_typed g m sle r l (hr, hl, sym width)) in
      (
        typed,
        one,
        λ s.
            same s
            ∙ ap number (
                m.holds_sle (get_width g r) (value g m s r) (value g m s l)
                ∙ ap (λ w. leb (biased w (value g m s r)) (biased w (value g m s l))) (sym width)
                ∙ sym (m.holds_sge (get_width g l) (value g m s l) (value g m s r))),
      )
