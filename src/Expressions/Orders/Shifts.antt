-- ===== src/Expressions/Orders/Shifts.antt =====
-- The meaning of shifts as they are created.
use learch.Prelude.{◌≡◌, refl, sym, ◌∙◌, ap, false}
use learch.Expressions.{Globals, Expr, arithmetic, and, shl, lshr, ashr, get_width}
use learch.Expressions.ApInt.{ApInt}
use learch.Expressions.Meaning.{value, Means}
use learch.Expressions.Values.{value-lt_at}
use learch.Expressions.Rewriting.{arithmetic-Pair}
use learch.Expressions.OneBit.{shl_bit, lshr_bit, ashr_bit}
use learch.Expressions.Logical.{create_and}
use learch.Expressions.Logical.Laws.{create_and-Means}
use learch.Expressions.Equal.{create_is_zero}
use learch.Expressions.Equal.Steps.{Typed}
use learch.Expressions.Orders.{
  create_shl, create_lshr, create_ashr, shl_create, lshr_create, ashr_create,
}
use learch.Expressions.Orders.Booleans.{arithmetic_for_bool-Means, not_right-Means}

module _ (g : Globals) (m : ApInt) (opt : g.const_array_opt ≡ false) where
  pub create_shl-Means :
      (l r : Expr)
      → Typed g m (arithmetic shl l r)
      → Means g m (create_shl g m l r) (arithmetic shl l r)
  unfolding create_shl shl_create get_width value
  create_shl-Means l r h =
      let (hl, hr, same_width) = arithmetic-Pair g m shl l r h in
      arithmetic_for_bool-Means g m shl (λ l r. create_and g m l (create_is_zero g m r)) l r h
        (λ one.
          let other = sym same_width ∙ one in
          not_right-Means g m opt l r (arithmetic shl l r) hl hr one other one and (create_and g m)
            (create_and-Means g m)
            (λ s.
              shl_bit m (value g m s l) (value g m s r) (value-lt_at g m s l 1 hl one)
                (value-lt_at g m s r 1 hr other)
              ∙ ap (λ w. m.operate shl w (value g m s l) (value g m s r)) (sym one)))

  pub create_lshr-Means :
      (l r : Expr)
      → Typed g m (arithmetic lshr l r)
      → Means g m (create_lshr g m l r) (arithmetic lshr l r)
  unfolding create_lshr lshr_create get_width value
  create_lshr-Means l r h =
      let (hl, hr, same_width) = arithmetic-Pair g m lshr l r h in
      arithmetic_for_bool-Means g m lshr (λ l r. create_and g m l (create_is_zero g m r)) l r h
        (λ one.
          let other = sym same_width ∙ one in
          not_right-Means g m opt l r (arithmetic lshr l r) hl hr one other one and (create_and g m)
            (create_and-Means g m)
            (λ s.
              lshr_bit m (value g m s l) (value g m s r) (value-lt_at g m s l 1 hl one)
                (value-lt_at g m s r 1 hr other)
              ∙ ap (λ w. m.operate lshr w (value g m s l) (value g m s r)) (sym one)))

  pub create_ashr-Means :
      (l r : Expr)
      → Typed g m (arithmetic ashr l r)
      → Means g m (create_ashr g m l r) (arithmetic ashr l r)
  unfolding create_ashr ashr_create get_width value
  create_ashr-Means l r h =
      let (hl, hr, same_width) = arithmetic-Pair g m ashr l r h in
      arithmetic_for_bool-Means g m ashr (λ l r. l) l r h
        (λ one. (
          hl,
          refl,
          λ s.
              ashr_bit m (value g m s l) (value g m s r) (value-lt_at g m s l 1 hl one)
                (value-lt_at g m s r 1 hr (sym same_width ∙ one))
              ∙ ap (λ w. m.operate ashr w (value g m s l) (value g m s r)) (sym one),
        ))
