-- ===== src/Expressions/Sums/Right.antt =====
-- The rewritings of AddExpr_create and SubExpr_create where the right kid is a sum.
use learch.Prelude.{ℕ, ◌≡◌, sym, ◌∙◌, ap, false}
use learch.Expressions.{Globals, Expr, constant, arithmetic, add, sub, get_width}
use learch.Expressions.ApInt.{ApInt}
use learch.Expressions.Meaning.{Assignment, value, Means}
use learch.Expressions.Values.{value-lt_at}
use learch.Expressions.Words.{
  plus_comm, plus_assoc, difference_inside, sum_subtracted, plus_then_minus,
}
use learch.Expressions.Dispatch.{constant-lt}
use learch.Expressions.Equal.Steps.{Typed}
use learch.Expressions.Sums.{create_add_left, create_sub_right}
use learch.Expressions.Sums.Regrouping.{rebuilt_left, rebuilt_right, right_parts}
use learch.Expressions.Sums.Gathering.{create_add_left-Means, create_sub_right-Means}

module _ (g : Globals) (m : ApInt) (opt : g.const_array_opt ≡ false) (w c : ℕ) (l b x : Expr) where
  -- a + (k+b) = k+(a+b)
  pub add_plus_right :
      Typed g m (arithmetic add l (arithmetic add (constant w c) b))
      → Means g m x (arithmetic add l b)
      → Means g m (create_add_left g m w c x) (arithmetic add l (arithmetic add (constant w c) b))
  unfolding get_width value
  add_plus_right h hx =
      let (hc, hl, hb) = right_parts g m opt add add w c l b h in
      let small_c = constant-lt g m w c hc in
      let small_l = λ (s : Assignment). value-lt_at g m s l w hl.0 hl.1 in
      let small_b = λ (s : Assignment). value-lt_at g m s b w hb.0 hb.1 in
      rebuilt_left g m opt w c x l b (arithmetic add l (arithmetic add (constant w c) b)) add hc hl
        hb hx hl.1 add (create_add_left g m w c x) (create_add_left-Means g m opt w c x)
        (λ s.
          plus_assoc m w c (value g m s l) (value g m s b)
          ∙ ap (λ y. m.operate add w y (value g m s b)) (plus_comm m w c (value g m s l))
          ∙ sym (plus_assoc m w (value g m s l) c (value g m s b))
          ∙ ap (λ y. m.operate add y (value g m s l) (m.operate add w c (value g m s b)))
              (sym hl.1))

  -- a + (k-b) = k+(a-b)
  pub add_minus_right :
      Typed g m (arithmetic add l (arithmetic sub (constant w c) b))
      → Means g m x (arithmetic sub l b)
      → Means g m (create_add_left g m w c x) (arithmetic add l (arithmetic sub (constant w c) b))
  unfolding get_width value
  add_minus_right h hx =
      let (hc, hl, hb) = right_parts g m opt add sub w c l b h in
      let small_c = constant-lt g m w c hc in
      let small_l = λ (s : Assignment). value-lt_at g m s l w hl.0 hl.1 in
      let small_b = λ (s : Assignment). value-lt_at g m s b w hb.0 hb.1 in
      rebuilt_left g m opt w c x l b (arithmetic add l (arithmetic sub (constant w c) b)) sub hc hl
        hb hx hl.1 add (create_add_left g m w c x) (create_add_left-Means g m opt w c x)
        (λ s.
          difference_inside m w c (value g m s l) (value g m s b) small_c (small_l s) (small_b s)
          ∙ ap (λ y. m.operate sub w y (value g m s b)) (plus_comm m w c (value g m s l))
          ∙ sym (
              difference_inside m w (value g m s l) c (value g m s b) (small_l s) small_c
                (small_b s))
          ∙ ap (λ y. m.operate add y (value g m s l) (m.operate sub w c (value g m s b)))
              (sym hl.1))

  -- a - (k+b) = (a-b) - k
  pub sub_plus_right :
      Typed g m (arithmetic sub l (arithmetic add (constant w c) b))
      → Means g m x (arithmetic sub l b)
      → Means g m (create_sub_right g m x w c) (arithmetic sub l (arithmetic add (constant w c) b))
  unfolding get_width value
  sub_plus_right h hx =
      let (hc, hl, hb) = right_parts g m opt sub add w c l b h in
      let small_c = constant-lt g m w c hc in
      let small_l = λ (s : Assignment). value-lt_at g m s l w hl.0 hl.1 in
      let small_b = λ (s : Assignment). value-lt_at g m s b w hb.0 hb.1 in
      rebuilt_right g m opt w c x l b (arithmetic sub l (arithmetic add (constant w c) b)) sub hc hl
        hb hx hl.1 (create_sub_right g m x w c) (create_sub_right-Means g m opt x w c)
        (λ s.
          sym (sum_subtracted m w (value g m s l) (value g m s b) c (small_l s) (small_b s) small_c)
          ∙ ap (m.operate sub w (value g m s l)) (plus_comm m w (value g m s b) c)
          ∙ ap (λ y. m.operate sub y (value g m s l) (m.operate add w c (value g m s b)))
              (sym hl.1))

  -- a - (k-b) = (a+b) - k
  pub sub_minus_right :
      Typed g m (arithmetic sub l (arithmetic sub (constant w c) b))
      → Means g m x (arithmetic add l b)
      → Means g m (create_sub_right g m x w c) (arithmetic sub l (arithmetic sub (constant w c) b))
  unfolding get_width value
  sub_minus_right h hx =
      let (hc, hl, hb) = right_parts g m opt sub sub w c l b h in
      let small_c = constant-lt g m w c hc in
      let small_l = λ (s : Assignment). value-lt_at g m s l w hl.0 hl.1 in
      let small_b = λ (s : Assignment). value-lt_at g m s b w hb.0 hb.1 in
      rebuilt_right g m opt w c x l b (arithmetic sub l (arithmetic sub (constant w c) b)) add hc hl
        hb hx hl.1 (create_sub_right g m x w c) (create_sub_right-Means g m opt x w c)
        (λ s.
          plus_then_minus m w (value g m s l) c (value g m s b) (small_l s) small_c (small_b s)
          ∙ ap (λ y. m.operate sub y (value g m s l) (m.operate sub w c (value g m s b)))
              (sym hl.1))
