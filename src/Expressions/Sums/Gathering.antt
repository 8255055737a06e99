-- ===== src/Expressions/Sums/Gathering.antt =====
-- The meaning of the partial evaluation of sums: constants gather on the left.
use mathlib.Core.Path.{subst}
use learch.Prelude.{ℕ, ◌^◌, ◌<◌, ◌≡◌, sym, ◌∙◌, ap, none, some, false, pow_pos}
use learch.Expressions.{Globals, Expr, constant, arithmetic, add, sub, get_width, as_constant}
use learch.Expressions.ApInt.{ApInt}
use learch.Expressions.Meaning.{value, Means}
use learch.Expressions.Values.{value-lt_at}
use learch.Expressions.Words.{
  plus_comm, plus_assoc, difference_inside, sum_subtracted, plus_then_minus,
}
use learch.Expressions.Constants.{fold_arithmetic, as_constant-cases}
use learch.Expressions.Rewriting.{Means-refl, arithmetic-Pair, arithmetic_typed, constant_typed}
use learch.Expressions.Dispatch.{constant-lt, constant_pos, fold_arithmetic-Means}
use learch.Expressions.Equal.Steps.{Typed}
use learch.Expressions.Sums.{
  with_constant_left, add_partial_r, sub_partial_r, sub_partial, create_add_left, create_sub_left,
  create_sub_right,
}
use learch.Expressions.Sums.Partial.{
  zero_plus, with_constant_left-Means, gather-Means, add_early-Means, sub_early-Means,
}

module _ (m : ApInt) where
  sub_sub :
      (w v c x : ℕ)
      → v < 2 ^ w
      → c < 2 ^ w
      → x < 2 ^ w
      → m.operate add w (m.operate sub w v c) x ≡ m.operate sub w v (m.operate sub w c x)
  sub_sub w v c x hv hc hx =
      plus_comm m w (m.operate sub w v c) x
      ∙ difference_inside m w x v c hx hv hc
      ∙ ap (λ y. m.operate sub w y c) (plus_comm m w x v)
      ∙ plus_then_minus m w v c x hv hc hx

  -- Adding the negation is subtracting.
  plus_negation :
      (w l v : ℕ)
      → l < 2 ^ w
      → v < 2 ^ w
      → m.operate add w (m.operate sub w 0 v) l ≡ m.operate sub w l v
  plus_negation w l v hl hv =
      plus_comm m w (m.operate sub w 0 v) l
      ∙ difference_inside m w l 0 v hl (pow_pos w) hv
      ∙ ap (λ x. m.operate sub w x v) (plus_comm m w l 0 ∙ zero_plus m w l hl)

module _ (g : Globals) (m : ApInt) (opt : g.const_array_opt ≡ false) where
  mutual
    unfolding add_partial_r sub_partial_r

    gathered_add :
        (w v : ℕ) (r : Expr)
        → Typed g m (arithmetic add (constant w v) r)
        → Means g m (add_partial_r g m w v r) (arithmetic add (constant w v) r)
    gathered_add w v (arithmetic add l r) h =
        add_early-Means g m opt w v (arithmetic add l r)
          (elim (as_constant l) [
            | some (w', c) ↦
                with_constant_left g m add w (m.operate add w v c) r
                  (add_partial_r g m w (m.operate add w v c) r)
            | none ↦ arithmetic add (constant w v) (arithmetic add l r)
          ])
          h
          (gather-Means g m add add add add (λ w v c x _ _ _. sym (plus_assoc m w v c x)) w v l r
            (λ u. add_partial_r g m w u r) h (λ u. gathered_add w u r))
    gathered_add w v (arithmetic sub l r) h =
        add_early-Means g m opt w v (arithmetic sub l r)
          (elim (as_constant l) [
            | some (w', c) ↦
                with_constant_left g m sub w (m.operate add w v c) r
                  (sub_partial_r g m w (m.operate add w v c) r)
            | none ↦ arithmetic add (constant w v) (arithmetic sub l r)
          ])
          h
          (gather-Means g m sub add sub add
            (λ w v c x hv hc hx. sym (difference_inside m w v c x hv hc hx)) w v l r
            (λ u. sub_partial_r g m w u r) h (λ u. gathered_sub w u r))
    gathered_add w v r h =
        add_early-Means g m opt w v r (arithmetic add (constant w v) r) h
          (Means-refl g m (arithmetic add (constant w v) r) h)

    gathered_sub :
        (w v : ℕ) (r : Expr)
        → Typed g m (arithmetic sub (constant w v) r)
        → Means g m (sub_partial_r g m w v r) (arithmetic sub (constant w v) r)
    gathered_sub w v (arithmetic add l r) h =
        sub_early-Means g m opt w v (arithmetic add l r)
          (elim (as_constant l) [
            | some (w', c) ↦
                with_constant_left g m sub w (m.operate sub w v c) r
                  (sub_partial_r g m w (m.operate sub w v c) r)
            | none ↦ arithmetic sub (constant w v) (arithmetic add l r)
          ])
          h
          (gather-Means g m sub sub add sub
            (λ w v c x hv hc hx. sym (sum_subtracted m w v c x hv hc hx)) w v l r
            (λ u. sub_partial_r g m w u r) h (λ u. gathered_sub w u r))
    gathered_sub w v (arithmetic sub l r) h =
        sub_early-Means g m opt w v (arithmetic sub l r)
          (elim (as_constant l) [
            | some (w', c) ↦
                with_constant_left g m add w (m.operate sub w v c) r
                  (add_partial_r g m w (m.operate sub w v c) r)
            | none ↦ arithmetic sub (constant w v) (arithmetic sub l r)
          ])
          h
          (gather-Means g m add sub sub sub (sub_sub m) w v l r (λ u. add_partial_r g m w u r) h
            (λ u. gathered_add w u r))
    gathered_sub w v r h =
        sub_early-Means g m opt w v r (arithmetic sub (constant w v) r) h
          (Means-refl g m (arithmetic sub (constant w v) r) h)

  pub sub_partial-Means :
      (l : Expr) (w v : ℕ)
      → Typed g m (arithmetic sub l (constant w v))
      → Means g m (sub_partial g m l w v) (arithmetic sub l (constant w v))
  unfolding sub_partial get_width value
  sub_partial-Means l w v h =
      let (hl, hv, width) = arithmetic-Pair g m sub l (constant w v) h in
      let u = m.operate sub w 0 v in
      let typed_u = constant_typed g m w u (constant_pos g m w v hv) (m.operate-lt sub w 0 v) in
      let (typed, width_e, same) =
        gathered_add w u l (arithmetic_typed g m add (constant w u) l (typed_u, hl, sym width)) in
      (
        typed,
        width_e ∙ sym width,
        λ s.
            same s
            ∙ plus_negation m w (value g m s l) v (value-lt_at g m s l w hl width)
                (constant-lt g m w v hv)
            ∙ ap (λ x. m.operate sub x (value g m s l) v) (sym width),
      )

  pub create_add_left-Means :
      (w c : ℕ) (r : Expr)
      → Typed g m (arithmetic add (constant w c) r)
      → Means g m (create_add_left g m w c r) (arithmetic add (constant w c) r)
  create_add_left-Means w c r h =
      with_constant_left-Means g m add w c r (add_partial_r g m w c r) h (gathered_add w c r h)

  pub create_sub_left-Means :
      (w c : ℕ) (r : Expr)
      → Typed g m (arithmetic sub (constant w c) r)
      → Means g m (create_sub_left g m w c r) (arithmetic sub (constant w c) r)
  create_sub_left-Means w c r h =
      with_constant_left-Means g m sub w c r (sub_partial_r g m w c r) h (gathered_sub w c r h)

  pub create_sub_right-Means :
      (l : Expr) (w c : ℕ)
      → Typed g m (arithmetic sub l (constant w c))
      → Means g m (create_sub_right g m l w c) (arithmetic sub l (constant w c))
  create_sub_right-Means l w c h =
      as_constant-cases (λ e. Means g m e (arithmetic sub l (constant w c))) l
        (λ w' b. fold_arithmetic m sub w' b c) (sub_partial g m l w c)
        (λ w' b e.
          subst (λ x. Means g m (fold_arithmetic m sub w' b c) (arithmetic sub x (constant w c)))
            (sym e)
            (fold_arithmetic-Means g m sub w' b w c
              (subst (λ x. Typed g m (arithmetic sub x (constant w c))) e h)))
        (sub_partial-Means l w c h)

  pub add_partial_r-Means :
      (w v : ℕ) (r : Expr)
      → Typed g m (arithmetic add (constant w v) r)
      → Means g m (add_partial_r g m w v r) (arithmetic add (constant w v) r)
  add_partial_r-Means = gathered_add
