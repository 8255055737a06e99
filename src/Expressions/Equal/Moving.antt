-- ===== src/Expressions/Equal/Moving.antt =====
-- The branches of EqExpr_createPartialR for sums and differences.
use mathlib.Core.Path.{subst, ap₂}
use learch.Prelude.{ℕ, ◌^◌, ◌<◌, ◌≡◌, sym, ◌∙◌, ap, ◌==◌}
use learch.Expressions.{Globals, Expr, constant, arithmetic, add, sub, eq, get_width}
use learch.Expressions.ApInt.{ApInt}
use learch.Expressions.Meaning.{number, value, Means}
use learch.Expressions.Values.{value-lt_at}
use learch.Expressions.Words.{==-plus, ==-minus}
use learch.Expressions.Rewriting.{
  comparison-Pair, comparison_typed, arithmetic-Pair, constant_typed,
}
use learch.Expressions.Dispatch.{constant-lt, constant_pos}
use learch.Expressions.Equal.Steps.{Test, Typed, Means-test, value_eq}

module _ (g : Globals) (m : ApInt) where
  -- A constant kid moves to the other side.
  pub add_case :
      (w v c w' : ℕ) (l r a : Expr)
      → Typed g m (Test g m w v (arithmetic add l r))
      → l ≡ constant w' c
      → (Typed g m (Test g m w (m.operate sub w v c) r)
          → Means g m a (Test g m w (m.operate sub w v c) r))
      → Means g m a (Test g m w v (arithmetic add l r))
  unfolding get_width value
  add_case w v c w' l r a h is_constant next =
      let (hc, typed_sum, width) = comparison-Pair g m eq (constant w v) (arithmetic add l r) h in
      let (hl, hr, same_width) = arithmetic-Pair g m add l r typed_sum in
      let u = m.operate sub w v c in
      let typed_u = constant_typed g m w u (constant_pos g m w v hc) (m.operate-lt sub w v c) in
      let (ha, wa, same) =
        next (comparison_typed g m eq (constant w u) r (typed_u, hr, width ∙ same_width)) in
      Means-test g m a (arithmetic add l r) w v ha wa (λ s.
        let lc : value g m s l ≡ c = ap (value g m s) is_constant in
        same s
        ∙ value_eq g m (constant w u) r s
        ∙ ap number (
            sym (
              ==-plus m w v c (value g m s r) (constant-lt g m w v hc)
                (subst (λ x. x < 2 ^ w) lc (value-lt_at g m s l w hl (sym width)))
                (value-lt_at g m s r w hr (sym (width ∙ same_width)))))
        ∙ ap₂ (λ x y. number (v == m.operate add x y (value g m s r))) width (sym lc))

  pub sub_case :
      (w v c w' : ℕ) (l r a : Expr)
      → Typed g m (Test g m w v (arithmetic sub l r))
      → l ≡ constant w' c
      → (Typed g m (Test g m w' (m.operate sub w' c v) r)
          → Means g m a (Test g m w' (m.operate sub w' c v) r))
      → Means g m a (Test g m w v (arithmetic sub l r))
  unfolding get_width value
  sub_case w v c w' l r a h is_constant next =
      let (hc, typed_sum, width) = comparison-Pair g m eq (constant w v) (arithmetic sub l r) h in
      let (hl, hr, same_width) = arithmetic-Pair g m sub l r typed_sum in
      let u = m.operate sub w' c v in
      let wl : get_width g l ≡ w' = ap (get_width g) is_constant in
      let same_w : w ≡ w' = width ∙ wl in
      let typed_u =
        constant_typed g m w' u (subst (λ x. 0 < x) same_w (constant_pos g m w v hc))
          (m.operate-lt sub w' c v) in
      let (ha, wa, same) =
        next (comparison_typed g m eq (constant w' u) r (typed_u, hr, sym wl ∙ same_width)) in
      Means-test g m a (arithmetic sub l r) w v ha wa (λ s.
        let lc : value g m s l ≡ c = ap (value g m s) is_constant in
        same s
        ∙ value_eq g m (constant w' u) r s
        ∙ ap number (
            sym (
              ==-minus m w' v c (value g m s r)
                (subst (λ x. v < 2 ^ x) same_w (constant-lt g m w v hc))
                (subst (λ x. x < 2 ^ w') lc (value-lt_at g m s l w' hl wl))
                (value-lt_at g m s r w' hr (sym same_width ∙ wl))))
        ∙ ap₂ (λ x y. number (v == m.operate sub x y (value g m s r))) (sym wl) (sym lc))
