-- ===== src/Expressions/Sums/Partial.antt =====
-- The meaning of sums and differences with a constant on the left.
use mathlib.Core.Path.{subst, ap₂}
use native.Mathlib.Nat.{mod-eq_of_lt}
use learch.Prelude.{
  ℕ, ◌+◌, ◌%◌, ◌^◌, ◌<◌, ◌≡◌, refl, sym, ◌∙◌, ap, none, some, false, ◌==◌, if◌then◌else◌, ==→≡,
  if-cases, arith,
}
use learch.Expressions.{
  Globals, Arithmetic, Expr, constant, arithmetic, add, sub, xor, get_width, as_constant,
}
use learch.Expressions.ApInt.{ApInt}
use learch.Expressions.Meaning.{value, Means}
use learch.Expressions.Values.{value-lt_at}
use learch.Expressions.Constants.{fold_arithmetic, as_constant-cases}
use learch.Expressions.Rewriting.{
  Means-refl, Means-trans, arithmetic-Pair, arithmetic_typed, constant_typed, at_one_bit,
}
use learch.Expressions.Dispatch.{constant-lt, constant_pos, fold_arithmetic-Means}
use learch.Expressions.OneBit.{xor_bit, add_bit, sub_bit}
use learch.Expressions.Equal.{xor_partial_r}
use learch.Expressions.Equal.Steps.{Typed}
use learch.Expressions.Equal.Negation.{xor_partial-Means}
use learch.Expressions.Sums.{with_constant_left, add_early, sub_early}

module _ (m : ApInt) where
  pub xor-add : (a b : ℕ) → a < 2 ^ 1 → b < 2 ^ 1 → m.operate xor 1 a b ≡ m.operate add 1 a b
  xor-add a b ha hb = xor_bit m a b ha hb ∙ sym (add_bit m a b ha hb)

  pub xor-sub : (a b : ℕ) → a < 2 ^ 1 → b < 2 ^ 1 → m.operate xor 1 a b ≡ m.operate sub 1 a b
  xor-sub a b ha hb = xor_bit m a b ha hb ∙ sym (sub_bit m a b ha hb)

  pub zero_plus : (w x : ℕ) → x < 2 ^ w → m.operate add w 0 x ≡ x
  zero_plus w x h =
      let same : 0 + x ≡ x = omega arith in
      m.operate_add w 0 x ∙ ap (λ n. n % 2 ^ w) same ∙ mod-eq_of_lt h

module _ (g : Globals) (m : ApInt) where
  pub with_constant_left-Means :
      (k : Arithmetic) (w a : ℕ) (r partial : Expr)
      → Typed g m (arithmetic k (constant w a) r)
      → Means g m partial (arithmetic k (constant w a) r)
      → Means g m (with_constant_left g m k w a r partial) (arithmetic k (constant w a) r)
  with_constant_left-Means k w a r partial h t =
      as_constant-cases (λ e. Means g m e (arithmetic k (constant w a) r)) r
        (λ w' b. fold_arithmetic m k w a b) partial
        (λ w' b e.
          subst (λ x. Means g m (fold_arithmetic m k w a b) (arithmetic k (constant w a) x)) (sym e)
            (fold_arithmetic-Means g m k w a w' b
              (subst (λ x. Typed g m (arithmetic k (constant w a) x)) e h)))
        t

  module _ (k outer inner folding : Arithmetic)
      (law : (w v c x : ℕ)
        → v < 2 ^ w
        → c < 2 ^ w
        → x < 2 ^ w
        → m.operate k w (m.operate folding w v c) x
          ≡ m.operate outer w v (m.operate inner w c x)) where
    -- Two constants become one.
    gathered :
        (w v w' c : ℕ) (l r : Expr)
        → Typed g m (arithmetic outer (constant w v) (arithmetic inner l r))
        → l ≡ constant w' c
        → Means g m
            (arithmetic k (constant w (m.operate folding w v c)) r)
            (arithmetic outer (constant w v) (arithmetic inner l r))
    unfolding get_width value
    gathered w v w' c l r h is_constant =
        let (hc, inner_typed, width) =
          arithmetic-Pair g m outer (constant w v) (arithmetic inner l r) h in
        let (hl, hr, same_width) = arithmetic-Pair g m inner l r inner_typed in
        let u = m.operate folding w v c in
        let typed_u =
          constant_typed g m w u (constant_pos g m w v hc) (m.operate-lt folding w v c) in
        (
          arithmetic_typed g m k (constant w u) r (typed_u, hr, width ∙ same_width),
          refl,
          λ s.
              let lc : value g m s l ≡ c = ap (value g m s) is_constant in
              law w v c (value g m s r) (constant-lt g m w v hc)
                (subst (λ x. x < 2 ^ w) lc (value-lt_at g m s l w hl (sym width)))
                (value-lt_at g m s r w hr (sym (width ∙ same_width)))
              ∙ ap₂ (λ x y. m.operate outer w v (m.operate inner x y (value g m s r))) width
                  (sym lc),
        )

    pub gather-Means :
        (w v : ℕ) (l r : Expr) (partial : ℕ → Expr)
        → Typed g m (arithmetic outer (constant w v) (arithmetic inner l r))
        → ((u : ℕ)
            → Typed g m (arithmetic k (constant w u) r)
            → Means g m (partial u) (arithmetic k (constant w u) r))
        → Means g m
            (elim (as_constant l) [
              | some (w', c) ↦
                  with_constant_left g m k w
                    (m.operate folding w v c)
                    r
                    (partial (m.operate folding w v c))
              | none ↦ arithmetic outer (constant w v) (arithmetic inner l r)
            ])
            (arithmetic outer (constant w v) (arithmetic inner l r))
    gather-Means w v l r partial h next =
        as_constant-cases
          (λ e. Means g m e (arithmetic outer (constant w v) (arithmetic inner l r))) l
          (λ w' c.
            with_constant_left g m k w (m.operate folding w v c) r
              (partial (m.operate folding w v c)))
          (arithmetic outer (constant w v) (arithmetic inner l r))
          (λ w' c e.
            let u = m.operate folding w v c in
            let step = gathered w v w' c l r h e in
            Means-trans g m (with_constant_left g m k w u r (partial u))
              (arithmetic k (constant w u) r)
              (arithmetic outer (constant w v) (arithmetic inner l r))
              (with_constant_left-Means k w u r (partial u) step.0 (next u step.0)) step)
          (Means-refl g m (arithmetic outer (constant w v) (arithmetic inner l r)) h)

  module _ (opt : g.const_array_opt ≡ false) where
    early :
        (k : Arithmetic) (w v : ℕ) (r : Expr)
        → ((a b : ℕ) → a < 2 ^ 1 → b < 2 ^ 1 → m.operate xor 1 a b ≡ m.operate k 1 a b)
        → Typed g m (arithmetic k (constant w v) r)
        → w ≡ 1
        → Means g m (xor_partial_r g m w v r) (arithmetic k (constant w v) r)
    unfolding get_width
    early k w v r agree h one =
        let pair = arithmetic-Pair g m k (constant w v) r h in
        Means-trans g m (xor_partial_r g m w v r) (arithmetic xor (constant w v) r)
          (arithmetic k (constant w v) r)
          (xor_partial-Means g m opt w v r (arithmetic_typed g m xor (constant w v) r pair))
          (at_one_bit g m xor k agree (constant w v) r pair one)

    pub add_early-Means :
        (w v : ℕ) (r by_kind : Expr)
        → Typed g m (arithmetic add (constant w v) r)
        → Means g m by_kind (arithmetic add (constant w v) r)
        → Means g m (add_early g m w v r by_kind) (arithmetic add (constant w v) r)
    unfolding get_width value
    add_early-Means w v r by_kind h t =
        let (_, hr, width) = arithmetic-Pair g m add (constant w v) r h in
        if-cases (λ e. Means g m e (arithmetic add (constant w v) r)) (w == 1)
          (xor_partial_r g m w v r) (if v == 0 then r else by_kind)
          (λ one. early add w v r (xor-add m) h (==→≡ w 1 one))
          (λ _.
            if-cases (λ e. Means g m e (arithmetic add (constant w v) r)) (v == 0) r by_kind
              (λ zeros. (
                hr,
                sym width,
                λ s. sym (
                    ap (λ x. m.operate add w x (value g m s r)) (==→≡ v 0 zeros)
                    ∙ zero_plus m w (value g m s r) (value-lt_at g m s r w hr (sym width))),
              ))
              (λ _. t))

    pub sub_early-Means :
        (w v : ℕ) (r by_kind : Expr)
        → Typed g m (arithmetic sub (constant w v) r)
        → Means g m by_kind (arithmetic sub (constant w v) r)
        → Means g m (sub_early g m w v r by_kind) (arithmetic sub (constant w v) r)
    sub_early-Means w v r by_kind h t =
        if-cases (λ e. Means g m e (arithmetic sub (constant w v) r)) (w == 1)
          (xor_partial_r g m w v r) by_kind (λ one. early sub w v r (xor-sub m) h (==→≡ w 1 one))
          (λ _. t)
