-- ===== src/Expressions/Equal/Negation.antt =====
-- The meaning of negations and exclusive disjunctions as they are created.
use mathlib.Core.Path.{subst, ap₂}
use learch.Prelude.{
  ℕ, ◌^◌, ◌<◌, ◌≡◌, refl, sym, ◌∙◌, ap, Bool, true, false, not, ◌==◌, if◌then◌else◌, inl, inr, ==→≡,
  if-cases, pow_pos, arith, false≢true, ≡→==,
}
use learch.Expressions.{Globals, Expr, constant, arithmetic, comparison, eq, ne, xor, get_width}
use learch.Expressions.ApInt.{ApInt}
use learch.Expressions.Meaning.{Assignment, number, value, Means}
use learch.Expressions.Values.{value-lt_at}
use learch.Expressions.Rewriting.{
  comparison-Pair, comparison_typed, arithmetic-Pair, constant_typed, width_pos, Means-refl,
  comparison-Means,
}
use learch.Expressions.Constants.{fold_arithmetic}
use learch.Expressions.Dispatch.{constant-lt, fold_arithmetic-Means, create_with_partials-Means}
use learch.Expressions.OneBit.{bit-cases, all_bits, xor_bit}
use learch.Expressions.Logical.Laws.{swapped}
use learch.Expressions.Equal.{
  eq_partial_r, create_eq, create_is_zero, create_ne, xor_partial_r, create_xor,
}
use learch.Expressions.Equal.Steps.{Typed, Test, value_eq, false-Typed}
use learch.Expressions.Equal.Laws.{eq_partial_r-Means, create_eq-Means}

module _ (g : Globals) (m : ApInt) where
  abbrev pub IsZero : Expr → Expr
  IsZero e = comparison eq e (constant (get_width g e) 0)

  pub IsZero-Typed : (e : Expr) → Typed g m e → Typed g m (IsZero e)
  unfolding get_width
  IsZero-Typed e h =
      comparison_typed g m eq e (constant (get_width g e) 0) (
        h,
        constant_typed g m (get_width g e) 0 (width_pos g m e h) (pow_pos (get_width g e)),
        refl,
      )

  -- The value of a Boolean's negation.
  pub IsZero-value :
      (e : Expr) (s : Assignment) → value g m s (IsZero e) ≡ number (value g m s e == 0)
  unfolding value
  IsZero-value e s = value_eq g m e (constant (get_width g e) 0) s

  module _ (opt : g.const_array_opt ≡ false) where
    pub create_is_zero-Means :
        (e : Expr) → Typed g m e → Means g m (create_is_zero g m e) (IsZero e)
    unfolding create_is_zero
    create_is_zero-Means e h =
        create_eq-Means g m opt e (constant (get_width g e) 0) (IsZero-Typed e h)

    ne_twice : (b : Bool) → number (0 == number b) ≡ number (not b)
    ne_twice true = refl
    ne_twice false = refl

    pub create_ne-Means :
        (l r : Expr)
        → Typed g m (comparison ne l r)
        → Means g m (create_ne g m l r) (comparison ne l r)
    unfolding create_ne get_width value
    create_ne-Means l r h =
        let pair = comparison-Pair g m ne l r h in
        let inner = create_eq-Means g m opt l r (comparison_typed g m eq l r pair) in
        let zero-Means = Means-refl g m (constant 1 0) (false-Typed g m) in
        let whole =
          comparison-Means g m eq (constant 1 0) (constant 1 0) (create_eq g m l r)
            (comparison eq l r) zero-Means inner refl in
        let (typed, width, same) =
          create_eq-Means g m opt (constant 1 0) (create_eq g m l r) whole.0 in
        (
          typed,
          width,
          λ s.
              same s
              ∙ whole.2 s
              ∙ value_eq g m (constant 1 0) (comparison eq l r) s
              ∙ ap (λ x. number (0 == x)) (value_eq g m l r s)
              ∙ ne_twice (value g m s l == value g m s r)
              ∙ ap number (sym (m.holds_ne (get_width g l) (value g m s l) (value g m s r))),
        )

    xor_true :
        (w v : ℕ) (r : Expr) (s : Assignment)
        → Typed g m (arithmetic xor (constant w v) r)
        → w ≡ 1
        → (v == 0) ≡ false
        → value g m s (Test g m 1 0 r) ≡ value g m s (arithmetic xor (constant w v) r)
    unfolding get_width value
    xor_true w v r s h one some_bit =
        let (hc, hr, width) = arithmetic-Pair g m xor (constant w v) r h in
        let small : v < 2 ^ 1 = subst (λ x. v < 2 ^ x) one (constant-lt g m w v hc) in
        let is_one : v ≡ 1 = nonzero_bit v small some_bit in
        value_eq g m (constant 1 0) r s
        ∙ all_bits (λ x. number (0 == x) ≡ number (not (1 == x))) refl refl (value g m s r)
            (value-lt_at g m s r 1 hr (sym width ∙ one))
        ∙ sym
            (xor_bit m 1 (value g m s r) (omega arith) (value-lt_at g m s r 1 hr (sym width ∙ one)))
        ∙ ap₂ (λ x y. m.operate xor x y (value g m s r)) (sym one) (sym is_one)
      where
        nonzero_bit : (v : ℕ) → v < 2 ^ 1 → (v == 0) ≡ false → v ≡ 1
        nonzero_bit v small h = elim (bit-cases v small) [
          | inl e ↦ absurd (false≢true (sym h ∙ ≡→== v 0 e))
          | inr e ↦ e
        ]

    pub xor_partial-Means :
        (w v : ℕ) (r : Expr)
        → Typed g m (arithmetic xor (constant w v) r)
        → Means g m (xor_partial_r g m w v r) (arithmetic xor (constant w v) r)
    unfolding xor_partial_r get_width value
    xor_partial-Means w v r h =
        let (hc, hr, width) = arithmetic-Pair g m xor (constant w v) r h in
        if-cases (λ e. Means g m e (arithmetic xor (constant w v) r)) (v == 0) r
          (if w == 1 then eq_partial_r g m 1 0 r else arithmetic xor (constant w v) r)
          (λ zeros. (
            hr,
            sym width,
            λ s. sym (
                m.xor_comm w v (value g m s r)
                ∙ ap (m.operate xor w (value g m s r)) (==→≡ v 0 zeros)
                ∙ m.xor_zero w (value g m s r) (value-lt_at g m s r w hr (sym width))),
          ))
          (λ some_bit.
            if-cases (λ e. Means g m e (arithmetic xor (constant w v) r)) (w == 1)
              (eq_partial_r g m 1 0 r) (arithmetic xor (constant w v) r)
              (λ one.
                let bit : w ≡ 1 = ==→≡ w 1 one in
                let typed_test =
                  comparison_typed g m eq (constant 1 0) r (false-Typed g m, hr, sym bit ∙ width) in
                let (typed, width_e, same) = eq_partial_r-Means g m opt 1 0 r typed_test in
                (typed, width_e ∙ sym bit, λ s. same s ∙ xor_true w v r s h bit some_bit))
              (λ _. Means-refl g m (arithmetic xor (constant w v) r) h))

    pub create_xor-Means :
        (l r : Expr)
        → Typed g m (arithmetic xor l r)
        → Means g m (create_xor g m l r) (arithmetic xor l r)
    unfolding create_xor
    create_xor-Means l r h =
        create_with_partials-Means g m (arithmetic xor) (fold_arithmetic m xor)
          (fold_arithmetic-Means g m xor) l r h (xor_partial_r g m)
          (λ x w v. xor_partial_r g m w v x) (arithmetic xor) (λ w v t. xor_partial-Means w v r t)
          (λ w v t.
            swapped g m xor m.xor_comm (xor_partial_r g m w v l) l (constant w v) t
              (xor_partial-Means w v l))
          (Means-refl g m (arithmetic xor l r) h)
