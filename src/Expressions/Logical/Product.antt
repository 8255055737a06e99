-- ===== src/Expressions/Logical/Product.antt =====
-- The meaning of products as they are created.
use native.Mathlib.Nat.{mod-eq_of_lt, zero-mod}
use learch.Prelude.{
  ℕ, ◌*◌, ◌%◌, ◌^◌, ◌<◌, ◌≡◌, refl, sym, ◌∙◌, ap, true, ◌==◌, inl, inr, Bool-cases, ==→≡, arith,
}
use learch.Expressions.{Globals, Expr, constant, arithmetic, and, mul, get_width}
use learch.Expressions.ApInt.{ApInt}
use learch.Expressions.Meaning.{well_typed, value, Means}
use learch.Expressions.Values.{value-lt_at}
use learch.Expressions.Rewriting.{
  Means-refl, Means-trans, arithmetic-Pair, arithmetic_typed, at_one_bit,
}
use learch.Expressions.Constants.{fold_arithmetic}
use learch.Expressions.Dispatch.{fold_arithmetic-Means, create_with_partials-Means}
use learch.Expressions.OneBit.{and_bit, mul_bit}
use learch.Expressions.Logical.{and_partial, mul_partial_r, mul_create, create_mul}
use learch.Expressions.Logical.Laws.{swapped, and_partial-Means, with_constant, value_constant}

module _ (g : Globals) (m : ApInt) where
  mul_comm : (w a b : ℕ) → m.operate mul w a b ≡ m.operate mul w b a
  mul_comm w a b =
      let turn : a * b ≡ b * a = grind arith in
      m.operate_mul w a b ∙ ap (λ n. n % 2 ^ w) turn ∙ sym (m.operate_mul w b a)

  and-mul : (a b : ℕ) → a < 2 ^ 1 → b < 2 ^ 1 → m.operate and 1 a b ≡ m.operate mul 1 a b
  and-mul a b ha hb = and_bit m a b ha hb ∙ sym (mul_bit m a b ha hb)

  by_one : (w a : ℕ) → a < 2 ^ w → m.operate mul w a 1 ≡ a
  by_one w a h =
      let same : a * 1 ≡ a = omega arith in
      m.operate_mul w a 1 ∙ ap (λ n. n % 2 ^ w) same ∙ mod-eq_of_lt h

  by_zero : (w a : ℕ) → m.operate mul w a 0 ≡ 0
  by_zero w a =
      let same : a * 0 ≡ 0 = omega arith in
      m.operate_mul w a 0 ∙ ap (λ n. n % 2 ^ w) same ∙ zero-mod (2 ^ w)

  mul_partial-Means :
      (l : Expr) (w v : ℕ)
      → well_typed g (arithmetic mul l (constant w v)) ≡ true
      → Means g m (mul_partial_r w v l) (arithmetic mul l (constant w v))
  unfolding mul_partial_r get_width
  mul_partial-Means l w v h =
      let (hl, hv, e) = arithmetic-Pair g m mul l (constant w v) h in
      elim (Bool-cases (w == 1)) [
        | inl bit ↦
            rw (mul_partial_r, bit)
              (Means-trans g m (and_partial l w v) (arithmetic and l (constant w v))
                (arithmetic mul l (constant w v))
                (and_partial-Means g m l w v
                  (arithmetic_typed g m and l (constant w v) (hl, hv, e)))
                (at_one_bit g m and mul and-mul l (constant w v) (hl, hv, e) (e ∙ ==→≡ w 1 bit)))
        | inr wide ↦ elim (Bool-cases (v == 1)) [
          | inl one ↦
              rw (mul_partial_r, wide, one)
                (
                  hl,
                  refl,
                  λ s. sym (
                      with_constant g m mul l w v 1 s e (==→≡ v 1 one)
                      ∙ by_one w (value g m s l) (value-lt_at g m s l w hl e)),
                )
          | inr other ↦ elim (Bool-cases (v == 0)) [
            | inl zeros ↦
                rw (mul_partial_r, wide, other, zeros)
                  (
                    hv,
                    sym e,
                    λ s.
                        value_constant g m w v 0 s (==→≡ v 0 zeros)
                        ∙ sym (
                            with_constant g m mul l w v 0 s e (==→≡ v 0 zeros)
                            ∙ by_zero w (value g m s l)),
                  )
            | inr neither ↦
                rw (mul_partial_r, wide, other, neither)
                  (swapped g m mul mul_comm (arithmetic mul (constant w v) l) l (constant w v) h
                    (Means-refl g m (arithmetic mul (constant w v) l)))
          ]
        ]
      ]

  mul_create-Means :
      (l r : Expr)
      → well_typed g (arithmetic mul l r) ≡ true
      → Means g m (mul_create g m l r) (arithmetic mul l r)
  unfolding mul_create
  mul_create-Means l r h = elim (Bool-cases (get_width g l == 1)) [
    | inl bit ↦
        rw (mul_create, bit)
          (at_one_bit g m and mul and-mul l r (arithmetic-Pair g m mul l r h)
            (==→≡ (get_width g l) 1 bit))
    | inr wide ↦ rw (mul_create, wide) (Means-refl g m (arithmetic mul l r) h)
  ]

  pub create_mul-Means :
      (l r : Expr)
      → well_typed g (arithmetic mul l r) ≡ true
      → Means g m (create_mul g m l r) (arithmetic mul l r)
  unfolding create_mul
  create_mul-Means l r h =
      create_with_partials-Means g m (arithmetic mul) (fold_arithmetic m mul)
        (fold_arithmetic-Means g m mul) l r h mul_partial_r (λ x w v. mul_partial_r w v x)
        (mul_create g m)
        (λ w v t.
          swapped g m mul mul_comm (mul_partial_r w v r) (constant w v) r t
            (mul_partial-Means r w v))
        (λ w v t. mul_partial-Means l w v t) (mul_create-Means l r h)
