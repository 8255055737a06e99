-- ===== src/Expressions/Logical/Laws.antt =====
-- The meaning of conjunctions, disjunctions and products as they are created.
use mathlib.Core.Path.{ap₂}
use learch.Prelude.{ℕ, ◌-◌, ◌^◌, ◌≡◌, refl, sym, ◌∙◌, ap, true, ◌==◌, inl, inr, Bool-cases, ==→≡}
use learch.Expressions.{Globals, Arithmetic, Expr, constant, arithmetic, and, or, get_width}
use learch.Expressions.ApInt.{ApInt}
use learch.Expressions.Meaning.{Assignment, well_typed, value, Means}
use learch.Expressions.Values.{value-lt_at}
use learch.Expressions.Rewriting.{Means-refl, arithmetic-Pair, arithmetic_typed}
use learch.Expressions.Dispatch.{fold_arithmetic-Means, create_with_partials-Means}
use learch.Expressions.Constants.{fold_arithmetic}
use learch.Expressions.OneBit.{or_zero}
use learch.Expressions.Logical.{and_partial, or_partial, create_and, create_or}

module _ (g : Globals) (m : ApInt) where
  -- A kind whose kids may trade places.
  abbrev pub IsCommutative : Arithmetic → Type 0
  IsCommutative k = (w a b : ℕ) → m.operate k w a b ≡ m.operate k w b a

  pub swapped :
      (k : Arithmetic)
      → IsCommutative k
      → (e l r : Expr) → well_typed g (arithmetic k l r) ≡ true
      → (well_typed g (arithmetic k r l) ≡ true → Means g m e (arithmetic k r l))
      → Means g m e (arithmetic k l r)
  unfolding value get_width
  swapped k comm e l r h next =
      let (hl, hr, w) = arithmetic-Pair g m k l r h in
      let (typed, width, same) = next (arithmetic_typed g m k r l (hr, hl, sym w)) in
      (
        typed,
        width ∙ sym w,
        λ s.
            same s
            ∙ comm (get_width g r) (value g m s r) (value g m s l)
            ∙ ap (λ x. m.operate k x (value g m s l) (value g m s r)) (sym w),
      )

  pub value_constant : (w v u : ℕ) (s : Assignment) → v ≡ u → value g m s (constant w v) ≡ u
  unfolding value
  value_constant w v u s e = e

  -- The operation on a kid and a constant of known value.
  pub with_constant :
      (k : Arithmetic) (l : Expr) (w v u : ℕ) (s : Assignment)
      → get_width g l ≡ w
      → v ≡ u
      → value g m s (arithmetic k l (constant w v)) ≡ m.operate k w (value g m s l) u
  unfolding value
  with_constant k l w v u s e same = ap₂ (λ x y. m.operate k x (value g m s l) y) e same

  pub and_partial-Means :
      (l : Expr) (w v : ℕ)
      → well_typed g (arithmetic and l (constant w v)) ≡ true
      → Means g m (and_partial l w v) (arithmetic and l (constant w v))
  unfolding get_width and_partial
  and_partial-Means l w v h =
      let (hl, hv, e) = arithmetic-Pair g m and l (constant w v) h in
      elim (Bool-cases (v == 2 ^ w - 1)) [
        | inl ones ↦
            rw (and_partial, ones)
              (
                hl,
                refl,
                λ s. sym (
                    with_constant and l w v (2 ^ w - 1) s e (==→≡ v (2 ^ w - 1) ones)
                    ∙ m.and_ones w (value g m s l) (value-lt_at g m s l w hl e)),
              )
        | inr other ↦ elim (Bool-cases (v == 0)) [
          | inl zeros ↦
              rw (and_partial, other, zeros)
                (
                  hv,
                  sym e,
                  λ s.
                      value_constant w v 0 s (==→≡ v 0 zeros)
                      ∙ sym (
                          with_constant and l w v 0 s e (==→≡ v 0 zeros)
                          ∙ m.and_zero w (value g m s l)),
                )
          | inr neither ↦
              rw (and_partial, other, neither) (Means-refl g m (arithmetic and l (constant w v)) h)
        ]
      ]

  pub or_partial-Means :
      (l : Expr) (w v : ℕ)
      → well_typed g (arithmetic or l (constant w v)) ≡ true
      → Means g m (or_partial l w v) (arithmetic or l (constant w v))
  unfolding get_width or_partial
  or_partial-Means l w v h =
      let (hl, hv, e) = arithmetic-Pair g m or l (constant w v) h in
      elim (Bool-cases (v == 2 ^ w - 1)) [
        | inl ones ↦
            rw (or_partial, ones)
              (
                hv,
                sym e,
                λ s.
                    value_constant w v (2 ^ w - 1) s (==→≡ v (2 ^ w - 1) ones)
                    ∙ sym (
                        with_constant or l w v (2 ^ w - 1) s e (==→≡ v (2 ^ w - 1) ones)
                        ∙ m.or_ones w (value g m s l)),
              )
        | inr other ↦ elim (Bool-cases (v == 0)) [
          | inl zeros ↦
              rw (or_partial, other, zeros)
                (
                  hl,
                  refl,
                  λ s. sym (
                      with_constant or l w v 0 s e (==→≡ v 0 zeros)
                      ∙ or_zero m w (value g m s l) (value-lt_at g m s l w hl e)),
                )
          | inr neither ↦
              rw (or_partial, other, neither) (Means-refl g m (arithmetic or l (constant w v)) h)
        ]
      ]

  pub create_and-Means :
      (l r : Expr)
      → well_typed g (arithmetic and l r) ≡ true
      → Means g m (create_and g m l r) (arithmetic and l r)
  unfolding create_and
  create_and-Means l r h =
      create_with_partials-Means g m (arithmetic and) (fold_arithmetic m and)
        (fold_arithmetic-Means g m and) l r h (λ w v x. and_partial x w v) and_partial
        (arithmetic and)
        (λ w v t.
          swapped and m.and_comm (and_partial r w v) (constant w v) r t (and_partial-Means r w v))
        (λ w v t. and_partial-Means l w v t) (Means-refl g m (arithmetic and l r) h)

  pub create_or-Means :
      (l r : Expr)
      → well_typed g (arithmetic or l r) ≡ true
      → Means g m (create_or g m l r) (arithmetic or l r)
  unfolding create_or
  create_or-Means l r h =
      create_with_partials-Means g m (arithmetic or) (fold_arithmetic m or)
        (fold_arithmetic-Means g m or) l r h (λ w v x. or_partial x w v) or_partial (arithmetic or)
        (λ w v t.
          swapped or m.or_comm (or_partial r w v) (constant w v) r t (or_partial-Means r w v))
        (λ w v t. or_partial-Means l w v t) (Means-refl g m (arithmetic or l r) h)
