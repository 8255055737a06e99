-- ===== src/Expressions/Sums/Laws.antt =====
-- Sums and differences as they are created: the recursion ends, and the result has the meaning of
-- the sum.
use mathlib.Core.Path.{subst}
use learch.Prelude.{
  ℕ, zero, suc, ◌+◌, ◌<◌, ◌≡◌, refl, sym, some, true, false, inl, inr, Option-cases,
}
use learch.Expressions.{Globals, Expr, constant, arithmetic, add, sub, as_constant}
use learch.Expressions.ApInt.{ApInt}
use learch.Expressions.Meaning.{well_typed, Means}
use learch.Expressions.Words.{plus_comm}
use learch.Expressions.Logical.Laws.{swapped}
use learch.Expressions.Constants.{as_constant-≡}
use learch.Expressions.Equal.Steps.{Typed}
use learch.Expressions.Sums.{
  chain, create_add_left, create_sub_left, add_partial_r, sub_partial, create_add, create_sub,
}
use learch.Expressions.Sums.Gathering.{
  create_add_left-Means, create_sub_left-Means, sub_partial-Means, add_partial_r-Means,
}
use learch.Expressions.Sums.Creating.{Creates}
use learch.Expressions.Sums.Added.{add_create-Creates}
use learch.Expressions.Sums.Subtracted.{sub_create-Creates}

module _ (g : Globals) (m : ApInt) (opt : g.const_array_opt ≡ false) where
  -- Both constructors on kids whose chains the fuel covers.
  abbrev Both : ℕ → Type 0
  Both n =
      ((l r : Expr)
        → chain l + chain r < n
        → Typed g m (arithmetic add l r)
        → Creates g m opt (create_add g m n l r) (arithmetic add l r))
      × ((l r : Expr)
          → chain l + chain r < n
          → Typed g m (arithmetic sub l r)
          → Creates g m opt (create_sub g m n l r) (arithmetic sub l r))

  added_left :
      (w a : ℕ) (l r : Expr)
      → Typed g m (arithmetic add l r)
      → l ≡ constant w a
      → Means g m (create_add_left g m w a r) (arithmetic add l r)
  added_left w a l r h e =
      subst (λ x. Means g m (create_add_left g m w a r) (arithmetic add x r)) (sym e)
        (create_add_left-Means g m opt w a r (subst (λ x. Typed g m (arithmetic add x r)) e h))

  added_right :
      (w b : ℕ) (l r : Expr)
      → Typed g m (arithmetic add l r)
      → r ≡ constant w b
      → Means g m (add_partial_r g m w b l) (arithmetic add l r)
  added_right w b l r h e =
      subst (λ x. Means g m (add_partial_r g m w b l) (arithmetic add l x)) (sym e)
        (swapped g m add (plus_comm m) (add_partial_r g m w b l) l (constant w b)
          (subst (λ x. Typed g m (arithmetic add l x)) e h) (add_partial_r-Means g m opt w b l))

  subtracted_left :
      (w a : ℕ) (l r : Expr)
      → Typed g m (arithmetic sub l r)
      → l ≡ constant w a
      → Means g m (create_sub_left g m w a r) (arithmetic sub l r)
  subtracted_left w a l r h e =
      subst (λ x. Means g m (create_sub_left g m w a r) (arithmetic sub x r)) (sym e)
        (create_sub_left-Means g m opt w a r (subst (λ x. Typed g m (arithmetic sub x r)) e h))

  subtracted_right :
      (w b : ℕ) (l r : Expr)
      → Typed g m (arithmetic sub l r)
      → r ≡ constant w b
      → Means g m (sub_partial g m l w b) (arithmetic sub l r)
  subtracted_right w b l r h e =
      subst (λ x. Means g m (sub_partial g m l w b) (arithmetic sub l x)) (sym e)
        (sub_partial-Means g m opt l w b (subst (λ x. Typed g m (arithmetic sub l x)) e h))

  add_step :
      (n : ℕ) (l r : Expr)
      → Both n
      → chain l + chain r < suc n
      → Typed g m (arithmetic add l r)
      → Creates g m opt (create_add g m (suc n) l r) (arithmetic add l r)
  unfolding create_add
  add_step n l r (adds, subs) bound h = elim (Option-cases (as_constant l)) [
    | inl none_l ↦ elim (Option-cases (as_constant r)) [
      | inl none_r ↦
          rw (create_add, none_l, none_r)
            (add_create-Creates g m opt n (create_add g m n) (create_sub g m n) adds subs l r bound
              h)
      | inr ((w, b), e) ↦
          rw (create_add, none_l, e)
            (add_partial_r g m w b l, refl, added_right w b l r h (as_constant-≡ r w b e))
    ]
    | inr ((w, a), e) ↦
        rw (create_add, e)
          (create_add_left g m w a r, refl, added_left w a l r h (as_constant-≡ l w a e))
  ]

  sub_step :
      (n : ℕ) (l r : Expr)
      → Both n
      → chain l + chain r < suc n
      → Typed g m (arithmetic sub l r)
      → Creates g m opt (create_sub g m (suc n) l r) (arithmetic sub l r)
  unfolding create_sub
  sub_step n l r (adds, subs) bound h = elim (Option-cases (as_constant l)) [
    | inl none_l ↦ elim (Option-cases (as_constant r)) [
      | inl none_r ↦
          rw (create_sub, none_l, none_r)
            (sub_create-Creates g m opt n (create_add g m n) (create_sub g m n) adds subs l r bound
              h)
      | inr ((w, b), e) ↦
          rw (create_sub, none_l, e)
            (sub_partial g m l w b, refl, subtracted_right w b l r h (as_constant-≡ r w b e))
    ]
    | inr ((w, a), e) ↦
        rw (create_sub, e)
          (create_sub_left g m w a r, refl, subtracted_left w a l r h (as_constant-≡ l w a e))
  ]

  both : (n : ℕ) → Both n
  both zero = (λ l r bound h. elim bound [ ], λ l r bound h. elim bound [ ])
  both (suc n) = (
    λ l r bound h. add_step n l r (both n) bound h,
    λ l r bound h. sub_step n l r (both n) bound h,
  )

  -- AddExpr::create ends within the given fuel, and the expression that it gives has the type, the
  -- width and, under every assignment, the value of the sum.
  pub create_add_lem :
      (n : ℕ) (l r : Expr)
      → chain l + chain r < n
      → well_typed g (arithmetic add l r) ≡ true
      → (e : Expr) × (create_add g m n l r ≡ some e) × Means g m e (arithmetic add l r)
  create_add_lem n = (both n).0

  -- The same for SubExpr::create.
  pub create_sub_lem :
      (n : ℕ) (l r : Expr)
      → chain l + chain r < n
      → well_typed g (arithmetic sub l r) ≡ true
      → (e : Expr) × (create_sub g m n l r ≡ some e) × Means g m e (arithmetic sub l r)
  create_sub_lem n = (both n).1
