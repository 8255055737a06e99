-- ===== src/Expressions/Equal/Steps.antt =====
-- The branches of EqExpr_createPartialR that do not recur.
use mathlib.Core.Path.{subst, ap₂}
use learch.Prelude.{
  ℕ, ◌^◌, ◌<◌, ◌≡◌, refl, sym, ◌∙◌, ap, true, ◌==◌, ◌&&◌, inl, inr, Option-cases, ==→≡, ≡→==,
  if-cases, both, false≢true, arith,
}
use learch.Expressions.{Globals, Expr, constant, comparison, eq, get_width, as_constant}
use learch.Expressions.ApInt.{ApInt}
use learch.Expressions.Meaning.{Assignment, number, well_typed, value, Means}
use learch.Expressions.Values.{value-lt_at, number-lt}
use learch.Expressions.Same.{same, same→≡}
use learch.Expressions.Words.{==-iff}
use learch.Expressions.Rewriting.{Means-refl, constant_typed, comparison-Pair}
use learch.Expressions.Constants.{fold_comparison, as_constant-≡}
use learch.Expressions.Dispatch.{constant-lt}
use learch.Expressions.OneBit.{bit-cases, all_bits}
use learch.Expressions.Equal.{
  is_true, is_false, eq_create, eq_constant, double_negation, eq_bool, eq_other,
}

pub ==-turn : (a b : ℕ) → (a == b) ≡ (b == a)
==-turn a b = ==-iff (λ e. sym e) (λ e. sym e)

true_bit : (w v : ℕ) → w ≡ 1 → is_true v ≡ true → v < 2 ^ w → 1 ≡ number (v == 1)
true_bit w v one t small =
    let bit : v < 2 ^ 1 = subst (λ n. v < 2 ^ n) one small in
    elim (bit-cases v bit) [
      | inl e ↦ absurd (false≢true (ap is_true (sym e) ∙ t))
      | inr e ↦ ap number (sym (≡→== v 1 e))
    ]

module _ (g : Globals) (m : ApInt) where
  pub value_eq :
      (l r : Expr) (s : Assignment)
      → value g m s (comparison eq l r) ≡ number (value g m s l == value g m s r)
  unfolding value
  value_eq l r s = ap number (m.holds_eq (get_width g l) (value g m s l) (value g m s r))

  abbrev pub Test : ℕ → ℕ → Expr → Expr
  Test w v r = comparison eq (constant w v) r

  abbrev pub Typed : Expr → Type 0
  Typed e = well_typed g e ≡ true

  -- A Boolean that tests the value against the constant.
  pub Means-test :
      (e r : Expr) (w v : ℕ)
      → Typed e
      → get_width g e ≡ 1
      → ((s : Assignment) → value g m s e ≡ number (v == value g m s r))
      → Means g m e (Test w v r)
  unfolding get_width value
  Means-test e r w v h width same = (h, width, λ s. same s ∙ sym (value_eq (constant w v) r s))

  pub true-Typed : Typed (constant 1 1)
  true-Typed = constant_typed g m 1 1 (omega arith) (omega arith)

  pub false-Typed : Typed (constant 1 0)
  false-Typed = constant_typed g m 1 0 (omega arith) (omega arith)

  pub eq_create-Means :
      (l r : Expr) → Typed (comparison eq l r) → Means g m (eq_create l r) (comparison eq l r)
  unfolding eq_create get_width value
  eq_create-Means l r h =
      if-cases (λ e. Means g m e (comparison eq l r)) (same l r) (constant 1 1) (comparison eq l r)
        (λ e. (
          true-Typed,
          refl,
          λ s. sym (
              value_eq l r s
              ∙ ap number (≡→== (value g m s l) (value g m s r) (ap (value g m s) (same→≡ l r e)))),
        ))
        (λ _. Means-refl g m (comparison eq l r) h)

  -- A false constant is tested as a negation.
  pub eq_bool-Means :
      (w v : ℕ) (r unless : Expr)
      → Typed (Test w v r)
      → w ≡ 1
      → (v ≡ 0 → Means g m unless (Test w v r))
      → Means g m (eq_bool v r unless) (Test w v r)
  unfolding get_width value
  eq_bool-Means w v r unless h one otherwise =
      let (hc, hr, width) = comparison-Pair g m eq (constant w v) r h in
      if-cases (λ e. Means g m e (Test w v r)) (is_true v) r unless
        (λ t. Means-test r r w v hr (sym width ∙ one) (λ s.
          all_bits (λ x. x ≡ number (v == x)) (ground arith)
            (true_bit w v one t (constant-lt g m w v hc)) (value g m s r)
            (value-lt_at g m s r 1 hr (sym width ∙ one))))
        (λ f. otherwise (ground arith))

  pub eq_other-Means :
      (w v : ℕ) (r : Expr) → Typed (Test w v r) → Means g m (eq_other w v r) (Test w v r)
  eq_other-Means w v r h =
      if-cases (λ e. Means g m e (Test w v r)) (w == 1) (eq_bool v r (eq_create (constant w v) r))
        (eq_create (constant w v) r)
        (λ one.
          eq_bool-Means w v r (eq_create (constant w v) r) h (==→≡ w 1 one)
            (λ _. eq_create-Means (constant w v) r h))
        (λ _. eq_create-Means (constant w v) r h)

  folded_test :
      (e : Expr) (w v w' v' : ℕ)
      → e ≡ constant w' v'
      → Means g m (fold_comparison m eq w' v' v) (Test w v e)
  unfolding fold_comparison get_width value
  folded_test e w v w' v' c =
      Means-test (fold_comparison m eq w' v' v) e w v
        (constant_typed g m 1 (number (m.holds eq w' v' v)) (omega arith)
          (number-lt (m.holds eq w' v' v)))
        refl
        (λ s.
          ap number (m.holds_eq w' v' v ∙ ==-turn v' v)
          ∙ ap (λ x. number (v == value g m s x)) (sym c))

  pub eq_constant-Means :
      (e : Expr) (w v : ℕ) (rest : Expr)
      → Typed (Test w v e)
      → Means g m rest (Test w v e)
      → Means g m (eq_constant g m e w v rest) (Test w v e)
  eq_constant-Means e w v rest h t = elim (Option-cases (as_constant e)) [
    | inl other ↦ rw (eq_constant, other) t
    | inr ((w', v'), c) ↦ rw (eq_constant, c) (folded_test e w v w' v' (as_constant-≡ e w' v' c))
  ]

  negated_twice :
      (w v : ℕ) (l r : Expr) (w' v' : ℕ)
      → Typed (Test w v (comparison eq l r))
      → v ≡ 0
      → l ≡ constant w' v'
      → (w' == 1 ≡ true) × (v' == 0 ≡ true)
      → Means g m r (Test w v (comparison eq l r))
  unfolding get_width value
  negated_twice w v l r w' v' h zeros c (one, nothing) =
      let (_, typed_test, _) = comparison-Pair g m eq (constant w v) (comparison eq l r) h in
      let (_, hr, same_width) = comparison-Pair g m eq l r typed_test in
      let width_r : get_width g r ≡ 1 = sym same_width ∙ ap (get_width g) c ∙ ==→≡ w' 1 one in
      Means-test r (comparison eq l r) w v hr width_r (λ s.
        all_bits (λ x. x ≡ number (0 == number (0 == x))) refl refl (value g m s r)
          (value-lt_at g m s r 1 hr width_r)
        ∙ ap₂ (λ x y. number (x == number (y == value g m s r))) (sym zeros)
            (sym (ap (value g m s) c ∙ ==→≡ v' 0 nothing))
        ∙ ap (λ y. number (v == y)) (sym (value_eq l r s)))

  -- Double negation, where the kid on the left is 0.
  pub double_negation-Means :
      (w v : ℕ) (l r rest : Expr)
      → Typed (Test w v (comparison eq l r))
      → v ≡ 0
      → Means g m rest (Test w v (comparison eq l r))
      → Means g m (double_negation g m l r rest) (Test w v (comparison eq l r))
  unfolding double_negation
  double_negation-Means w v l r rest h zeros t = elim (Option-cases (as_constant l)) [
    | inl other ↦ rw (double_negation, other) t
    | inr ((w', v'), c) ↦
        rw (double_negation, c)
          (if-cases (λ e. Means g m e (Test w v (comparison eq l r))) (w' == 1 && is_false v') r
            rest (λ b. negated_twice w v l r w' v' h zeros (as_constant-≡ l w' v' c) (both b))
            (λ _. t))
  ]
