-- ===== src/Expressions/Sums/Creating.antt =====
-- The shapes of sums, and what it is that a constructor gives an expression for a sum.
use mathlib.Core.Option.{map}
use mathlib.Core.Path.{subst}
use learch.Prelude.{
  ℕ, suc, ◌≡◌, refl, sym, ◌∙◌, ap, Option, some, false, inl, inr, ◌⊎◌, Option-cases,
}
use learch.Expressions.{Globals, Arithmetic, Expr, constant, arithmetic, add, sub, as_constant}
use learch.Expressions.ApInt.{ApInt}
use learch.Expressions.Meaning.{Means}
use learch.Expressions.Constants.{as_constant-≡}
use learch.Expressions.Rewriting.{arithmetic_typed}
use learch.Expressions.Equal.Steps.{Typed}
use learch.Expressions.Sums.{Shape, constant_plus, constant_minus, no_sum, shape, chain}
use learch.Expressions.Sums.Regrouping.{Sized, left_parts, right_parts}

abbrev pub Nested : Arithmetic → (ℕ → ℕ → Expr → Shape) → Expr → Type 0
Nested k view e =
    (w : ℕ) × (c : ℕ) × (a : Expr) × (e ≡ arithmetic k (constant w c) a) × (shape e ≡ view w c a)

pub shape-cases :
    (e : Expr) → Nested add constant_plus e ⊎ Nested sub constant_minus e ⊎ (shape e ≡ no_sum)
unfolding shape as_constant
shape-cases (arithmetic add l r) = elim (Option-cases (as_constant l)) [
  | inl other ↦ inr (inr (rw (shape, other) refl))
  | inr ((w, c), e) ↦
      inl (w, c, r, ap (λ x. arithmetic add x r) (as_constant-≡ l w c e), rw (shape, e) refl)
]
shape-cases (arithmetic sub l r) = elim (Option-cases (as_constant l)) [
  | inl other ↦ inr (inr (rw (shape, other) refl))
  | inr ((w, c), e) ↦
      inr (inl (w, c, r, ap (λ x. arithmetic sub x r) (as_constant-≡ l w c e), rw (shape, e) refl))
]
shape-cases _ = inr (inr refl)

module _ (g : Globals) (m : ApInt) (opt : g.const_array_opt ≡ false) where
  -- The constructor ends, and gives an expression that may stand for `node`.
  abbrev pub Creates : Option Expr → Expr → Type 0
  Creates o node = (e : Expr) × (o ≡ some e) × Means g m e node

  mapped :
      (o : Option Expr) (f : Expr → Expr) (inner node : Expr)
      → Creates o inner
      → ((x : Expr) → Means g m x inner → Means g m (f x) node)
      → Creates (map f o) node
  mapped o f inner node (x, e, h) next = (f x, ap (map f) e, next x h)

  pub Typed-of :
      (k : Arithmetic) (w : ℕ) (p q : Expr)
      → Sized g m opt w p
      → Sized g m opt w q
      → Typed g m (arithmetic k p q)
  Typed-of k w p q (hp, wp) (hq, wq) = arithmetic_typed g m k p q (hp, hq, wp ∙ sym wq)

  -- A rebuilt expression for `(c ∘ a) ∘' r`.
  pub nested_left :
      (k i j : Arithmetic) (w c : ℕ) (a l r p q : Expr) (o : Option Expr) (f : Expr → Expr)
      → l ≡ arithmetic i (constant w c) a
      → Typed g m (arithmetic k l r)
      → (Sized g m opt w a → Sized g m opt w r → Creates o (arithmetic j p q))
      → ((x : Expr)
          → Typed g m (arithmetic k (arithmetic i (constant w c) a) r)
          → Means g m x (arithmetic j p q)
          → Means g m (f x) (arithmetic k (arithmetic i (constant w c) a) r))
      → Creates (map f o) (arithmetic k l r)
  nested_left k i j w c a l r p q o f e h kids regrouped =
      let typed = subst (λ x. Typed g m (arithmetic k x r)) e h in
      let (hc, ha, hr) = left_parts g m opt k i w c a r typed in
      subst (λ x. Creates (map f o) (arithmetic k x r)) (sym e)
        (mapped o f (arithmetic j p q) (arithmetic k (arithmetic i (constant w c) a) r) (kids ha hr)
          (λ x t. regrouped x typed t))

  -- A rebuilt expression for `l ∘' (c ∘ b)`.
  pub nested_right :
      (k i j : Arithmetic) (w c : ℕ) (b l r p q : Expr) (o : Option Expr) (f : Expr → Expr)
      → r ≡ arithmetic i (constant w c) b
      → Typed g m (arithmetic k l r)
      → (Sized g m opt w l → Sized g m opt w b → Creates o (arithmetic j p q))
      → ((x : Expr)
          → Typed g m (arithmetic k l (arithmetic i (constant w c) b))
          → Means g m x (arithmetic j p q)
          → Means g m (f x) (arithmetic k l (arithmetic i (constant w c) b)))
      → Creates (map f o) (arithmetic k l r)
  nested_right k i j w c b l r p q o f e h kids regrouped =
      let typed = subst (λ x. Typed g m (arithmetic k l x)) e h in
      let (hc, hl, hb) = right_parts g m opt k i w c l b typed in
      subst (λ x. Creates (map f o) (arithmetic k l x)) (sym e)
        (mapped o f (arithmetic j p q) (arithmetic k l (arithmetic i (constant w c) b)) (kids hl hb)
          (λ x t. regrouped x typed t))

  pub chain_plus : (c a : Expr) → chain (arithmetic add c a) ≡ suc (chain a)
  unfolding chain
  chain_plus c a = refl

  pub chain_minus : (c a : Expr) → chain (arithmetic sub c a) ≡ suc (chain a)
  unfolding chain
  chain_minus c a = refl
