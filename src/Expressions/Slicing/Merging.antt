-- ===== src/Expressions/Slicing/Merging.antt =====
-- Concatenations as they are created.
use mathlib.Core.Path.{subst}
use learch.Prelude.{
  ℕ, suc, ◌+◌, ◌<◌, ◌≤◌, ◌≡◌, refl, sym, ◌∙◌, ap, Option, some, true, ◌==◌, ◌&&◌, inl, inr,
  Option-cases, ==→≡, if-cases, both, arith, none≢some,
}
use learch.Expressions.{
  Globals, Expr, constant, concat, extract, or, shl, ashr, get_width, as_constant,
}
use learch.Expressions.ApInt.{ApInt}
use learch.Expressions.Meaning.{Means}
use learch.Expressions.Same.{same, same→≡}
use learch.Expressions.Constants.{as_constant-≡, fold_concat, fold_extract}
use learch.Expressions.Rewriting.{Means-refl, Means-trans}
use learch.Expressions.Equal.Steps.{Typed}
use learch.Expressions.Slicing.{as_extract, merge_extracts, concat_create, slices}
use learch.Expressions.Slicing.Parts.{fold_concat-Means, merged-Means}

as_extract-≡ : (x e : Expr) (off w : ℕ) → as_extract x ≡ some (e, off, w) → x ≡ extract e off w
unfolding as_extract
as_extract-≡ (extract e' off' w') e off w h = cc
as_extract-≡ _ e off w h = absurd (none≢some h)

-- Where `x` is a slice, what it slices is no larger than the bound.
abbrev pub Within : ℕ → Expr → Type 0
Within k x = (e : Expr) (off w : ℕ) → x ≡ extract e off w → slices e ≤ k

pub concat-Within : (k : ℕ) (l r : Expr) → Within k (concat l r)
concat-Within k l r e off w h = absurd (no_slice h)
  where
    no_slice : concat l r ≡ extract e off w → ⊥
    no_slice h = cc

pub constant-Within : (k w v : ℕ) → Within k (constant w v)
constant-Within k w v e off w' h = absurd (no_slice h)
  where
    no_slice : constant w v ≡ extract e off w' → ⊥
    no_slice h = cc

pub slices_inside : (x e : Expr) (off w : ℕ) → x ≡ extract e off w → slices x ≡ suc (slices e)
unfolding slices
slices_inside x e off w h = ap slices h

module _ (g : Globals) (m : ApInt) where
  folded-Within : (k w a w' b : ℕ) → Within k (fold_concat m w a w' b)
  unfolding fold_concat
  folded-Within k w a w' b = constant-Within k (w + w') (
      m.operate or (w + w') (m.operate shl (w + w') (m.zext_or_trunc w (w + w') a) w')
        (m.zext_or_trunc w' (w + w') b))

  pub extracted-Within : (k w a off w' : ℕ) → Within k (fold_extract m w a off w')
  unfolding fold_extract
  extracted-Within k w a off w' =
      constant-Within k w' (m.zext_or_trunc w w' (m.operate ashr w a off))

  -- The constructor ends with an expression for `node` that slices nothing larger than the bound.
  abbrev pub Slices : ℕ → Option Expr → Expr → Type 0
  Slices k o node = (x : Expr) × (o ≡ some x) × Means g m x node × Within k x

  module _ (n : ℕ) (again : Expr → ℕ → ℕ → Option Expr)
      (slicing : (e : Expr) (off w : ℕ)
        → slices e < n
        → Typed g m (extract e off w)
        → Slices (slices e) (again e off w) (extract e off w))
      (k : ℕ) (bound : k < n) where
    merged :
        (l r e : Expr) (off w : ℕ) (e' : Expr) (off' w' : ℕ)
        → Typed g m (concat l r)
        → Within k l
        → l ≡ extract e off w
        → r ≡ extract e' off' w'
        → same e e' && off' + w' == off ≡ true
        → Slices k (again e off' (get_width g l + get_width g r)) (concat l r)
    unfolding get_width
    merged l r e off w e' off' w' h small el er fits =
        let (same_kid, contiguous) = both fits in
        let kid : e ≡ e' = same→≡ e e' same_kid in
        let er' : r ≡ extract e off' w' = er ∙ ap (λ x. extract x off' w') (sym kid) in
        let typed : Typed g m (concat (extract e off w) (extract e off' w')) =
          subst (λ x. Typed g m (concat (extract e off w) x)) er'
            (subst (λ x. Typed g m (concat x r)) el h) in
        let step = merged-Means g m e off off' w w' typed (==→≡ (off' + w') off contiguous) in
        let (x, ends, means, within) =
          slicing e off' (w + w') (let k_small = small e off w el in omega (arith, k_small, bound))
            step.0 in
        let widths : get_width g l + get_width g r ≡ w + w' =
          ap (λ x. get_width g x + get_width g r) el ∙ ap (λ x. w + get_width g x) er' in
        (
          x,
          ap (again e off') widths ∙ ends,
          subst (λ y. Means g m x (concat y r)) (sym el)
              (subst (λ y. Means g m x (concat (extract e off w) y)) (sym er')
                (Means-trans g m x (extract e off' (w + w'))
                  (concat (extract e off w) (extract e off' w')) means step)),
          λ e₁ off₁ w₁ is_slice.
              let inner = within e₁ off₁ w₁ is_slice in
              let k_small = small e off w el in omega (arith, inner, k_small),
        )

    merge_extracts-Slices :
        (l r : Expr)
        → Typed g m (concat l r)
        → Within k l
        → Slices k (merge_extracts g m again l r) (concat l r)
    unfolding merge_extracts
    merge_extracts-Slices l r h small =
        let plain : Slices k (some (concat l r)) (concat l r) =
          (concat l r, refl, Means-refl g m (concat l r) h, concat-Within k l r) in
        elim (Option-cases (as_extract l)) [
          | inl none_l ↦ rw (merge_extracts, none_l) plain
          | inr ((e, off, w), el) ↦ elim (Option-cases (as_extract r)) [
            | inl none_r ↦ rw (merge_extracts, el, none_r) plain
            | inr ((e', off', w'), er) ↦
                rw (merge_extracts, el, er)
                  (if-cases (λ o. Slices k o (concat l r)) (same e e' && off' + w' == off)
                    (again e off' (get_width g l + get_width g r)) (some (concat l r))
                    (merged l r e off w e' off' w' h small (as_extract-≡ l e off w el)
                      (as_extract-≡ r e' off' w' er))
                    (λ _. plain))
          ]
        ]

    pub concat_create-Slices :
        (l r : Expr)
        → Typed g m (concat l r)
        → Within k l
        → Slices k (concat_create g m again l r) (concat l r)
    unfolding concat_create fold_concat
    concat_create-Slices l r h small =
        let merging = merge_extracts-Slices l r h small in
        elim (Option-cases (as_constant l)) [
          | inl none_l ↦ rw (concat_create, none_l) merging
          | inr ((w, a), el) ↦ elim (Option-cases (as_constant r)) [
            | inl none_r ↦ rw (concat_create, el, none_r) merging
            | inr ((w', b), er) ↦
                rw (concat_create, el, er)
                  (
                    fold_concat m w a w' b,
                    refl,
                    folded w a w' b (as_constant-≡ l w a el) (as_constant-≡ r w' b er),
                    folded-Within k w a w' b,
                  )
          ]
        ]
      where
        folded :
            (w a w' b : ℕ)
            → l ≡ constant w a
            → r ≡ constant w' b
            → Means g m (fold_concat m w a w' b) (concat l r)
        folded w a w' b el er =
            subst (λ x. Means g m (fold_concat m w a w' b) (concat x r)) (sym el)
              (subst (λ x. Means g m (fold_concat m w a w' b) (concat (constant w a) x)) (sym er)
                (fold_concat-Means g m w a w' b (
                  subst (λ x. Typed g m (concat (constant w a) x)) er
                    (subst (λ x. Typed g m (concat x r)) el h))))
