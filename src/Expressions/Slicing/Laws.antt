-- ===== src/Expressions/Slicing/Laws.antt =====
-- Slices and concatenations as they are created: the recursion ends, and the result has the meaning
-- of the slice.
use native.Mathlib.Nat.{div-one, mod-eq_of_lt}
use learch.Prelude.{
  ℕ, zero, suc, ◌+◌, ◌/◌, ◌%◌, ◌^◌, ◌<◌, ◌≤◌, ◌≡◌, refl, sym, ◌∙◌, ap, Option, some, true, ◌==◌,
  ==→≡, if-cases, arith,
}
use learch.Expressions.{Globals, Expr, constant, concat, extract, get_width}
use learch.Expressions.ApInt.{ApInt}
use learch.Expressions.Meaning.{well_typed, value, Means}
use learch.Expressions.Values.{value-lt_at}
use learch.Expressions.Constants.{fold_extract}
use learch.Expressions.Rewriting.{Means-refl}
use learch.Expressions.Equal.Steps.{Typed}
use learch.Expressions.Slicing.{extract_kind, create_extract, create_concat, slices}
use learch.Expressions.Slicing.Parts.{extract_parts, fold_extract-Means}
use learch.Expressions.Slicing.Merging.{
  slices_inside, extracted-Within, Slices, concat_create-Slices,
}
use learch.Expressions.Slicing.Halves.{extract_concat-Slices}

module _ (g : Globals) (m : ApInt) where
  plain_slice :
      (e : Expr) (off w : ℕ)
      → Typed g m (extract e off w)
      → Slices g m (slices e) (some (extract e off w)) (extract e off w)
  plain_slice e off w h = (
    extract e off w,
    refl,
    Means-refl g m (extract e off w) h,
    λ e' off' w' is_slice. same_kid e' off' w' is_slice,
  )
    where
      kid : Expr → Expr
      kid (extract x _ _) = x
      kid x = x

      same_kid :
          (e' : Expr) (off' w' : ℕ) → extract e off w ≡ extract e' off' w' → slices e' ≤ slices e
      same_kid e' off' w' is_slice =
          let same : slices e ≡ slices e' = ap (λ x. slices (kid x)) is_slice in omega (arith, same)

  module _ (n : ℕ) (again : Expr → ℕ → ℕ → Option Expr)
      (slicing : (e : Expr) (off w : ℕ)
        → slices e < n
        → Typed g m (extract e off w)
        → Slices g m (slices e) (again e off w) (extract e off w)) where
    extract_kind-Slices :
        (e : Expr) (off w : ℕ)
        → slices e < suc n
        → Typed g m (extract e off w)
        → Slices g m (slices e) (extract_kind g m again e off w) (extract e off w)
    unfolding extract_kind slices
    extract_kind-Slices (constant w' v) off w fuel h = (
      fold_extract m w' v off w,
      refl,
      fold_extract-Means g m w' v off w h,
      extracted-Within g m 0 w' v off w,
    )
    extract_kind-Slices (concat l r) off w fuel h =
        extract_concat-Slices g m n again slicing l r off w (suc (slices l + slices r))
          (omega (arith, fuel)) (omega arith) h
    extract_kind-Slices e off w fuel h = plain_slice e off w h

    -- The whole of an expression.
    extract_all :
        (e : Expr) (off w : ℕ)
        → Typed g m (extract e off w)
        → w ≡ get_width g e
        → Means g m e (extract e off w)
    unfolding get_width value
    extract_all e off w h whole =
        let (he, pos, inside) = extract_parts g m e off w h in
        let none_off : off ≡ 0 = omega (arith, inside, whole) in
        (
          he,
          sym whole,
          λ s. sym (
              ap (λ o. value g m s e / 2 ^ o % 2 ^ w) none_off
              ∙ ap (λ x. x % 2 ^ w) (div-one (value g m s e))
              ∙ mod-eq_of_lt (value-lt_at g m s e w he (sym whole))),
        )

  slicing_ends :
      (n : ℕ) (e : Expr) (off w : ℕ)
      → slices e < n
      → Typed g m (extract e off w)
      → Slices g m (slices e) (create_extract g m n e off w) (extract e off w)
  unfolding create_extract
  slicing_ends zero e off w fuel h = elim fuel [ ]
  slicing_ends (suc n) e off w fuel h =
      if-cases (λ o. Slices g m (slices e) o (extract e off w)) (w == get_width g e) (some e)
        (extract_kind g m (create_extract g m n) e off w)
        (λ whole. (
          e,
          refl,
          extract_all n (create_extract g m n) (slicing_ends n) e off w h
              (==→≡ w (get_width g e) whole),
          λ e' off' w' is_slice.
              let inside = slices_inside e e' off' w' is_slice in omega (arith, inside),
        ))
        (λ _. extract_kind-Slices n (create_extract g m n) (slicing_ends n) e off w fuel h)

  -- Creating a slice that lies inside a well-typed expression ends within the given fuel if this
  -- exceeds the nodes that slices look through, and gives a well-typed expression of the slice's
  -- width that has the value of the plain slice under every assignment.
  pub create_extract_lem :
      (n : ℕ) (e : Expr) (off w : ℕ)
      → slices e < n
      → well_typed g (extract e off w) ≡ true
      → (x : Expr) × (create_extract g m n e off w ≡ some x) × Means g m x (extract e off w)
  create_extract_lem n e off w fuel h =
      let (x, ends, means, _) = slicing_ends n e off w fuel h in (x, ends, means)

  -- Concatenating two well-typed expressions ends within the given fuel if this exceeds the nodes
  -- of the left one that slices look through, and gives a well-typed expression of the sum of the
  -- widths that has the value of the plain concatenation under every assignment.
  pub create_concat_lem :
      (n : ℕ) (l r : Expr)
      → slices l < n
      → well_typed g (concat l r) ≡ true
      → (x : Expr) × (create_concat g m n l r ≡ some x) × Means g m x (concat l r)
  unfolding create_concat
  create_concat_lem n l r fuel h =
      let (x, ends, means, _) =
        concat_create-Slices g m n (create_extract g m n) (slicing_ends n) (slices l) fuel l r h
          (λ e off w is_slice.
            let inside = slices_inside l e off w is_slice in omega (arith, inside)) in
      (x, ends, means)
