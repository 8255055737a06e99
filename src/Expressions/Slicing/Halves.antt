-- ===== src/Expressions/Slicing/Halves.antt =====
-- Slices of concatenations.
use learch.Prelude.{
  ℕ, ◌+◌, ◌-◌, ◌<◌, ◌≤◌, Option, none, some, leb, if◌then◌else◌, leb→le, leb→lt, if-cases, arith,
}
use learch.Expressions.{Globals, Expr, concat, extract, get_width}
use learch.Expressions.ApInt.{ApInt}
use learch.Expressions.Meaning.{Means}
use learch.Expressions.Rewriting.{Means-trans}
use learch.Expressions.Equal.Steps.{Typed}
use learch.Expressions.Slicing.{concat_create, extract_concat, slices}
use learch.Expressions.Slicing.Parts.{
  concat_parts, concat-Means, above-Means, below-Means, across-Means,
}
use learch.Expressions.Slicing.Merging.{Slices, concat_create-Slices}

module _ (g : Globals) (m : ApInt) where
  module _ (n : ℕ) (again : Expr → ℕ → ℕ → Option Expr)
      (slicing : (e : Expr) (off w : ℕ)
        → slices e < n
        → Typed g m (extract e off w)
        → Slices g m (slices e) (again e off w) (extract e off w)) where
    -- A slice of one of the halves.
    half :
        (e node : Expr) (off w k : ℕ)
        → slices e < n
        → slices e ≤ k
        → Means g m (extract e off w) node
        → Slices g m k (again e off w) node
    half e node off w k fuel inside step =
        let (x, ends, means, within) = slicing e off w fuel step.0 in
        (
          x,
          ends,
          Means-trans g m x (extract e off w) node means step,
          λ e' off' w' is_slice.
              let inner = within e' off' w' is_slice in omega (arith, inner, inside),
        )

    across :
        (l r : Expr) (off w k : ℕ)
        → slices l + slices r < n
        → slices l + slices r ≤ k
        → Typed g m (extract (concat l r) off w)
        → off < get_width g r
        → get_width g r < off + w
        → Slices g m k
            (elim (again l 0 ((w + off) - get_width g r)) [
              | some x ↦ elim (again r off (get_width g r - off)) [
                | some y ↦ concat_create g m again x y
                | none ↦ none
              ]
              | none ↦ none
            ])
            (extract (concat l r) off w)
    across l r off w k fuel inside h before beyond =
        let left = extract l 0 ((w + off) - get_width g r) in
        let right = extract r off (get_width g r - off) in
        let step = across-Means g m l r off w h before beyond in
        let (hl, hr) = concat_parts g m left right step.0 in
        let (x, ends_l, means_l, within_l) =
          slicing l 0 ((w + off) - get_width g r) (omega (arith, fuel)) hl in
        let (y, ends_r, means_r, within_r) =
          slicing r off (get_width g r - off) (omega (arith, fuel)) hr in
        let kids = concat-Means g m x left y right means_l means_r in
        let (z, ends, means, within) =
          concat_create-Slices g m n again slicing (slices l) (omega (arith, fuel)) x y kids.0
            within_l in
        rw (ends_l, ends_r)
          (
            z,
            ends,
            Means-trans g m z (concat x y) (extract (concat l r) off w) means (
                Means-trans g m (concat x y) (concat left right) (extract (concat l r) off w) kids
                  step),
            λ e' off' w' is_slice.
                let inner = within e' off' w' is_slice in omega (arith, inner, inside),
          )

    pub extract_concat-Slices :
        (l r : Expr) (off w k : ℕ)
        → slices l + slices r < n
        → slices l + slices r ≤ k
        → Typed g m (extract (concat l r) off w)
        → Slices g m k (extract_concat g m again l r off w) (extract (concat l r) off w)
    unfolding extract_concat
    extract_concat-Slices l r off w k fuel inside h =
        let node = extract (concat l r) off w in
        let wide = elim (again l 0 ((w + off) - get_width g r)) as (λ _. Option Expr) [
          | some x ↦ elim (again r off (get_width g r - off)) [
            | some y ↦ concat_create g m again x y
            | none ↦ none
          ]
          | none ↦ none
        ] in
        if-cases (λ o. Slices g m k o node) (leb (get_width g r) off)
          (again l (off - get_width g r) w)
          (if leb (off + w) (get_width g r) then again r off w else wide)
          (λ e.
            half l node (off - get_width g r) w k (omega (arith, fuel)) (omega (arith, inside))
              (above-Means g m l r off w h (leb→le (get_width g r) off e)))
          (λ before.
            if-cases (λ o. Slices g m k o node) (leb (off + w) (get_width g r)) (again r off w) wide
              (λ e.
                half r node off w k (omega (arith, fuel)) (omega (arith, inside))
                  (below-Means g m l r off w h (leb→le (off + w) (get_width g r) e)))
              (λ beyond.
                across l r off w k fuel inside h (leb→lt (get_width g r) off before)
                  (leb→lt (off + w) (get_width g r) beyond)))
