-- ===== src/Expressions/Slicing/Parts.antt =====
-- Folding and merging of slices.
use mathlib.Core.Path.{subst, ap₂}
use native.Mathlib.Nat.{mod-eq_of_lt}
use learch.Prelude.{
  ℕ, ◌+◌, ◌-◌, ◌*◌, ◌/◌, ◌%◌, ◌^◌, ◌<◌, ◌≤◌, ◌≡◌, refl, sym, ◌∙◌, ap, true, leb, ltb→lt, leb→le,
  lt→ltb, if-cases, both, all_three, arith, pow_split, mod_power-lt, join-lt,
}
use learch.Expressions.{Globals, Expr, constant, concat, extract, or, shl, ashr, get_width}
use learch.Expressions.ApInt.{ApInt, is_negative}
use learch.Expressions.Meaning.{well_typed, value, Means}
use learch.Expressions.Values.{value-lt}
use learch.Expressions.Slices.{slices_join, slice_above, slice_below, slice_across, slice_signed}
use learch.Expressions.Extending.{power-le, mod-power_mod}
use learch.Expressions.Constants.{fold_concat, fold_extract}
use learch.Expressions.Rewriting.{constant_typed, both_true}
use learch.Expressions.Dispatch.{constant-lt, constant_pos}
use learch.Expressions.Equal.Steps.{Typed}

pub le→leb : (a b : ℕ) → a ≤ b → leb a b ≡ true
le→leb a b h = ground arith

module _ (g : Globals) (m : ApInt) where
  -- The parts of a slice's type.
  pub extract_parts :
      (e : Expr) (off w : ℕ)
      → Typed g m (extract e off w)
      → Typed g m e × (0 < w) × (off + w ≤ get_width g e)
  unfolding well_typed
  extract_parts e off w h =
      let (he, pos, inside) = all_three h in
      (he, ltb→lt 0 w pos, leb→le (off + w) (get_width g e) inside)

  pub extract-Typed :
      (e : Expr) (off w : ℕ)
      → Typed g m e
      → 0 < w
      → off + w ≤ get_width g e
      → Typed g m (extract e off w)
  unfolding well_typed
  extract-Typed e off w he pos inside =
      both_true (both_true he (lt→ltb 0 w pos)) (le→leb (off + w) (get_width g e) inside)

  pub concat_parts : (l r : Expr) → Typed g m (concat l r) → Typed g m l × Typed g m r
  unfolding well_typed
  concat_parts l r h = both h

  pub concat-Typed : (l r : Expr) → Typed g m l → Typed g m r → Typed g m (concat l r)
  unfolding well_typed
  concat-Typed l r hl hr = both_true hl hr

  pub concat-Means :
      (l l' r r' : Expr) → Means g m l l' → Means g m r r' → Means g m (concat l r) (concat l' r')
  unfolding value get_width
  concat-Means l l' r r' (hl, wl, vl) (hr, wr, vr) = (
    concat-Typed l r hl hr,
    ap₂ (λ x y. x + y) wl wr,
    λ s. ap₂ (λ x y. x + y) (ap₂ (λ x y. x * 2 ^ y) (vl s) wr) (vr s),
  )

  fold_concat_value :
      (w a w' b : ℕ)
      → a < 2 ^ w
      → b < 2 ^ w'
      → m.operate or
          (w + w')
          (m.operate shl (w + w') (m.zext_or_trunc w (w + w') a) w')
          (m.zext_or_trunc w' (w + w') b)
        ≡ a * 2 ^ w' + b
  fold_concat_value w a w' b ha hb =
      let wide = w + w' in
      let joined : a * 2 ^ w' + b < 2 ^ wide =
        subst (λ n. a * 2 ^ w' + b < n) (sym (pow_split w w'))
          (join-lt a b (2 ^ w) (2 ^ w') ha hb) in
      let grows : 2 ^ w ≤ 2 ^ wide = power-le w wide (omega arith) in
      let grows' : 2 ^ w' ≤ 2 ^ wide = power-le w' wide (omega arith) in
      let za : m.zext_or_trunc w wide a ≡ a =
        m.zext_or_trunc_law w wide a ∙ mod-eq_of_lt (omega (arith, grows, ha)) in
      let zb : m.zext_or_trunc w' wide b ≡ b =
        m.zext_or_trunc_law w' wide b ∙ mod-eq_of_lt (omega (arith, grows', hb)) in
      let moved_up : m.operate shl wide (m.zext_or_trunc w wide a) w' ≡ a * 2 ^ w' =
        ap (λ x. m.operate shl wide x w') za
        ∙ m.operate_shl wide a w'
        ∙ mod-eq_of_lt (omega (arith, joined)) in
      ap₂ (m.operate or wide) moved_up zb
      ∙ m.or_disjoint wide a w' b (omega (arith, joined)) hb (omega (arith, joined))

  pub fold_concat-Means :
      (w a w' b : ℕ)
      → Typed g m (concat (constant w a) (constant w' b))
      → Means g m (fold_concat m w a w' b) (concat (constant w a) (constant w' b))
  unfolding fold_concat value get_width
  fold_concat-Means w a w' b h =
      let (hl, hr) = concat_parts (constant w a) (constant w' b) h in
      let pos : 0 < w + w' = omega (arith, constant_pos g m w a hl) in
      let number =
        m.operate or (w + w') (m.operate shl (w + w') (m.zext_or_trunc w (w + w') a) w')
          (m.zext_or_trunc w' (w + w') b) in
      (
        constant_typed g m (w + w') number pos (
            m.operate-lt or (w + w') (m.operate shl (w + w') (m.zext_or_trunc w (w + w') a) w')
              (m.zext_or_trunc w' (w + w') b)),
        refl,
        λ s. fold_concat_value w a w' b (constant-lt g m w a hl) (constant-lt g m w' b hr),
      )

  fold_extract_value :
      (w a off w' : ℕ)
      → a < 2 ^ w
      → off + w' ≤ w
      → m.zext_or_trunc w w' (m.operate ashr w a off) ≡ a / 2 ^ off % 2 ^ w'
  fold_extract_value w a off w' ha inside =
      m.zext_or_trunc_law w w' (m.operate ashr w a off)
      ∙ ap (λ x. x % 2 ^ w') (m.operate_ashr w a off)
      ∙ if-cases (λ x. x % 2 ^ w' ≡ a / 2 ^ off % 2 ^ w') (is_negative w a)
          (2 ^ w - 1 - (2 ^ w - 1 - a) / 2 ^ off) ((a / 2 ^ off) % 2 ^ w)
          (λ _. slice_signed a w off w' ha inside)
          (λ _. mod-power_mod (a / 2 ^ off) w' w (omega (arith, inside)))

  pub fold_extract-Means :
      (w a off w' : ℕ)
      → Typed g m (extract (constant w a) off w')
      → Means g m (fold_extract m w a off w') (extract (constant w a) off w')
  unfolding fold_extract value get_width
  fold_extract-Means w a off w' h =
      let (hc, pos, inside) = extract_parts (constant w a) off w' h in
      let same = fold_extract_value w a off w' (constant-lt g m w a hc) inside in
      (
        constant_typed g m w' (m.zext_or_trunc w w' (m.operate ashr w a off)) pos
            (rw same (mod_power-lt (a / 2 ^ off) w')),
        refl,
        λ s. same,
      )

  -- The three ways to slice a concatenation, and the merging of two slices.
  pub above-Means :
      (l r : Expr) (off w : ℕ)
      → Typed g m (extract (concat l r) off w)
      → get_width g r ≤ off
      → Means g m (extract l (off - get_width g r) w) (extract (concat l r) off w)
  unfolding value get_width
  above-Means l r off w h beyond =
      let (hc, pos, inside) = extract_parts (concat l r) off w h in
      let (hl, hr) = concat_parts l r hc in
      (
        extract-Typed l (off - get_width g r) w hl pos (omega (arith, inside, beyond)),
        refl,
        λ s. sym (
            slice_above (value g m s l) (value g m s r) (get_width g r) off w (value-lt g m s r hr)
              beyond),
      )

  pub below-Means :
      (l r : Expr) (off w : ℕ)
      → Typed g m (extract (concat l r) off w)
      → off + w ≤ get_width g r
      → Means g m (extract r off w) (extract (concat l r) off w)
  unfolding value get_width
  below-Means l r off w h within =
      let (hc, pos, inside) = extract_parts (concat l r) off w h in
      let (hl, hr) = concat_parts l r hc in
      (
        extract-Typed r off w hr pos within,
        refl,
        λ s. sym (slice_below (value g m s l) (value g m s r) (get_width g r) off w within),
      )

  pub across-Means :
      (l r : Expr) (off w : ℕ)
      → Typed g m (extract (concat l r) off w)
      → off < get_width g r
      → get_width g r < off + w
      → Means g m
          (concat (extract l 0 ((w + off) - get_width g r)) (extract r off (get_width g r - off)))
          (extract (concat l r) off w)
  unfolding value get_width
  across-Means l r off w h before beyond =
      let (hc, pos, inside) = extract_parts (concat l r) off w h in
      let (hl, hr) = concat_parts l r hc in
      (
        concat-Typed (extract l 0 ((w + off) - get_width g r)) (extract r off (get_width g r - off))
            (extract-Typed l 0 ((w + off) - get_width g r) hl (omega (arith, beyond))
              (omega (arith, inside, beyond)))
            (extract-Typed r off (get_width g r - off) hr (omega (arith, before))
              (omega (arith, before))),
        omega (arith, before, beyond),
        λ s. sym (
            slice_across (value g m s l) (value g m s r) (get_width g r) off w (value-lt g m s r hr)
              (omega (arith, before)) (omega (arith, beyond))),
      )

  pub merged-Means :
      (e : Expr) (off off' w w' : ℕ)
      → Typed g m (concat (extract e off w) (extract e off' w'))
      → off' + w' ≡ off
      → Means g m (extract e off' (w + w')) (concat (extract e off w) (extract e off' w'))
  unfolding value get_width
  merged-Means e off off' w w' h contiguous =
      let (hl, hr) = concat_parts (extract e off w) (extract e off' w') h in
      let (he, pos, inside) = extract_parts e off w hl in
      (
        extract-Typed e off' (w + w') he (omega (arith, pos)) (omega (arith, inside, contiguous)),
        refl,
        λ s.
            sym (slices_join (value g m s e) off' w w')
            ∙ ap (λ o. (value g m s e / 2 ^ o % 2 ^ w) * 2 ^ w' + value g m s e / 2 ^ off' % 2 ^ w')
                contiguous,
      )
