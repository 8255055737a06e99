-- ===== src/Expressions/Slicing/Extension.antt =====
-- Zero and sign extensions as they are created, truncations included.
use mathlib.Core.Path.{subst, ap₂}
use native.Mathlib.Nat.{mod-eq_of_lt}
use learch.Prelude.{
  ℕ, ◌+◌, ◌-◌, ◌%◌, ◌^◌, ◌<◌, ◌≤◌, ◌≡◌, refl, sym, ◌∙◌, ap, Option, none, some, true, false, ◌==◌,
  ltb, if◌then◌else◌, inl, inr, Option-cases, Bool-cases, ◌⊎◌, ==→≡, ltb→lt, ltb→le, if-cases,
  arith, mod_power-lt,
}
use learch.Expressions.{Globals, Expr, constant, extract, zext, sext, get_width, as_constant}
use learch.Expressions.ApInt.{ApInt, is_negative}
use learch.Expressions.Meaning.{well_typed, value, Means}
use learch.Expressions.Values.{value-lt_at}
use learch.Expressions.Extending.{power-le, zext_or_trunc_same}
use learch.Expressions.Constants.{as_constant-≡, fold_zext, fold_sext}
use learch.Expressions.Rewriting.{Means-refl, constant_typed, both_true}
use learch.Expressions.Dispatch.{constant-lt}
use learch.Expressions.Equal.Steps.{Typed}
use learch.Expressions.Slicing.{create_extract, create_zext, create_sext, slices}
use learch.Expressions.Slicing.Parts.{extract-Typed, le→leb}
use learch.Expressions.Slicing.Laws.{create_extract_lem}

ltb-cases : (a b : ℕ) → ((ltb a b ≡ true) × (a < b)) ⊎ ((ltb a b ≡ false) × (b ≤ a))
ltb-cases a b = elim (Bool-cases (ltb a b)) [
  | inl e ↦ inl (e, ltb→lt a b e)
  | inr e ↦ inr (e, ltb→le a b e)
]

module _ (g : Globals) (m : ApInt) where
  -- What an extension to the width stands for: a truncation where it is smaller.
  abbrev pub resized : (Expr → ℕ → Expr) → Expr → ℕ → Expr
  resized node e w = if ltb w (get_width g e) then extract e 0 w else node e w

  module _ (node : Expr → ℕ → Expr) (fold : ℕ → ℕ → ℕ → Expr) (n : ℕ) (e : Expr) (w : ℕ)
      (fuel : slices e < n) (h : Typed g m e) (pos : 0 < w)
      (same-Means : w ≡ get_width g e → Means g m e (node e w))
      (fold-Means : (w' v : ℕ)
        → get_width g e ≤ w
        → e ≡ constant w' v
        → Means g m (fold w' v w) (node e w))
      (node_typed : get_width g e ≤ w → Typed g m (node e w)) where
    abbrev Result : Option Expr → Type 0
    Result o = (x : Expr) × (o ≡ some x) × Means g m x (resized node e w)

    extension : Result (
        if w == get_width g e
        then some e
        else if ltb w (get_width g e)
        then create_extract g m n e 0 w
        else elim (as_constant e) [ some (w', v) ↦ some (fold w' v w) | none ↦ some (node e w) ])
    extension = elim (ltb-cases w (get_width g e)) [
      | inl (narrower, less) ↦
          let differs : w == get_width g e ≡ false = ground arith in
          rw (differs, narrower)
            (create_extract_lem g m n e 0 w fuel
              (extract-Typed g m e 0 w h pos (omega (arith, less))))
      | inr (wider, less) ↦ elim (Bool-cases (w == get_width g e)) [
        | inl same ↦ rw (same, wider) (e, refl, same-Means (==→≡ w (get_width g e) same))
        | inr differs ↦ elim (Option-cases (as_constant e)) [
          | inl other ↦
              rw (differs, wider, other)
                (node e w, refl, Means-refl g m (node e w) (node_typed less))
          | inr ((w', v), c) ↦
              rw (differs, wider, c)
                (fold w' v w, refl, fold-Means w' v less (as_constant-≡ e w' v c))
        ]
      ]
    ]

  zext_same : (e : Expr) (w : ℕ) → Typed g m e → w ≡ get_width g e → Means g m e (zext e w)
  unfolding get_width value
  zext_same e w h same = (h, sym same, λ s. refl)

  zext-Typed : (e : Expr) (w : ℕ) → Typed g m e → get_width g e ≤ w → Typed g m (zext e w)
  unfolding well_typed
  zext-Typed e w h wide = both_true h (le→leb (get_width g e) w wide)

  sext-Typed : (e : Expr) (w : ℕ) → Typed g m e → get_width g e ≤ w → Typed g m (sext e w)
  unfolding well_typed
  sext-Typed e w h wide = both_true h (le→leb (get_width g e) w wide)

  -- Extending to the same width changes nothing.
  sext_value_same : (w a : ℕ) → a < 2 ^ w → m.sext_or_trunc w w a ≡ a
  sext_value_same w a small =
      m.sext_or_trunc_law w w a (omega arith)
      ∙ if-cases (λ x. x % 2 ^ w ≡ a) (is_negative w a) (a + 2 ^ w - 2 ^ w) a
          (λ _.
            let back : a + 2 ^ w - 2 ^ w ≡ a = omega arith in
            ap (λ x. x % 2 ^ w) back ∙ mod-eq_of_lt small)
          (λ _. mod-eq_of_lt small)

  sext_same : (e : Expr) (w : ℕ) → Typed g m e → w ≡ get_width g e → Means g m e (sext e w)
  unfolding get_width value
  sext_same e w h same = (
    h,
    sym same,
    λ s. sym (
        ap (λ x. m.sext_or_trunc x w (value g m s e)) (sym same)
        ∙ sext_value_same w (value g m s e) (value-lt_at g m s e w h (sym same))),
  )

  zext_fold :
      (e : Expr) (w : ℕ)
      → Typed g m e
      → 0 < w
      → (w' v : ℕ) → get_width g e ≤ w
      → e ≡ constant w' v
      → Means g m (fold_zext m w' v w) (zext e w)
  unfolding get_width value fold_zext
  zext_fold e w h pos w' v wide is_constant =
      let small : v < 2 ^ w' = constant-lt g m w' v (subst (Typed g m) is_constant h) in
      let wider : w' ≤ w = subst (λ x. x ≤ w) (ap (get_width g) is_constant) wide in
      let same = zext_or_trunc_same m w' w wider v small in
      let more = power-le w' w wider in
      (
        constant_typed g m w (m.zext_or_trunc w' w v) pos
            (subst (λ x. x < 2 ^ w) (sym same) (omega (arith, small, more))),
        refl,
        λ s. same ∙ sym (ap (value g m s) is_constant),
      )

  sext_fold :
      (e : Expr) (w : ℕ)
      → Typed g m e
      → 0 < w
      → (w' v : ℕ) → get_width g e ≤ w
      → e ≡ constant w' v
      → Means g m (fold_sext m w' v w) (sext e w)
  unfolding get_width value fold_sext
  sext_fold e w h pos w' v wide is_constant =
      let wider : w' ≤ w = subst (λ x. x ≤ w) (ap (get_width g) is_constant) wide in
      (
        constant_typed g m w (m.sext_or_trunc w' w v) pos (
            subst (λ x. x < 2 ^ w) (sym (m.sext_or_trunc_law w' w v wider))
              (mod_power-lt (if is_negative w' v then v + 2 ^ w - 2 ^ w' else v) w)),
        refl,
        λ s.
            ap₂ (λ x y. m.sext_or_trunc x w y) (sym (ap (get_width g) is_constant))
              (sym (ap (value g m s) is_constant)),
      )

  module _ (n : ℕ) (e : Expr) (w : ℕ) (fuel : slices e < n) (h : well_typed g e ≡ true)
      (pos : 0 < w) where
    -- Zero extension of a well-typed expression to a width that is not 0 ends within the given
    -- fuel if this exceeds the nodes that slices look through, and gives a well-typed expression
    -- of that width that has, under every assignment, the value of the plain extension, or of the
    -- low slice where the width is smaller than the expression's.
    pub create_zext_lem :
        (x : Expr) × (create_zext g m n e w ≡ some x) × Means g m x (resized zext e w)
    unfolding create_zext
    create_zext_lem =
        extension zext (fold_zext m) n e w fuel h pos (zext_same e w h) (zext_fold e w h pos)
          (zext-Typed e w h)

    -- Sign extension of a well-typed expression to a width that is not 0 ends within the given
    -- fuel if this exceeds the nodes that slices look through, and gives a well-typed expression
    -- of that width that has, under every assignment, the value of the plain extension, or of the
    -- low slice where the width is smaller than the expression's.
    pub create_sext_lem :
        (x : Expr) × (create_sext g m n e w ≡ some x) × Means g m x (resized sext e w)
    unfolding create_sext
    create_sext_lem =
        extension sext (fold_sext m) n e w fuel h pos (sext_same e w h) (sext_fold e w h pos)
          (sext-Typed e w h)
