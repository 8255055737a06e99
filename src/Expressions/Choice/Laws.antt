-- ===== src/Expressions/Choice/Laws.antt =====
-- The meaning of selections, complements and implications as they are created.
use mathlib.Core.Path.{subst}
use learch.Prelude.{
  ℕ, ◌^◌, ◌<◌, ◌≡◌, refl, sym, ◌∙◌, ap, true, false, ◌==◌, if◌then◌else◌, inl, inr, ==→≡, if-cases,
  both, false≢true, arith, some, none,
}
use learch.Expressions.{Globals, Expr, constant, select, and, or, get_width, as_constant}
use learch.Expressions.ApInt.{ApInt}
use learch.Expressions.Meaning.{Assignment, number, well_typed, value, Means}
use learch.Expressions.Values.{value-lt_at}
use learch.Expressions.Same.{same, same→≡}
use learch.Expressions.Constants.{as_constant-cases}
use learch.Expressions.Rewriting.{Means-refl}
use learch.Expressions.OneBit.{bit-cases, all_pairs, or_zero}
use learch.Expressions.Logical.{create_and, create_or}
use learch.Expressions.Logical.Laws.{create_and-Means, create_or-Means}
use learch.Expressions.Equal.{is_true, create_is_zero}
use learch.Expressions.Equal.Steps.{Typed}
use learch.Expressions.Orders.Booleans.{joined-Means, not_left-Means}
use learch.Expressions.Choice.{select_bool, create_select}

-- The choice of SelectExpr.
abbrev pick : ℕ → ℕ → ℕ → ℕ
pick c t f = if c == 1 then t else f

module _ (m : ApInt) where
  pick_or : (c f : ℕ) → c < 2 ^ 1 → f < 2 ^ 1 → m.operate or 1 c f ≡ pick c 1 f
  pick_or =
      all_pairs (λ c f. m.operate or 1 c f ≡ pick c 1 f) (or_zero m 1 0 (omega arith))
        (m.or_ones 1 0) (or_zero m 1 1 (omega arith)) (m.or_ones 1 1)

  pick_and : (c t : ℕ) → c < 2 ^ 1 → t < 2 ^ 1 → m.operate and 1 c t ≡ pick c t 0
  pick_and =
      all_pairs (λ c t. m.operate and 1 c t ≡ pick c t 0) (m.and_zero 1 0)
        (m.and_ones 1 0 (omega arith)) (m.and_zero 1 1) (m.and_ones 1 1 (omega arith))

  pick_not_or : (c t : ℕ) → c < 2 ^ 1 → t < 2 ^ 1 → m.operate or 1 (number (c == 0)) t ≡ pick c t 1
  pick_not_or =
      all_pairs (λ c t. m.operate or 1 (number (c == 0)) t ≡ pick c t 1)
        (or_zero m 1 1 (omega arith)) (m.or_ones 1 1) (or_zero m 1 0 (omega arith)) (m.or_ones 1 0)

  pick_not_and :
      (c f : ℕ) → c < 2 ^ 1 → f < 2 ^ 1 → m.operate and 1 (number (c == 0)) f ≡ pick c 0 f
  pick_not_and =
      all_pairs (λ c f. m.operate and 1 (number (c == 0)) f ≡ pick c 0 f) (m.and_zero 1 1)
        (m.and_ones 1 1 (omega arith)) (m.and_zero 1 0) (m.and_ones 1 0 (omega arith))

-- A Boolean constant's value is its truth.
true_value : (v : ℕ) → v < 2 ^ 1 → is_true v ≡ true → 1 ≡ v
true_value v small h = elim (bit-cases v small) [
  | inl e ↦ absurd (false≢true (ap is_true (sym e) ∙ h))
  | inr e ↦ sym e
]

false_value : (v : ℕ) → is_true v ≡ false → 0 ≡ v
false_value v h = ground arith

module _ (g : Globals) (m : ApInt) where
  select_parts :
      (c t f : Expr)
      → Typed g m (select c t f)
      → Typed g m c
        × (get_width g c ≡ 1)
        × Typed g m t
        × Typed g m f
        × (get_width g t ≡ get_width g f)
  unfolding well_typed
  select_parts c t f h =
      let (p, same_width) = both h in
      let (p, hf) = both p in
      let (p, ht) = both p in
      let (hc, wc) = both p in
      (hc, ==→≡ (get_width g c) 1 wc, ht, hf, ==→≡ (get_width g t) (get_width g f) same_width)

  value_select :
      (c t f : Expr) (s : Assignment)
      → value g m s (select c t f) ≡ pick (value g m s c) (value g m s t) (value g m s f)
  unfolding value
  value_select c t f s = refl

  -- A Boolean constant among the kids.
  constant_bit :
      (e : Expr) (w v : ℕ) (s : Assignment)
      → Typed g m e
      → get_width g e ≡ 1
      → e ≡ constant w v
      → (v < 2 ^ 1) × (v ≡ value g m s e)
  unfolding value
  constant_bit e w v s h one is_constant =
      let same : v ≡ value g m s e = sym (ap (value g m s) is_constant) in
      (subst (λ x. x < 2 ^ 1) (sym same) (value-lt_at g m s e 1 h one), same)

  pick_same : (c x : ℕ) → x ≡ pick c x x
  pick_same c x = if-cases (λ y. x ≡ y) (c == 1) x x (λ _. refl) (λ _. refl)

  module _ (opt : g.const_array_opt ≡ false) (c t f : Expr) (h : Typed g m (select c t f)) where
    select_bool-Means : get_width g t ≡ 1 → Means g m (select_bool g m c t f) (select c t f)
    unfolding select_bool get_width
    select_bool-Means one =
        let (hc, wc, ht, hf, same_width) = select_parts c t f h in
        let wf = sym same_width ∙ one in
        let c-lt = λ (s : Assignment). value-lt_at g m s c 1 hc wc in
        let t-lt = λ (s : Assignment). value-lt_at g m s t 1 ht one in
        let f-lt = λ (s : Assignment). value-lt_at g m s f 1 hf wf in
        as_constant-cases (λ e. Means g m e (select c t f)) t
          (λ _ v. if is_true v then create_or g m c f else create_and g m (create_is_zero g m c) f)
          (elim (as_constant f) [
            | some (_, v) ↦
                if is_true v then create_or g m (create_is_zero g m c) t else create_and g m c t
            | none ↦ select c t f
          ])
          (λ w v e.
            if-cases (λ x. Means g m x (select c t f)) (is_true v) (create_or g m c f)
              (create_and g m (create_is_zero g m c) f)
              (λ yes_true.
                joined-Means g m or (create_or g m) (create_or-Means g m) c f c f (select c t f)
                  (Means-refl g m c hc) (Means-refl g m f hf) wc wf one
                  (λ s.
                    let (small, same) = constant_bit t w v s ht one e in
                    pick_or m (value g m s c) (value g m s f) (c-lt s) (f-lt s)
                    ∙ ap (λ x. pick (value g m s c) x (value g m s f))
                        (true_value v small yes_true ∙ same)
                    ∙ sym (value_select c t f s)))
              (λ not_true.
                not_left-Means g m opt c f (select c t f) hc hf wc wf one and (create_and g m)
                  (create_and-Means g m)
                  (λ s.
                    let (small, same) = constant_bit t w v s ht one e in
                    pick_not_and m (value g m s c) (value g m s f) (c-lt s) (f-lt s)
                    ∙ ap (λ x. pick (value g m s c) x (value g m s f))
                        (false_value v not_true ∙ same)
                    ∙ sym (value_select c t f s))))
          (as_constant-cases (λ e. Means g m e (select c t f)) f
            (λ _ v.
              if is_true v then create_or g m (create_is_zero g m c) t else create_and g m c t)
            (select c t f)
            (λ w v e.
              if-cases (λ x. Means g m x (select c t f)) (is_true v)
                (create_or g m (create_is_zero g m c) t) (create_and g m c t)
                (λ yes_true.
                  not_left-Means g m opt c t (select c t f) hc ht wc one one or (create_or g m)
                    (create_or-Means g m)
                    (λ s.
                      let (small, same) = constant_bit f w v s hf wf e in
                      pick_not_or m (value g m s c) (value g m s t) (c-lt s) (t-lt s)
                      ∙ ap (pick (value g m s c) (value g m s t))
                          (true_value v small yes_true ∙ same)
                      ∙ sym (value_select c t f s)))
                (λ not_true.
                  joined-Means g m and (create_and g m) (create_and-Means g m) c t c t
                    (select c t f) (Means-refl g m c hc) (Means-refl g m t ht) wc one one
                    (λ s.
                      let (small, same) = constant_bit f w v s hf wf e in
                      pick_and m (value g m s c) (value g m s t) (c-lt s) (t-lt s)
                      ∙ ap (pick (value g m s c) (value g m s t)) (false_value v not_true ∙ same)
                      ∙ sym (value_select c t f s))))
            (Means-refl g m (select c t f) h))

    -- With `--const-array-opt` off, creating a selection from a Boolean and two well-typed
    -- expressions of equal width gives a well-typed expression of that width that has the value of
    -- the plain selection under every assignment.
    pub create_select-Means : Means g m (create_select g m c t f) (select c t f)
    unfolding create_select get_width
    create_select-Means =
        let (hc, wc, ht, hf, same_width) = select_parts c t f h in
        as_constant-cases (λ e. Means g m e (select c t f)) c (λ _ v. if is_true v then t else f)
          (if same t f
            then t
            else if get_width g t == 1
            then select_bool g m c t f
            else select c t f)
          (λ w v e.
            if-cases (λ x. Means g m x (select c t f)) (is_true v) t f
              (λ yes_true. (
                ht,
                refl,
                λ s.
                    let (small, same) = constant_bit c w v s hc wc e in
                    ap (λ x. pick x (value g m s t) (value g m s f))
                      (true_value v small yes_true ∙ same)
                    ∙ sym (value_select c t f s),
              ))
              (λ not_true. (
                hf,
                sym same_width,
                λ s.
                    let (small, same) = constant_bit c w v s hc wc e in
                    ap (λ x. pick x (value g m s t) (value g m s f)) (false_value v not_true ∙ same)
                    ∙ sym (value_select c t f s),
              )))
          (if-cases (λ x. Means g m x (select c t f)) (same t f) t
            (if get_width g t == 1 then select_bool g m c t f else select c t f)
            (λ e. (
              ht,
              refl,
              λ s.
                  pick_same (value g m s c) (value g m s t)
                  ∙ ap (λ x. pick (value g m s c) (value g m s t) (value g m s x)) (same→≡ t f e)
                  ∙ sym (value_select c t f s),
            ))
            (λ _.
              if-cases (λ x. Means g m x (select c t f)) (get_width g t == 1)
                (select_bool g m c t f) (select c t f)
                (λ one. select_bool-Means (==→≡ (get_width g t) 1 one))
                (λ _. Means-refl g m (select c t f) h)))
