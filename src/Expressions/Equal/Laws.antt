-- ===== src/Expressions/Equal/Laws.antt =====
-- The meaning of equalities as they are created.
use mathlib.Core.Path.{subst}
use native.Mathlib.Nat.{mod-eq_of_lt}
use learch.Prelude.{
  ℕ, ◌^◌, ◌≤◌, ◌≡◌, sym, ◌∙◌, ap, none, some, false, ◌==◌, if◌then◌else◌, ==→≡, leb→le, if-cases,
  both, false≢true, ◌%◌,
}
use learch.Expressions.{
  Globals, Expr, constant, read, zext, sext, arithmetic, comparison, add, sub, or, eq, get_width,
  as_constant,
}
use learch.Expressions.ApInt.{ApInt}
use learch.Expressions.Meaning.{Assignment, number, well_typed, value, Means}
use learch.Expressions.Values.{value-lt}
use learch.Expressions.Extending.{trunc-sext, zext_or_trunc_same}
use learch.Expressions.Constants.{fold_comparison, as_constant-cases}
use learch.Expressions.Rewriting.{comparison-Pair, comparison_typed, arithmetic-Pair}
use learch.Expressions.Dispatch.{create_with_partials-Means, fold_comparison-Means}
use learch.Expressions.Logical.{create_and}
use learch.Expressions.Equal.{
  eq_bool, eq_create, eq_constant, double_negation, try_const_array_opt, eq_partial_r, create_eq,
}
use learch.Expressions.Equal.Steps.{
  Test, Typed, value_eq, eq_create-Means, eq_bool-Means, eq_other-Means, eq_constant-Means,
  double_negation-Means, ==-turn,
}
use learch.Expressions.Equal.Parts.{not_or-Means, zero-Typed, kid-Typed, trunc-lt, extension-Means}
use learch.Expressions.Equal.Moving.{add_case, sub_case}

module _ (g : Globals) (m : ApInt) where
  -- The branches for Booleans and for wider words.
  eq_bool_or-Means :
      (w v : ℕ) (r unless other : Expr)
      → Typed g m (Test g m w v r)
      → (w ≡ 1 → v ≡ 0 → Means g m unless (Test g m w v r))
      → (w == 1 ≡ false → Means g m other (Test g m w v r))
      → Means g m (if w == 1 then eq_bool v r unless else other) (Test g m w v r)
  eq_bool_or-Means w v r unless other h narrow wide =
      if-cases (λ e. Means g m e (Test g m w v r)) (w == 1) (eq_bool v r unless) other
        (λ one. eq_bool-Means g m w v r unless h (==→≡ w 1 one) (narrow (==→≡ w 1 one))) wide

  extended_kid : (e : Expr) (w : ℕ) → Typed g m (sext e w) → Typed g m e × (get_width g e ≤ w)
  unfolding well_typed
  extended_kid e w h = let (p, q) = both h in (p, leb→le (get_width g e) w q)

  zero_extended_kid : (e : Expr) (w : ℕ) → Typed g m (zext e w) → Typed g m e × (get_width g e ≤ w)
  unfolding well_typed
  zero_extended_kid e w h = let (p, q) = both h in (p, leb→le (get_width g e) w q)

  value_sext :
      (w w' : ℕ) (e : Expr) (s : Assignment)
      → w ≡ w'
      → value g m s (sext e w') ≡ m.sext_or_trunc (get_width g e) w (value g m s e)
  unfolding value
  value_sext w w' e s same = ap (λ n. m.sext_or_trunc (get_width g e) n (value g m s e)) (sym same)

  value_zext :
      (w w' : ℕ) (e : Expr) (s : Assignment)
      → get_width g e ≤ w
      → Typed g m e
      → value g m s (zext e w') ≡ m.zext_or_trunc (get_width g e) w (value g m s e)
  unfolding value
  value_zext w w' e s wide h =
      sym (zext_or_trunc_same m (get_width g e) w wide (value g m s e) (value-lt g m s e h))

  turned_test :
      (a l r : Expr)
      → Typed g m (comparison eq l r)
      → (Typed g m (comparison eq r l) → Means g m a (comparison eq r l))
      → Means g m a (comparison eq l r)
  unfolding get_width
  turned_test a l r h next =
      let (hl, hr, width) = comparison-Pair g m eq l r h in
      let (typed, one, same) = next (comparison_typed g m eq r l (hr, hl, sym width)) in
      (
        typed,
        one,
        λ s.
            same s
            ∙ value_eq g m r l s
            ∙ ap number (==-turn (value g m s r) (value g m s l))
            ∙ sym (value_eq g m l r s),
      )

  module _ (opt : g.const_array_opt ≡ false) where
    pub eq_partial_r-Means :
        (w v : ℕ) (r : Expr)
        → Typed g m (Test g m w v r)
        → Means g m (eq_partial_r g m w v r) (Test g m w v r)
    unfolding eq_partial_r get_width
    eq_partial_r-Means w v (comparison eq l r) h =
        let plain = eq_create (constant w v) (comparison eq l r) in
        let plain-Means = eq_create-Means g m (constant w v) (comparison eq l r) h in
        eq_bool_or-Means w v (comparison eq l r) (double_negation g m l r plain) plain h
          (λ _ zeros. double_negation-Means g m w v l r plain h zeros plain-Means)
          (λ _. plain-Means)
    eq_partial_r-Means w v (arithmetic or l r) h =
        let (_, typed_or, _) = comparison-Pair g m eq (constant w v) (arithmetic or l r) h in
        let (hl, hr, _) = arithmetic-Pair g m or l r typed_or in
        let a = eq_constant g m l (get_width g l) 0 (eq_partial_r g m (get_width g l) 0 l) in
        let b = eq_constant g m r (get_width g r) 0 (eq_partial_r g m (get_width g r) 0 r) in
        eq_bool_or-Means w v (arithmetic or l r) (create_and g m a b)
          (eq_create (constant w v) (arithmetic or l r)) h
          (λ one zeros.
            not_or-Means g m w v l r a b h one zeros
              (eq_constant-Means g m l (get_width g l) 0 (eq_partial_r g m (get_width g l) 0 l)
                (zero-Typed g m l hl)
                (eq_partial_r-Means (get_width g l) 0 l (zero-Typed g m l hl)))
              (eq_constant-Means g m r (get_width g r) 0 (eq_partial_r g m (get_width g r) 0 r)
                (zero-Typed g m r hr)
                (eq_partial_r-Means (get_width g r) 0 r (zero-Typed g m r hr))))
          (λ _. eq_create-Means g m (constant w v) (arithmetic or l r) h)
    eq_partial_r-Means w v (sext e w') h =
        let (_, typed_ext, width) = comparison-Pair g m eq (constant w v) (sext e w') h in
        let (typed, wide) = extended_kid e w' typed_ext in
        let from = get_width g e in
        let t = m.zext_or_trunc w from v in
        eq_bool_or-Means w v (sext e w') (eq_create (constant w v) (sext e w'))
          (if v == m.sext_or_trunc from w t
            then eq_constant g m e from t (eq_partial_r g m from t e)
            else constant 1 0)
          h (λ _ _. eq_create-Means g m (constant w v) (sext e w') h)
          (λ _.
            extension-Means g m w v e (sext e w') (m.sext_or_trunc from w) h typed
              (λ s. value_sext w w' e s width)
              (trunc-sext m from w (subst (λ x. from ≤ x) (sym width) wide))
              (eq_constant g m e from t (eq_partial_r g m from t e))
              (eq_constant-Means g m e from t (eq_partial_r g m from t e)
                (kid-Typed g m e t typed (trunc-lt g m w from v))
                (eq_partial_r-Means from t e (kid-Typed g m e t typed (trunc-lt g m w from v)))))
    eq_partial_r-Means w v (zext e w') h =
        let (_, typed_ext, width) = comparison-Pair g m eq (constant w v) (zext e w') h in
        let (typed, wide) = zero_extended_kid e w' typed_ext in
        let from = get_width g e in
        let t = m.zext_or_trunc w from v in
        let wide' : from ≤ w = subst (λ x. from ≤ x) (sym width) wide in
        eq_bool_or-Means w v (zext e w') (eq_create (constant w v) (zext e w'))
          (if v == m.zext_or_trunc from w t
            then eq_constant g m e from t (eq_partial_r g m from t e)
            else constant 1 0)
          h (λ _ _. eq_create-Means g m (constant w v) (zext e w') h)
          (λ _.
            extension-Means g m w v e (zext e w') (m.zext_or_trunc from w) h typed
              (λ s. value_zext w w' e s wide' typed)
              (λ x small.
                ap (m.zext_or_trunc w from) (zext_or_trunc_same m from w wide' x small)
                ∙ m.zext_or_trunc_law w from x
                ∙ mod-eq_of_lt small)
              (eq_constant g m e from t (eq_partial_r g m from t e))
              (eq_constant-Means g m e from t (eq_partial_r g m from t e)
                (kid-Typed g m e t typed (trunc-lt g m w from v))
                (eq_partial_r-Means from t e (kid-Typed g m e t typed (trunc-lt g m w from v)))))
    eq_partial_r-Means w v (arithmetic add l r) h =
        let plain = eq_create (constant w v) (arithmetic add l r) in
        let plain-Means = eq_create-Means g m (constant w v) (arithmetic add l r) h in
        eq_bool_or-Means w v (arithmetic add l r) plain
          (elim (as_constant l) [
            | some (w', c) ↦ eq_partial_r g m w (m.operate sub w v c) r
            | none ↦ plain
          ])
          h (λ _ _. plain-Means)
          (λ _.
            as_constant-cases (λ e. Means g m e (Test g m w v (arithmetic add l r))) l
              (λ w' c. eq_partial_r g m w (m.operate sub w v c) r) plain
              (λ w' c q.
                add_case g m w v c w' l r (eq_partial_r g m w (m.operate sub w v c) r) h q
                  (eq_partial_r-Means w (m.operate sub w v c) r))
              plain-Means)
    eq_partial_r-Means w v (arithmetic sub l r) h =
        let plain = eq_create (constant w v) (arithmetic sub l r) in
        let plain-Means = eq_create-Means g m (constant w v) (arithmetic sub l r) h in
        eq_bool_or-Means w v (arithmetic sub l r) plain
          (elim (as_constant l) [
            | some (w', c) ↦ eq_partial_r g m w' (m.operate sub w' c v) r
            | none ↦ plain
          ])
          h (λ _ _. plain-Means)
          (λ _.
            as_constant-cases (λ e. Means g m e (Test g m w v (arithmetic sub l r))) l
              (λ w' c. eq_partial_r g m w' (m.operate sub w' c v) r) plain
              (λ w' c q.
                sub_case g m w v c w' l r (eq_partial_r g m w' (m.operate sub w' c v) r) h q
                  (eq_partial_r-Means w' (m.operate sub w' c v) r))
              plain-Means)
    eq_partial_r-Means w v (read id us i) h =
        let plain = eq_create (constant w v) (read id us i) in
        let plain-Means = eq_create-Means g m (constant w v) (read id us i) h in
        let optimised = try_const_array_opt g m w v id us i (λ n.
          let index = n % 2 ^ get_width g i in
          eq_constant g m i (get_width g i) index (eq_partial_r g m (get_width g i) index i)) in
        eq_bool_or-Means w v (read id us i) plain (if g.const_array_opt then optimised else plain) h
          (λ _ _. plain-Means)
          (λ _.
            if-cases (λ e. Means g m e (Test g m w v (read id us i))) g.const_array_opt optimised
              plain (λ on. absurd (false≢true (sym opt ∙ on))) (λ _. plain-Means))
    eq_partial_r-Means w v r h = eq_other-Means g m w v r h

    pub create_eq-Means :
        (l r : Expr)
        → Typed g m (comparison eq l r)
        → Means g m (create_eq g m l r) (comparison eq l r)
    unfolding create_eq
    create_eq-Means l r h =
        create_with_partials-Means g m (comparison eq) (fold_comparison m eq)
          (fold_comparison-Means g m eq) l r h (eq_partial_r g m) (λ x w v. eq_partial_r g m w v x)
          eq_create (λ w v t. eq_partial_r-Means w v r t)
          (λ w v t.
            turned_test (eq_partial_r g m w v l) l (constant w v) t (eq_partial_r-Means w v l))
          (eq_create-Means g m l r h)
