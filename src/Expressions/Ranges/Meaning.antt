-- ===== src/Expressions/Ranges/Meaning.antt =====
-- What the queries of getRange about an expression mean.
use native.Mathlib.Nat.{mod-eq_of_lt, div-le_self, pow-suc}
use learch.Prelude.{
  ℕ, zero, suc, ◌/◌, ◌%◌, ◌^◌, ◌<◌, ◌≡◌, refl, sym, ◌∙◌, ap, none, some, Bool, true, false, ◌==◌,
  leb, arith, ≡→==, pow_pos, mod_power-lt, Option-cases, inl, inr, none≢some, some_injective,
}
use mathlib.Core.Path.{ap₂}
use learch.Expressions.{
  Globals, Expr, arithmetic, comparison, Comparison, lshr, eq, ule, get_width, as_constant,
}
use learch.Expressions.ApInt.{ApInt}
use learch.Expressions.Meaning.{Assignment, number, value, Means}
use learch.Expressions.Values.{value-lt, value-lt_at}
use learch.Expressions.OneBit.{all_bits}
use learch.Expressions.Constants.{as_constant-≡}
use learch.Expressions.Rewriting.{
  constant_typed, arithmetic_typed, comparison_typed, both_true, width_pos,
}
use learch.Expressions.Equal.{is_true}
use learch.Expressions.Equal.Steps.{Typed}
use learch.Expressions.Equal.Laws.{create_eq-Means}
use learch.Expressions.Orders.{create_lshr}
use learch.Expressions.Orders.Laws.{create_ule-Means}
use learch.Expressions.Orders.Shifts.{create_lshr-Means}
use learch.Expressions.Queries.{is_boolean, holds_in}
use learch.Expressions.Ranges.{
  create_constant, shifted_query, zero_query, bound_query, constant_number,
}

is_true-number : (b : Bool) → is_true (number b) ≡ b
is_true-number true = refl
is_true-number false = refl

lt-two_pow : (n : ℕ) → n < 2 ^ n
lt-two_pow zero = omega arith
lt-two_pow (suc n) = omega (arith, lt-two_pow n, pow-suc 2 n)

module _ (g : Globals) (m : ApInt) where
  pub Means-Boolean :
      (x l r : Expr) (k : Comparison) → Means g m x (comparison k l r) → is_boolean g x ≡ true
  unfolding is_boolean get_width
  Means-Boolean x l r k (h, w, same) = both_true h (≡→== (get_width g x) 1 w)

  Means-holds :
      (x l r : Expr) (k : Comparison) (s : Assignment)
      → Means g m x (comparison k l r)
      → holds_in g m x s ≡ m.holds k (get_width g l) (value g m s l) (value g m s r)
  unfolding holds_in value
  Means-holds x l r k s (h, w, same) =
      ap is_true (same s)
      ∙ is_true-number (m.holds k (get_width g l) (value g m s l) (value g m s r))

  module _ (opt : g.const_array_opt ≡ false) (e : Expr) (he : Typed g m e) where
    own_constant-Typed : (n : ℕ) → Typed g m (create_constant n (get_width g e))
    unfolding create_constant
    own_constant-Typed n =
        constant_typed g m (get_width g e) (n % 2 ^ get_width g e) (width_pos g m e he)
          (mod_power-lt n (get_width g e))

    own_constant-width : (n : ℕ) → get_width g (create_constant n (get_width g e)) ≡ get_width g e
    unfolding create_constant get_width
    own_constant-width n = refl

    own_constant-value :
        (n : ℕ) (s : Assignment)
        → n < 2 ^ get_width g e
        → value g m s (create_constant n (get_width g e)) ≡ n
    unfolding create_constant value
    own_constant-value n s small = mod-eq_of_lt small

    abbrev shifted : ℕ → Expr
    shifted n = create_lshr g m e (create_constant n (get_width g e))

    shifted-Means :
        (n : ℕ) → Means g m (shifted n) (arithmetic lshr e (create_constant n (get_width g e)))
    shifted-Means n =
        create_lshr-Means g m opt e (create_constant n (get_width g e))
          (arithmetic_typed g m lshr e _ (he, own_constant-Typed n, sym (own_constant-width n)))

    pub shifted_query-Means :
        (n : ℕ)
        → Means g m
            (shifted_query g m e n)
            (comparison eq (shifted n) (create_constant 0 (get_width g e)))
    unfolding shifted_query get_width
    shifted_query-Means n =
        let (h, w, same) = shifted-Means n in
        create_eq-Means g m opt (shifted n) (create_constant 0 (get_width g e)) (
          comparison_typed g m eq (shifted n) _
            (h, own_constant-Typed 0, w ∙ sym (own_constant-width 0)))

    pub shifted_query-holds :
        (n : ℕ) (s : Assignment)
        → n < get_width g e
        → holds_in g m (shifted_query g m e n) s ≡ (value g m s e / 2 ^ n == 0)
    unfolding value get_width
    shifted_query-holds n s small =
        let (h, w, same) = shifted-Means n in
        Means-holds (shifted_query g m e n) (shifted n) (create_constant 0 (get_width g e)) eq s
          (shifted_query-Means n)
        ∙ m.holds_eq (get_width g (shifted n)) (value g m s (shifted n)) _
        ∙ ap₂ (λ x y. x == y)
            (same s
              ∙ ap (m.operate lshr (get_width g e) (value g m s e))
                  (own_constant-value n s (omega (arith, small, lt-two_pow (get_width g e))))
              ∙ m.operate_lshr (get_width g e) (value g m s e) n
              ∙ mod-eq_of_lt
                  (omega (arith, div-le_self (value g m s e) (2 ^ n), value-lt g m s e he)))
            (own_constant-value 0 s (pow_pos (get_width g e)))

    pub zero_query-Means :
        Means g m (zero_query g m e) (comparison eq e (create_constant 0 (get_width g e)))
    unfolding zero_query
    zero_query-Means =
        create_eq-Means g m opt e _
          (comparison_typed g m eq e _ (he, own_constant-Typed 0, sym (own_constant-width 0)))

    pub zero_query-holds :
        (s : Assignment) → holds_in g m (zero_query g m e) s ≡ (value g m s e == 0)
    zero_query-holds s =
        Means-holds (zero_query g m e) e _ eq s zero_query-Means
        ∙ m.holds_eq (get_width g e) (value g m s e) _
        ∙ ap (λ y. value g m s e == y) (own_constant-value 0 s (pow_pos (get_width g e)))

    pub bound_query-Means :
        (n : ℕ)
        → Means g m (bound_query g m e n) (comparison ule e (create_constant n (get_width g e)))
    unfolding bound_query
    bound_query-Means n =
        create_ule-Means g m opt e _
          (comparison_typed g m ule e _ (he, own_constant-Typed n, sym (own_constant-width n)))

    pub bound_query-holds :
        (n : ℕ) (s : Assignment)
        → n < 2 ^ get_width g e
        → holds_in g m (bound_query g m e n) s ≡ leb (value g m s e) n
    bound_query-holds n s small =
        Means-holds (bound_query g m e n) e _ ule s (bound_query-Means n)
        ∙ m.holds_ule (get_width g e) (value g m s e) _
        ∙ ap (λ y. leb (value g m s e) y) (own_constant-value n s small)

    pub constant_number-value :
        (n : ℕ) (s : Assignment) → constant_number e ≡ some n → value g m s e ≡ n
    unfolding constant_number value
    constant_number-value n s h = elim (Option-cases (as_constant e)) [
      | inl other ↦ absurd (none≢some (sym (missing other) ∙ h))
      | inr ((w, v), c) ↦
          ap (value g m s) (as_constant-≡ e w v c) ∙ some_injective (sym (present w v c) ∙ h)
    ]
      where
        missing : as_constant e ≡ none → constant_number e ≡ none
        missing other = rw (constant_number, other) refl

        present : (w v : ℕ) → as_constant e ≡ some (w, v) → constant_number e ≡ some v
        present w v c = rw (constant_number, c) refl

    pub itself-Boolean : get_width g e ≡ 1 → is_boolean g e ≡ true
    unfolding is_boolean
    itself-Boolean one = both_true he (≡→== (get_width g e) 1 one)

    pub itself-holds :
        (s : Assignment) → get_width g e ≡ 1 → holds_in g m e s ≡ (value g m s e == 1)
    unfolding holds_in
    itself-holds s one =
        all_bits (λ v. is_true v ≡ (v == 1)) refl refl (value g m s e)
          (value-lt_at g m s e 1 he one)
