-- ===== src/Expressions/Equal/Parts.antt =====
-- The branches of EqExpr_createPartialR that go on with a kid.
use mathlib.Core.Path.{ap₂}
use learch.Prelude.{
  ℕ, ◌^◌, ◌<◌, ◌≡◌, refl, sym, ◌∙◌, ap, false, ◌==◌, ◌||◌, ◌&&◌, if◌then◌else◌, inl, inr,
  Bool-cases, ==→≡, ≡→==, if-cases, false≢true, pow_pos, arith, mod_power-lt,
}
use learch.Expressions.{Globals, Expr, constant, arithmetic, eq, and, or, get_width}
use learch.Expressions.ApInt.{ApInt}
use learch.Expressions.Meaning.{Assignment, number, value, Means}
use learch.Expressions.Values.{value-lt, value-lt_at}
use learch.Expressions.Words.{==-iff}
use learch.Expressions.Rewriting.{
  Means-trans, constant_typed, comparison-Pair, comparison_typed, arithmetic-Pair, arithmetic_typed,
  arithmetic-Means, width_pos,
}
use learch.Expressions.OneBit.{all_pairs, and_bit, or_bit}
use learch.Expressions.Logical.{create_and}
use learch.Expressions.Logical.Laws.{create_and-Means}
use learch.Expressions.Equal.Steps.{Test, Typed, Means-test, value_eq, false-Typed}

-- An extension `S` that truncation `T` undoes.
module _ (S T : ℕ → ℕ) (v x : ℕ) (back : T (S x) ≡ x) where
  test_kid : v ≡ S (T v) → (T v == x) ≡ (v == S x)
  test_kid e = ==-iff (λ p. e ∙ ap S p) (λ p. ap T p ∙ back)

  test_none : (v == S (T v)) ≡ false → (v == S x) ≡ false
  test_none h = elim (Bool-cases (v == S x)) [
    | inl e ↦
        let p = ==→≡ v (S x) e in
        absurd (false≢true (sym h ∙ ≡→== v (S (T v)) (p ∙ ap S (sym (ap T p ∙ back)))))
    | inr e ↦ e
  ]

module _ (m : ApInt) where
  de_morgan :
      (a b : ℕ)
      → a < 2 ^ 1
      → b < 2 ^ 1
      → m.operate and 1 (number (0 == a)) (number (0 == b)) ≡ number (0 == m.operate or 1 a b)
  de_morgan =
      all_pairs
        (λ a b.
          m.operate and 1 (number (0 == a)) (number (0 == b)) ≡ number (0 == m.operate or 1 a b))
        (pair 1 1 0 0 (omega arith) (omega arith) (omega arith) (omega arith) refl)
        (pair 1 0 0 1 (omega arith) (omega arith) (omega arith) (omega arith) refl)
        (pair 0 1 1 0 (omega arith) (omega arith) (omega arith) (omega arith) refl)
        (pair 0 0 1 1 (omega arith) (omega arith) (omega arith) (omega arith) refl)
    where
      pair :
          (c d a b : ℕ)
          → c < 2 ^ 1
          → d < 2 ^ 1
          → a < 2 ^ 1
          → b < 2 ^ 1
          → number (c == 1 && d == 1) ≡ number (0 == number (a == 1 || b == 1))
          → m.operate and 1 c d ≡ number (0 == m.operate or 1 a b)
      pair c d a b hc hd ha hb e =
          and_bit m c d hc hd ∙ e ∙ ap (λ x. number (0 == x)) (sym (or_bit m a b ha hb))

module _ (g : Globals) (m : ApInt) where
  pub zero-Typed : (e : Expr) → Typed g m e → Typed g m (Test g m (get_width g e) 0 e)
  unfolding get_width
  zero-Typed e h =
      comparison_typed g m eq (constant (get_width g e) 0) e (
        constant_typed g m (get_width g e) 0 (width_pos g m e h) (pow_pos (get_width g e)),
        h,
        refl,
      )

  -- A conjunction of negations for a disjunction.
  pub not_or-Means :
      (w v : ℕ) (l r a b : Expr)
      → Typed g m (Test g m w v (arithmetic or l r))
      → w ≡ 1
      → v ≡ 0
      → Means g m a (Test g m (get_width g l) 0 l)
      → Means g m b (Test g m (get_width g r) 0 r)
      → Means g m (create_and g m a b) (Test g m w v (arithmetic or l r))
  unfolding get_width value
  not_or-Means w v l r a b h one zeros ma mb =
      let (_, typed_or, width) = comparison-Pair g m eq (constant w v) (arithmetic or l r) h in
      let (hl, hr, same_width) = arithmetic-Pair g m or l r typed_or in
      let bit_l : get_width g l ≡ 1 = sym width ∙ one in
      let bit_r : get_width g r ≡ 1 = sym same_width ∙ bit_l in
      let tl = Test g m (get_width g l) 0 l in
      let tr = Test g m (get_width g r) 0 r in
      let kids = arithmetic-Means g m and a tl b tr ma mb refl in
      Means-trans g m (create_and g m a b) (arithmetic and a b) (Test g m w v (arithmetic or l r))
        (create_and-Means g m a b kids.0)
        (Means-trans g m (arithmetic and a b) (arithmetic and tl tr)
          (Test g m w v (arithmetic or l r)) kids
          (Means-test g m (arithmetic and tl tr) (arithmetic or l r) w v
            (arithmetic_typed g m and tl tr (zero-Typed l hl, zero-Typed r hr, refl)) refl
            (λ s.
              ap₂ (m.operate and 1) (value_eq g m (constant (get_width g l) 0) l s)
                (value_eq g m (constant (get_width g r) 0) r s)
              ∙ de_morgan m (value g m s l) (value g m s r) (value-lt_at g m s l 1 hl bit_l)
                  (value-lt_at g m s r 1 hr bit_r)
              ∙ ap₂ (λ x y. number (y == m.operate or x (value g m s l) (value g m s r)))
                  (sym bit_l) (sym zeros))))

  pub kid-Typed :
      (e : Expr) (t : ℕ)
      → Typed g m e
      → t < 2 ^ get_width g e
      → Typed g m (Test g m (get_width g e) t e)
  unfolding get_width
  kid-Typed e t h small =
      comparison_typed g m eq (constant (get_width g e) t) e
        (constant_typed g m (get_width g e) t (width_pos g m e h) small, h, refl)

  pub trunc-lt : (w n v : ℕ) → m.zext_or_trunc w n v < 2 ^ n
  trunc-lt w n v = rw (m.zext_or_trunc_law w n v) (mod_power-lt v n)

  -- The two ways to extend: `S` is what the extension does to the kid's value.
  module _ (w v : ℕ) (e r : Expr) (S : ℕ → ℕ) (typed_test : Typed g m (Test g m w v r))
      (typed : Typed g m e) (extends : (s : Assignment) → value g m s r ≡ S (value g m s e))
      (back : (x : ℕ) → x < 2 ^ get_width g e → m.zext_or_trunc w (get_width g e) (S x) ≡ x) where
    abbrev pub truncated : ℕ
    truncated = m.zext_or_trunc w (get_width g e) v

    pub extension-Means :
        (a : Expr)
        → Means g m a (Test g m (get_width g e) truncated e)
        → Means g m (if v == S truncated then a else constant 1 0) (Test g m w v r)
    unfolding get_width value
    extension-Means a (ha, width, same) =
        if-cases (λ x. Means g m x (Test g m w v r)) (v == S truncated) a (constant 1 0)
          (λ yes_back. Means-test g m a r w v ha width (λ s.
            same s
            ∙ value_eq g m (constant (get_width g e) truncated) e s
            ∙ ap number (
                test_kid S (m.zext_or_trunc w (get_width g e)) v (value g m s e)
                  (back (value g m s e) (value-lt g m s e typed)) (==→≡ v (S truncated) yes_back))
            ∙ ap (λ x. number (v == x)) (sym (extends s))))
          (λ not_back. Means-test g m (constant 1 0) r w v (false-Typed g m) refl (λ s.
            ap number (
              sym (
                test_none S (m.zext_or_trunc w (get_width g e)) v (value g m s e)
                  (back (value g m s e) (value-lt g m s e typed)) not_back))
            ∙ ap (λ x. number (v == x)) (sym (extends s))))
