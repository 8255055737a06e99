-- ===== src/Expressions/Words.antt =====
-- Sums and differences of machine words: the group that the rewriting of sums rests on.
use native.Mathlib.Nat.{mod-eq_of_lt, mod-add-mod, add-mod-mod, add-mod_right}
use learch.Prelude.{
  ℕ, ◌+◌, ◌-◌, ◌%◌, ◌^◌, ◌<◌, ◌≡◌, sym, ◌∙◌, ap, arith, ◌==◌, ==→≡, ≡→==, Bool-cases, inl, inr,
}
use learch.Expressions.{add, sub}
use learch.Expressions.ApInt.{ApInt}

round_trip : (n a b : ℕ) → a < n → b < n → ((a + (n - b)) % n + b) % n ≡ a
round_trip n a b ha hb =
    let sum : a + (n - b) + b ≡ a + n = omega arith in
    mod-add-mod (a + (n - b)) n b ∙ ap (λ x. x % n) sum ∙ add-mod_right a n ∙ mod-eq_of_lt ha

round_back : (n a b : ℕ) → a < n → b < n → ((a + b) % n + (n - b)) % n ≡ a
round_back n a b ha hb =
    let sum : a + b + (n - b) ≡ a + n = omega arith in
    mod-add-mod (a + b) n (n - b) ∙ ap (λ x. x % n) sum ∙ add-mod_right a n ∙ mod-eq_of_lt ha

pub ==-iff : {a b c d : ℕ} → (a ≡ b → c ≡ d) → (c ≡ d → a ≡ b) → (a == b) ≡ (c == d)
==-iff {a} {b} {c} {d} f h = elim (Bool-cases (a == b)) [
  | inl e ↦ e ∙ sym (≡→== c d (f (==→≡ a b e)))
  | inr e ↦ elim (Bool-cases (c == d)) [
    | inl e' ↦ ≡→== a b (h (==→≡ c d e')) ∙ sym e'
    | inr e' ↦ e ∙ sym e'
  ]
]

module _ (m : ApInt) (w : ℕ) where
  abbrev plus : ℕ → ℕ → ℕ
  plus a b = m.operate add w a b

  abbrev minus : ℕ → ℕ → ℕ
  minus a b = m.operate sub w a b

  pub plus_comm : (a b : ℕ) → plus a b ≡ plus b a
  plus_comm a b =
      let turn : a + b ≡ b + a = omega arith in
      m.operate_add w a b ∙ ap (λ x. x % 2 ^ w) turn ∙ sym (m.operate_add w b a)

  pub plus_assoc : (a b c : ℕ) → plus a (plus b c) ≡ plus (plus a b) c
  plus_assoc a b c =
      let turn : a + (b + c) ≡ a + b + c = omega arith in
      m.operate_add w a (plus b c)
      ∙ ap (λ x. (a + x) % 2 ^ w) (m.operate_add w b c)
      ∙ add-mod-mod a (b + c) (2 ^ w)
      ∙ ap (λ x. x % 2 ^ w) turn
      ∙ sym (mod-add-mod (a + b) (2 ^ w) c)
      ∙ ap (λ x. (x + c) % 2 ^ w) (sym (m.operate_add w a b))
      ∙ sym (m.operate_add w (plus a b) c)

  pub minus-plus : (a b : ℕ) → a < 2 ^ w → b < 2 ^ w → plus (minus a b) b ≡ a
  minus-plus a b ha hb =
      m.operate_add w (minus a b) b
      ∙ ap (λ x. (x + b) % 2 ^ w) (m.operate_sub w a b)
      ∙ round_trip (2 ^ w) a b ha hb

  plus-minus : (a b : ℕ) → a < 2 ^ w → b < 2 ^ w → minus (plus a b) b ≡ a
  plus-minus a b ha hb =
      m.operate_sub w (plus a b) b
      ∙ ap (λ x. (x + (2 ^ w - b)) % 2 ^ w) (m.operate_add w a b)
      ∙ round_back (2 ^ w) a b ha hb

  -- What is added on one side is subtracted on the other.
  pub moved : (x b y : ℕ) → x < 2 ^ w → b < 2 ^ w → plus x b ≡ y → x ≡ minus y b
  moved x b y hx hb e = sym (plus-minus x b hx hb) ∙ ap (λ z. minus z b) e

  module _ (k a r : ℕ) (hk : k < 2 ^ w) (ha : a < 2 ^ w) (hr : r < 2 ^ w) where
    small_plus : (a b : ℕ) → plus a b < 2 ^ w
    small_plus a b = m.operate-lt add w a b

    small_minus : (a b : ℕ) → minus a b < 2 ^ w
    small_minus a b = m.operate-lt sub w a b

    -- k + (r - a) and (k - a) + r
    pub difference_added : plus k (minus r a) ≡ plus (minus k a) r
    difference_added =
        ap (λ x. plus x (minus r a)) (sym (minus-plus k a hk ha))
        ∙ sym (plus_assoc (minus k a) a (minus r a))
        ∙ ap (plus (minus k a)) (plus_comm a (minus r a) ∙ minus-plus r a hr ha)

    -- k + (a - r) and (k + a) - r
    pub difference_inside : plus k (minus a r) ≡ minus (plus k a) r
    difference_inside =
        moved (plus k (minus a r)) r (plus k a) (small_plus k (minus a r)) hr
          (sym (plus_assoc k (minus a r) r) ∙ ap (plus k) (minus-plus a r ha hr))

    -- k - (a + r) and (k - a) - r
    pub sum_subtracted : minus k (plus a r) ≡ minus (minus k a) r
    sum_subtracted =
        let gap = minus k (plus a r) in
        let outer : plus (plus gap r) a ≡ k =
          sym (plus_assoc gap r a)
          ∙ ap (plus gap) (plus_comm r a)
          ∙ minus-plus k (plus a r) hk (small_plus a r) in
        moved gap r (minus k a) (small_minus k (plus a r)) hr
          (moved (plus gap r) a k (small_plus gap r) ha outer)

    -- (k + r) - a and k - (a - r)
    pub plus_then_minus : minus (plus k r) a ≡ minus k (minus a r)
    plus_then_minus =
        let gap = minus (plus k r) a in
        moved gap (minus a r) k (small_minus (plus k r) a) (small_minus a r) (
          moved (plus gap (minus a r)) r (plus k r) (small_plus gap (minus a r)) hr (
            sym (plus_assoc gap (minus a r) r)
            ∙ ap (plus gap) (minus-plus a r ha hr)
            ∙ minus-plus (plus k r) a (small_plus k r) ha)
          ∙ plus-minus k r hk hr)

  -- A constant on the other side of an equation.
  pub ==-plus : (v c b : ℕ) → v < 2 ^ w → c < 2 ^ w → b < 2 ^ w → (v == plus c b) ≡ (minus v c == b)
  ==-plus v c b hv hc hb =
      ==-iff (λ e. sym (moved b c v hb hc (plus_comm b c ∙ sym e)))
        (λ e. sym (ap (plus c) (sym e) ∙ plus_comm c (minus v c) ∙ minus-plus v c hv hc))

  pub ==-minus :
      (v c b : ℕ) → v < 2 ^ w → c < 2 ^ w → b < 2 ^ w → (v == minus c b) ≡ (minus c v == b)
  ==-minus v c b hv hc hb =
      ==-iff
        (λ e. sym (moved b v c hb hv (plus_comm b v ∙ ap (λ x. plus x b) e ∙ minus-plus c b hc hb)))
        (λ e. moved v b c hv hb (plus_comm v b ∙ ap (λ x. plus x v) (sym e) ∙ minus-plus c v hc hv))
