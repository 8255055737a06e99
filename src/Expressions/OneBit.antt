-- ===== src/Expressions/OneBit.antt =====
-- The operations at width 1, the width of Booleans.
use learch.Prelude.{
  ℕ, ◌*◌, ◌^◌, ◌<◌, ◌≡◌, sym, ◌∙◌, ap, ◌==◌, not, inl, inr, ◌⊎◌, arith, ◌&&◌, ◌||◌,
}
use learch.Expressions.{
  add, sub, mul, udiv, sdiv, urem, srem, and, or, xor, shl, lshr, ashr, ult, ule, slt, sle,
}
use learch.Expressions.ApInt.{ApInt}
use learch.Expressions.Meaning.{number}

pub bit-cases : (a : ℕ) → a < 2 ^ 1 → (a ≡ 0) ⊎ (a ≡ 1)
bit-cases a h = omega arith

-- What holds of 0 and 1 holds of every bit.
pub all_bits : (P : ℕ → Type 0) → P 0 → P 1 → (a : ℕ) → a < 2 ^ 1 → P a
all_bits P p q a h = elim (bit-cases a h) [ inl e ↦ rw e p | inr e ↦ rw e q ]

pub all_pairs :
    (P : ℕ → ℕ → Type 0) → P 0 0 → P 0 1 → P 1 0 → P 1 1 → (a b : ℕ) → a < 2 ^ 1 → b < 2 ^ 1 → P a b
all_pairs P p q r t a b ha hb =
    all_bits (λ x. P x b) (all_bits (P 0) p q b hb) (all_bits (P 1) r t b hb) a ha

module _ (m : ApInt) where
  pub or_zero : (w a : ℕ) → a < 2 ^ w → m.operate or w a 0 ≡ a
  or_zero w a h =
      let same : a * 2 ^ 0 ≡ a = omega arith in
      ap (λ x. m.operate or w x 0) (sym same)
      ∙ m.or_disjoint w a 0 0 (omega (arith, h)) (omega arith) (omega (arith, h))
      ∙ omega arith

  pub and_bit : (a b : ℕ) → a < 2 ^ 1 → b < 2 ^ 1 → m.operate and 1 a b ≡ number (a == 1 && b == 1)
  and_bit =
      all_pairs (λ a b. m.operate and 1 a b ≡ number (a == 1 && b == 1)) (m.and_zero 1 0)
        (m.and_ones 1 0 (omega arith)) (m.and_zero 1 1) (m.and_ones 1 1 (omega arith))

  pub or_bit : (a b : ℕ) → a < 2 ^ 1 → b < 2 ^ 1 → m.operate or 1 a b ≡ number (a == 1 || b == 1)
  or_bit =
      all_pairs (λ a b. m.operate or 1 a b ≡ number (a == 1 || b == 1)) (or_zero 1 0 (omega arith))
        (m.or_ones 1 0) (or_zero 1 1 (omega arith)) (m.or_ones 1 1)

  pub xor_bit : (a b : ℕ) → a < 2 ^ 1 → b < 2 ^ 1 → m.operate xor 1 a b ≡ number (not (a == b))
  xor_bit =
      all_pairs (λ a b. m.operate xor 1 a b ≡ number (not (a == b))) (m.xor_zero 1 0 (omega arith))
        (m.xor_ones 1 0 (omega arith)) (m.xor_zero 1 1 (omega arith)) (m.xor_ones 1 1 (omega arith))

  pub mul_bit : (a b : ℕ) → a < 2 ^ 1 → b < 2 ^ 1 → m.operate mul 1 a b ≡ number (a == 1 && b == 1)
  mul_bit =
      all_pairs (λ a b. m.operate mul 1 a b ≡ number (a == 1 && b == 1)) (m.operate_mul 1 0 0)
        (m.operate_mul 1 0 1) (m.operate_mul 1 1 0) (m.operate_mul 1 1 1)

  pub add_bit : (a b : ℕ) → a < 2 ^ 1 → b < 2 ^ 1 → m.operate add 1 a b ≡ number (not (a == b))
  add_bit =
      all_pairs (λ a b. m.operate add 1 a b ≡ number (not (a == b))) (m.operate_add 1 0 0)
        (m.operate_add 1 0 1) (m.operate_add 1 1 0) (m.operate_add 1 1 1)

  pub sub_bit : (a b : ℕ) → a < 2 ^ 1 → b < 2 ^ 1 → m.operate sub 1 a b ≡ number (not (a == b))
  sub_bit =
      all_pairs (λ a b. m.operate sub 1 a b ≡ number (not (a == b))) (m.operate_sub 1 0 0)
        (m.operate_sub 1 0 1) (m.operate_sub 1 1 0) (m.operate_sub 1 1 1)

  pub ult_bit :
      (a b : ℕ)
      → a < 2 ^ 1
      → b < 2 ^ 1
      → m.operate and 1 (number (a == 0)) b ≡ number (m.holds ult 1 a b)
  ult_bit =
      all_pairs (λ a b. m.operate and 1 (number (a == 0)) b ≡ number (m.holds ult 1 a b))
        (m.and_zero 1 1 ∙ ap number (sym (m.holds_ult 1 0 0)))
        (m.and_ones 1 1 (omega arith) ∙ ap number (sym (m.holds_ult 1 0 1)))
        (m.and_zero 1 0 ∙ ap number (sym (m.holds_ult 1 1 0)))
        (m.and_ones 1 0 (omega arith) ∙ ap number (sym (m.holds_ult 1 1 1)))

  pub ule_bit :
      (a b : ℕ)
      → a < 2 ^ 1
      → b < 2 ^ 1
      → m.operate or 1 (number (a == 0)) b ≡ number (m.holds ule 1 a b)
  ule_bit =
      all_pairs (λ a b. m.operate or 1 (number (a == 0)) b ≡ number (m.holds ule 1 a b))
        (or_zero 1 1 (omega arith) ∙ ap number (sym (m.holds_ule 1 0 0)))
        (m.or_ones 1 1 ∙ ap number (sym (m.holds_ule 1 0 1)))
        (or_zero 1 0 (omega arith) ∙ ap number (sym (m.holds_ule 1 1 0)))
        (m.or_ones 1 0 ∙ ap number (sym (m.holds_ule 1 1 1)))

  pub slt_bit :
      (a b : ℕ)
      → a < 2 ^ 1
      → b < 2 ^ 1
      → m.operate and 1 a (number (b == 0)) ≡ number (m.holds slt 1 a b)
  slt_bit =
      all_pairs (λ a b. m.operate and 1 a (number (b == 0)) ≡ number (m.holds slt 1 a b))
        (m.and_ones 1 0 (omega arith) ∙ ap number (sym (m.holds_slt 1 0 0)))
        (m.and_zero 1 0 ∙ ap number (sym (m.holds_slt 1 0 1)))
        (m.and_ones 1 1 (omega arith) ∙ ap number (sym (m.holds_slt 1 1 0)))
        (m.and_zero 1 1 ∙ ap number (sym (m.holds_slt 1 1 1)))

  pub sle_bit :
      (a b : ℕ)
      → a < 2 ^ 1
      → b < 2 ^ 1
      → m.operate or 1 a (number (b == 0)) ≡ number (m.holds sle 1 a b)
  sle_bit =
      all_pairs (λ a b. m.operate or 1 a (number (b == 0)) ≡ number (m.holds sle 1 a b))
        (m.or_ones 1 0 ∙ ap number (sym (m.holds_sle 1 0 0)))
        (or_zero 1 0 (omega arith) ∙ ap number (sym (m.holds_sle 1 0 1)))
        (m.or_ones 1 1 ∙ ap number (sym (m.holds_sle 1 1 0)))
        (or_zero 1 1 (omega arith) ∙ ap number (sym (m.holds_sle 1 1 1)))

  pub shl_bit :
      (a b : ℕ) → a < 2 ^ 1 → b < 2 ^ 1 → m.operate and 1 a (number (b == 0)) ≡ m.operate shl 1 a b
  shl_bit =
      all_pairs (λ a b. m.operate and 1 a (number (b == 0)) ≡ m.operate shl 1 a b)
        (m.and_ones 1 0 (omega arith) ∙ sym (m.operate_shl 1 0 0))
        (m.and_zero 1 0 ∙ sym (m.operate_shl 1 0 1))
        (m.and_ones 1 1 (omega arith) ∙ sym (m.operate_shl 1 1 0))
        (m.and_zero 1 1 ∙ sym (m.operate_shl 1 1 1))

  pub lshr_bit :
      (a b : ℕ) → a < 2 ^ 1 → b < 2 ^ 1 → m.operate and 1 a (number (b == 0)) ≡ m.operate lshr 1 a b
  lshr_bit =
      all_pairs (λ a b. m.operate and 1 a (number (b == 0)) ≡ m.operate lshr 1 a b)
        (m.and_ones 1 0 (omega arith) ∙ sym (m.operate_lshr 1 0 0))
        (m.and_zero 1 0 ∙ sym (m.operate_lshr 1 0 1))
        (m.and_ones 1 1 (omega arith) ∙ sym (m.operate_lshr 1 1 0))
        (m.and_zero 1 1 ∙ sym (m.operate_lshr 1 1 1))

  pub ashr_bit : (a b : ℕ) → a < 2 ^ 1 → b < 2 ^ 1 → a ≡ m.operate ashr 1 a b
  ashr_bit =
      all_pairs (λ a b. a ≡ m.operate ashr 1 a b) (sym (m.operate_ashr 1 0 0))
        (sym (m.operate_ashr 1 0 1)) (sym (m.operate_ashr 1 1 0)) (sym (m.operate_ashr 1 1 1))

  -- The divisor 1.
  pub udiv_bit : (a : ℕ) → a < 2 ^ 1 → a ≡ m.operate udiv 1 a 1
  udiv_bit =
      all_bits (λ a. a ≡ m.operate udiv 1 a 1) (sym (m.operate_udiv 1 0 1 (omega arith)))
        (sym (m.operate_udiv 1 1 1 (omega arith)))

  pub sdiv_bit : (a : ℕ) → a < 2 ^ 1 → a ≡ m.operate sdiv 1 a 1
  sdiv_bit =
      all_bits (λ a. a ≡ m.operate sdiv 1 a 1) (sym (m.operate_sdiv 1 0 1 (omega arith)))
        (sym (m.operate_sdiv 1 1 1 (omega arith)))

  pub urem_bit : (a : ℕ) → a < 2 ^ 1 → 0 ≡ m.operate urem 1 a 1
  urem_bit =
      all_bits (λ a. 0 ≡ m.operate urem 1 a 1) (sym (m.operate_urem 1 0 1 (omega arith)))
        (sym (m.operate_urem 1 1 1 (omega arith)))

  pub srem_bit : (a : ℕ) → a < 2 ^ 1 → 0 ≡ m.operate srem 1 a 1
  srem_bit =
      all_bits (λ a. 0 ≡ m.operate srem 1 a 1) (sym (m.operate_srem 1 0 1 (omega arith)))
        (sym (m.operate_srem 1 1 1 (omega arith)))
