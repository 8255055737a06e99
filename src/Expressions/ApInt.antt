-- ===== src/Expressions/ApInt.antt =====
-- The operations of LLVM's APInt that ConstantExpr calls, as a parameter with their documented
-- results: machine integers of a width, as numbers below `2 ^ width`.
pub mod Bitwise
pub mod Machine
use learch.Prelude.{
  ℕ, ◌+◌, ◌-◌, ◌*◌, ◌/◌, ◌%◌, ◌^◌, ◌<◌, ◌≤◌, ◌≡◌, Bool, ltb, leb, not, ◌==◌, if◌then◌else◌,
}
use learch.Expressions.{
  Arithmetic, add, sub, mul, udiv, sdiv, urem, srem, and, or, xor, shl, lshr, ashr, Comparison, eq,
  ne, ult, ule, ugt, uge, slt, sle, sgt, sge,
}

abbrev pub is_negative : ℕ → ℕ → Bool
is_negative w a = leb (2 ^ (w - 1)) a

abbrev pub negated : ℕ → ℕ → ℕ
negated w a = (2 ^ w - a) % 2 ^ w

abbrev pub magnitude : ℕ → ℕ → ℕ
magnitude w a = if is_negative w a then negated w a else a

-- The number with its sign bit flipped: the signed order is the unsigned order of these.
abbrev pub biased : ℕ → ℕ → ℕ
biased w a = (a + 2 ^ (w - 1)) % 2 ^ w

pub record ApInt : Type 0 where
  -- The operation at a width.
  pub operate : Arithmetic → ℕ → ℕ → ℕ → ℕ
  pub operate-lt : (k : Arithmetic) (w a b : ℕ) → operate k w a b < 2 ^ w
  pub operate_add : (w a b : ℕ) → operate add w a b ≡ (a + b) % 2 ^ w
  pub operate_sub : (w a b : ℕ) → operate sub w a b ≡ (a + (2 ^ w - b)) % 2 ^ w
  pub operate_mul : (w a b : ℕ) → operate mul w a b ≡ (a * b) % 2 ^ w
  pub operate_udiv : (w a b : ℕ) → 0 < b → operate udiv w a b ≡ (a / b) % 2 ^ w
  pub operate_urem : (w a b : ℕ) → 0 < b → operate urem w a b ≡ (a % b) % 2 ^ w
  pub operate_sdiv :
      (w a b : ℕ)
      → 0 < b
      → operate sdiv w a b ≡ (
          if (if is_negative w a then not (is_negative w b) else is_negative w b)
          then negated w (magnitude w a / magnitude w b)
          else (magnitude w a / magnitude w b) % 2 ^ w)
  pub operate_srem :
      (w a b : ℕ)
      → 0 < b
      → operate srem w a b ≡ (
          if is_negative w a
          then negated w (magnitude w a % magnitude w b)
          else (magnitude w a % magnitude w b) % 2 ^ w)
  pub operate_shl : (w a b : ℕ) → operate shl w a b ≡ (a * 2 ^ b) % 2 ^ w
  pub operate_lshr : (w a b : ℕ) → operate lshr w a b ≡ (a / 2 ^ b) % 2 ^ w
  -- The sign is shifted in.
  pub operate_ashr :
      (w a b : ℕ)
      → operate ashr w a b
        ≡ (if is_negative w a then 2 ^ w - 1 - (2 ^ w - 1 - a) / 2 ^ b else (a / 2 ^ b) % 2 ^ w)
  pub and_ones : (w a : ℕ) → a < 2 ^ w → operate and w a (2 ^ w - 1) ≡ a
  pub and_zero : (w a : ℕ) → operate and w a 0 ≡ 0
  pub and_comm : (w a b : ℕ) → operate and w a b ≡ operate and w b a
  pub or_ones : (w a : ℕ) → operate or w a (2 ^ w - 1) ≡ 2 ^ w - 1
  pub or_comm : (w a b : ℕ) → operate or w a b ≡ operate or w b a
  -- Bits that do not meet.
  pub or_disjoint :
      (w a k b : ℕ)
      → a * 2 ^ k < 2 ^ w
      → b < 2 ^ k
      → b < 2 ^ w
      → operate or w (a * 2 ^ k) b ≡ a * 2 ^ k + b
  pub xor_zero : (w a : ℕ) → a < 2 ^ w → operate xor w a 0 ≡ a
  pub xor_ones : (w a : ℕ) → a < 2 ^ w → operate xor w a (2 ^ w - 1) ≡ 2 ^ w - 1 - a
  pub xor_comm : (w a b : ℕ) → operate xor w a b ≡ operate xor w b a
  -- A comparison at a width.
  pub holds : Comparison → ℕ → ℕ → ℕ → Bool
  pub holds_eq : (w a b : ℕ) → holds eq w a b ≡ (a == b)
  pub holds_ne : (w a b : ℕ) → holds ne w a b ≡ not (a == b)
  pub holds_ult : (w a b : ℕ) → holds ult w a b ≡ ltb a b
  pub holds_ule : (w a b : ℕ) → holds ule w a b ≡ leb a b
  pub holds_ugt : (w a b : ℕ) → holds ugt w a b ≡ ltb b a
  pub holds_uge : (w a b : ℕ) → holds uge w a b ≡ leb b a
  pub holds_slt : (w a b : ℕ) → holds slt w a b ≡ ltb (biased w a) (biased w b)
  pub holds_sle : (w a b : ℕ) → holds sle w a b ≡ leb (biased w a) (biased w b)
  pub holds_sgt : (w a b : ℕ) → holds sgt w a b ≡ ltb (biased w b) (biased w a)
  pub holds_sge : (w a b : ℕ) → holds sge w a b ≡ leb (biased w b) (biased w a)
  -- The complement, at a width.
  pub complement : ℕ → ℕ → ℕ
  pub complement_law : (w a : ℕ) → complement w a ≡ 2 ^ w - 1 - a
  -- From a width to a width.
  pub zext_or_trunc : ℕ → ℕ → ℕ → ℕ
  pub zext_or_trunc_law : (from to a : ℕ) → zext_or_trunc from to a ≡ a % 2 ^ to
  pub sext_or_trunc : ℕ → ℕ → ℕ → ℕ
  pub sext_or_trunc_law :
      (from to a : ℕ)
      → from ≤ to
      → sext_or_trunc from to a ≡ (if is_negative from a then a + 2 ^ to - 2 ^ from else a) % 2 ^ to
