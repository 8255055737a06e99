-- ===== src/Expressions/ApInt/Machine.antt =====
-- An instance of what is asked of APInt, for running the definitions.
use learch.Prelude.{
  ℕ, ◌+◌, ◌-◌, ◌*◌, ◌/◌, ◌%◌, ◌^◌, ◌<◌, ◌≡◌, refl, Bool, true, false, not, ◌&&◌, ltb, leb, ◌==◌,
  if◌then◌else◌, if-cases, arith, pow_pos, mod_power-lt,
}
use learch.Expressions.{
  Arithmetic, add, sub, mul, udiv, sdiv, urem, srem, and, or, xor, shl, lshr, ashr, Comparison, eq,
  ne, ult, ule, ugt, uge, slt, sle, sgt, sge,
}
use learch.Expressions.ApInt.{ApInt, is_negative, negated, magnitude, biased}
use learch.Expressions.ApInt.Bitwise.{
  bits, bits-lt, bits_comm, bits_keep, bits_absorb, bits_flip, bits_disjoint, either,
}

abbrev pub both_set : Bool → Bool → Bool
both_set x y = x && y

abbrev pub one_set : Bool → Bool → Bool
one_set x y = if y then not x else x

abbrev pub signed_quotient : ℕ → ℕ → ℕ → ℕ
signed_quotient w a b =
    if (if is_negative w a then not (is_negative w b) else is_negative w b)
    then negated w (magnitude w a / magnitude w b)
    else (magnitude w a / magnitude w b) % 2 ^ w

abbrev pub signed_remainder : ℕ → ℕ → ℕ → ℕ
signed_remainder w a b =
    if is_negative w a
    then negated w (magnitude w a % magnitude w b)
    else (magnitude w a % magnitude w b) % 2 ^ w

abbrev pub shifted_signed : ℕ → ℕ → ℕ → ℕ
shifted_signed w a b =
    if is_negative w a then 2 ^ w - 1 - (2 ^ w - 1 - a) / 2 ^ b else (a / 2 ^ b) % 2 ^ w

abbrev pub machine_operate : Arithmetic → ℕ → ℕ → ℕ → ℕ
machine_operate add w a b = (a + b) % 2 ^ w
machine_operate sub w a b = (a + (2 ^ w - b)) % 2 ^ w
machine_operate mul w a b = (a * b) % 2 ^ w
machine_operate udiv w a b = (a / b) % 2 ^ w
machine_operate sdiv w a b = signed_quotient w a b
machine_operate urem w a b = (a % b) % 2 ^ w
machine_operate srem w a b = signed_remainder w a b
machine_operate and w a b = bits both_set w a b
machine_operate or w a b = bits either w a b
machine_operate xor w a b = bits one_set w a b
machine_operate shl w a b = (a * 2 ^ b) % 2 ^ w
machine_operate lshr w a b = (a / 2 ^ b) % 2 ^ w
machine_operate ashr w a b = shifted_signed w a b

pub machine_operate-lt : (k : Arithmetic) (w a b : ℕ) → machine_operate k w a b < 2 ^ w
machine_operate-lt add w a b = mod_power-lt (a + b) w
machine_operate-lt sub w a b = mod_power-lt (a + (2 ^ w - b)) w
machine_operate-lt mul w a b = mod_power-lt (a * b) w
machine_operate-lt udiv w a b = mod_power-lt (a / b) w
machine_operate-lt sdiv w a b =
    if-cases (λ x. x < 2 ^ w) (if is_negative w a then not (is_negative w b) else is_negative w b)
      (negated w (magnitude w a / magnitude w b)) ((magnitude w a / magnitude w b) % 2 ^ w)
      (λ _. mod_power-lt (2 ^ w - magnitude w a / magnitude w b) w)
      (λ _. mod_power-lt (magnitude w a / magnitude w b) w)
machine_operate-lt urem w a b = mod_power-lt (a % b) w
machine_operate-lt srem w a b =
    if-cases (λ x. x < 2 ^ w) (is_negative w a) (negated w (magnitude w a % magnitude w b))
      ((magnitude w a % magnitude w b) % 2 ^ w)
      (λ _. mod_power-lt (2 ^ w - magnitude w a % magnitude w b) w)
      (λ _. mod_power-lt (magnitude w a % magnitude w b) w)
machine_operate-lt and w a b = bits-lt both_set w a b
machine_operate-lt or w a b = bits-lt either w a b
machine_operate-lt xor w a b = bits-lt one_set w a b
machine_operate-lt shl w a b = mod_power-lt (a * 2 ^ b) w
machine_operate-lt lshr w a b = mod_power-lt (a / 2 ^ b) w
machine_operate-lt ashr w a b =
    if-cases (λ x. x < 2 ^ w) (is_negative w a) (2 ^ w - 1 - (2 ^ w - 1 - a) / 2 ^ b)
      ((a / 2 ^ b) % 2 ^ w) (λ _. let pos = pow_pos w in omega (arith, pos))
      (λ _. mod_power-lt (a / 2 ^ b) w)

abbrev pub machine_holds : Comparison → ℕ → ℕ → ℕ → Bool
machine_holds eq w a b = a == b
machine_holds ne w a b = not (a == b)
machine_holds ult w a b = ltb a b
machine_holds ule w a b = leb a b
machine_holds ugt w a b = ltb b a
machine_holds uge w a b = leb b a
machine_holds slt w a b = ltb (biased w a) (biased w b)
machine_holds sle w a b = leb (biased w a) (biased w b)
machine_holds sgt w a b = ltb (biased w b) (biased w a)
machine_holds sge w a b = leb (biased w b) (biased w a)

pub both_set_comm : (x y : Bool) → both_set x y ≡ both_set y x
both_set_comm true true = refl
both_set_comm true false = refl
both_set_comm false true = refl
both_set_comm false false = refl

pub both_set-true : (x : Bool) → both_set x true ≡ x
both_set-true true = refl
both_set-true false = refl

pub both_set-false : (x : Bool) → both_set x false ≡ false
both_set-false true = refl
both_set-false false = refl

pub either_comm : (x y : Bool) → either x y ≡ either y x
either_comm true true = refl
either_comm true false = refl
either_comm false true = refl
either_comm false false = refl

pub either-true : (x : Bool) → either x true ≡ true
either-true true = refl
either-true false = refl

pub one_set_comm : (x y : Bool) → one_set x y ≡ one_set y x
one_set_comm true true = refl
one_set_comm true false = refl
one_set_comm false true = refl
one_set_comm false false = refl

abbrev pub machine : ApInt
machine = record {
  operate = machine_operate;
  operate-lt = machine_operate-lt;
  operate_add = λ w a b. refl;
  operate_sub = λ w a b. refl;
  operate_mul = λ w a b. refl;
  operate_udiv = λ w a b h. refl;
  operate_urem = λ w a b h. refl;
  operate_sdiv = λ w a b h. refl;
  operate_srem = λ w a b h. refl;
  operate_shl = λ w a b. refl;
  operate_lshr = λ w a b. refl;
  operate_ashr = λ w a b. refl;
  and_ones = λ w a h. bits_keep both_set true both_set-true w a h;
  and_zero = λ w a. bits_absorb both_set false both_set-false w a;
  and_comm = λ w a b. bits_comm both_set both_set_comm w a b;
  or_ones = λ w a. bits_absorb either true either-true w a;
  or_comm = λ w a b. bits_comm either either_comm w a b;
  or_disjoint = λ w a k b p q r. bits_disjoint w a k b p q r;
  xor_zero = λ w a h. bits_keep one_set false (λ x. refl) w a h;
  xor_ones = λ w a h. bits_flip one_set (λ x. refl) w a h;
  xor_comm = λ w a b. bits_comm one_set one_set_comm w a b;
  holds = machine_holds;
  holds_eq = λ w a b. refl;
  holds_ne = λ w a b. refl;
  holds_ult = λ w a b. refl;
  holds_ule = λ w a b. refl;
  holds_ugt = λ w a b. refl;
  holds_uge = λ w a b. refl;
  holds_slt = λ w a b. refl;
  holds_sle = λ w a b. refl;
  holds_sgt = λ w a b. refl;
  holds_sge = λ w a b. refl;
  complement = λ w a. 2 ^ w - 1 - a;
  complement_law = λ w a. refl;
  zext_or_trunc = λ from to a. a % 2 ^ to;
  zext_or_trunc_law = λ from to a. refl;
  sext_or_trunc = λ from to a. (if is_negative from a then a + 2 ^ to - 2 ^ from else a) % 2 ^ to;
  sext_or_trunc_law = λ from to a h. refl;
}
