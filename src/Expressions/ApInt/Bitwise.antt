-- ===== src/Expressions/ApInt/Bitwise.antt =====
-- Bitwise operations on numbers, bit by bit: an instance of what is asked of APInt.
use native.Mathlib.Nat.{pow-succ'}
use learch.Prelude.{
  ℕ, zero, suc, ◌+◌, ◌-◌, ◌*◌, ◌/◌, ◌%◌, ◌^◌, ◌<◌, ◌≤◌, ◌≡◌, refl, ◌∙◌, ap, Bool, true, false, not,
  ◌||◌, ◌==◌, if◌then◌else◌, arith, pow_pos,
}

abbrev pub bit_of : Bool → ℕ
bit_of b = if b then 1 else 0

abbrev pub odd : ℕ → Bool
odd a = a % 2 == 1

-- The low `w` bits of the operation.
unfoldable pub bits : (Bool → Bool → Bool) → ℕ → ℕ → ℕ → ℕ
bits op zero a b = 0
bits op (suc w) a b = bit_of (op (odd a) (odd b)) + 2 * bits op w (a / 2) (b / 2)

bit_of-le : (b : Bool) → bit_of b ≤ 1
bit_of-le true = omega arith
bit_of-le false = omega arith

bit_of-odd : (a : ℕ) → bit_of (odd a) ≡ a % 2
bit_of-odd a = ground arith

two_halves : (a w : ℕ) → a < 2 ^ suc w → a / 2 < 2 ^ w
two_halves a w h = let double = pow-succ' 2 w in omega (arith, h, double)

ones_odd : (w : ℕ) → odd (2 ^ suc w - 1) ≡ true
ones_odd w = let double = pow-succ' 2 w in let pos = pow_pos w in ground (arith, double, pos)

ones_half : (w : ℕ) → (2 ^ suc w - 1) / 2 ≡ 2 ^ w - 1
ones_half w = let double = pow-succ' 2 w in let pos = pow_pos w in omega (arith, double, pos)

pub bits-lt : (op : Bool → Bool → Bool) (w a b : ℕ) → bits op w a b < 2 ^ w
unfolding bits
bits-lt op zero a b = omega arith
bits-lt op (suc w) a b =
    let low = bit_of-le (op (odd a) (odd b)) in
    let high = bits-lt op w (a / 2) (b / 2) in
    let double = pow-succ' 2 w in omega (arith, low, high, double)

pub bits_comm :
    (op : Bool → Bool → Bool)
    → ((x y : Bool) → op x y ≡ op y x)
    → (w a b : ℕ) → bits op w a b ≡ bits op w b a
unfolding bits
bits_comm op comm zero a b = refl
bits_comm op comm (suc w) a b =
    ap (λ x. bit_of x + 2 * bits op w (a / 2) (b / 2)) (comm (odd a) (odd b))
    ∙ ap (λ x. bit_of (op (odd b) (odd a)) + 2 * x) (bits_comm op comm w (a / 2) (b / 2))

-- A right argument all of whose bits are `c`.
abbrev all_same : Bool → ℕ → ℕ
all_same c w = if c then 2 ^ w - 1 else 0

all_same-odd : (c : Bool) (w : ℕ) → odd (all_same c (suc w)) ≡ c
all_same-odd true w = ones_odd w
all_same-odd false w = refl

all_same-half : (c : Bool) (w : ℕ) → all_same c (suc w) / 2 ≡ all_same c w
all_same-half true w = ones_half w
all_same-half false w = refl

pub bits_step :
    (op : Bool → Bool → Bool) (c : Bool) (w a : ℕ)
    → bits op (suc w) a (all_same c (suc w))
      ≡ bit_of (op (odd a) c) + 2 * bits op w (a / 2) (all_same c w)
unfolding bits
bits_step op c w a =
    ap (λ x. bit_of (op (odd a) x) + 2 * bits op w (a / 2) (all_same c (suc w) / 2))
      (all_same-odd c w)
    ∙ ap (λ x. bit_of (op (odd a) c) + 2 * bits op w (a / 2) x) (all_same-half c w)

-- An operation that keeps its left argument.
pub bits_keep :
    (op : Bool → Bool → Bool) (c : Bool)
    → ((x : Bool) → op x c ≡ x)
    → (w a : ℕ) → a < 2 ^ w
    → bits op w a (all_same c w) ≡ a
unfolding bits
bits_keep op c keep zero a h = omega (arith, h)
bits_keep op c keep (suc w) a h =
    bits_step op c w a
    ∙ ap (λ x. bit_of x + 2 * bits op w (a / 2) (all_same c w)) (keep (odd a))
    ∙ ap (λ x. bit_of (odd a) + 2 * x) (bits_keep op c keep w (a / 2) (two_halves a w h))
    ∙ ap (λ x. x + 2 * (a / 2)) (bit_of-odd a)
    ∙ omega arith

-- An operation that gives the right argument.
pub bits_absorb :
    (op : Bool → Bool → Bool) (c : Bool)
    → ((x : Bool) → op x c ≡ c)
    → (w a : ℕ) → bits op w a (all_same c w) ≡ all_same c w
unfolding bits
bits_absorb op true absorb zero a = refl
bits_absorb op false absorb zero a = refl
bits_absorb op true absorb (suc w) a =
    let double = pow-succ' 2 w in
    let pos = pow_pos w in
    bits_step op true w a
    ∙ ap (λ x. bit_of x + 2 * bits op w (a / 2) (all_same true w)) (absorb (odd a))
    ∙ ap (λ x. 1 + 2 * x) (bits_absorb op true absorb w (a / 2))
    ∙ omega (arith, double, pos)
bits_absorb op false absorb (suc w) a =
    bits_step op false w a
    ∙ ap (λ x. bit_of x + 2 * bits op w (a / 2) 0) (absorb (odd a))
    ∙ ap (λ x. 0 + 2 * x) (bits_absorb op false absorb w (a / 2))
    ∙ omega arith

-- An operation that flips its left argument.
pub bits_flip :
    (op : Bool → Bool → Bool)
    → ((x : Bool) → op x true ≡ not x)
    → (w a : ℕ) → a < 2 ^ w
    → bits op w a (2 ^ w - 1) ≡ 2 ^ w - 1 - a
unfolding bits
bits_flip op flip zero a h = omega (arith, h)
bits_flip op flip (suc w) a h =
    let double = pow-succ' 2 w in
    let pos = pow_pos w in
    let half = two_halves a w h in
    bits_step op true w a
    ∙ ap (λ x. bit_of x + 2 * bits op w (a / 2) (2 ^ w - 1)) (flip (odd a))
    ∙ ap (λ x. bit_of (not (odd a)) + 2 * x) (bits_flip op flip w (a / 2) half)
    ∙ ground (arith, double, pos, half, h)

abbrev pub either : Bool → Bool → Bool
either x y = x || y

either-false : (x : Bool) → either x false ≡ x
either-false true = refl
either-false false = refl

-- Bits that do not meet.
pub bits_disjoint :
    (w a k b : ℕ)
    → a * 2 ^ k < 2 ^ w
    → b < 2 ^ k
    → b < 2 ^ w
    → bits either w (a * 2 ^ k) b ≡ a * 2 ^ k + b
unfolding bits
bits_disjoint zero a k b ha hb hw = omega (arith, ha, hw)
bits_disjoint (suc w) a zero b ha hb hw =
    let none_left : b ≡ 0 = omega (arith, hb) in
    let same : a * 2 ^ 0 ≡ a * 2 ^ 0 + b = omega (arith, none_left) in
    ap (bits either (suc w) (a * 2 ^ 0)) none_left
    ∙ bits_keep either false either-false (suc w) (a * 2 ^ 0) ha
    ∙ same
bits_disjoint (suc w) a (suc k) b ha hb hw =
    let y = a * 2 ^ k in
    let power = pow-succ' 2 k in
    let power_w = pow-succ' 2 w in
    let spread : a * (2 * 2 ^ k) ≡ 2 * (a * 2 ^ k) = grind arith in
    let double : a * 2 ^ suc k ≡ 2 * y = ap (λ x. a * x) power ∙ spread in
    let even : odd (2 * y) ≡ false = ground arith in
    let half : 2 * y / 2 ≡ y = omega arith in
    let below : bits either w y (b / 2) ≡ y + b / 2 =
      bits_disjoint w a k (b / 2) (omega (arith, ha, double, power_w)) (omega (arith, hb, power))
        (omega (arith, hw, power_w)) in
    ap (λ x. bits either (suc w) x b) double
    ∙ ap (λ x. bit_of (either x (odd b)) + 2 * bits either w (2 * y / 2) (b / 2)) even
    ∙ ap (λ x. bit_of (odd b) + 2 * bits either w x (b / 2)) half
    ∙ ap (λ x. bit_of (odd b) + 2 * x) below
    ∙ ap (λ x. x + 2 * (y + b / 2)) (bit_of-odd b)
    ∙ omega (arith, double)
