-- ===== src/Prelude/Powers.antt =====
-- Powers of two and remainders by them.
use native.Mathlib.Nat.{mod-lt, one-le-pow, mul-le-mul_right, pow-succ'}
use Prim.Native.Nat.{ℕ, zero, suc, ◌+◌, ◌*◌, ◌%◌, ◌^◌, ◌≤◌, ◌<◌}
use mathlib.Core.Path.{◌≡◌}
use native.Mathlib.Omega.{arith}

pub pow_split : (a b : ℕ) → 2 ^ (a + b) ≡ 2 ^ a * 2 ^ b
pow_split zero b = let same : zero + b ≡ b = omega arith in rw same (omega arith)
pow_split (suc a) b =
    let same : suc a + b ≡ suc (a + b) = omega arith in
    rw (same, pow-succ' 2 (a + b), pow-succ' 2 a, pow_split a b) (grind arith)

pub pow_pos : (a : ℕ) → 0 < 2 ^ a
pow_pos a = one-le-pow a 2 (omega arith)

pub mod_power-lt : (a w : ℕ) → a % 2 ^ w < 2 ^ w
mod_power-lt a w = mod-lt a (pow_pos w)

pub join-lt : (a b m n : ℕ) → a < m → b < n → a * n + b < m * n
join-lt a b m n p q =
    let more : suc a * n ≤ m * n = mul-le-mul_right n p in
    let open_up : suc a * n ≡ a * n + n = grind arith in omega (arith, more, open_up, q)
