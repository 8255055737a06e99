-- ===== src/Expressions/Extending.antt =====
-- Zero and sign extension undone by truncation, and extraction from a shifted word.
use mathlib.Core.Path.{subst}
use native.Mathlib.Nat.{
  mod-eq_of_lt, mod-mod_of_dvd, add-mul-mod_self_right, pow-le-pow_right, dvd-mul_left,
}
use Prim.Native.Nat.{zero, suc, ◌∣◌}
use learch.Prelude.{
  ℕ, ◌+◌, ◌-◌, ◌*◌, ◌%◌, ◌^◌, ◌<◌, ◌≤◌, ◌≡◌, sym, ◌∙◌, ap, arith, pow_pos, pow_split, Bool, true,
  false, if◌then◌else◌,
}
use learch.Expressions.ApInt.{ApInt, is_negative}

pub power-le : (a b : ℕ) → a ≤ b → 2 ^ a ≤ 2 ^ b
power-le a b h = pow-le-pow_right {n = 2} (omega arith) {i = a} {j = b} h

-- The larger power is a multiple of the smaller.
pub power_multiple : (a b : ℕ) → a ≤ b → 2 ^ b ≡ 2 ^ (b - a) * 2 ^ a
power_multiple a b h =
    let sum : b ≡ (b - a) + a = omega arith in ap (λ x. 2 ^ x) sum ∙ pow_split (b - a) a

pub multiple_mod : (n d q : ℕ) → (n + q * d) % d ≡ n % d
multiple_mod n d q = add-mul-mod_self_right n q d

-- Truncating twice.
pub mod-power_mod : (x a b : ℕ) → a ≤ b → x % 2 ^ b % 2 ^ a ≡ x % 2 ^ a
mod-power_mod x a b h =
    mod-mod_of_dvd (2 ^ a) {b = 2 ^ b} x
      (subst (λ n. 2 ^ a ∣ n) (sym (power_multiple a b h)) (dvd-mul_left (2 ^ a) (2 ^ (b - a))))

less_multiple : (x q d : ℕ) → 0 < q → (x + q * d - d) % d ≡ x % d
less_multiple x zero d h = elim h [ ]
less_multiple x (suc q) d h =
    let open_up : suc q * d ≡ q * d + d = grind arith in
    let sum : x + suc q * d - d ≡ x + q * d = omega (arith, open_up) in
    ap (λ n. n % d) sum ∙ multiple_mod x d q

module _ (m : ApInt) (from to : ℕ) (wider : from ≤ to) where
  pub zext_or_trunc_same : (x : ℕ) → x < 2 ^ from → m.zext_or_trunc from to x ≡ x
  zext_or_trunc_same x h =
      let more = power-le from to wider in
      m.zext_or_trunc_law from to x ∙ mod-eq_of_lt (omega (arith, more, h))

  pub trunc-zext : (x : ℕ) → x < 2 ^ from → m.zext_or_trunc to from x ≡ x
  trunc-zext x h = m.zext_or_trunc_law to from x ∙ mod-eq_of_lt h

  extended :
      (negative : Bool) (x : ℕ)
      → x < 2 ^ from
      → (if negative then x + 2 ^ to - 2 ^ from else x) % 2 ^ to % 2 ^ from ≡ x
  extended true x h =
      mod-power_mod (x + 2 ^ to - 2 ^ from) from to wider
      ∙ ap (λ n. (x + n - 2 ^ from) % 2 ^ from) (power_multiple from to wider)
      ∙ less_multiple x (2 ^ (to - from)) (2 ^ from) (pow_pos (to - from))
      ∙ mod-eq_of_lt h
  extended false x h = mod-power_mod x from to wider ∙ mod-eq_of_lt h

  pub trunc-sext : (x : ℕ) → x < 2 ^ from → m.zext_or_trunc to from (m.sext_or_trunc from to x) ≡ x
  trunc-sext x h =
      m.zext_or_trunc_law to from (m.sext_or_trunc from to x)
      ∙ ap (λ y. y % 2 ^ from) (m.sext_or_trunc_law from to x wider)
      ∙ extended (is_negative from x) x h
