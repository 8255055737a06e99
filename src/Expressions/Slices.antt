-- ===== src/Expressions/Slices.antt =====
-- Slices of words: quotients and remainders by powers of two.
use mathlib.Core.Path.{subst}
use native.Mathlib.Nat.{
  mod-eq_of_lt, mod-lt, mod-add-div, add-mul-mod_self_right, add-mul-div_right, div-eq_of_lt,
  div-div-eq-div-mul, div-lt_iff_lt-mul, div-eq_of_lt-le, div-one, zero-add,
}
use learch.Prelude.{
  ℕ, zero, suc, ◌+◌, ◌-◌, ◌*◌, ◌/◌, ◌%◌, ◌^◌, ◌<◌, ◌≤◌, ◌≡◌, sym, ◌∙◌, ap, arith, pow_pos,
  pow_split, join-lt,
}
use learch.Expressions.Extending.{power_multiple, multiple_mod}

-- Two neighbouring slices make one.
split_mod : (y a b : ℕ) → 0 < a → 0 < b → y % (b * a) ≡ (y / a % b) * a + y % a
split_mod y a b ha hb =
    let low = y % a in
    let high = y / a % b in
    let rest = y / a / b in
    let outer : low + a * (y / a) ≡ y = mod-add-div y a in
    let inner : high + b * rest ≡ y / a = mod-add-div (y / a) b in
    let whole : y ≡ (high * a + low) + rest * (b * a) =
      sym outer ∙ ap (λ q. low + a * q) (sym inner) ∙ spread low a high b rest in
    ap (λ n. n % (b * a)) whole
    ∙ add-mul-mod_self_right (high * a + low) rest (b * a)
    ∙ mod-eq_of_lt (join-lt high low b a (mod-lt (y / a) hb) (mod-lt y ha))
  where
    spread :
        (low a high b rest : ℕ) → low + a * (high + b * rest) ≡ (high * a + low) + rest * (b * a)
    spread low a high b rest = grind arith

pub slices_join :
    (v low_offset width_l width_r : ℕ)
    → (v / 2 ^ (low_offset + width_r) % 2 ^ width_l) * 2 ^ width_r
        + v / 2 ^ low_offset % 2 ^ width_r
      ≡ v / 2 ^ low_offset % 2 ^ (width_l + width_r)
slices_join v o wl wr =
    ap (λ n. (n % 2 ^ wl) * 2 ^ wr + v / 2 ^ o % 2 ^ wr)
      (ap (λ n. v / n) (pow_split o wr) ∙ sym (div-div-eq-div-mul v (2 ^ o) (2 ^ wr)))
    ∙ sym (split_mod (v / 2 ^ o) (2 ^ wr) (2 ^ wl) (pow_pos wr) (pow_pos wl))
    ∙ ap (λ n. v / 2 ^ o % n) (sym (pow_split wl wr))

join_div : (a b n : ℕ) → b < n → (a * n + b) / n ≡ a
join_div a b n h =
    let turn : a * n + b ≡ b + a * n = omega arith in
    let pos : 0 < n = omega (arith, h) in
    ap (λ x. x / n) turn ∙ add-mul-div_right b a pos ∙ ap (λ x. x + a) (div-eq_of_lt h) ∙ zero-add a

-- A slice above the right half of a concatenation.
pub slice_above :
    (a b r off w : ℕ)
    → b < 2 ^ r
    → r ≤ off
    → (a * 2 ^ r + b) / 2 ^ off % 2 ^ w ≡ a / 2 ^ (off - r) % 2 ^ w
slice_above a b r off w hb h =
    let sum : off ≡ r + (off - r) = omega arith in
    ap (λ n. n % 2 ^ w)
      (ap (λ n. (a * 2 ^ r + b) / n) (ap (λ n. 2 ^ n) sum ∙ pow_split r (off - r))
        ∙ sym (div-div-eq-div-mul (a * 2 ^ r + b) (2 ^ r) (2 ^ (off - r)))
        ∙ ap (λ n. n / 2 ^ (off - r)) (join_div a b (2 ^ r) hb))

-- What the shift leaves of a concatenation.
shifted : (a b r off : ℕ) → off ≤ r → (a * 2 ^ r + b) / 2 ^ off ≡ b / 2 ^ off + a * 2 ^ (r - off)
shifted a b r off h =
    let turn : a * (2 ^ (r - off) * 2 ^ off) + b ≡ b + (a * 2 ^ (r - off)) * 2 ^ off =
      grind arith in
    ap (λ n. (a * n + b) / 2 ^ off) (power_multiple off r h)
    ∙ ap (λ n. n / 2 ^ off) turn
    ∙ add-mul-div_right b (a * 2 ^ (r - off)) (pow_pos off)

-- A slice of the right half.
pub slice_below :
    (a b r off w : ℕ) → off + w ≤ r → (a * 2 ^ r + b) / 2 ^ off % 2 ^ w ≡ b / 2 ^ off % 2 ^ w
slice_below a b r off w h =
    let split : a * (2 ^ ((r - off) - w) * 2 ^ w) ≡ (a * 2 ^ ((r - off) - w)) * 2 ^ w =
      grind arith in
    ap (λ n. n % 2 ^ w) (shifted a b r off (omega (arith, h)))
    ∙ ap (λ n. (b / 2 ^ off + a * n) % 2 ^ w) (power_multiple w (r - off) (omega (arith, h)))
    ∙ ap (λ n. (b / 2 ^ off + n) % 2 ^ w) split
    ∙ multiple_mod (b / 2 ^ off) (2 ^ w) (a * 2 ^ ((r - off) - w))

-- A slice of both halves.
pub slice_across :
    (a b r off w : ℕ)
    → b < 2 ^ r
    → off ≤ r
    → r ≤ off + w
    → (a * 2 ^ r + b) / 2 ^ off % 2 ^ w
      ≡ (a / 2 ^ 0 % 2 ^ ((w + off) - r)) * 2 ^ (r - off) + b / 2 ^ off % 2 ^ (r - off)
slice_across a b r off w hb h h' =
    let wr = r - off in
    let wl = (w + off) - r in
    let width : w ≡ wl + wr = omega arith in
    let small : b / 2 ^ off < 2 ^ wr =
      (div-lt_iff_lt-mul {k = 2 ^ off} {x = b} {y = 2 ^ wr} (pow_pos off)).1
        (subst (λ n. b < n) (power_multiple off r h) hb) in
    let turn : b / 2 ^ off + a * 2 ^ wr ≡ a * 2 ^ wr + b / 2 ^ off = omega arith in
    let v : (a * 2 ^ r + b) / 2 ^ off ≡ a * 2 ^ wr + b / 2 ^ off = shifted a b r off h ∙ turn in
    let top : (a * 2 ^ wr + b / 2 ^ off) / 2 ^ wr ≡ a = join_div a (b / 2 ^ off) (2 ^ wr) small in
    let low : (a * 2 ^ wr + b / 2 ^ off) % 2 ^ wr ≡ b / 2 ^ off % 2 ^ wr =
      ap (λ n. n % 2 ^ wr) (sym turn) ∙ multiple_mod (b / 2 ^ off) (2 ^ wr) a in
    ap (λ n. n % 2 ^ w) v
    ∙ ap (λ n. (a * 2 ^ wr + b / 2 ^ off) % 2 ^ n) width
    ∙ ap (λ n. (a * 2 ^ wr + b / 2 ^ off) % n) (pow_split wl wr)
    ∙ split_mod (a * 2 ^ wr + b / 2 ^ off) (2 ^ wr) (2 ^ wl) (pow_pos wr) (pow_pos wl)
    ∙ ap (λ n. (n % 2 ^ wl) * 2 ^ wr + (a * 2 ^ wr + b / 2 ^ off) % 2 ^ wr) (top ∙ sym (div-one a))
    ∙ ap (λ n. (a / 1 % 2 ^ wl) * 2 ^ wr + n) low

-- Complementing a word complements its quotient.
complement_div : (q p c : ℕ) → 0 < p → c < q * p → (q * p - 1 - c) / p ≡ q - 1 - c / p
complement_div q p c hp hc =
    let k = c / p in
    let t = c % p in
    let c_parts : t + p * k ≡ c = mod-add-div c p in
    let t-lt : t < p = mod-lt c hp in
    let k-lt : k < q = (div-lt_iff_lt-mul {k = p} {x = c} {y = q} hp).1 hc in
    let j = q - 1 - k in
    let q_parts : q ≡ k + 1 + j = omega arith in
    let open_up : (k + 1 + j) * p ≡ p * k + p + j * p = grind arith in
    let product : q * p ≡ p * k + p + j * p = ap (λ n. n * p) q_parts ∙ open_up in
    let next : (j + 1) * p ≡ j * p + p = grind arith in
    div-eq_of_lt-le {k = j} p {m = q * p - 1 - c} (omega (arith, product, c_parts, t-lt))
      (omega (arith, product, c_parts, t-lt, next))

complement_low : (q p k d e : ℕ) → q ≡ e * d → k < q → 0 < p → (q * p - 1 - k) % d ≡ (q - 1 - k) % d
complement_low q zero k d e h hk hp = elim hp [ ]
complement_low q (suc p) k d e h hk hp =
    let open_up : q * suc p ≡ q + p * q = grind arith in
    let whole : q * suc p - 1 - k ≡ (q - 1 - k) + p * q = omega (arith, open_up, hk) in
    let multiple : p * (e * d) ≡ (p * e) * d = grind arith in
    ap (λ n. n % d) (whole ∙ ap (λ n. (q - 1 - k) + n) (ap (λ n. p * n) h ∙ multiple))
    ∙ multiple_mod (q - 1 - k) d (p * e)

-- The arithmetic shift, as far as a slice of the word shows it.
pub slice_signed :
    (a w off n : ℕ)
    → a < 2 ^ w
    → off + n ≤ w
    → (2 ^ w - 1 - (2 ^ w - 1 - a) / 2 ^ off) % 2 ^ n ≡ a / 2 ^ off % 2 ^ n
slice_signed a w off n ha h =
    let q = 2 ^ (w - off) in
    let p = 2 ^ off in
    let c = 2 ^ w - 1 - a in
    let parts : 2 ^ w ≡ q * p = power_multiple off w (omega (arith, h)) in
    let c-lt : c < q * p = omega (arith, parts, ha) in
    let k-lt : c / p < q = (div-lt_iff_lt-mul {k = p} {x = c} {y = q} (pow_pos off)).1 c-lt in
    let back : q * p - 1 - c ≡ a = omega (arith, parts, ha) in
    ap (λ x. (x - 1 - c / p) % 2 ^ n) parts
    ∙ complement_low q p (c / p) (2 ^ n) (2 ^ ((w - off) - n))
        (power_multiple n (w - off) (omega (arith, h))) k-lt (pow_pos off)
    ∙ ap (λ x. x % 2 ^ n) (sym (complement_div q p c (pow_pos off) c-lt) ∙ ap (λ x. x / p) back)
