-- ===== src/Expressions/Values.antt =====
-- The values of well-typed expressions.
use mathlib.Core.Path.{subst}
use native.Mathlib.Nat.{pow-le-pow_right}
use learch.Prelude.{
  ℕ, ◌+◌, ◌-◌, ◌*◌, ◌/◌, ◌^◌, ◌<◌, ◌≤◌, ◌≡◌, sym, Bool, true, false, ◌==◌, if◌then◌else◌, get_elem?,
  arith, pow_pos, pow_split, mod_power-lt, join-lt, both, ==→≡, ltb→lt, leb→le,
}
use learch.Expressions.{
  Globals, Expr, Updates, constant, not_optimized, read, select, concat, extract, zext, sext,
  not_expr, arithmetic, comparison, no_update, update, get_width,
}
use learch.Expressions.ApInt.{ApInt, is_negative}
use learch.Expressions.Meaning.{
  Assignment, number, well_typed, well_typed_updates, initial_value, held, value, value_updates,
}

concat-lt : (a b x y : ℕ) → a < 2 ^ x → b < 2 ^ y → a * 2 ^ y + b < 2 ^ (x + y)
concat-lt a b x y p q = rw (pow_split x y) (join-lt a b (2 ^ x) (2 ^ y) p q)

pub number-lt : (b : Bool) → number b < 2 ^ 1
number-lt true = omega arith
number-lt false = omega arith

if-lt : (c : Bool) (a b n : ℕ) → a < n → b < n → (if c then a else b) < n
if-lt true a b n p q = p
if-lt false a b n p q = q

below : (n a b : ℕ) → n < 2 ^ a → a ≡ b → n < 2 ^ b
below n a b h e = subst (λ (w : ℕ). n < 2 ^ w) e h

module _ (g : Globals) (m : ApInt) (s : Assignment) where
  initial_value-lt : (id i : ℕ) → initial_value g s id i < 2 ^ (g.arrays id).range
  unfolding initial_value
  initial_value-lt id i =
      mod_power-lt (held g (get_elem? (g.arrays id).constant_values i) (s id i)) (g.arrays id).range

  mutual
    unfolding well_typed value get_width

    value_is-lt : (e : Expr) → well_typed g e ≡ true → value g m s e < 2 ^ get_width g e
    value_is-lt (constant w v) h = ltb→lt v (2 ^ w) (both h).1
    value_is-lt (not_optimized e) h = value_is-lt e h
    value_is-lt (read id us i) h = value_updates-lt id us (value g m s i) (both h).1
    value_is-lt (select c t f) h =
        let (p, same_width) = both h in
        let (p, typed_f) = both p in
        let (p, typed_t) = both p in
        if-lt (value g m s c == 1) (value g m s t) (value g m s f) (2 ^ get_width g t)
          (value_is-lt t typed_t)
          (below (value g m s f) (get_width g f) (get_width g t) (value_is-lt f typed_f)
            (sym (==→≡ (get_width g t) (get_width g f) same_width)))
    value_is-lt (concat l r) h =
        concat-lt (value g m s l) (value g m s r) (get_width g l) (get_width g r)
          (value_is-lt l (both h).0) (value_is-lt r (both h).1)
    value_is-lt (extract e off w) h = mod_power-lt (value g m s e / 2 ^ off) w
    value_is-lt (zext e w) h =
        let more : 2 ^ get_width g e ≤ 2 ^ w =
          pow-le-pow_right {n = 2} (omega arith) {i = get_width g e} {j = w}
            (leb→le (get_width g e) w (both h).1) in
        let less = value_is-lt e (both h).0 in omega (arith, more, less)
    value_is-lt (sext e w) h =
        let (p, q) = both h in
        let a = value g m s e in
        subst (λ n. n < 2 ^ w)
          (sym (m.sext_or_trunc_law (get_width g e) w a (leb→le (get_width g e) w q)))
          (mod_power-lt (if is_negative (get_width g e) a then a + 2 ^ w - 2 ^ get_width g e else a)
            w)
    value_is-lt (not_expr e) h =
        rw (m.complement_law (get_width g e) (value g m s e))
          (omega (arith, pow_pos (get_width g e)))
    value_is-lt (arithmetic k l r) h =
        m.operate-lt k (get_width g l) (value g m s l) (value g m s r)
    value_is-lt (comparison k l r) h =
        number-lt (m.holds k (get_width g l) (value g m s l) (value g m s r))

    value_updates-lt :
        (id : ℕ) (us : Updates) (i : ℕ)
        → well_typed_updates g id us ≡ true
        → value_updates g m s id us i < 2 ^ (g.arrays id).range
    value_updates-lt id no_update i h = initial_value-lt id i
    value_updates-lt id (update j v us) i h =
        let (p, typed_us) = both h in
        let (p, same_width) = both p in
        let (p, typed_v) = both p in
        if-lt (value g m s j == i) (value g m s v) (value_updates g m s id us i)
          (2 ^ (g.arrays id).range)
          (below (value g m s v) (get_width g v) (g.arrays id).range (value_is-lt v typed_v)
            (==→≡ (get_width g v) (g.arrays id).range same_width))
          (value_updates-lt id us i typed_us)

  -- The value of a well-typed expression under any assignment is below two to the power of its
  -- width.
  pub value-lt : (e : Expr) → well_typed g e ≡ true → value g m s e < 2 ^ get_width g e
  value-lt = value_is-lt

  -- The same at an equal width.
  pub value-lt_at :
      (e : Expr) (w : ℕ) → well_typed g e ≡ true → get_width g e ≡ w → value g m s e < 2 ^ w
  value-lt_at e w h same_width = below (value g m s e) (get_width g e) w (value-lt e h) same_width
