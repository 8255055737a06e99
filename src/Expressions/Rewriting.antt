-- ===== src/Expressions/Rewriting.antt =====
-- Replacing an expression, or its kids, by others of the same meaning.
use learch.Prelude.{
  ℕ, ◌^◌, ◌<◌, ◌≤◌, ◌≡◌, refl, sym, ◌∙◌, ap, Bool, true, ◌&&◌, arith, ap₃, ltb→lt, leb→le, both,
  all_three, ==→≡, ≡→==, lt→ltb,
}
use learch.Expressions.{
  Globals, Arithmetic, Comparison, Expr, constant, arithmetic, comparison, concat, extract,
  not_optimized, read, select, zext, sext, not_expr, get_width,
}
use learch.Expressions.ApInt.{ApInt}
use learch.Expressions.Meaning.{number, well_typed, value, Means}
use learch.Expressions.Values.{value-lt_at}

pub both_true : {a b : Bool} → a ≡ true → b ≡ true → (a && b) ≡ true
both_true h k = cc

module _ (g : Globals) (m : ApInt) where
  pub Means-refl : (e : Expr) → well_typed g e ≡ true → Means g m e e
  Means-refl e h = (h, refl, λ s. refl)

  pub Means-trans : (a b c : Expr) → Means g m a b → Means g m b c → Means g m a c
  Means-trans a b c (h, w, v) (_, w', v') = (h, w ∙ w', λ s. v s ∙ v' s)

  -- The parts of the type of a binary expression.
  abbrev pub Pair : Expr → Expr → Type 0
  Pair l r = (well_typed g l ≡ true) × (well_typed g r ≡ true) × (get_width g l ≡ get_width g r)

  pub arithmetic_typed :
      (k : Arithmetic) (l r : Expr) → Pair l r → well_typed g (arithmetic k l r) ≡ true
  unfolding well_typed
  arithmetic_typed k l r (hl, hr, e) =
      both_true (both_true hl hr) (≡→== (get_width g l) (get_width g r) e)

  pub comparison_typed :
      (k : Comparison) (l r : Expr) → Pair l r → well_typed g (comparison k l r) ≡ true
  unfolding well_typed
  comparison_typed k l r (hl, hr, e) =
      both_true (both_true hl hr) (≡→== (get_width g l) (get_width g r) e)

  pub arithmetic-Pair :
      (k : Arithmetic) (l r : Expr) → well_typed g (arithmetic k l r) ≡ true → Pair l r
  unfolding well_typed
  arithmetic-Pair k l r h =
      let (p, q, w) = all_three h in (p, q, ==→≡ (get_width g l) (get_width g r) w)

  pub comparison-Pair :
      (k : Comparison) (l r : Expr) → well_typed g (comparison k l r) ≡ true → Pair l r
  unfolding well_typed
  comparison-Pair k l r h =
      let (p, q, w) = all_three h in (p, q, ==→≡ (get_width g l) (get_width g r) w)

  pub constant_typed : (w v : ℕ) → 0 < w → v < 2 ^ w → well_typed g (constant w v) ≡ true
  unfolding well_typed
  constant_typed w v p q = both_true (lt→ltb 0 w p) (lt→ltb v (2 ^ w) q)

  -- The widths of well-typed expressions are not zero.
  pub width_pos : (e : Expr) → well_typed g e ≡ true → 0 < get_width g e
  unfolding well_typed get_width
  width_pos (constant w v) h = ltb→lt 0 w (both h).0
  width_pos (not_optimized e) h = width_pos e h
  width_pos (read id us i) h = ltb→lt 0 (g.arrays id).range (both (both h).0).1
  width_pos (select c t f) h = width_pos t (both (both (both h).0).0).1
  width_pos (concat l r) h = let before = width_pos l (both h).0 in omega (arith, before)
  width_pos (extract e off w) h = ltb→lt 0 w (both (both h).0).1
  width_pos (zext e w) h =
      let (p, q) = both h in
      let before = width_pos e p in
      let more : get_width g e ≤ w = leb→le (get_width g e) w q in omega (arith, before, more)
  width_pos (sext e w) h =
      let (p, q) = both h in
      let before = width_pos e p in
      let more : get_width g e ≤ w = leb→le (get_width g e) w q in omega (arith, before, more)
  width_pos (not_expr e) h = width_pos e h
  width_pos (arithmetic k l r) h = width_pos l (both (both h).0).0
  width_pos (comparison k l r) h = omega arith

  pub arithmetic-Means :
      (k : Arithmetic) (l l' r r' : Expr)
      → Means g m l l'
      → Means g m r r'
      → get_width g l' ≡ get_width g r'
      → Means g m (arithmetic k l r) (arithmetic k l' r')
  unfolding value get_width
  arithmetic-Means k l l' r r' (hl, wl, vl) (hr, wr, vr) e = (
    arithmetic_typed k l r (hl, hr, wl ∙ e ∙ sym wr),
    wl,
    λ s. ap₃ (m.operate k) wl (vl s) (vr s),
  )

  pub comparison-Means :
      (k : Comparison) (l l' r r' : Expr)
      → Means g m l l'
      → Means g m r r'
      → get_width g l' ≡ get_width g r'
      → Means g m (comparison k l r) (comparison k l' r')
  unfolding value get_width
  comparison-Means k l l' r r' (hl, wl, vl) (hr, wr, vr) e = (
    comparison_typed k l r (hl, hr, wl ∙ e ∙ sym wr),
    refl,
    λ s. ap number (ap₃ (m.holds k) wl (vl s) (vr s)),
  )

  -- Kinds that agree on bits may replace each other on Booleans.
  pub at_one_bit :
      (k k' : Arithmetic)
      → ((a b : ℕ) → a < 2 ^ 1 → b < 2 ^ 1 → m.operate k 1 a b ≡ m.operate k' 1 a b)
      → (l r : Expr) → Pair l r
      → get_width g l ≡ 1
      → Means g m (arithmetic k l r) (arithmetic k' l r)
  unfolding value get_width
  at_one_bit k k' agree l r (hl, hr, e) one = (
    arithmetic_typed k l r (hl, hr, e),
    refl,
    λ s.
        ap (λ w. m.operate k w (value g m s l) (value g m s r)) one
        ∙ agree (value g m s l) (value g m s r) (value-lt_at g m s l 1 hl one)
            (value-lt_at g m s r 1 hr (sym e ∙ one))
        ∙ ap (λ w. m.operate k' w (value g m s l) (value g m s r)) (sym one),
  )
