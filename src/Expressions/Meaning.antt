-- ===== src/Expressions/Meaning.antt =====
-- The types and the values of expressions: what the assertions of klee/lib/Expr/Expr.cpp demand of
-- the kids, and the number an expression stands for once the symbolic arrays are given.
use learch.Prelude.{
  ℕ, ◌+◌, ◌*◌, ◌/◌, ◌%◌, ◌^◌, ◌≡◌, Option, none, some, Bool, true, ◌==◌, ltb, leb, ◌&&◌,
  if◌then◌else◌, get_elem?,
}
use learch.Expressions.{
  Globals, Expr, Updates, constant, not_optimized, read, select, concat, extract, zext, sext,
  not_expr, arithmetic, comparison, no_update, update, get_width,
}
use learch.Expressions.ApInt.{ApInt}

-- The bytes of the symbolic arrays, and what a read out of bounds finds.
abbrev pub Assignment : Type 0
Assignment = ℕ → ℕ → ℕ

abbrev pub number : Bool → ℕ
number b = if b then 1 else 0

module _ (g : Globals) where
  unfoldable mutual
    pub well_typed : Expr → Bool
    well_typed (constant w v) = ltb 0 w && ltb v (2 ^ w)
    well_typed (not_optimized e) = well_typed e
    well_typed (read id us i) =
        well_typed i
        && get_width g i == (g.arrays id).domain
        && ltb 0 (g.arrays id).range
        && well_typed_updates id us
    well_typed (select c t f) =
        well_typed c
        && get_width g c == 1
        && well_typed t
        && well_typed f
        && get_width g t == get_width g f
    well_typed (concat l r) = well_typed l && well_typed r
    well_typed (extract e off w) = well_typed e && ltb 0 w && leb (off + w) (get_width g e)
    well_typed (zext e w) = well_typed e && leb (get_width g e) w
    well_typed (sext e w) = well_typed e && leb (get_width g e) w
    well_typed (not_expr e) = well_typed e
    well_typed (arithmetic _ l r) = well_typed l && well_typed r && get_width g l == get_width g r
    well_typed (comparison _ l r) = well_typed l && well_typed r && get_width g l == get_width g r

    pub well_typed_updates : ℕ → Updates → Bool
    well_typed_updates id no_update = true
    well_typed_updates id (update i v us) =
        well_typed i
        && get_width g i == (g.arrays id).domain
        && well_typed v
        && get_width g v == (g.arrays id).range
        && well_typed_updates id us

  abbrev pub held : Option ℕ → ℕ → ℕ
  held (some v) otherwise = v
  held none otherwise = otherwise

  unfoldable pub initial_value : Assignment → ℕ → ℕ → ℕ
  initial_value s id i =
      held (get_elem? (g.arrays id).constant_values i) (s id i) % 2 ^ (g.arrays id).range

  module _ (m : ApInt) (s : Assignment) where
    unfoldable mutual
      pub value : Expr → ℕ
      value (constant w v) = v
      value (not_optimized e) = value e
      value (read id us i) = value_updates id us (value i)
      value (select c t f) = if value c == 1 then value t else value f
      value (concat l r) = value l * 2 ^ get_width g r + value r
      value (extract e off w) = (value e / 2 ^ off) % 2 ^ w
      value (zext e w) = value e
      value (sext e w) = m.sext_or_trunc (get_width g e) w (value e)
      value (not_expr e) = m.complement (get_width g e) (value e)
      value (arithmetic k l r) = m.operate k (get_width g l) (value l) (value r)
      value (comparison k l r) = number (m.holds k (get_width g l) (value l) (value r))

      -- The most recent write to the index, or the initial value.
      pub value_updates : ℕ → Updates → ℕ → ℕ
      value_updates id no_update i = initial_value s id i
      value_updates id (update j v us) i = if value j == i then value v else value_updates id us i

  -- `e` may stand for `e'`: it has a type, the same width and always the same value.
  abbrev pub Means : ApInt → Expr → Expr → Type 0
  Means m e e' =
      (well_typed e ≡ true)
      × (get_width g e ≡ get_width g e')
      × ((s : Assignment) → value m s e ≡ value m s e')
