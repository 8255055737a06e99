-- ===== src/Expressions/Same.antt =====
-- The equality of expressions, which is `compare` giving 0 in klee/lib/Expr/Expr.cpp, with
-- compareContents of each kind.
use mathlib.Core.Path.{ap₂}
use learch.Prelude.{
  ap₃, all_three, ==→≡, ℕ, ◌≡◌, refl, ap, sym, ◌∙◌, Bool, true, false, ◌==◌, ◌&&◌, arith, List, ◌∷◌,
  [], Option, some, some_injective, both, false≢true, get_elem?,
}
use learch.Expressions.{
  Arithmetic, add, sub, mul, udiv, sdiv, urem, srem, and, or, xor, shl, lshr, ashr, Comparison, eq,
  ne, ult, ule, ugt, uge, slt, sle, sgt, sge, Expr, Updates, constant, not_optimized, read, select,
  concat, extract, zext, sext, not_expr, arithmetic, comparison, no_update, update,
}

-- The order of the kinds in the enumeration.
unfoldable pub arithmetic_kind : Arithmetic → ℕ
arithmetic_kind add = 0
arithmetic_kind sub = 1
arithmetic_kind mul = 2
arithmetic_kind udiv = 3
arithmetic_kind sdiv = 4
arithmetic_kind urem = 5
arithmetic_kind srem = 6
arithmetic_kind and = 7
arithmetic_kind or = 8
arithmetic_kind xor = 9
arithmetic_kind shl = 10
arithmetic_kind lshr = 11
arithmetic_kind ashr = 12

unfoldable pub comparison_kind : Comparison → ℕ
comparison_kind eq = 0
comparison_kind ne = 1
comparison_kind ult = 2
comparison_kind ule = 3
comparison_kind ugt = 4
comparison_kind uge = 5
comparison_kind slt = 6
comparison_kind sle = 7
comparison_kind sgt = 8
comparison_kind sge = 9

-- The kinds in that order.
abbrev arithmetic_kinds : List Arithmetic
arithmetic_kinds =
    add ∷ sub ∷ mul ∷ udiv ∷ sdiv ∷ urem ∷ srem ∷ and ∷ or ∷ xor ∷ shl ∷ lshr ∷ ashr ∷ []

abbrev comparison_kinds : List Comparison
comparison_kinds = eq ∷ ne ∷ ult ∷ ule ∷ ugt ∷ uge ∷ slt ∷ sle ∷ sgt ∷ sge ∷ []

unfoldable arithmetic_of : ℕ → Option Arithmetic
arithmetic_of n = get_elem? arithmetic_kinds n

unfoldable comparison_of : ℕ → Option Comparison
comparison_of n = get_elem? comparison_kinds n

unfoldable mutual
  pub same : Expr → Expr → Bool
  same (constant w v) (constant w' v') = w == w' && v == v'
  same (not_optimized e) (not_optimized e') = same e e'
  same (read id us i) (read id' us' i') = id == id' && same_updates us us' && same i i'
  same (select c t f) (select c' t' f') = same c c' && same t t' && same f f'
  same (concat l r) (concat l' r') = same l l' && same r r'
  same (extract e off w) (extract e' off' w') = off == off' && w == w' && same e e'
  same (zext e w) (zext e' w') = w == w' && same e e'
  same (sext e w) (sext e' w') = w == w' && same e e'
  same (not_expr e) (not_expr e') = same e e'
  same (arithmetic k l r) (arithmetic k' l' r') =
      arithmetic_kind k == arithmetic_kind k' && same l l' && same r r'
  same (comparison k l r) (comparison k' l' r') =
      comparison_kind k == comparison_kind k' && same l l' && same r r'
  same _ _ = false

  pub same_updates : Updates → Updates → Bool
  same_updates no_update no_update = true
  same_updates (update i v us) (update i' v' us') = same i i' && same v v' && same_updates us us'
  same_updates _ _ = false

arithmetic_of-kind : (k : Arithmetic) → arithmetic_of (arithmetic_kind k) ≡ some k
unfolding arithmetic_of arithmetic_kind
arithmetic_of-kind add = refl
arithmetic_of-kind sub = refl
arithmetic_of-kind mul = refl
arithmetic_of-kind udiv = refl
arithmetic_of-kind sdiv = refl
arithmetic_of-kind urem = refl
arithmetic_of-kind srem = refl
arithmetic_of-kind and = refl
arithmetic_of-kind or = refl
arithmetic_of-kind xor = refl
arithmetic_of-kind shl = refl
arithmetic_of-kind lshr = refl
arithmetic_of-kind ashr = refl

comparison_of-kind : (k : Comparison) → comparison_of (comparison_kind k) ≡ some k
unfolding comparison_of comparison_kind
comparison_of-kind eq = refl
comparison_of-kind ne = refl
comparison_of-kind ult = refl
comparison_of-kind ule = refl
comparison_of-kind ugt = refl
comparison_of-kind uge = refl
comparison_of-kind slt = refl
comparison_of-kind sle = refl
comparison_of-kind sgt = refl
comparison_of-kind sge = refl

same_kind : (k k' : Arithmetic) → arithmetic_kind k == arithmetic_kind k' ≡ true → k ≡ k'
same_kind k k' h =
    some_injective
      (sym (arithmetic_of-kind k) ∙ ap arithmetic_of (ground arith) ∙ arithmetic_of-kind k')

same_comparison : (k k' : Comparison) → comparison_kind k == comparison_kind k' ≡ true → k ≡ k'
same_comparison k k' h =
    some_injective
      (sym (comparison_of-kind k) ∙ ap comparison_of (ground arith) ∙ comparison_of-kind k')

mutual
  unfolding same

  same_sound : (e e' : Expr) → same e e' ≡ true → e ≡ e'
  same_sound (constant w v) (constant w' v') h =
      let (p, q) = both h in ap₂ constant (==→≡ w w' p) (==→≡ v v' q)
  same_sound (not_optimized e) (not_optimized e') h = ap not_optimized (same_sound e e' h)
  same_sound (read id us i) (read id' us' i') h =
      let (p, q, r) = all_three h in
      ap₃ read (==→≡ id id' p) (same_updates_sound us us' q) (same_sound i i' r)
  same_sound (select c t f) (select c' t' f') h =
      let (p, q, r) = all_three h in
      ap₃ select (same_sound c c' p) (same_sound t t' q) (same_sound f f' r)
  same_sound (concat l r) (concat l' r') h =
      let (p, q) = both h in ap₂ concat (same_sound l l' p) (same_sound r r' q)
  same_sound (extract e off w) (extract e' off' w') h =
      let (p, q, r) = all_three h in ap₃ extract (same_sound e e' r) (==→≡ off off' p) (==→≡ w w' q)
  same_sound (zext e w) (zext e' w') h =
      let (p, q) = both h in ap₂ zext (same_sound e e' q) (==→≡ w w' p)
  same_sound (sext e w) (sext e' w') h =
      let (p, q) = both h in ap₂ sext (same_sound e e' q) (==→≡ w w' p)
  same_sound (not_expr e) (not_expr e') h = ap not_expr (same_sound e e' h)
  same_sound (arithmetic k l r) (arithmetic k' l' r') h =
      let (p, q, t) = all_three h in
      ap₃ arithmetic (same_kind k k' p) (same_sound l l' q) (same_sound r r' t)
  same_sound (comparison k l r) (comparison k' l' r') h =
      let (p, q, t) = all_three h in
      ap₃ comparison (same_comparison k k' p) (same_sound l l' q) (same_sound r r' t)
  same_sound _ _ h = absurd (false≢true h)

  same_updates_sound : (us us' : Updates) → same_updates us us' ≡ true → us ≡ us'
  same_updates_sound no_update no_update h = refl
  same_updates_sound (update i v us) (update i' v' us') h =
      let (p, q, r) = all_three h in
      ap₃ update (same_sound i i' p) (same_sound v v' q) (same_updates_sound us us' r)
  same_updates_sound _ _ h = absurd (false≢true h)

-- Two expressions that compare as equal are the same expression.
pub same→≡ : (e e' : Expr) → same e e' ≡ true → e ≡ e'
same→≡ = same_sound
