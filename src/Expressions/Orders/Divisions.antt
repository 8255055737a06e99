-- ===== src/Expressions/Orders/Divisions.antt =====
-- The meaning of divisions as they are created, where the divisor is not 0.
use mathlib.Core.Path.{ap₂, subst}
use learch.Prelude.{ℕ, ◌^◌, ◌<◌, ◌≡◌, refl, sym, ◌∙◌, true, ◌==◌, ==→≡, if-cases, arith}
use learch.Expressions.{
  Globals, Arithmetic, Expr, constant, arithmetic, udiv, sdiv, urem, srem, get_width,
}
use learch.Expressions.ApInt.{ApInt}
use learch.Expressions.Meaning.{Assignment, well_typed, value}
use learch.Expressions.Values.{value-lt_at}
use learch.Expressions.Constants.{fold_arithmetic, create_folding, create_folding-cases}
use learch.Expressions.Rewriting.{arithmetic-Pair}
use learch.Expressions.Dispatch.{fold_arithmetic-Means}
use learch.Expressions.OneBit.{udiv_bit, sdiv_bit, urem_bit, srem_bit}
use learch.Expressions.Equal.Steps.{Typed, false-Typed}
use learch.Expressions.Orders.{
  for_bool, create_udiv, create_sdiv, create_urem, create_srem, udiv_create, sdiv_create,
  urem_create, srem_create,
}

module _ (g : Globals) (m : ApInt) where
  -- `e` may stand for the division `k` of `l` by `r` wherever the divisor is not 0.
  abbrev pub Divides : Arithmetic → Expr → Expr → Expr → Type 0
  Divides k e l r =
      (well_typed g e ≡ true)
      × (get_width g e ≡ get_width g l)
      × ((s : Assignment) → 0 < value g m s r → value g m s e ≡ value g m s (arithmetic k l r))

  one_divisor : (b : ℕ) → b < 2 ^ 1 → 0 < b → b ≡ 1
  one_divisor b small pos = omega arith

  module _ (k : Arithmetic) (narrow : Expr → Expr → Expr) (l r : Expr)
      (h : Typed g m (arithmetic k l r)) (typed : get_width g l ≡ 1 → Typed g m (narrow l r))
      (width : get_width g l ≡ 1 → get_width g (narrow l r) ≡ get_width g l)
      (law : get_width g l ≡ 1
        → (s : Assignment) → value g m s (narrow l r) ≡ m.operate k 1 (value g m s l) 1) where
    narrow-Divides : get_width g l ≡ 1 → Divides k (narrow l r) l r
    unfolding value
    narrow-Divides one =
        let (hl, hr, same_width) = arithmetic-Pair g m k l r h in
        (
          typed one,
          width one,
          λ s pos.
              law one s
              ∙ ap₂ (λ w b. m.operate k w (value g m s l) b) (sym one)
                  (sym (
                    one_divisor (value g m s r) (value-lt_at g m s r 1 hr (sym same_width ∙ one))
                      pos)),
        )

    create-Divides :
        Divides k
          (create_folding (fold_arithmetic m k) (for_bool g m narrow (arithmetic k)) l r)
          l
          r
    unfolding value get_width
    create-Divides =
        create_folding-cases (λ e. Divides k e l r) (fold_arithmetic m k)
          (for_bool g m narrow (arithmetic k)) l r
          (λ w a w' b el er.
            subst (λ x. Divides k (fold_arithmetic m k w a b) x r) (sym el)
              (subst (λ x. Divides k (fold_arithmetic m k w a b) (constant w a) x) (sym er)
                (let (t, wd, same) = fold_arithmetic-Means g m k w a w' b (
                    subst (λ x. Typed g m (arithmetic k (constant w a) x)) er
                      (subst (λ x. Typed g m (arithmetic k x r)) el h)) in
                  (t, wd, λ s _. same s))))
          (if-cases (λ e. Divides k e l r) (get_width g l == 1) (narrow l r) (arithmetic k l r)
            (λ e. narrow-Divides (==→≡ (get_width g l) 1 e)) (λ _. (h, refl, λ s _. refl)))

  pub create_udiv-Divides :
      (l r : Expr) → Typed g m (arithmetic udiv l r) → Divides udiv (create_udiv g m l r) l r
  unfolding create_udiv udiv_create get_width value
  create_udiv-Divides l r h =
      let (hl, _, _) = arithmetic-Pair g m udiv l r h in
      create-Divides udiv (λ l r. l) l r h (λ _. hl) (λ one. refl)
        (λ one s. udiv_bit m (value g m s l) (value-lt_at g m s l 1 hl one))

  pub create_sdiv-Divides :
      (l r : Expr) → Typed g m (arithmetic sdiv l r) → Divides sdiv (create_sdiv g m l r) l r
  unfolding create_sdiv sdiv_create get_width value
  create_sdiv-Divides l r h =
      let (hl, _, _) = arithmetic-Pair g m sdiv l r h in
      create-Divides sdiv (λ l r. l) l r h (λ _. hl) (λ one. refl)
        (λ one s. sdiv_bit m (value g m s l) (value-lt_at g m s l 1 hl one))

  pub create_urem-Divides :
      (l r : Expr) → Typed g m (arithmetic urem l r) → Divides urem (create_urem g m l r) l r
  unfolding create_urem urem_create get_width value
  create_urem-Divides l r h =
      let (hl, _, _) = arithmetic-Pair g m urem l r h in
      create-Divides urem (λ l r. constant 1 0) l r h (λ _. false-Typed g m) (λ one. sym one)
        (λ one s. urem_bit m (value g m s l) (value-lt_at g m s l 1 hl one))

  pub create_srem-Divides :
      (l r : Expr) → Typed g m (arithmetic srem l r) → Divides srem (create_srem g m l r) l r
  unfolding create_srem srem_create get_width value
  create_srem-Divides l r h =
      let (hl, _, _) = arithmetic-Pair g m srem l r h in
      create-Divides srem (λ l r. constant 1 0) l r h (λ _. false-Typed g m) (λ one. sym one)
        (λ one s. srem_bit m (value g m s l) (value-lt_at g m s l 1 hl one))
