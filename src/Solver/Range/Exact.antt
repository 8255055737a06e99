-- ===== src/Solver/Range/Exact.antt =====
-- The searches of getRange put together, over a solver whose answers are right and never missing.
use mathlib.Core.Path.{subst}
use native.Mathlib.Nat.{one-le-pow, pow-le-pow_right}
use learch.Prelude.{
  ℕ, ◌-◌, ◌^◌, ◌≤◌, ◌<◌, ◌≡◌, sym, ◌∙◌, Bool, true, false, ◌==◌, ==→≡, refl, Option-cases, inl, inr,
  arith,
}
use learch.Solver.{Logic, SolverImpl, evaluate, must_be_true, may_be_true}
use learch.Solver.Meaning.{IsSatisfiable, Truth, Verdict, IsSound}
use learch.Solver.Front.{May, evaluate-Right}
use learch.Solver.Range.{
  Number, max_value_of_n_bits, search, ends, find_bits, find_min, find_max, search_range, range_by,
  get_range,
}
use learch.Solver.Range.Calls.{must_be_true-Gives, may_be_true-Gives, evaluate-found}
use learch.Solver.Range.Search.{
  Gives, Gives-map, succeed-Gives, Right-Gives, and_then-Gives, IsComplete, Outcome, Border,
  search-Border, branch-Gives, quotient_zero, max_value_of_n_bits-pow,
}
use learch.Solver.Range.Ends.{
  IsExact, AllBelow, SomeAbove, SomeBelow, AllAbove, LowerEnd, UpperEnd, FewBits, AnyBits, fits,
  at_most-All, at_most-Some, least-LowerEnd, greatest-UpperEnd, itself_holds, one_bit-IsExact,
  known-IsExact, zero_of,
}

module _ {S Q W : Type 0} (logic : Logic Q W) {m : SolverImpl S Q} {Inv : S → Type 0}
    (sound : IsSound logic m Inv) (complete : IsComplete logic m Inv) where
  module _ {width : ℕ} (e : Number logic width) where
    module _ (sat : (w : W) × (e.allowed w ≡ true)) where
      at_most-IsSatisfiable : (n : ℕ) → IsSatisfiable logic (e.at_most n)
      at_most-IsSatisfiable n = (sat.0, e.at_most-constraints_hold n sat.0 ∙ sat.1)

      find_max-Gives :
          (min top : ℕ) (s : S)
          → top < 2 ^ width
          → (AllBelow logic e) top
          → (LowerEnd logic e) min
          → Inv s
          → Gives Inv (UpperEnd logic e) (find_max logic m e min top s)
      unfolding find_max
      find_max-Gives min top s h below lower i =
          let least_world = lower.1 in
          let g =
            search-Border Inv (λ mid s. must_be_true logic m s (e.at_most mid)) (AllBelow logic e)
              (SomeAbove logic e) min top
              (λ n s' k j.
                Gives-map Inv (must_be_true logic m s' (e.at_most n))
                  (λ b t. (at_most-All logic e) n b ((fits logic e) top n h k) t)
                  (must_be_true-Gives logic sound complete s' (e.at_most n) j
                    (at_most-IsSatisfiable n)))
              (top - min) min top s (omega arith) (omega (arith, below least_world.0 least_world.1))
              (omega arith) (omega arith) (λ k. absurd (omega arith)) below i in
          Gives-map Inv
            (search (λ mid s. must_be_true logic m s (e.at_most mid)) (top - min) min top s)
            (λ n b. (greatest-UpperEnd logic e) min n top lower b) g

      find_min-Gives :
          (top : ℕ) (s : S)
          → top < 2 ^ width
          → (AllBelow logic e) top
          → Inv s
          → Gives Inv (LowerEnd logic e) (find_min logic m e top s)
      unfolding find_min
      find_min-Gives top s h below i =
          and_then-Gives (may_be_true logic m s e.is_zero) _
            (may_be_true-Gives logic sound complete s e.is_zero i
              (sat.0, e.is_zero-constraints_hold sat.0 ∙ sat.1))
            (λ res s' t j.
              branch-Gives Inv (LowerEnd logic e) res _ _
                (λ q. succeed-Gives Inv (LowerEnd logic e) 0 s' j (
                  let (w, a, v) = subst (May logic e.is_zero true) q t in
                  (
                    λ _ _. omega arith,
                    (
                      w,
                      sym (e.is_zero-constraints_hold w) ∙ a,
                      zero_of (e.number w) (sym (e.is_zero-value w) ∙ v),
                    ),
                  )))
                (λ q.
                  Gives-map Inv
                    (search (λ mid s. may_be_true logic m s (e.at_most mid)) top 0 top s')
                    (λ n b. (least-LowerEnd logic e) n top b)
                    (search-Border Inv (λ mid s. may_be_true logic m s (e.at_most mid))
                      (SomeBelow logic e) (AllAbove logic e) 0 top
                      (λ n s k j.
                        Gives-map Inv (may_be_true logic m s (e.at_most n))
                          (λ b t. (at_most-Some logic e) n b ((fits logic e) top n h k) t)
                          (may_be_true-Gives logic sound complete s (e.at_most n) j
                            (at_most-IsSatisfiable n)))
                      top 0 top s' (omega arith) (omega arith) (omega arith) (omega arith)
                      (λ k. absurd (omega arith)) (sat.0, sat.1, below sat.0 sat.1) j)))

      shifted-Outcome :
          (n : ℕ) (b : Bool)
          → n < width
          → Truth logic (e.shifted_is_zero n) b
          → Outcome (FewBits logic e) (AnyBits logic e) 0 0 n b
      shifted-Outcome n true h t = λ w a. quotient_zero (e.number w) n (
          zero_of _ (
            sym (e.shifted_is_zero-value n w h) ∙ t w (e.shifted_is_zero-constraints_hold n w ∙ a)))
      shifted-Outcome n false h t = tt

      find_bits-Gives :
          (s : S)
          → Inv s
          → Gives Inv (Border (FewBits logic e) (AnyBits logic e) 0 width) (find_bits logic m e s)
      unfolding find_bits
      find_bits-Gives s i =
          search-Border Inv (λ mid s. must_be_true logic m s (e.shifted_is_zero mid))
            (FewBits logic e) (AnyBits logic e) 0 width
            (λ n s k j.
              Gives-map Inv (must_be_true logic m s (e.shifted_is_zero n))
                (λ b t. shifted-Outcome n b k t)
                (must_be_true-Gives logic sound complete s (e.shifted_is_zero n) j
                  (sat.0, e.shifted_is_zero-constraints_hold n sat.0 ∙ sat.1)))
            width 0 width s (omega arith) (omega arith) (omega arith) (omega arith) (λ k. tt)
            (λ w _. e.number-lt w) i

      top-fits : (bits : ℕ) → bits ≤ width → width ≤ 64 → max_value_of_n_bits bits < 2 ^ width
      top-fits bits l h = omega (
        arith,
        max_value_of_n_bits-pow bits (omega arith),
        pow-le-pow_right {n = 2} (omega arith) l,
        one-le-pow bits 2 (omega arith),
      )

      top-AllBelow :
          (bits : ℕ)
          → bits ≤ 64
          → (FewBits logic e) bits
          → (AllBelow logic e) (max_value_of_n_bits bits)
      top-AllBelow bits h few w a = omega (arith, max_value_of_n_bits-pow bits h, few w a)

      search_range-Gives :
          (s : S) → width ≤ 64 → Inv s → Gives Inv (IsExact logic e) (search_range logic m e s)
      unfolding search_range
      search_range-Gives s h i =
          and_then-Gives (find_bits logic m e s) _ (find_bits-Gives s i) λ bits s₁ b i₁.
            let top = max_value_of_n_bits bits in
            let below = top-AllBelow bits (omega (arith, b.1)) b.2 in
            and_then-Gives (find_min logic m e top s₁) _
              (find_min-Gives top s₁ (top-fits bits b.1 h) below i₁)
              λ min s₂ lower i₂.
                and_then-Gives (find_max logic m e min top s₂) _
                  (find_max-Gives min top s₂ (top-fits bits b.1 h) below lower i₂)
                  λ max s₃ upper i₃.
                    succeed-Gives Inv (IsExact logic e) (min, max) s₃ i₃
                      (record {
                        low = lower.0;
                        high = upper.0;
                        low_reached = lower.1;
                        high_reached = upper.1;
                      })

      range_by-Gives :
          (one_bit : Bool) (test : (width == 1) ≡ one_bit) (s : S)
          → width ≤ 64
          → Inv s
          → Gives Inv (IsExact logic e) (range_by logic m e one_bit test s)
      unfolding range_by
      range_by-Gives true test s h i =
          let one = ==→≡ width 1 test in
          let can_hold : IsSatisfiable logic (e.itself one) =
            (sat.0, itself_holds logic e sat one sat.0 sat.1) in
          and_then-Gives (evaluate logic m s (e.itself one)) _
            (Right-Gives Inv (Verdict logic (e.itself one)) (evaluate logic m s (e.itself one))
              (evaluate-Right logic sound s (e.itself one) i can_hold)
              (evaluate-found logic sound complete s (e.itself one) i can_hold))
            (λ v s₁ t j.
              succeed-Gives Inv (IsExact logic e) (ends v) s₁ j
                (one_bit-IsExact logic e sat v one t))
      range_by-Gives false test s h i = elim (Option-cases e.known_number) [
        | inl n ↦ rw n (search_range-Gives s h i)
        | inr (n, k) ↦
            rw k (succeed-Gives Inv (IsExact logic e) (n, n) s i (known-IsExact logic e sat n k))
      ]

      -- Over a solver that answers rightly and always answers, `getRange` on an expression of at most
      -- 64 bits always gives a range, and it is exact: under constraints that can hold, no value of
      -- the expression lies outside, and both ends are values. The solver keeps its invariant.
      pub get_range-IsExact :
          (s : S) → width ≤ 64 → Inv s → Gives Inv (IsExact logic e) (get_range logic m e s)
      unfolding get_range
      get_range-IsExact s h i = range_by-Gives (width == 1) refl s h i
