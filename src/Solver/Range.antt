-- ===== src/Solver/Range.antt =====
-- `Solver::getRange` of klee/lib/Solver/Solver.cpp, which finds the least and the greatest value of an
-- expression by binary searches over a solver. A failed solver call is a failed assertion, `none`.
pub mod Search
pub mod Calls
pub mod Ends
pub mod Exact
use learch.Prelude.{
  ℕ, zero, suc, ◌+◌, ◌-◌, ◌/◌, ◌^◌, ◌<◌, ◌≡◌, Bool, true, false, Option, none, some, ltb, leb, ◌==◌,
  if◌then◌else◌, refl, ==→≡,
}
use learch.Solver.{
  Logic, Validity, is_true, is_false, unknown, SolverImpl, and_then, succeed, evaluate,
  must_be_true, may_be_true,
}

-- An expression of a width, and the queries about it that getRange makes under the same constraints.
-- `number` is its value in a world; the constants fit the width.
pub record Number {Q W : Type 0} (logic : Logic Q W) (width : ℕ) : Type 0 where
  pub allowed : W → Bool
  pub number : W → ℕ
  pub number-lt : (w : W) → number w < 2 ^ width
  -- `dyn_cast<ConstantExpr>`.
  pub known_number : Option ℕ
  pub known_number-number : (n : ℕ) (w : W) → known_number ≡ some n → number w ≡ n
  -- The expression, which only a width of 1 makes a query.
  pub itself : width ≡ 1 → Q
  pub itself-constraints_hold :
      (one : width ≡ 1) (w : W) → logic.constraints_hold (itself one) w ≡ allowed w
  pub itself-value : (one : width ≡ 1) (w : W) → logic.value (itself one) w ≡ (number w == 1)
  -- `(e >> mid) == 0`, `e == 0` and `e <= mid`.
  pub shifted_is_zero : ℕ → Q
  pub shifted_is_zero-constraints_hold :
      (n : ℕ) (w : W) → logic.constraints_hold (shifted_is_zero n) w ≡ allowed w
  pub shifted_is_zero-value :
      (n : ℕ) (w : W) → n < width → logic.value (shifted_is_zero n) w ≡ (number w / 2 ^ n == 0)
  pub is_zero : Q
  pub is_zero-constraints_hold : (w : W) → logic.constraints_hold is_zero w ≡ allowed w
  pub is_zero-value : (w : W) → logic.value is_zero w ≡ (number w == 0)
  pub at_most : ℕ → Q
  pub at_most-constraints_hold : (n : ℕ) (w : W) → logic.constraints_hold (at_most n) w ≡ allowed w
  pub at_most-value : (n : ℕ) (w : W) → n < 2 ^ width → logic.value (at_most n) w ≡ leb (number w) n

-- `bits64::maxValueOfNBits`.
unfoldable pub max_value_of_n_bits : ℕ → ℕ
max_value_of_n_bits n = if n == 0 then 0 else (2 ^ 64 - 1) / 2 ^ (64 - n)

-- The loop of the three binary searches, on fuel.
unfoldable pub search :
    {S : Type 0} → (ℕ → S → Option Bool × S) → (fuel lo hi : ℕ) → S → Option ℕ × S
search test zero lo hi s = (if ltb lo hi then none else some lo, s)
search test (suc fuel) lo hi s =
    let mid = lo + (hi - lo) / 2 in
    elim (ltb lo hi) [
      | true ↦ and_then (test mid s) λ res s'. elim res [
        | true ↦ search test fuel lo mid s'
        | false ↦ search test fuel (mid + 1) hi s'
      ]
      | false ↦ (some lo, s)
    ]

abbrev pub ends : Validity → ℕ × ℕ
ends is_true = (1, 1)
ends is_false = (0, 0)
ends unknown = (0, 1)

module _ {S Q W : Type 0} (logic : Logic Q W) (m : SolverImpl S Q) {width : ℕ}
    (e : Number logic width) where
  -- The number of useful bits.
  unfoldable pub find_bits : S → Option ℕ × S
  find_bits s = search (λ mid s. must_be_true logic m s (e.shifted_is_zero mid)) width 0 width s

  unfoldable pub find_min : (top : ℕ) → S → Option ℕ × S
  find_min top s = and_then (may_be_true logic m s e.is_zero) λ res s'. elim res [
    | true ↦ succeed 0 s'
    | false ↦ search (λ mid s. may_be_true logic m s (e.at_most mid)) top 0 top s'
  ]

  unfoldable pub find_max : (min top : ℕ) → S → Option ℕ × S
  find_max min top s =
      search (λ mid s. must_be_true logic m s (e.at_most mid)) (top - min) min top s

  unfoldable pub search_range : S → Option (ℕ × ℕ) × S
  search_range s = and_then (find_bits s) λ bits s₁.
      and_then (find_min (max_value_of_n_bits bits) s₁) λ min s₂.
        and_then (find_max min (max_value_of_n_bits bits) s₂) λ max s₃. succeed (min, max) s₃

  -- `one_bit` is the test of the width.
  unfoldable pub range_by : (one_bit : Bool) → (width == 1) ≡ one_bit → S → Option (ℕ × ℕ) × S
  range_by true one s =
      and_then (evaluate logic m s (e.itself (==→≡ width 1 one)))
        (λ result s₁. succeed (ends result) s₁)
  range_by false wider s = elim e.known_number [ some n ↦ succeed (n, n) s | none ↦ search_range s ]

  unfoldable pub get_range : S → Option (ℕ × ℕ) × S
  get_range s = range_by (width == 1) refl s
