-- ===== src/Expressions/Ranges/Tests.antt =====
-- getRange on the first byte of an array that the inputs make 1 or 3.
use learch.Prelude.{
  ℕ, ◌+◌, ◌≡◌, refl, Bool, true, false, not, ◌&&◌, ◌||◌, Option, some, [], arith, if◌then◌else◌,
}
use learch.Expressions.{Globals, Expr, constant, read, no_update, get_width, as_constant}
use learch.Expressions.ApInt.Machine.{machine}
use learch.Expressions.Meaning.{Assignment, well_typed, value, initial_value}
use learch.Expressions.Ranges.Exact.{expression_number, expression_range-IsExact}
use learch.Expressions.Queries.{BooleanQuery, query_logic, holds_in, query_constant, negate_expr}
use learch.Solver.{
  Logic, Validity, is_true, is_false, unknown, SolverImpl, must_be_true, may_be_true, must_be_false,
  default_validity,
}
use learch.Solver.Meaning.{IsSatisfiable, Truth, Right, succeed-Right, IsSound}
use learch.Solver.Front.{default_validity-Right}
use learch.Solver.Range.{
  get_range, range_by, search_range, find_bits, find_min, find_max, search, max_value_of_n_bits,
}
use learch.Expressions.Ranges.{
  shifted_query, zero_query, bound_query, create_constant, constant_number,
}
use learch.Expressions.Orders.{create_lshr, create_ule, lshr_create, ule_create}
use learch.Expressions.Equal.{create_eq, eq_partial_r, eq_create, create_is_zero, double_negation}
use learch.Expressions.Constants.{create_with_partials, create_folding}
use learch.Expressions.Same.{same}
use learch.Solver.Range.Search.{Gives, IsComplete}
use learch.Solver.Range.Ends.{IsExact}

-- A solver that tries two worlds. Its state counts the questions.
module _ {Q : Type 0} (logic : Logic Q Bool) where
  abbrev passes : Q → Bool → Bool
  passes q w = not (logic.constraints_hold q w) || logic.value q w

  abbrev try_both : ℕ → Q → Option Bool × ℕ
  try_both asked q = (some (passes q false && passes q true), asked + 1)

  abbrev trying : SolverImpl ℕ Q
  trying = record { compute_truth = try_both; compute_validity = default_validity logic try_both }

  abbrev Asked : ℕ → Type 0
  Asked n = Unit {0}

  passes-true :
      (q : Q) (w : Bool)
      → passes q w ≡ true
      → logic.constraints_hold q w ≡ true
      → logic.value q w ≡ true
  passes-true q w p h = ground (arith, p, h)

  passes-false :
      (q : Q) (w : Bool)
      → passes q w ≡ false
      → (logic.constraints_hold q w ≡ true) × (logic.value q w ≡ false)
  passes-false q w p = (ground (arith, p), ground (arith, p))

  both-Truth :
      (q : Q) (low high : Bool)
      → passes q false ≡ low
      → passes q true ≡ high
      → Truth logic q (low && high)
  both-Truth q true true p p' = λ w h. at w h
    where
      at : (w : Bool) → logic.constraints_hold q w ≡ true → logic.value q w ≡ true
      at false h = passes-true q false p h
      at true h = passes-true q true p' h
  both-Truth q true false p p' = let (h, v) = passes-false q true p' in (true, h, v)
  both-Truth q false high p p' = let (h, v) = passes-false q false p in (false, h, v)

  try_both-Right :
      (asked : ℕ) (q : Q)
      → Asked asked
      → IsSatisfiable logic q
      → Right Asked (Truth logic q) (try_both asked q)
  try_both-Right asked q i sat =
      succeed-Right Asked (Truth logic q) _ (asked + 1) tt (both-Truth q _ _ refl refl)

  trying-IsSound : IsSound logic trying Asked
  trying-IsSound = record {
    truth_right = try_both-Right;
    validity_right = default_validity-Right logic try_both try_both-Right;
  }

  default-found :
      (asked : ℕ) (q : Q) → (v : Validity) × ((default_validity logic try_both asked q).0 ≡ some v)
  unfolding default_validity
  default-found asked q = by_truth _ refl
    where
      by_truth :
          (b : Bool)
          → (passes q false && passes q true) ≡ b
          → (v : Validity) × ((default_validity logic try_both asked q).0 ≡ some v)
      by_truth true e = (is_true, rw e refl)
      by_truth false e =
          let opposite = logic.negate_expr q in
          (if passes opposite false && passes opposite true then is_false else unknown, rw e refl)

  trying-IsComplete : IsComplete logic trying Asked
  trying-IsComplete = record {
    truth_found = λ asked q i sat. (_, refl);
    validity_found = λ asked q i sat. default-found asked q;
  }

abbrev bytes : Globals
bytes = record {
  arrays = λ id. record { size = 4; domain = 32; range = 8; constant_values = [] };
  const_array_opt = false;
}

abbrev first : Expr
first = read 0 no_update (constant 32 0)

abbrev one_or_three : Bool → Assignment
one_or_three high id i = if high then 3 else 1

abbrev no_order : Expr → Expr → Bool
no_order e e' = false

abbrev bytes_logic : Logic (BooleanQuery bytes) Bool
bytes_logic = query_logic bytes machine refl no_order one_or_three

first-Typed : well_typed bytes first ≡ true
unfolding well_typed get_width
first-Typed = refl

expression_range-IsExact_example :
    Gives
      (Asked bytes_logic)
      (IsExact bytes_logic
        (expression_number bytes machine refl first first-Typed no_order one_or_three [] refl))
      (get_range bytes_logic
        (trying bytes_logic)
        (expression_number bytes machine refl first first-Typed no_order one_or_three [] refl)
        0)
unfolding get_width
expression_range-IsExact_example =
    expression_range-IsExact bytes machine refl first first-Typed no_order one_or_three [] refl
      (trying-IsSound bytes_logic) (trying-IsComplete bytes_logic) (false, refl) (omega arith) 0 tt

-- The range is 1 to 3, and takes seven questions.
range_run :
    get_range bytes_logic
      (trying bytes_logic)
      (expression_number bytes machine refl first first-Typed no_order one_or_three [] refl)
      0
    ≡ (some (1, 3), 7)
unfolding get_range range_by search_range find_bits find_min find_max search max_value_of_n_bits
    must_be_true may_be_true must_be_false expression_number query_logic shifted_query zero_query
    bound_query create_constant create_lshr create_ule create_eq lshr_create ule_create eq_partial_r
    create_with_partials create_folding constant_number as_constant get_width well_typed value
    holds_in query_constant negate_expr create_is_zero eq_create same initial_value double_negation
range_run = refl
