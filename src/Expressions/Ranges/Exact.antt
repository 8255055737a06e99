-- ===== src/Expressions/Ranges/Exact.antt =====
-- getRange over expressions: its queries are the created ones, and it finds the exact range.
use learch.Prelude.{◌≤◌, ◌≡◌, refl, List, Bool, true, false}
use learch.Expressions.{Globals, Expr, eq, ule, get_width}
use learch.Expressions.ApInt.{ApInt}
use learch.Expressions.Meaning.{Assignment, well_typed, value}
use learch.Expressions.Values.{value-lt}
use learch.Expressions.Rewriting.{both_true}
use learch.Expressions.Queries.{BooleanQuery, is_boolean, all_boolean, all_hold, query_logic}
use learch.Expressions.Ranges.{shifted_query, zero_query, bound_query, constant_number}
use learch.Solver.Range.{Number}
use learch.Expressions.Ranges.Meaning.{
  Means-Boolean, shifted_query-Means, bound_query-Means, zero_query-Means, itself-Boolean,
  itself-holds, shifted_query-holds, zero_query-holds, bound_query-holds, constant_number-value,
}
use learch.Solver.{SolverImpl}
use learch.Solver.Meaning.{IsSound}
use learch.Solver.Range.{get_range}
use learch.Solver.Range.Search.{Gives, IsComplete}
use learch.Solver.Range.Ends.{IsExact}
use learch.Solver.Range.Exact.{get_range-IsExact}

module _ (g : Globals) (m : ApInt) (opt : g.const_array_opt ≡ false) (e : Expr)
    (he : well_typed g e ≡ true) {W : Type 0} (less : Expr → Expr → Bool) (inputs : W → Assignment)
    (constraints : List Expr) (hs : all_boolean g constraints ≡ true) where
  -- `withExpr`.
  abbrev asked : (x : Expr) → is_boolean g x ≡ true → BooleanQuery g
  asked x h = (record { constraints = constraints; expr = x }, both_true h hs)

  -- The queries of getRange about the expression, with their meaning.
  unfoldable pub expression_number : Number (query_logic g m opt less inputs) (get_width g e)
  unfolding query_logic
  expression_number = record {
    allowed = λ w. all_hold g m constraints (inputs w);
    number = λ w. value g m (inputs w) e;
    number-lt = λ w. value-lt g m (inputs w) e he;
    known_number = constant_number e;
    known_number-number = λ n w h. constant_number-value g m opt e he n (inputs w) h;
    itself = λ one. asked e (itself-Boolean g m opt e he one);
    itself-constraints_hold = λ one w. refl;
    itself-value = λ one w. itself-holds g m opt e he (inputs w) one;
    shifted_is_zero = λ n.
        asked (shifted_query g m e n)
          (Means-Boolean g m _ _ _ eq (shifted_query-Means g m opt e he n));
    shifted_is_zero-constraints_hold = λ n w. refl;
    shifted_is_zero-value = λ n w small. shifted_query-holds g m opt e he n (inputs w) small;
    is_zero = asked (zero_query g m e) (Means-Boolean g m _ _ _ eq (zero_query-Means g m opt e he));
    is_zero-constraints_hold = λ w. refl;
    is_zero-value = λ w. zero_query-holds g m opt e he (inputs w);
    at_most = λ n.
        asked (bound_query g m e n)
          (Means-Boolean g m _ _ _ ule (bound_query-Means g m opt e he n));
    at_most-constraints_hold = λ n w. refl;
    at_most-value = λ n w small. bound_query-holds g m opt e he n (inputs w) small;
  }

  -- With `--const-array-opt` off, over a solver that always answers rightly the queries whose
  -- constraints can hold, getRange on a well-typed expression of at most 64 bits gives a range, for
  -- Boolean constraints that some world allows: in every world that they allow, the value of the
  -- expression lies in the range, and both ends are values in such worlds. The solver keeps its
  -- invariant.
  pub expression_range-IsExact :
      {S : Type 0} {solver : SolverImpl S (BooleanQuery g)} {Inv : S → Type 0}
      → IsSound (query_logic g m opt less inputs) solver Inv
      → IsComplete (query_logic g m opt less inputs) solver Inv
      → (w : W) × (all_hold g m constraints (inputs w) ≡ true)
      → get_width g e ≤ 64
      → (s : S) → Inv s
      → Gives Inv
          (IsExact (query_logic g m opt less inputs) expression_number)
          (get_range (query_logic g m opt less inputs) solver expression_number s)
  unfolding expression_number
  expression_range-IsExact sound complete can_hold fits s i =
      get_range-IsExact (query_logic g m opt less inputs) sound complete expression_number can_hold
        s fits i
