-- ===== src/Solver/Incomplete.antt =====
-- klee/lib/Solver/IncompleteSolver.cpp: a solver that may not know an answer, and StagedSolverImpl,
-- which asks such a solver first and a complete one for what is left.
pub mod Laws
use learch.Prelude.{Bool, true, false, Option, none, some, if◌then◌else◌}
use learch.Solver.{Logic, Validity, is_true, is_false, unknown, SolverImpl, and_then, succeed}

pub data PartialValidity : Type 0 where
  must_be_true : PartialValidity
  must_be_false : PartialValidity
  may_be_true : PartialValidity
  may_be_false : PartialValidity
  true_or_false : PartialValidity
  none_known : PartialValidity

-- `None` is the failed assertion of an invalid partial validity.
unfoldable pub negate_partial_validity : PartialValidity → Option PartialValidity
negate_partial_validity must_be_true = some must_be_false
negate_partial_validity must_be_false = some must_be_true
negate_partial_validity may_be_true = some may_be_false
negate_partial_validity may_be_false = some may_be_true
negate_partial_validity true_or_false = some true_or_false
negate_partial_validity none_known = none

-- `== MustBeTrue` and `!= None`.
abbrev pub is_must_be_true : PartialValidity → Bool
is_must_be_true must_be_true = true
is_must_be_true p = false

abbrev pub is_known : PartialValidity → Bool
is_known none_known = false
is_known p = true

module _ {Q W : Type 0} (logic : Logic Q W) (primary_truth : Q → PartialValidity) where
  open logic use {negate_expr}

  -- Neither the query nor its negation must be true.
  unfoldable pub partial_unsettled : (true_correct false_correct : Bool) → PartialValidity
  partial_unsettled true true = true_or_false
  partial_unsettled true false = may_be_false
  partial_unsettled false true = may_be_true
  partial_unsettled false false = none_known

  unfoldable pub partial_validity : Q → PartialValidity
  partial_validity q =
      let true_result = primary_truth q in
      let false_result = primary_truth (negate_expr q) in
      if is_must_be_true true_result
      then must_be_true
      else if is_must_be_true false_result
      then must_be_false
      else partial_unsettled (is_known true_result) (is_known false_result)

  module _ {S : Type 0} (secondary : SolverImpl S Q) where
    unfoldable pub staged_truth : S → Q → Option Bool × S
    staged_truth s q =
        if is_known (primary_truth q)
        then succeed (is_must_be_true (primary_truth q)) s
        else secondary.compute_truth s q

    unfoldable pub staged_settle : PartialValidity → S → Q → Option Validity × S
    staged_settle must_be_true s q = succeed is_true s
    staged_settle must_be_false s q = succeed is_false s
    staged_settle true_or_false s q = succeed unknown s
    staged_settle may_be_true s q =
        and_then (secondary.compute_truth s q) λ tmp. succeed (if tmp then is_true else unknown)
    staged_settle may_be_false s q =
        and_then (secondary.compute_truth s (negate_expr q))
          λ tmp. succeed (if tmp then is_false else unknown)
    staged_settle none_known s q = secondary.compute_validity s q

    unfoldable pub staged_validity : S → Q → Option Validity × S
    staged_validity s q = staged_settle (partial_validity q) s q

    unfoldable pub staged_solver : SolverImpl S Q
    staged_solver = record { compute_truth = staged_truth; compute_validity = staged_validity }
