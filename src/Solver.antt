-- ===== src/Solver.antt =====
-- The solver interface of klee/lib/Solver/Solver.cpp and klee/include/klee/Solver/SolverImpl.h, with
-- what it needs of queries. A solver may fail, which is `none`, and keeps a state from call to call.
mod Tests
pub mod Meaning
pub mod Incomplete
pub mod Caching
pub mod Front
pub mod Range
pub mod Validating
use learch.Prelude.{◌≡◌, Bool, true, false, not, Option, none, some, if◌then◌else◌}

-- A query is a Boolean expression under constraints. A world is an assignment to the symbolic
-- inputs, which gives both a value. These are the operations on queries that the solvers call, with
-- the laws that they rely on.
pub record Logic (Q W : Type 0) : Type 0 where
  pub constraints_hold : Q → W → Bool
  pub value : Q → W → Bool
  -- `dyn_cast<ConstantExpr>`.
  pub constant : Q → Option Bool
  pub constant-value : (q : Q) (b : Bool) (w : W) → constant q ≡ some b → value q w ≡ b
  pub negate_expr : Q → Q
  pub negate_expr-constraints_hold :
      (q : Q) (w : W) → constraints_hold (negate_expr q) w ≡ constraints_hold q w
  pub negate_expr-value : (q : Q) (w : W) → value (negate_expr q) w ≡ not (value q w)
  -- Equal constraints and equal expressions.
  pub same : Q → Q → Bool
  pub same→≡ : (p q : Q) → same p q ≡ true → p ≡ q
  -- The expression is less than its negation in the order of expressions.
  pub smaller : Q → Bool

pub data Validity : Type 0 where
  is_true : Validity
  is_false : Validity
  unknown : Validity

-- The virtual functions that decide truth.
pub record SolverImpl (S Q : Type 0) : Type 0 where
  pub compute_truth : S → Q → Option Bool × S
  pub compute_validity : S → Q → Option Validity × S

-- A failed call ends the caller.
abbrev pub and_then : {S A B : Type 0} → Option A × S → (A → S → Option B × S) → Option B × S
and_then (none, s) f = (none, s)
and_then (some a, s) f = f a s

abbrev pub succeed : {S A : Type 0} → A → S → Option A × S
succeed a s = (some a, s)

module _ {S Q W : Type 0} (logic : Logic Q W) where
  open logic use {negate_expr, constant}

  -- The default of SolverImpl, by two questions of truth.
  unfoldable pub default_validity : (S → Q → Option Bool × S) → S → Q → Option Validity × S
  default_validity compute_truth s q = and_then (compute_truth s q) λ holds s₁. elim holds [
    | true ↦ succeed is_true s₁
    | false ↦
        and_then (compute_truth s₁ (negate_expr q))
          λ fails s₂. succeed (if fails then is_false else unknown) s₂
  ]

  -- The front end, which answers constants itself.
  module _ (m : SolverImpl S Q) where
    unfoldable pub evaluate : S → Q → Option Validity × S
    evaluate s q = elim (constant q) [
      | some b ↦ succeed (if b then is_true else is_false) s
      | none ↦ m.compute_validity s q
    ]

    unfoldable pub must_be_true : S → Q → Option Bool × S
    must_be_true s q = elim (constant q) [ some b ↦ succeed b s | none ↦ m.compute_truth s q ]

    unfoldable pub must_be_false : S → Q → Option Bool × S
    must_be_false s q = must_be_true s (negate_expr q)

    unfoldable pub may_be_true : S → Q → Option Bool × S
    may_be_true s q = and_then (must_be_false s q) λ res. succeed (not res)

    unfoldable pub may_be_false : S → Q → Option Bool × S
    may_be_false s q = and_then (must_be_true s q) λ res. succeed (not res)
