-- ===== src/Solver/Validating.antt =====
-- ValidatingSolver of klee/lib/Solver/ValidatingSolver.cpp, on questions of truth and of validity: it
-- asks a solver and then an oracle, and asserts that they agree.
pub mod Laws
use learch.Prelude.{Bool, true, false, not, Option, none, some, if◌then◌else◌}
use learch.Solver.{Validity, is_true, is_false, unknown, SolverImpl}

-- What a call does: it answers, it fails, or its assertion does.
pub data Validated (A : Type 0) : Type 0 where
  answered : A → Validated A
  failed : Validated A
  invalid : Validated A

unfoldable pub same_truth : Bool → Bool → Bool
same_truth true b = b
same_truth false b = not b

unfoldable pub same_validity : Validity → Validity → Bool
same_validity is_true is_true = true
same_validity is_false is_false = true
same_validity unknown unknown = true
same_validity a b = false

-- The oracle's answer against the solver's.
unfoldable pub checked :
    {S O A : Type 0} → (A → A → Bool) → A → S → Option A × O → Validated A × (S × O)
checked same a s (none, o) = (failed, (s, o))
checked same a s (some b, o) = (if same a b then answered a else invalid, (s, o))

unfoldable pub validate :
    {S O A : Type 0}
    → (A → A → Bool)
    → Option A × S
    → O
    → (O → Option A × O)
    → Validated A × (S × O)
validate same (none, s) o oracle = (failed, (s, o))
validate same (some a, s) o oracle = checked same a s (oracle o)

module _ {S O Q : Type 0} (solver : SolverImpl S Q) (oracle : SolverImpl O Q) where
  unfoldable pub validating_truth : S × O → Q → Validated Bool × (S × O)
  validating_truth v q =
      validate same_truth (solver.compute_truth v.0 q) v.1 λ o. oracle.compute_truth o q

  unfoldable pub validating_validity : S × O → Q → Validated Validity × (S × O)
  validating_validity v q =
      validate same_validity (solver.compute_validity v.0 q) v.1 λ o. oracle.compute_validity o q
