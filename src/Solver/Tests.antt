-- ===== src/Solver/Tests.antt =====
-- The solvers on expressions over one Boolean input, and their theorems there.
use learch.Prelude.{
  ◌≡◌, refl, Bool, true, false, not, ◌&&◌, [], ◌∷◌, Option, none, some, Bool-cases, inl, inr, arith,
}
use learch.Solver.{Logic, Validity, is_true, SolverImpl, default_validity, may_be_true}
use learch.Solver.Meaning.{IsSatisfiable, Truth, Verdict, Right, succeed-Right, IsSound}
use learch.Solver.Front.{May, may_be_true-Right, default_validity-Right}
use learch.Solver.Incomplete.{
  PartialValidity, must_be_true, may_be_true as known_possible, may_be_false, none_known,
  staged_solver,
}
use learch.Solver.Incomplete.Laws.{IsPrimary, staged_solver-IsSound}
use learch.Solver.Caching.{
  Caching, cache_lookup, canonicalize_query, find, caching_truth, caching_solver,
}
use learch.Solver.Caching.Laws.{IsRemembered}
use learch.Solver.Validating.{
  answered, invalid, same_truth, checked, validate, validating_truth, validating_validity,
}
use learch.Solver.Validating.Laws.{validating_solver-right}
use learch.Solver.Caching.Sound.{caching_solver-IsSound, caching_truth-forgets}

data Toy : Type 0 where
  input : Toy
  literal : (b : Bool) → Toy
  negated : (q : Toy) → Toy

abbrev toy_value : Toy → Bool → Bool
toy_value input w = w
toy_value (literal b) w = b
toy_value (negated q) w = not (toy_value q w)

abbrev toy_constant : Toy → Option Bool
toy_constant (literal b) = some b
toy_constant q = none

abbrev toy_same : Toy → Toy → Bool
toy_same input input = true
toy_same (literal true) (literal true) = true
toy_same (literal false) (literal false) = true
toy_same (negated p) (negated q) = toy_same p q
toy_same p q = false

abbrev toy_smaller : Toy → Bool
toy_smaller (negated q) = false
toy_smaller q = true

toy_constant-value : (q : Toy) (b w : Bool) → toy_constant q ≡ some b → toy_value q w ≡ b
toy_constant-value input b w e = cc
toy_constant-value (literal c) b w e = cc
toy_constant-value (negated q) b w e = cc

toy_same→≡ : (p q : Toy) → toy_same p q ≡ true → p ≡ q
toy_same→≡ input input e = refl
toy_same→≡ input (literal b) e = cc
toy_same→≡ input (negated q) e = cc
toy_same→≡ (literal true) input e = cc
toy_same→≡ (literal true) (literal true) e = refl
toy_same→≡ (literal true) (literal false) e = cc
toy_same→≡ (literal true) (negated q) e = cc
toy_same→≡ (literal false) input e = cc
toy_same→≡ (literal false) (literal true) e = cc
toy_same→≡ (literal false) (literal false) e = refl
toy_same→≡ (literal false) (negated q) e = cc
toy_same→≡ (negated p) input e = cc
toy_same→≡ (negated p) (literal b) e = cc
toy_same→≡ (negated p) (negated q) e = rw (toy_same→≡ p q e)

abbrev toy : Logic Toy Bool
toy = record {
  constraints_hold = λ q w. true;
  value = toy_value;
  constant = toy_constant;
  constant-value = toy_constant-value;
  negate_expr = negated;
  negate_expr-constraints_hold = λ q w. refl;
  negate_expr-value = λ q w. refl;
  same = toy_same;
  same→≡ = toy_same→≡;
  smaller = toy_smaller;
}

-- A solver that tries both values, and counts nothing.
abbrev try_both : Bool → Toy → Option Bool × Bool
try_both s q = (some (toy_value q true && toy_value q false), s)

abbrev toy_solver : SolverImpl Bool Toy
toy_solver = record { compute_truth = try_both; compute_validity = default_validity toy try_both }

abbrev Any : Bool → Type 0
Any s = Unit {0}

both-Truth : (q : Toy) (b : Bool) → (toy_value q true && toy_value q false) ≡ b → Truth toy q b
both-Truth q true e =
    λ w _. elim (Bool-cases w) [ inl t ↦ rw t (ground arith) | inr f ↦ rw f (ground arith) ]
both-Truth q false e = elim (Bool-cases (toy_value q true)) [
  | inl t ↦ (false, refl, ground arith)
  | inr f ↦ (true, refl, f)
]

try_both-Right :
    (s : Bool) (q : Toy) → Any s → IsSatisfiable toy q → Right Any (Truth toy q) (try_both s q)
try_both-Right s q i sat = succeed-Right Any (Truth toy q) _ s tt (both-Truth q _ refl)

toy_solver-IsSound : IsSound toy toy_solver Any
toy_solver-IsSound = record {
  truth_right = try_both-Right;
  validity_right = default_validity-Right toy try_both try_both-Right;
}

default_validity-Right_example :
    Right Any (Verdict toy (negated input)) (default_validity toy try_both true (negated input))
default_validity-Right_example =
    default_validity-Right toy try_both try_both-Right true (negated input) tt (true, refl)

may_be_true-Right_example : Right Any (May toy input true) (may_be_true toy toy_solver true input)
may_be_true-Right_example = may_be_true-Right toy toy_solver-IsSound true input tt (true, refl)

-- An incomplete solver that knows the input itself and the constants.
abbrev partly : Toy → PartialValidity
partly input = may_be_false
partly (literal true) = must_be_true
partly (literal false) = may_be_false
partly (negated q) = none_known

partly-IsPrimary : IsPrimary toy partly
partly-IsPrimary input sat = (false, refl, refl)
partly-IsPrimary (literal true) sat = λ w h. refl
partly-IsPrimary (literal false) sat = (false, refl, refl)
partly-IsPrimary (negated q) sat = tt

staged_solver-IsSound_example : IsSound toy (staged_solver toy partly toy_solver) Any
staged_solver-IsSound_example = staged_solver-IsSound toy partly toy_solver-IsSound partly-IsPrimary

caching_solver-IsSound_example :
    IsSound toy (caching_solver toy toy_solver) (IsRemembered toy toy_solver-IsSound)
caching_solver-IsSound_example = caching_solver-IsSound toy toy_solver-IsSound

-- All that is known is that the input may be true.
abbrev half_known : Caching Bool Toy
half_known = record { base = true; cache = (input, known_possible) ∷ [] }

caching_truth-forgets_example :
    (caching_truth toy toy_solver half_known input).1.cache ≡ (input, known_possible) ∷ []
unfolding cache_lookup canonicalize_query find
caching_truth-forgets_example = caching_truth-forgets toy toy_solver half_known input refl

-- A solver that calls everything valid.
abbrev guessing : SolverImpl Bool Toy
guessing = record {
  compute_truth = λ s q. (some true, s);
  compute_validity = λ s q. (some is_true, s);
}

guess_caught : (validating_truth guessing toy_solver (true, true) input).0 ≡ invalid
unfolding validating_truth validate checked same_truth
guess_caught = refl

validating_solver-right_example :
    ((b : Bool)
      → (validating_truth guessing toy_solver (true, true) (negated input)).0 ≡ answered b
      → Truth toy (negated input) b)
    × ((v : Validity)
        → (validating_validity guessing toy_solver (true, true) (negated input)).0 ≡ answered v
        → Verdict toy (negated input) v)
validating_solver-right_example =
    validating_solver-right toy guessing toy_solver-IsSound true true (negated input) tt
      (true, refl)
