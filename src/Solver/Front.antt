-- ===== src/Solver/Front.antt =====
-- The front end of klee/lib/Solver/Solver.cpp, over a solver whose answers are right.
use learch.Prelude.{
  ◌≡◌, Bool, true, false, not, Option, some, Option-cases, if◌then◌else◌, inl, inr,
}
use learch.Solver.{
  Logic, is_true, is_false, unknown, SolverImpl, and_then, default_validity, evaluate, must_be_true,
  must_be_false, may_be_true, may_be_false,
}
use learch.Solver.Meaning.{
  Possible, IsSatisfiable, Truth, Verdict, negate_expr-IsSatisfiable, Possible-negate_expr,
  IsValid-negate_expr, Value-negate, Right, succeed-Right, and_then-Right, IsSound,
}

-- The answer to the question whether the expression may have the value `b`.
abbrev pub May : {Q W : Type 0} → Logic Q W → Q → Bool → Bool → Type 0
May logic q b true = Possible logic q b
May logic q b false = (w : _) → logic.constraints_hold q w ≡ true → logic.value q w ≡ not b

module _ {S Q W : Type 0} (logic : Logic Q W) {m : SolverImpl S Q} {Inv : S → Type 0}
    (sound : IsSound logic m Inv) where
  open logic use {constraints_hold, value, constant, constant-value, negate_expr}

  constant-Truth :
      (q : Q) (b : Bool) → constant q ≡ some b → IsSatisfiable logic q → Truth logic q b
  constant-Truth q true e s = λ v _. constant-value q true v e
  constant-Truth q false e s = (s.0, s.1, constant-value q false s.0 e)

  constant-Verdict :
      (q : Q) (b : Bool) → constant q ≡ some b → Verdict logic q (if b then is_true else is_false)
  constant-Verdict q true e = λ v _. constant-value q true v e
  constant-Verdict q false e = IsValid-negate_expr logic q (λ v _. constant-value q false v e)

  pub must_be_true-Right :
      (s : S) (q : Q)
      → Inv s
      → IsSatisfiable logic q
      → Right Inv (Truth logic q) (must_be_true logic m s q)
  unfolding must_be_true
  must_be_true-Right s q i sat = elim (Option-cases (constant q)) [
    | inl n ↦ rw (n, must_be_true) (sound.truth_right s q i sat)
    | inr (b, e) ↦
        rw (e, must_be_true) (succeed-Right Inv (Truth logic q) b s i (constant-Truth q b e sat))
  ]

  pub evaluate-Right :
      (s : S) (q : Q)
      → Inv s
      → IsSatisfiable logic q
      → Right Inv (Verdict logic q) (evaluate logic m s q)
  unfolding evaluate
  evaluate-Right s q i sat = elim (Option-cases (constant q)) [
    | inl n ↦ rw (n, evaluate) (sound.validity_right s q i sat)
    | inr (b, e) ↦
        rw (e, evaluate) (succeed-Right Inv (Verdict logic q) _ s i (constant-Verdict q b e))
  ]

  not_false-May : (q : Q) (b : Bool) → Truth logic (negate_expr q) b → May logic q true (not b)
  not_false-May q true t = λ w h. Value-negate logic q w h t
  not_false-May q false t = Possible-negate_expr logic q false t

  not_true-May : (q : Q) (b : Bool) → Truth logic q b → May logic q false (not b)
  not_true-May q true t = t
  not_true-May q false t = t

  -- `mayBeTrue` answers yes only where the expression holds in some world that the constraints
  -- allow, and no only where it fails in all of them, over a solver that answers rightly and for
  -- constraints that can hold; the solver keeps its invariant.
  pub may_be_true-Right :
      (s : S) (q : Q)
      → Inv s
      → IsSatisfiable logic q
      → Right Inv (May logic q true) (may_be_true logic m s q)
  unfolding may_be_true must_be_false
  may_be_true-Right s q i sat =
      and_then-Right (must_be_true logic m s (negate_expr q)) _
        (must_be_true-Right s (negate_expr q) i (negate_expr-IsSatisfiable logic q sat))
        (λ b s₁ t j. succeed-Right Inv (May logic q true) (not b) s₁ j (not_false-May q b t))

  -- `mayBeFalse` answers yes only where the expression fails in some world that the constraints
  -- allow, and no only where it holds in all of them; over a solver that answers rightly, for
  -- constraints that can hold.
  pub may_be_false-Right :
      (s : S) (q : Q)
      → Inv s
      → IsSatisfiable logic q
      → Right Inv (May logic q false) (may_be_false logic m s q)
  unfolding may_be_false
  may_be_false-Right s q i sat =
      and_then-Right (must_be_true logic m s q) _ (must_be_true-Right s q i sat)
        (λ b s₁ t j. succeed-Right Inv (May logic q false) (not b) s₁ j (not_true-May q b t))

module _ {Q W : Type 0} (logic : Logic Q W) where
  open logic use {negate_expr}

  settle-Verdict :
      (q : Q) (fails : Bool)
      → Possible logic q false
      → Truth logic (negate_expr q) fails
      → Verdict logic q (if fails then is_false else unknown)
  settle-Verdict q true p t = t
  settle-Verdict q false p t = (Possible-negate_expr logic q false t, p)

module _ {S Q W : Type 0} (logic : Logic Q W) (compute_truth : S → Q → Option Bool × S)
    {Inv : S → Type 0} where
  open logic use {negate_expr}

  default_step :
      (q : Q) (holds : Bool) (s : S)
      → IsSatisfiable logic q
      → ((s : S) (q : Q)
          → Inv s
          → IsSatisfiable logic q
          → Right Inv (Truth logic q) (compute_truth s q))
      → Truth logic q holds
      → Inv s
      → Right Inv (Verdict logic q) (elim holds [
        | true ↦ (some is_true, s)
        | false ↦
            and_then
              (compute_truth s (negate_expr q))
              λ fails s₂. (some (if fails then is_false else unknown), s₂)
      ])
  default_step q true s sat right t i = succeed-Right Inv (Verdict logic q) is_true s i t
  default_step q false s sat right t i =
      and_then-Right (compute_truth s (negate_expr q)) _
        (right s (negate_expr q) i (negate_expr-IsSatisfiable logic q sat))
        (λ fails s₂ t' j.
          succeed-Right Inv (Verdict logic q) _ s₂ j (settle-Verdict logic q fails t t'))

  -- The default `computeValidity`, by two questions of truth, gives the right verdict and keeps
  -- the invariant, where the answers to questions of truth are right and keep it, and the
  -- constraints can hold.
  pub default_validity-Right :
      ((s : S) (q : Q)
        → Inv s
        → IsSatisfiable logic q
        → Right Inv (Truth logic q) (compute_truth s q))
      → (s : S) (q : Q) → Inv s
      → IsSatisfiable logic q
      → Right Inv (Verdict logic q) (default_validity logic compute_truth s q)
  unfolding default_validity
  default_validity-Right right s q i sat =
      and_then-Right (compute_truth s q) _ (right s q i sat)
        (λ holds s₁ t j. default_step q holds s₁ sat right t j)
