-- ===== src/Solver/Range/Calls.antt =====
-- The calls that getRange makes, over a solver whose answers are right and never missing.
use learch.Prelude.{
  ◌≡◌, refl, Bool, true, not, Option, none, some, Option-cases, inl, inr, none≢some,
}
use learch.Solver.{
  Logic, Validity, SolverImpl, and_then, evaluate, must_be_true, must_be_false, may_be_true,
}
use learch.Solver.Meaning.{IsSatisfiable, Truth, negate_expr-IsSatisfiable, IsSound}
use learch.Solver.Front.{May, must_be_true-Right, may_be_true-Right}
use learch.Solver.Range.Search.{Gives, Right-Gives, IsComplete}

module _ {S Q W : Type 0} (logic : Logic Q W) {m : SolverImpl S Q} {Inv : S → Type 0}
    (sound : IsSound logic m Inv) (complete : IsComplete logic m Inv) where
  open logic use {constant, negate_expr}

  must_be_true-found :
      (s : S) (q : Q)
      → Inv s
      → IsSatisfiable logic q
      → (b : Bool) × ((must_be_true logic m s q).0 ≡ some b)
  unfolding must_be_true
  must_be_true-found s q i sat = elim (Option-cases (constant q)) [
    | inl n ↦ rw (n, must_be_true) (complete.truth_found s q i sat)
    | inr (b, e) ↦ rw (e, must_be_true) (b, refl)
  ]

  pub evaluate-found :
      (s : S) (q : Q)
      → Inv s
      → IsSatisfiable logic q
      → (v : Validity) × ((evaluate logic m s q).0 ≡ some v)
  unfolding evaluate
  evaluate-found s q i sat = elim (Option-cases (constant q)) [
    | inl n ↦ rw (n, evaluate) (complete.validity_found s q i sat)
    | inr (b, e) ↦ rw (e, evaluate) (_, refl)
  ]

  pub must_be_true-Gives :
      (s : S) (q : Q)
      → Inv s
      → IsSatisfiable logic q
      → Gives Inv (Truth logic q) (must_be_true logic m s q)
  must_be_true-Gives s q i sat =
      Right-Gives Inv (Truth logic q) (must_be_true logic m s q)
        (must_be_true-Right logic sound s q i sat) (must_be_true-found s q i sat)

  then-found :
      {A B : Type 0} (r : Option A × S) (f : A → B)
      → ((a : A) × (r.0 ≡ some a))
      → (b : B) × ((and_then r (λ a s. (some (f a), s))).0 ≡ some b)
  then-found (none, s) f e = absurd (none≢some e.1)
  then-found (some a, s) f e = (f a, refl)

  pub may_be_true-Gives :
      (s : S) (q : Q)
      → Inv s
      → IsSatisfiable logic q
      → Gives Inv (May logic q true) (may_be_true logic m s q)
  may_be_true-Gives s q i sat =
      Right-Gives Inv (May logic q true) (may_be_true logic m s q)
        (may_be_true-Right logic sound s q i sat)
        (unfold may_be_true in
          unfold must_be_false in
          then-found (must_be_true logic m s (negate_expr q)) not
            (must_be_true-found s (negate_expr q) i (negate_expr-IsSatisfiable logic q sat)))
