-- ===== src/Solver/Incomplete/Laws.antt =====
-- The incomplete solver and StagedSolverImpl, with what the code relies on in partial answers.
use learch.Prelude.{◌≡◌, refl, Bool, true, false, Bool-cases, if◌then◌else◌, inl, inr}
use learch.Solver.{Logic, is_true, is_false, unknown, SolverImpl}
use learch.Solver.Meaning.{
  IsValid, Possible, IsSatisfiable, Truth, Verdict, Known, negate_expr-IsSatisfiable,
  Possible-negate_expr, Right, succeed-Right, and_then-Right, IsSound,
}
use learch.Solver.Incomplete.{
  PartialValidity, must_be_true, must_be_false, may_be_true, may_be_false, true_or_false,
  none_known, is_must_be_true, is_known, partial_unsettled, partial_validity, staged_truth,
  staged_settle, staged_validity, staged_solver,
}

module _ {Q W : Type 0} (logic : Logic Q W) (primary_truth : Q → PartialValidity) where
  open logic use {negate_expr}

  -- What the code relies on in the answers of `computeTruth`: MustBeTrue is right, None says
  -- nothing, and any other answer is given only where a false assignment is known.
  abbrev pub Answer : Q → PartialValidity → Type 0
  Answer q must_be_true = IsValid logic q
  Answer q none_known = Unit {0}
  Answer q known = Possible logic q false

  abbrev pub IsPrimary : Type 0
  IsPrimary = (q : Q) → IsSatisfiable logic q → Answer q (primary_truth q)

  must_be_true-Answer :
      (q : Q) (p : PartialValidity) → is_must_be_true p ≡ true → Answer q p → IsValid logic q
  must_be_true-Answer q must_be_true e a = a
  must_be_true-Answer q must_be_false e a = cc
  must_be_true-Answer q may_be_true e a = cc
  must_be_true-Answer q may_be_false e a = cc
  must_be_true-Answer q true_or_false e a = cc
  must_be_true-Answer q none_known e a = cc

  known-Answer :
      (q : Q) (p : PartialValidity)
      → is_must_be_true p ≡ false
      → is_known p ≡ true
      → Answer q p
      → Possible logic q false
  known-Answer q must_be_true e k a = cc
  known-Answer q must_be_false e k a = a
  known-Answer q may_be_true e k a = a
  known-Answer q may_be_false e k a = a
  known-Answer q true_or_false e k a = a
  known-Answer q none_known e k a = cc

  unsettled-Known :
      (q : Q) (true_correct false_correct : Bool)
      → (true_correct ≡ true → Possible logic q false)
      → (false_correct ≡ true → Possible logic q true)
      → Known logic q (partial_unsettled logic primary_truth true_correct false_correct)
  unfolding partial_unsettled
  unsettled-Known q true true a b = (b refl, a refl)
  unsettled-Known q true false a b = a refl
  unsettled-Known q false true a b = b refl
  unsettled-Known q false false a b = tt

  -- What the incomplete solver's `computeValidity` says of a query is so, for constraints that can
  -- hold, provided that its `computeTruth` says MustBeTrue only of what is valid, and gives
  -- another answer than None only where a false assignment exists.
  partial_validity-Known :
      (q : Q)
      → IsPrimary
      → IsSatisfiable logic q
      → Known logic q (partial_validity logic primary_truth q)
  unfolding partial_validity
  partial_validity-Known q right sat =
      let negated = right (negate_expr q) (negate_expr-IsSatisfiable logic q sat) in
      elim (Bool-cases (is_must_be_true (primary_truth q))) [
        | inl holds ↦ rw holds (must_be_true-Answer q (primary_truth q) holds (right q sat))
        | inr other ↦ elim (Bool-cases (is_must_be_true (primary_truth (negate_expr q)))) [
          | inl fails ↦
              rw (other, fails)
                (must_be_true-Answer (negate_expr q) (primary_truth (negate_expr q)) fails negated)
          | inr neither ↦
              rw (other, neither)
                (unsettled-Known q (is_known (primary_truth q))
                  (is_known (primary_truth (negate_expr q)))
                  (λ k. known-Answer q (primary_truth q) other k (right q sat))
                  (λ k. Possible-negate_expr logic q false (
                    known-Answer (negate_expr q) (primary_truth (negate_expr q)) neither k
                      negated)))
        ]
      ]

  module _ {S : Type 0} {secondary : SolverImpl S Q} {Inv : S → Type 0}
      (sound : IsSound logic secondary Inv) (right : IsPrimary) where
    known-Truth :
        (q : Q) (p : PartialValidity)
        → is_known p ≡ true
        → Answer q p
        → Truth logic q (is_must_be_true p)
    known-Truth q must_be_true k a = a
    known-Truth q must_be_false k a = a
    known-Truth q may_be_true k a = a
    known-Truth q may_be_false k a = a
    known-Truth q true_or_false k a = a
    known-Truth q none_known k a = cc

    staged_truth-Right :
        (s : S) (q : Q)
        → Inv s
        → IsSatisfiable logic q
        → Right Inv (Truth logic q) (staged_truth logic primary_truth secondary s q)
    unfolding staged_truth
    staged_truth-Right s q i sat = elim (Bool-cases (is_known (primary_truth q))) [
      | inl known ↦ rw known (
          succeed-Right Inv (Truth logic q) _ s i
            (known-Truth q (primary_truth q) known (right q sat)))
      | inr left ↦ rw left (sound.truth_right s q i sat)
    ]

    true_side :
        (q : Q) (tmp : Bool)
        → Possible logic q true
        → Truth logic q tmp
        → Verdict logic q (if tmp then is_true else unknown)
    true_side q true p t = t
    true_side q false p t = (p, t)

    false_side :
        (q : Q) (tmp : Bool)
        → Possible logic q false
        → Truth logic (negate_expr q) tmp
        → Verdict logic q (if tmp then is_false else unknown)
    false_side q true p t = t
    false_side q false p t = (Possible-negate_expr logic q false t, p)

    staged_settle-Right :
        (known : PartialValidity) (s : S) (q : Q)
        → Known logic q known
        → Inv s
        → IsSatisfiable logic q
        → Right Inv (Verdict logic q) (staged_settle logic primary_truth secondary known s q)
    unfolding staged_settle
    staged_settle-Right must_be_true s q k i sat = succeed-Right Inv (Verdict logic q) is_true s i k
    staged_settle-Right must_be_false s q k i sat =
        succeed-Right Inv (Verdict logic q) is_false s i k
    staged_settle-Right true_or_false s q k i sat =
        succeed-Right Inv (Verdict logic q) unknown s i k
    staged_settle-Right may_be_true s q k i sat =
        and_then-Right (secondary.compute_truth s q) _ (sound.truth_right s q i sat)
          (λ tmp s₁ t j. succeed-Right Inv (Verdict logic q) _ s₁ j (true_side q tmp k t))
    staged_settle-Right may_be_false s q k i sat =
        and_then-Right (secondary.compute_truth s (negate_expr q)) _
          (sound.truth_right s (negate_expr q) i (negate_expr-IsSatisfiable logic q sat))
          (λ tmp s₁ t j. succeed-Right Inv (Verdict logic q) _ s₁ j (false_side q tmp k t))
    staged_settle-Right none_known s q k i sat = sound.validity_right s q i sat

    -- The staged solver answers rightly where the complete solver does, provided that the
    -- incomplete one says MustBeTrue only of what is valid, and gives another answer than None
    -- only where a false assignment exists.
    pub staged_solver-IsSound : IsSound logic (staged_solver logic primary_truth secondary) Inv
    unfolding staged_solver staged_validity
    staged_solver-IsSound = record {
      truth_right = staged_truth-Right;
      validity_right = λ s q i sat.
          staged_settle-Right (partial_validity logic primary_truth q) s q
            (partial_validity-Known q right sat) i sat;
    }
