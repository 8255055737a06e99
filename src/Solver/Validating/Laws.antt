-- ===== src/Solver/Validating/Laws.antt =====
-- ValidatingSolver over an oracle whose answers are right, with any solver.
use mathlib.Core.Path.{subst}
use learch.Prelude.{
  ◌≡◌, refl, sym, ◌∙◌, Bool, true, false, Option, none, some, Bool-cases, inl, inr,
}
use learch.Solver.{Logic, Validity, is_true, is_false, unknown, SolverImpl}
use learch.Solver.Meaning.{IsSatisfiable, Truth, Verdict, Right, IsSound}
use learch.Solver.Validating.{
  answered, failed, invalid, same_truth, same_validity, checked, validate, validating_truth,
  validating_validity,
}

same_truth→≡ : (a b : Bool) → same_truth a b ≡ true → a ≡ b
unfolding same_truth
same_truth→≡ true true e = refl
same_truth→≡ true false e = cc
same_truth→≡ false true e = cc
same_truth→≡ false false e = refl

same_validity→≡ : (a b : Validity) → same_validity a b ≡ true → a ≡ b
unfolding same_validity
same_validity→≡ is_true is_true e = refl
same_validity→≡ is_true is_false e = cc
same_validity→≡ is_true unknown e = cc
same_validity→≡ is_false is_true e = cc
same_validity→≡ is_false is_false e = refl
same_validity→≡ is_false unknown e = cc
same_validity→≡ unknown is_true e = cc
same_validity→≡ unknown is_false e = cc
same_validity→≡ unknown unknown e = refl

failed≢answered : {A : Type 0} {a : A} → failed ≡ answered a → ⊥
failed≢answered e = cc

invalid≢answered : {A : Type 0} {a : A} → invalid ≡ answered a → ⊥
invalid≢answered e = cc

answered_injective : {A : Type 0} {a b : A} → answered a ≡ answered b → a ≡ b
answered_injective e = cc

module _ {S O A : Type 0} (Inv : O → Type 0) (T : A → Type 0) (same : A → A → Bool)
    (same→≡ : (a b : A) → same a b ≡ true → a ≡ b) where
  checked-answered :
      (a : A) (s : S) (r : Option A × O) (b : A)
      → Right Inv T r
      → (checked same a s r).0 ≡ answered b
      → T b
  unfolding checked
  checked-answered a s (none, o) b right e = absurd (failed≢answered e)
  checked-answered a s (some c, o) b right e = elim (Bool-cases (same a c)) [
    | inl agree ↦
        subst T (sym (same→≡ a c agree) ∙ answered_injective (rw agree at e)) (right.1 c refl)
    | inr differ ↦ absurd (invalid≢answered (rw differ at e))
  ]

  validate-answered :
      (r : Option A × S) (o : O) (oracle : O → Option A × O) (b : A)
      → Right Inv T (oracle o)
      → (validate same r o oracle).0 ≡ answered b
      → T b
  unfolding validate
  validate-answered (none, s) o oracle b right e = absurd (failed≢answered e)
  validate-answered (some a, s) o oracle b right e = checked-answered a s (oracle o) b right e

module _ {S O Q W : Type 0} (logic : Logic Q W) (solver : SolverImpl S Q) {oracle : SolverImpl O Q}
    {Inv : O → Type 0} (sound : IsSound logic oracle Inv) where
  -- Whatever the solver is, every answer of ValidatingSolver is right, to a question of truth and to
  -- one of validity, where the oracle answers rightly and the constraints can hold.
  pub validating_solver-right :
      (s : S) (o : O) (q : Q)
      → Inv o
      → IsSatisfiable logic q
      → ((b : Bool) → (validating_truth solver oracle (s, o) q).0 ≡ answered b → Truth logic q b)
        × ((v : Validity)
            → (validating_validity solver oracle (s, o) q).0 ≡ answered v
            → Verdict logic q v)
  unfolding validating_truth validating_validity
  validating_solver-right s o q i sat = (
    λ b.
        validate-answered Inv (Truth logic q) same_truth same_truth→≡ (solver.compute_truth s q) o _
          b (sound.truth_right o q i sat),
    λ v.
        validate-answered Inv (Verdict logic q) same_validity same_validity→≡
          (solver.compute_validity s q) o _ v (sound.validity_right o q i sat),
  )
