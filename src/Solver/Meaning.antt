-- ===== src/Solver/Meaning.antt =====
-- What an answer of a solver means: the formula that klee/include/klee/Solver/SolverImpl.h gives, over
-- all worlds in which the constraints hold.
use mathlib.Core.Path.{subst}
use learch.Prelude.{
  ◌≡◌, refl, sym, ◌∙◌, Bool, true, false, not, Option, none, some, arith, none≢some, some_injective,
}
use learch.Solver.{Logic, Validity, is_true, is_false, unknown, SolverImpl, and_then}
use learch.Solver.Incomplete.{
  PartialValidity, must_be_true, must_be_false, may_be_true, may_be_false, true_or_false,
  none_known,
}

module _ {Q W : Type 0} (logic : Logic Q W) where
  open logic use {
    constraints_hold, value, negate_expr, negate_expr-constraints_hold, negate_expr-value,
  }

  abbrev pub IsValid : Q → Type 0
  IsValid q = (w : W) → constraints_hold q w ≡ true → value q w ≡ true

  -- A world in which the expression has the value `b`.
  abbrev pub Possible : Q → Bool → Type 0
  Possible q b = (w : W) × (constraints_hold q w ≡ true) × (value q w ≡ b)

  abbrev pub IsSatisfiable : Q → Type 0
  IsSatisfiable q = (w : W) × (constraints_hold q w ≡ true)

  -- The answer to the question whether the expression is valid.
  abbrev pub Truth : Q → Bool → Type 0
  Truth q true = IsValid q
  Truth q false = Possible q false

  abbrev pub Verdict : Q → Validity → Type 0
  Verdict q is_true = IsValid q
  Verdict q is_false = IsValid (negate_expr q)
  Verdict q unknown = Possible q true × Possible q false

  abbrev pub Known : Q → PartialValidity → Type 0
  Known q must_be_true = IsValid q
  Known q must_be_false = IsValid (negate_expr q)
  Known q may_be_true = Possible q true
  Known q may_be_false = Possible q false
  Known q true_or_false = Possible q true × Possible q false
  Known q none_known = Unit {0}

  pub negate_expr-IsSatisfiable : (q : Q) → IsSatisfiable q → IsSatisfiable (negate_expr q)
  negate_expr-IsSatisfiable q (w, h) = (w, negate_expr-constraints_hold q w ∙ h)

  pub negate_expr-Possible : (q : Q) (b : Bool) → Possible q b → Possible (negate_expr q) (not b)
  negate_expr-Possible q b (w, h, e) =
      (w, negate_expr-constraints_hold q w ∙ h, rw (negate_expr-value q w, e))

  pub Possible-negate_expr : (q : Q) (b : Bool) → Possible (negate_expr q) b → Possible q (not b)
  Possible-negate_expr q b (w, h, e) =
      (w, sym (negate_expr-constraints_hold q w) ∙ h, ground (arith, e, negate_expr-value q w))

  pub negate_expr_twice : (q : Q) → IsValid q → IsValid (negate_expr (negate_expr q))
  negate_expr_twice q v w h = ground (
    arith,
    v w,
    h,
    negate_expr-value (negate_expr q) w,
    negate_expr-value q w,
    negate_expr-constraints_hold (negate_expr q) w,
    negate_expr-constraints_hold q w,
  )

  pub IsValid-negate_twice : (q : Q) → IsValid (negate_expr (negate_expr q)) → IsValid q
  IsValid-negate_twice q v w h = ground (
    arith,
    v w,
    h,
    negate_expr-value (negate_expr q) w,
    negate_expr-value q w,
    negate_expr-constraints_hold (negate_expr q) w,
    negate_expr-constraints_hold q w,
  )

  pub IsValid-negate_expr :
      (q : Q)
      → ((w : W) → constraints_hold q w ≡ true → value q w ≡ false)
      → IsValid (negate_expr q)
  IsValid-negate_expr q v w h =
      ground (arith, v w, h, negate_expr-value q w, negate_expr-constraints_hold q w)

  pub Value-negate :
      (q : Q) (w : W) → constraints_hold q w ≡ true → IsValid (negate_expr q) → value q w ≡ false
  Value-negate q w h v =
      ground (arith, v w, h, negate_expr-value q w, negate_expr-constraints_hold q w)

  -- Under constraints that can hold, an expression that must be false can be false.
  pub IsValid-Possible : (q : Q) → IsSatisfiable q → IsValid q → Possible q true
  IsValid-Possible q (w, h) v = (w, h, v w h)

  pub refuted : (q : Q) → IsSatisfiable q → IsValid (negate_expr q) → Possible q false
  refuted q s v =
      Possible-negate_expr q true
        (IsValid-Possible (negate_expr q) (negate_expr-IsSatisfiable q s) v)

-- A result, if there is one, means `T`, and the state keeps its invariant.
abbrev pub Right : {S A : Type 0} → (S → Type 0) → (A → Type 0) → Option A × S → Type 0
Right Inv T r = Inv r.1 × ((a : _) → r.0 ≡ some a → T a)

pub succeed-Right :
    {S A : Type 0} (Inv : S → Type 0) (T : A → Type 0) (a : A) (s : S)
    → Inv s
    → T a
    → Right Inv T (some a, s)
succeed-Right Inv T a s i t = (i, λ b e. subst T (some_injective e) t)

pub fail-Right :
    {S A : Type 0} (Inv : S → Type 0) (T : A → Type 0) (s : S) → Inv s → Right Inv T (none, s)
fail-Right Inv T s i = (i, λ b e. absurd (none≢some e))

pub and_then-Right :
    {S A B : Type 0} {Inv : S → Type 0} {T : A → Type 0} {U : B → Type 0} (r : Option A × S)
    (f : A → S → Option B × S)
    → Right Inv T r
    → ((a : A) (s : S) → T a → Inv s → Right Inv U (f a s))
    → Right Inv U (and_then r f)
and_then-Right (none, s) f r next = (r.0, λ b e. absurd (none≢some e))
and_then-Right (some a, s) f r next = next a s (r.1 a refl) r.0

-- A solver answers rightly every query whose constraints can hold.
pub record IsSound {S Q W : Type 0} (logic : Logic Q W) (m : SolverImpl S Q) (Inv : S → Type 0)
    : Type 0 where
  pub truth_right :
      (s : S) (q : Q)
      → Inv s
      → IsSatisfiable logic q
      → Right Inv (Truth logic q) (m.compute_truth s q)
  pub validity_right :
      (s : S) (q : Q)
      → Inv s
      → IsSatisfiable logic q
      → Right Inv (Verdict logic q) (m.compute_validity s q)
