-- ===== src/Expressions/Queries.antt =====
-- Queries of klee/include/klee/Solver/Solver.h over expressions: what the solvers work on.
use mathlib.Core.Path.{ap₂, subst}
use mathlib.Core.Bool.{Bool-set}
use learch.Prelude.{
  ℕ, ◌≡◌, refl, sym, ◌∙◌, ap, List, [], ◌∷◌, Option, none, some, Bool, true, false, not, ◌==◌, ◌&&◌,
  both, inl, inr, Option-cases, ==→≡, ≡→==, some_injective, none≢some, false≢true,
}
use learch.Expressions.{Globals, Expr, get_width, as_constant}
use learch.Expressions.ApInt.{ApInt}
use learch.Expressions.Meaning.{Assignment, number, well_typed, value}
use learch.Expressions.Values.{value-lt_at}
use learch.Expressions.Same.{same, same→≡}
use learch.Expressions.Constants.{as_constant-≡}
use learch.Expressions.Rewriting.{both_true}
use learch.Expressions.OneBit.{all_bits}
use learch.Expressions.Equal.{is_true, create_is_zero}
use learch.Expressions.Equal.Negation.{IsZero-value, create_is_zero-Means}
use learch.Solver.{Logic}

-- The constraints of the path, and the expression in question.
pub record Query : Type 0 where
  pub constraints : List Expr
  pub expr : Expr

abbrev pub same_list : List Expr → List Expr → Bool
same_list [] [] = true
same_list (e ∷ es) (e' ∷ es') = same e e' && same_list es es'
same_list _ _ = false

same_list→≡ : (es es' : List Expr) → same_list es es' ≡ true → es ≡ es'
same_list→≡ [] [] h = refl
same_list→≡ (e ∷ es) (e' ∷ es') h =
    let (p, q) = both h in ap₂ (λ x xs. x ∷ xs) (same→≡ e e' p) (same_list→≡ es es' q)
same_list→≡ _ _ h = absurd (false≢true h)

module _ (g : Globals) where
  -- An expression of width 1, which the solvers ask for.
  unfoldable pub is_boolean : Expr → Bool
  is_boolean e = well_typed g e && get_width g e == 1

  abbrev pub all_boolean : List Expr → Bool
  all_boolean [] = true
  all_boolean (e ∷ es) = is_boolean e && all_boolean es

  abbrev pub BooleanQuery : Type 0
  BooleanQuery = (q : Query) × ((is_boolean q.expr && all_boolean q.constraints) ≡ true)

  module _ (m : ApInt) where
    -- `isTrue` of the value under an assignment.
    unfoldable pub holds_in : Expr → Assignment → Bool
    holds_in e s = is_true (value g m s e)

    abbrev pub all_hold : List Expr → Assignment → Bool
    all_hold [] s = true
    all_hold (e ∷ es) s = holds_in e s && all_hold es s

    -- Query::negateExpr.
    unfoldable pub negate_expr : Query → Query
    negate_expr q = record { constraints = q.constraints; expr = create_is_zero g m q.expr }

    unfoldable pub same_query : Query → Query → Bool
    same_query q q' = same q.expr q'.expr && same_list q.constraints q'.constraints

    unfoldable pub query_constant : Query → Option Bool
    query_constant q = elim (as_constant q.expr) [ some (_, v) ↦ some (is_true v) | none ↦ none ]

  boolean_parts : (e : Expr) → is_boolean e ≡ true → (well_typed g e ≡ true) × (get_width g e ≡ 1)
  unfolding is_boolean
  boolean_parts e h = let (p, q) = both h in (p, ==→≡ (get_width g e) 1 q)

  pub same_query→≡ : (m : ApInt) (p q : BooleanQuery) → same_query m p.0 q.0 ≡ true → p ≡ q
  unfolding same_query
  same_query→≡ m p q h =
      let (same_expr, same_constraints) = both h in
      let path : p.0 ≡ q.0 =
        ap₂ (λ e es. record { constraints = es; expr = e }) (same→≡ p.0.expr q.0.expr same_expr)
          (same_list→≡ p.0.constraints q.0.constraints same_constraints) in
      lifted p.0 p.1 q.0 path q.1
    where
      typed : Query → Bool
      typed q = is_boolean q.expr && all_boolean q.constraints

      lifted :
          (q : Query) (h : typed q ≡ true) (q' : Query)
          → q ≡ q'
          → (h' : typed q' ≡ true) → ◌≡◌ {A = BooleanQuery} (q, h) (q', h')
      lifted q h q' e =
          subst (λ x. (h' : typed x ≡ true) → ◌≡◌ {A = BooleanQuery} (q, h) (x, h')) e
            (λ h'. ap (λ z. (q, z)) (Bool-set (typed q) true h h'))

module _ (g : Globals) (m : ApInt) (opt : g.const_array_opt ≡ false) where
  pub negated_boolean :
      (e : Expr) → is_boolean g e ≡ true → is_boolean g (create_is_zero g m e) ≡ true
  unfolding is_boolean get_width
  negated_boolean e h =
      let (typed, width, _) = create_is_zero-Means g m opt e (boolean_parts g e h).0 in
      both_true typed (≡→== (get_width g (create_is_zero g m e)) 1 width)

  pub negated_value :
      (e : Expr) (s : Assignment)
      → is_boolean g e ≡ true
      → holds_in g m (create_is_zero g m e) s ≡ not (holds_in g m e s)
  unfolding holds_in
  negated_value e s h =
      let (typed, width) = boolean_parts g e h in
      let (_, _, same) = create_is_zero-Means g m opt e typed in
      ap is_true (same s ∙ IsZero-value g m e s)
      ∙ all_bits (λ x. is_true (number (x == 0)) ≡ not (is_true x)) refl refl (value g m s e)
          (value-lt_at g m s e 1 typed width)

  -- With `--const-array-opt` off, the negation that is created for a well-typed Boolean expression
  -- is one as well, and holds under an assignment just where the expression does not.
  pub negate_expr_lem :
      (e : Expr) (s : Assignment)
      → is_boolean g e ≡ true
      → (is_boolean g (create_is_zero g m e) ≡ true)
        × (holds_in g m (create_is_zero g m e) s ≡ not (holds_in g m e s))
  negate_expr_lem e s h = (negated_boolean e h, negated_value e s h)

  -- The operations on queries that the solvers call, with their laws. `less` is the order of
  -- expressions; `inputs` gives the assignments of the worlds, which may be all of them.
  unfoldable pub query_logic :
      {W : Type 0} → (Expr → Expr → Bool) → (inputs : W → Assignment) → Logic (BooleanQuery g) W
  unfolding negate_expr query_constant holds_in value
  query_logic less inputs = record {
    constraints_hold = λ q w. all_hold g m q.0.constraints (inputs w);
    value = λ q w. holds_in g m q.0.expr (inputs w);
    constant = λ q. query_constant g m q.0;
    constant-value = λ q b w h. known q.0 b (inputs w) h;
    negate_expr =
        λ q. (negate_expr g m q.0, both_true (negated_boolean q.0.expr (both q.1).0) (both q.1).1);
    negate_expr-constraints_hold = λ q w. refl;
    negate_expr-value = λ q w. negated_value q.0.expr (inputs w) (both q.1).0;
    same = λ p q. same_query g m p.0 q.0;
    same→≡ = λ p q h. same_query→≡ g m p q h;
    smaller = λ q. less q.0.expr (create_is_zero g m q.0.expr);
  }
    where
      known :
          (q : Query) (b : Bool) (s : Assignment)
          → query_constant g m q ≡ some b
          → holds_in g m q.expr s ≡ b
      known q b s h = elim (Option-cases (as_constant q.expr)) [
        | inl other ↦ absurd (none≢some (sym (missing other) ∙ h))
        | inr ((w, v), e) ↦
            ap (λ x. is_true (value g m s x)) (as_constant-≡ q.expr w v e)
            ∙ some_injective (sym (present w v e) ∙ h)
      ]
        where
          missing : as_constant q.expr ≡ none → query_constant g m q ≡ none
          missing other = rw (query_constant, other) refl

          present :
              (w v : ℕ) → as_constant q.expr ≡ some (w, v) → query_constant g m q ≡ some (is_true v)
          present w v e = rw (query_constant, e) refl
