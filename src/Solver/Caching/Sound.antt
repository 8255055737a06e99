-- ===== src/Solver/Caching/Sound.antt =====
-- The questions of truth and validity to CachingSolver, over a solver whose answers are right.
use learch.Prelude.{
  ◌≡◌, refl, Bool, true, false, Option, none, some, Option-cases, if◌then◌else◌, inl, inr,
  false≢true,
}
use learch.Solver.{Logic, is_true, is_false, unknown, SolverImpl}
use learch.Solver.Meaning.{
  Possible, IsSatisfiable, Truth, Verdict, negate_expr-IsSatisfiable, Possible-negate_expr, refuted,
  Right, IsSound,
}
use learch.Solver.Incomplete.{
  PartialValidity, must_be_true, must_be_false, may_be_true, may_be_false, true_or_false,
  none_known,
}
use learch.Solver.Caching.{
  Caching, cache_lookup, from_validity, remember, ask, validity_miss, validity_hit,
  caching_validity, truth_miss, truth_hit, caching_truth, caching_solver,
}
use learch.Solver.Caching.Laws.{
  Entry, IsRemembered, remember-Right, ask-Right, hit-Right, Verdict-Entry, cache_lookup-Entry,
  cache_insert_old,
}

module _ {S Q W : Type 0} (logic : Logic Q W) {solver : SolverImpl S Q} {Inv : S → Type 0}
    (sound : IsSound logic solver Inv) where
  open logic use {negate_expr}

  abbrev Remembered : {A : Type 0} → (A → Type 0) → Option A × Caching S Q → Type 0
  Remembered T r = Right (IsRemembered logic sound) T r

  validity_miss-Right :
      (c : Caching S Q) (q : Q)
      → IsRemembered logic sound c
      → IsSatisfiable logic q
      → Remembered (Verdict logic q) (validity_miss logic solver c q)
  unfolding validity_miss
  validity_miss-Right c q i sat =
      ask-Right logic sound (solver.compute_validity c.base q) c.cache _ i.1
        (sound.validity_right c.base q i.0 sat)
        (λ result s v j.
          remember-Right logic sound (Verdict logic q) q (from_validity result) result c.cache s
            (Verdict-Entry logic sound q result v) v i.1 j)

  true_side :
      (c : Caching S Q) (q : Q) (tmp : Bool) (s : S)
      → IsRemembered logic sound c
      → Possible logic q true
      → Truth logic q tmp
      → Inv s
      → Remembered (Verdict logic q) (elim tmp [
        | true ↦ remember logic solver q must_be_true is_true c.cache s
        | false ↦ remember logic solver q true_or_false unknown c.cache s
      ])
  true_side c q true s i p t j =
      remember-Right logic sound (Verdict logic q) q must_be_true is_true c.cache s (t, refl) t i.1
        j
  true_side c q false s i p t j =
      remember-Right logic sound (Verdict logic q) q true_or_false unknown c.cache s ((p, t), refl)
        (p, t) i.1 j

  false_side :
      (c : Caching S Q) (q : Q) (tmp : Bool) (s : S)
      → IsRemembered logic sound c
      → Possible logic q false
      → Truth logic (negate_expr q) tmp
      → Inv s
      → Remembered (Verdict logic q) (elim tmp [
        | true ↦ remember logic solver q must_be_false is_false c.cache s
        | false ↦ remember logic solver q true_or_false unknown c.cache s
      ])
  false_side c q true s i p t j =
      remember-Right logic sound (Verdict logic q) q must_be_false is_false c.cache s (t, refl) t
        i.1 j
  false_side c q false s i p t j =
      let both : Possible logic q true × Possible logic q false =
        (Possible-negate_expr logic q false t, p) in
      remember-Right logic sound (Verdict logic q) q true_or_false unknown c.cache s (both, refl)
        both i.1 j

  validity_hit-Right :
      (known : PartialValidity) (c : Caching S Q) (q : Q)
      → Entry logic q known
      → IsRemembered logic sound c
      → IsSatisfiable logic q
      → Remembered (Verdict logic q) (validity_hit logic solver known c q)
  unfolding validity_hit
  validity_hit-Right must_be_true c q k i sat =
      hit-Right logic sound (Verdict logic q) is_true c i k.0
  validity_hit-Right must_be_false c q k i sat =
      hit-Right logic sound (Verdict logic q) is_false c i k.0
  validity_hit-Right true_or_false c q k i sat =
      hit-Right logic sound (Verdict logic q) unknown c i k.0
  validity_hit-Right may_be_true c q k i sat =
      ask-Right logic sound (solver.compute_truth c.base q) c.cache _ i.1
        (sound.truth_right c.base q i.0 sat) (λ tmp s t j. true_side c q tmp s i k.0 t j)
  validity_hit-Right may_be_false c q k i sat =
      ask-Right logic sound (solver.compute_truth c.base (negate_expr q)) c.cache _ i.1
        (sound.truth_right c.base (negate_expr q) i.0 (negate_expr-IsSatisfiable logic q sat))
        (λ tmp s t j. false_side c q tmp s i k.0 t j)
  validity_hit-Right none_known c q k i sat = absurd (false≢true k.1)

  caching_validity-Right :
      (c : Caching S Q) (q : Q)
      → IsRemembered logic sound c
      → IsSatisfiable logic q
      → Remembered (Verdict logic q) (caching_validity logic solver c q)
  unfolding caching_validity
  caching_validity-Right c q i sat = elim (Option-cases (cache_lookup logic c.cache q)) [
    | inl n ↦ rw (n, caching_validity) (validity_miss-Right c q i sat)
    | inr (known, e) ↦
        rw (e, caching_validity)
          (validity_hit-Right known c q (cache_lookup-Entry logic c.cache q known i.1 e) i sat)
  ]

  answer-Entry :
      (q : Q) (otherwise : PartialValidity) (valid : Bool)
      → Truth logic q valid
      → (Possible logic q false → Entry logic q otherwise)
      → Entry logic q (if valid then must_be_true else otherwise)
  answer-Entry q otherwise true t k = (t, refl)
  answer-Entry q otherwise false t k = k t

  truth_miss-Right :
      (otherwise : PartialValidity) (c : Caching S Q) (q : Q)
      → (Possible logic q false → Entry logic q otherwise)
      → IsRemembered logic sound c
      → IsSatisfiable logic q
      → Remembered (Truth logic q) (truth_miss logic solver otherwise c q)
  unfolding truth_miss
  truth_miss-Right otherwise c q k i sat =
      ask-Right logic sound (solver.compute_truth c.base q) c.cache _ i.1
        (sound.truth_right c.base q i.0 sat)
        (λ valid s t j.
          remember-Right logic sound (Truth logic q) q _ valid c.cache s
            (answer-Entry q otherwise valid t k) t i.1 j)

  truth_hit-Right :
      (known : PartialValidity) (c : Caching S Q) (q : Q)
      → Entry logic q known
      → IsRemembered logic sound c
      → IsSatisfiable logic q
      → Remembered (Truth logic q) (truth_hit logic solver known c q)
  unfolding truth_hit
  truth_hit-Right must_be_true c q k i sat = hit-Right logic sound (Truth logic q) true c i k.0
  truth_hit-Right must_be_false c q k i sat =
      hit-Right logic sound (Truth logic q) false c i (refuted logic q sat k.0)
  truth_hit-Right true_or_false c q k i sat = hit-Right logic sound (Truth logic q) false c i k.0.1
  truth_hit-Right may_be_true c q k i sat =
      truth_miss-Right true_or_false c q (λ p. ((k.0, p), refl)) i sat
  truth_hit-Right may_be_false c q k i sat = hit-Right logic sound (Truth logic q) false c i k.0
  truth_hit-Right none_known c q k i sat = absurd (false≢true k.1)

  caching_truth-Right :
      (c : Caching S Q) (q : Q)
      → IsRemembered logic sound c
      → IsSatisfiable logic q
      → Remembered (Truth logic q) (caching_truth logic solver c q)
  unfolding caching_truth
  caching_truth-Right c q i sat = elim (Option-cases (cache_lookup logic c.cache q)) [
    | inl n ↦ rw (n, caching_truth) (truth_miss-Right may_be_false c q (λ p. (p, refl)) i sat)
    | inr (known, e) ↦
        rw (e, caching_truth)
          (truth_hit-Right known c q (cache_lookup-Entry logic c.cache q known i.1 e) i sat)
  ]

  -- Over a solver that answers rightly every query whose constraints can hold, CachingSolver does so
  -- too, on questions of truth and of validity, and every such query keeps the cache right: what an
  -- entry says is so of its query. Nothing is stated of a query whose constraints cannot hold.
  pub caching_solver-IsSound :
      IsSound logic (caching_solver logic solver) (IsRemembered logic sound)
  unfolding caching_solver
  caching_solver-IsSound = record {
    truth_right = caching_truth-Right;
    validity_right = caching_validity-Right;
  }

module _ {S Q W : Type 0} (logic : Logic Q W) (solver : SolverImpl S Q) where
  open logic use {negate_expr}

  ask-cache :
      {A B : Type 0} (q : Q) (r : Option A × S) (c : Caching S Q)
      (f : A → S → Option B × Caching S Q)
      → ((a : A) (s : S) → (f a s).1.cache ≡ c.cache)
      → (ask logic solver r c.cache f).1.cache ≡ c.cache
  ask-cache q (none, s) c f same = refl
  ask-cache q (some a, s) c f same = same a s

  remember-cache :
      {A : Type 0} (q : Q) (known old : PartialValidity) (a : A) (c : Caching S Q) (s : S)
      → cache_lookup logic c.cache q ≡ some old
      → (remember logic solver q known a c.cache s).1.cache ≡ c.cache
  unfolding remember
  remember-cache q known old a c s e = cache_insert_old logic c.cache q old known e

  -- Where the cache knows of a query only that it may be true, a truth question on it leaves the
  -- cache as it is, whatever the solver below answers: the new knowledge is not stored.
  pub caching_truth-forgets :
      (c : Caching S Q) (q : Q)
      → cache_lookup logic c.cache q ≡ some may_be_true
      → (caching_truth logic solver c q).1.cache ≡ c.cache
  unfolding caching_truth truth_hit truth_miss
  caching_truth-forgets c q e =
      rw (e, caching_truth)
        (ask-cache q (solver.compute_truth c.base q) c _ λ valid s.
          remember-cache q (if valid then must_be_true else true_or_false) may_be_true valid c s e)
