-- ===== src/Solver/Caching/Laws.antt =====
-- The cache of CachingSolver: what its entries say of a query and of its negation.
use mathlib.Core.Path.{subst}
use learch.Prelude.{
  ◌≡◌, refl, sym, ◌∙◌, Bool, true, false, [], ◌∷◌, Option, none, some, Option-cases, Bool-cases,
  inl, inr, ◌⊎◌, none≢some, some_injective,
}
use learch.Solver.{Logic, Validity, is_true, is_false, unknown, SolverImpl}
use learch.Solver.Meaning.{
  Verdict, Known, negate_expr-Possible, Possible-negate_expr, negate_expr_twice,
  IsValid-negate_twice, Right, IsSound,
}
use learch.Solver.Incomplete.{
  PartialValidity, must_be_true, must_be_false, may_be_true, may_be_false, true_or_false,
  none_known, negate_partial_validity, is_known,
}
use learch.Solver.Caching.{
  Cache, Caching, canonicalize_query, find, insert, found, insert_known, cache_lookup, cache_insert,
  from_validity, remember, ask,
}

module _ {Q W : Type 0} (logic : Logic Q W) where
  open logic use {negate_expr, same, same→≡, smaller}

  -- What an entry says is so, and says something.
  abbrev pub Entry : Q → PartialValidity → Type 0
  Entry q p = Known logic q p × (is_known p ≡ true)

  abbrev pub AllKnown : Cache Q → Type 0
  AllKnown [] = Unit {0}
  AllKnown ((q, p) ∷ cache) = Entry q p × AllKnown cache

  find-Entry :
      (q : Q) (cache : Cache Q) (p : PartialValidity)
      → find logic q cache ≡ some p
      → AllKnown cache
      → Entry q p
  unfolding find
  find-Entry q [] p e a = absurd (none≢some e)
  find-Entry q ((r, known) ∷ cache) p e a = elim (Bool-cases (same q r)) [
    | inl equal ↦
        subst (λ t. Entry t p) (sym (same→≡ q r equal))
          (subst (Entry r) (some_injective (rw equal at e)) a.0)
    | inr other ↦ find-Entry q cache p (rw other at e) a.1
  ]

  insert-AllKnown :
      (q : Q) (p : PartialValidity) (cache : Cache Q)
      → Entry q p
      → AllKnown cache
      → AllKnown (insert logic q p cache)
  unfolding insert
  insert-AllKnown q p cache k a = elim (Option-cases (find logic q cache)) [
    | inl n ↦ rw (n, insert) (k, a)
    | inr (old, e) ↦ rw (e, insert) a
  ]

  Known-negate :
      (q : Q) (p p' : PartialValidity)
      → negate_partial_validity p ≡ some p'
      → Entry (negate_expr q) p
      → Entry q p'
  unfolding negate_partial_validity
  Known-negate q must_be_true p' e k = subst (Entry q) (some_injective e) (k.0, refl)
  Known-negate q must_be_false p' e k =
      subst (Entry q) (some_injective e) (IsValid-negate_twice logic q k.0, refl)
  Known-negate q may_be_true p' e k =
      subst (Entry q) (some_injective e) (Possible-negate_expr logic q true k.0, refl)
  Known-negate q may_be_false p' e k =
      subst (Entry q) (some_injective e) (Possible-negate_expr logic q false k.0, refl)
  Known-negate q true_or_false p' e k =
      subst (Entry q) (some_injective e)
        ((Possible-negate_expr logic q false k.0.1, Possible-negate_expr logic q true k.0.0), refl)
  Known-negate q none_known p' e k = absurd (none≢some e)

  negate-Known :
      (q : Q) (p p' : PartialValidity)
      → negate_partial_validity p ≡ some p'
      → Entry q p
      → Entry (negate_expr q) p'
  unfolding negate_partial_validity
  negate-Known q must_be_true p' e k =
      subst (Entry (negate_expr q)) (some_injective e) (negate_expr_twice logic q k.0, refl)
  negate-Known q must_be_false p' e k = subst (Entry (negate_expr q)) (some_injective e) (k.0, refl)
  negate-Known q may_be_true p' e k =
      subst (Entry (negate_expr q)) (some_injective e) (negate_expr-Possible logic q true k.0, refl)
  negate-Known q may_be_false p' e k =
      subst (Entry (negate_expr q)) (some_injective e)
        (negate_expr-Possible logic q false k.0, refl)
  negate-Known q true_or_false p' e k =
      subst (Entry (negate_expr q)) (some_injective e)
        ((negate_expr-Possible logic q false k.0.1, negate_expr-Possible logic q true k.0.0), refl)
  negate-Known q none_known p' e k = absurd (none≢some e)

  canonicalize_query-cases :
      (q : Q)
      → (canonicalize_query logic q ≡ (q, false))
        ⊎ (canonicalize_query logic q ≡ (negate_expr q, true))
  unfolding canonicalize_query
  canonicalize_query-cases q = elim (Bool-cases (smaller q)) [
    | inl less ↦ inl (rw less)
    | inr other ↦ inr (rw other)
  ]

  found_original :
      (cache : Cache Q) (q : Q) (p : PartialValidity) (r : Option PartialValidity)
      → find logic q cache ≡ r
      → found logic false r ≡ some p
      → AllKnown cache
      → Entry q p
  found_original cache q p none f e a = absurd (none≢some e)
  found_original cache q p (some known) f e a = find-Entry q cache p (f ∙ e) a

  found_negated :
      (cache : Cache Q) (q : Q) (p : PartialValidity) (r : Option PartialValidity)
      → find logic (negate_expr q) cache ≡ r
      → found logic true r ≡ some p
      → AllKnown cache
      → Entry q p
  found_negated cache q p none f e a = absurd (none≢some e)
  found_negated cache q p (some known) f e a =
      Known-negate q known p e (find-Entry (negate_expr q) cache known f a)

  -- A lookup finds what is so of the query itself, whichever form stands in the cache.
  pub cache_lookup-Entry :
      (cache : Cache Q) (q : Q) (p : PartialValidity)
      → AllKnown cache
      → cache_lookup logic cache q ≡ some p
      → Entry q p
  unfolding cache_lookup
  cache_lookup-Entry cache q p a e = elim (canonicalize_query-cases q) [
    | inl same_query ↦ found_original cache q p _ refl (rw same_query at e) a
    | inr negated ↦ found_negated cache q p _ refl (rw negated at e) a
  ]

  insert_negated :
      (q : Q) (p : PartialValidity) (r : Option PartialValidity) (cache : Cache Q)
      → negate_partial_validity p ≡ r
      → Entry q p
      → AllKnown cache
      → AllKnown (insert_known logic (negate_expr q) r cache)
  insert_negated q p none cache e k a = a
  insert_negated q p (some p') cache e k a =
      insert-AllKnown (negate_expr q) p' cache (negate-Known q p p' e k) a

  cache_insert-AllKnown :
      (q : Q) (p : PartialValidity) (cache : Cache Q)
      → Entry q p
      → AllKnown cache
      → AllKnown (cache_insert logic q p cache)
  unfolding cache_insert
  cache_insert-AllKnown q p cache k a = elim (canonicalize_query-cases q) [
    | inl same_query ↦ rw same_query (insert-AllKnown q p cache k a)
    | inr negated ↦ rw negated (insert_negated q p _ cache refl k a)
  ]

  found-cases :
      (negation_used : Bool) (r : Option PartialValidity) (p : PartialValidity)
      → found logic negation_used r ≡ some p
      → (known : PartialValidity) × (r ≡ some known)
  found-cases negation_used none p e = absurd (none≢some e)
  found-cases negation_used (some known) p e = (known, refl)

  insert_known_old :
      (q : Q) (r : Option PartialValidity) (cache : Cache Q) (old : PartialValidity)
      → find logic q cache ≡ some old
      → insert_known logic q r cache ≡ cache
  unfolding insert
  insert_known_old q none cache old e = refl
  insert_known_old q (some known) cache old e = rw (e, insert)

  -- Where the cache knows something of a query, an insertion changes nothing.
  pub cache_insert_old :
      (cache : Cache Q) (q : Q) (p result : PartialValidity)
      → cache_lookup logic cache q ≡ some p
      → cache_insert logic q result cache ≡ cache
  unfolding cache_lookup cache_insert
  cache_insert_old cache q p result e =
      let (old, f) = found-cases (canonicalize_query logic q).1 _ p e in
      insert_known_old (canonicalize_query logic q).0 _ cache old f

module _ {S Q W : Type 0} (logic : Logic Q W) {solver : SolverImpl S Q} {Inv : S → Type 0}
    (sound : IsSound logic solver Inv) where
  open logic use {negate_expr}

  -- All that the cache says is so.
  abbrev pub IsRemembered : Caching S Q → Type 0
  IsRemembered c = Inv c.base × AllKnown logic c.cache

  pub remember-Right :
      {A : Type 0} (T : A → Type 0) (q : Q) (known : PartialValidity) (a : A) (cache : Cache Q)
      (base : S)
      → Entry logic q known
      → T a
      → AllKnown logic cache
      → Inv base
      → Right IsRemembered T (remember logic solver q known a cache base)
  unfolding remember
  remember-Right T q known a cache base k t all i =
      ((i, cache_insert-AllKnown logic q known cache k all), λ b e. subst T (some_injective e) t)

  pub ask-Right :
      {A B : Type 0} {T : A → Type 0} {U : B → Type 0} (r : Option A × S) (cache : Cache Q)
      (f : A → S → Option B × Caching S Q)
      → AllKnown logic cache
      → Right Inv T r
      → ((a : A) (s : S) → T a → Inv s → Right IsRemembered U (f a s))
      → Right IsRemembered U (ask logic solver r cache f)
  ask-Right (none, s) cache f all r next = ((r.0, all), λ b e. absurd (none≢some e))
  ask-Right (some a, s) cache f all r next = next a s (r.1 a refl) r.0

  pub hit-Right :
      {A : Type 0} (T : A → Type 0) (a : A) (c : Caching S Q)
      → IsRemembered c
      → T a
      → Right IsRemembered T (some a, c)
  hit-Right T a c i t = (i, λ b e. subst T (some_injective e) t)

  pub Verdict-Entry :
      (q : Q) (result : Validity) → Verdict logic q result → Entry logic q (from_validity result)
  Verdict-Entry q is_true v = (v, refl)
  Verdict-Entry q is_false v = (v, refl)
  Verdict-Entry q unknown v = (v, refl)
