-- ===== src/Solver/Caching.antt =====
-- CachingSolver of klee/lib/Solver/CachingSolver.cpp: it remembers what is known of a query, under
-- the smaller of the query and its negation.
pub mod Laws
pub mod Sound
use learch.Prelude.{Bool, true, false, List, [], ◌∷◌, Option, none, some, if◌then◌else◌}
use learch.Solver.{Logic, Validity, is_true, is_false, unknown, SolverImpl, and_then, succeed}
use learch.Solver.Incomplete.{
  PartialValidity, must_be_true, must_be_false, may_be_true, may_be_false, true_or_false,
  none_known, negate_partial_validity, is_must_be_true,
}

abbrev pub Cache : Type 0 → Type 0
Cache Q = List (Q × PartialValidity)

pub record Caching (S Q : Type 0) : Type 0 where
  pub base : S
  pub cache : Cache Q

abbrev pub negate_if : Bool → PartialValidity → Option PartialValidity
negate_if true p = negate_partial_validity p
negate_if false p = some p

module _ {Q W : Type 0} (logic : Logic Q W) where
  open logic use {negate_expr, same, smaller}

  -- The canonical query, and whether it is the negation.
  unfoldable pub canonicalize_query : Q → Q × Bool
  canonicalize_query q = if smaller q then (q, false) else (negate_expr q, true)

  unfoldable pub find : Q → Cache Q → Option PartialValidity
  find q [] = none
  find q ((p, known) ∷ cache) = if same q p then some known else find q cache

  -- `insert` of an unordered_map, which keeps an entry that is there.
  unfoldable pub insert : Q → PartialValidity → Cache Q → Cache Q
  insert q known cache = elim (find q cache) [ some old ↦ cache | none ↦ (q, known) ∷ cache ]

  -- What is found under the canonical query, said of the query.
  abbrev pub found : Bool → Option PartialValidity → Option PartialValidity
  found negation_used none = none
  found negation_used (some known) = negate_if negation_used known

  unfoldable pub cache_lookup : Cache Q → Q → Option PartialValidity
  cache_lookup cache q = found (canonicalize_query q).1 (find (canonicalize_query q).0 cache)

  abbrev pub insert_known : Q → Option PartialValidity → Cache Q → Cache Q
  insert_known canonical none cache = cache
  insert_known canonical (some known) cache = insert canonical known cache

  unfoldable pub cache_insert : Q → PartialValidity → Cache Q → Cache Q
  cache_insert q result cache =
      insert_known (canonicalize_query q).0 (negate_if (canonicalize_query q).1 result) cache

abbrev pub from_validity : Validity → PartialValidity
from_validity is_true = must_be_true
from_validity is_false = must_be_false
from_validity unknown = true_or_false

module _ {S Q W : Type 0} (logic : Logic Q W) (solver : SolverImpl S Q) where
  open logic use {negate_expr}

  -- An answer of the solver below, remembered.
  unfoldable pub remember :
      {A : Type 0} → Q → PartialValidity → A → Cache Q → S → Option A × Caching S Q
  remember q known a cache base =
      (some a, record { base = base; cache = cache_insert logic q known cache })

  -- A call of the solver below.
  abbrev pub ask :
      {A B : Type 0}
      → Option A × S
      → Cache Q
      → (A → S → Option B × Caching S Q)
      → Option B × Caching S Q
  ask (none, base) cache f = (none, record { base = base; cache = cache })
  ask (some a, base) cache f = f a base

  unfoldable pub validity_miss : Caching S Q → Q → Option Validity × Caching S Q
  validity_miss c q =
      ask (solver.compute_validity c.base q) c.cache
        λ result. remember q (from_validity result) result c.cache

  -- An entry for `none_known` is unreachable.
  unfoldable pub validity_hit : PartialValidity → Caching S Q → Q → Option Validity × Caching S Q
  validity_hit must_be_true c q = (some is_true, c)
  validity_hit must_be_false c q = (some is_false, c)
  validity_hit true_or_false c q = (some unknown, c)
  validity_hit may_be_true c q = ask (solver.compute_truth c.base q) c.cache λ tmp base. elim tmp [
    | true ↦ remember q must_be_true is_true c.cache base
    | false ↦ remember q true_or_false unknown c.cache base
  ]
  validity_hit may_be_false c q =
      ask (solver.compute_truth c.base (negate_expr q)) c.cache λ tmp base. elim tmp [
        | true ↦ remember q must_be_false is_false c.cache base
        | false ↦ remember q true_or_false unknown c.cache base
      ]
  validity_hit none_known c q = (none, c)

  unfoldable pub caching_validity : Caching S Q → Q → Option Validity × Caching S Q
  caching_validity c q = elim (cache_lookup logic c.cache q) [
    | some known ↦ validity_hit known c q
    | none ↦ validity_miss c q
  ]

  -- A truth question to the solver below; `otherwise` is what is known where the answer is no.
  unfoldable pub truth_miss :
      (otherwise : PartialValidity) → Caching S Q → Q → Option Bool × Caching S Q
  truth_miss otherwise c q =
      ask (solver.compute_truth c.base q) c.cache
        λ valid. remember q (if valid then must_be_true else otherwise) valid c.cache

  unfoldable pub truth_hit : PartialValidity → Caching S Q → Q → Option Bool × Caching S Q
  truth_hit may_be_true c q = truth_miss true_or_false c q
  truth_hit known c q = (some (is_must_be_true known), c)

  unfoldable pub caching_truth : Caching S Q → Q → Option Bool × Caching S Q
  caching_truth c q = elim (cache_lookup logic c.cache q) [
    | some known ↦ truth_hit known c q
    | none ↦ truth_miss may_be_false c q
  ]

  unfoldable pub caching_solver : SolverImpl (Caching S Q) Q
  caching_solver = record { compute_truth = caching_truth; compute_validity = caching_validity }
