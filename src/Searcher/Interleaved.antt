-- ===== src/Searcher/Interleaved.antt =====
-- InterleavedSearcher of klee/lib/Core/Searcher.cpp: it asks its strategies in turn and tells each
-- of every update. `m` dispatches on the strategy's class, as the virtual calls do.
pub mod Laws
use learch.Prelude.{
  ◌>>=◌, ℕ, zero, suc, Bool, true, false, List, [], ◌∷◌, Option, none, some, length, get_elem?, set,
}
use learch.Searcher.{State, Searcher}

-- `index` starts at 1.
pub record Interleaved (S : Type 0) : Type 0 where
  pub searchers : List S
  pub index : ℕ

-- `if (index==0) index = searchers.size()`.
abbrev pub turn : ℕ → ℕ → ℕ
turn zero size = size
turn (suc i) size = suc i

module _ {S : Type 0} (m : Searcher S) where
  -- `searchers[--index]`; below 0 and past the end it is out of bounds.
  unfoldable pub interleaved_select : Interleaved S → ℕ → Option (State × Interleaved S)
  interleaved_select r random = elim r.index [
    | zero ↦ none
    | suc i ↦ get_elem? r.searchers i >>= λ s. m.select s random >>= λ chosen. some (
      chosen.0,
      record { searchers = set r.searchers i chosen.1; index = turn i (length r.searchers) },
    )
  ]

  unfoldable pub update_each : List S → Option State → List State → List State → Option (List S)
  update_each [] current added removed = some []
  update_each (s ∷ searchers) current added removed = do
    s' ← m.update s current added removed
    rest ← update_each searchers current added removed
    some (s' ∷ rest)

  unfoldable pub interleaved_update :
      Interleaved S → Option State → List State → List State → Option (Interleaved S)
  interleaved_update r current added removed = do
    searchers ← update_each r.searchers current added removed
    some (record r { searchers = searchers })

  -- `searchers[0]->empty()`, where there is one.
  unfoldable pub first_empty : List S → Bool
  first_empty [] = true
  first_empty (s ∷ searchers) = m.empty s

  unfoldable pub interleaved_searcher : Searcher (Interleaved S)
  interleaved_searcher = record {
    select = interleaved_select;
    update = interleaved_update;
    empty = λ r. first_empty r.searchers;
  }
