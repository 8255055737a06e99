-- ===== src/Searcher/Base.antt =====
-- The strategies over a plain vector: DFSSearcher, BFSSearcher and RandomSearcher of
-- klee/lib/Core/Searcher.cpp.
pub mod Laws
use learch.Prelude.{
  ◌>>=◌, ℕ, zero, suc, ◌+◌, ◌%◌, Bool, true, false, not, ◌&&◌, List, [], ◌∷◌, ◌++◌, Option, none,
  some, ◌==◌, if◌then◌else◌, length, get_elem?,
}
use learch.Searcher.{State, Searcher, contains, contains?, erase_first, remove_all}

abbrev pub is_empty : List State → Bool
is_empty [] = true
is_empty (x ∷ xs) = false

-- `states.back()` and `states.pop_back()`.
unfoldable pub back : List State → Option State
back [] = none
back (x ∷ []) = some x
back (x ∷ (y ∷ xs)) = back (y ∷ xs)

unfoldable pub pop_back : List State → List State
pop_back [] = []
pop_back (x ∷ []) = []
pop_back (x ∷ (y ∷ xs)) = x ∷ pop_back (y ∷ xs)

-- `states[theRNG.getInt32() % states.size()]`; with no state that divides by zero.
unfoldable pub random_element : List State → ℕ → Option State
random_element [] random = none
random_element (x ∷ xs) random = get_elem? (x ∷ xs) (random % length (x ∷ xs))

-- A selection that leaves the strategy as it is.
abbrev pub keep : List State → Option State → Option (State × List State)
keep s none = none
keep s (some x) = some (x, s)

unfoldable pub dfs_remove : State → List State → Option (List State)
dfs_remove es states = elim (back states) [
  | none ↦ none
  | some b ↦ if es == b then some (pop_back states) else erase_first es states
]

unfoldable pub dfs_update :
    List State → Option State → List State → List State → Option (List State)
unfolding dfs_remove
dfs_update states current added removed = remove_all dfs_remove removed (states ++ added)

unfoldable pub dfs_searcher : Searcher (List State)
dfs_searcher = record {
  select = λ states random. keep states (back states);
  update = dfs_update;
  empty = is_empty;
}

unfoldable pub bfs_remove : State → List State → Option (List State)
bfs_remove es [] = none
bfs_remove es (x ∷ xs) = if es == x then some xs else erase_first es (x ∷ xs)

-- A current state that forked and was not removed goes to the end.
unfoldable pub bfs_requeue :
    List State → Option State → List State → List State → Option (List State)
bfs_requeue states none added removed = some states
bfs_requeue states (some c) added removed =
    if not (is_empty added) && not (contains c removed)
    then (erase_first c states >>= λ rest. some (rest ++ c ∷ []))
    else some states

unfoldable pub bfs_update :
    List State → Option State → List State → List State → Option (List State)
unfolding bfs_remove bfs_requeue
bfs_update states current added removed = bfs_requeue states current added removed >>= λ queued.
    remove_all bfs_remove removed (queued ++ added)

unfoldable pub bfs_searcher : Searcher (List State)
bfs_searcher = record {
  select = λ states random. keep states (get_elem? states 0);
  update = bfs_update;
  empty = is_empty;
}

unfoldable pub random_update :
    List State → Option State → List State → List State → Option (List State)
random_update states current added removed = remove_all erase_first removed (states ++ added)

unfoldable pub random_searcher : Searcher (List State)
random_searcher = record {
  select = λ states random. keep states (random_element states random);
  update = random_update;
  empty = is_empty;
}
