-- ===== src/Searcher.antt =====
-- The search strategies of klee/lib/Core/Searcher.h and Searcher.cpp: the interface that every
-- strategy implements, and the steps that the strategies share on their vectors of states. A state
-- is its address. `none` is a failed assertion, or an access of an empty vector.
mod Tests
pub mod Counting
pub mod Contract
pub mod Unique
pub mod Base
pub mod Subpath
pub mod Learned
pub mod Branching
pub mod Batching
pub mod Interleaved
pub mod Deepening
use learch.Prelude.{
  ◌>>=◌, ℕ, zero, suc, ◌+◌, Bool, true, false, List, [], ◌∷◌, ◌++◌, Option, none, some, ◌==◌,
  if◌then◌else◌,
}

abbrev pub State : Type 0
State = ℕ

-- The virtual functions. `select` is given what `theRNG.getInt32()` returns next, which the
-- deterministic strategies do not look at.
pub record Searcher (S : Type 0) : Type 0 where
  pub select : S → ℕ → Option (State × S)
  pub update : S → (current : Option State) → (added removed : List State) → Option S
  pub empty : S → Bool

-- `std::find(states.begin(), states.end(), es) != states.end()`.
unfoldable pub contains : State → List State → Bool
contains es [] = false
contains es (x ∷ xs) = if es == x then true else contains es xs

-- The same for a pointer that may be null, which no vector holds.
unfoldable pub contains? : Option State → List State → Bool
contains? none xs = false
contains? (some es) xs = contains es xs

-- The loop that erases the first occurrence, and asserts that there is one.
unfoldable pub erase_first : State → List State → Option (List State)
erase_first es [] = none
erase_first es (x ∷ xs) =
    if es == x then some xs else (erase_first es xs >>= λ rest. some (x ∷ rest))

-- The loop over `removedStates`, by a step that removes one state.
unfoldable pub remove_all :
    (State → List State → Option (List State)) → List State → List State → Option (List State)
remove_all step [] states = some states
remove_all step (es ∷ removed) states = step es states >>= remove_all step removed

-- The loop that passes over what it has removed before, in the set `seen`.
unfoldable pub remove_unique : (seen removed : List State) → List State → Option (List State)
remove_unique seen [] states = some states
remove_unique seen (es ∷ removed) states = elim (contains es seen) [
  | true ↦ remove_unique seen removed states
  | false ↦ erase_first es states >>= remove_unique (es ∷ seen) removed
]

-- `addState` and `removeState` of the base class.
module _ {S : Type 0} (m : Searcher S) where
  unfoldable pub add_state : S → State → Option S
  add_state s es = m.update s none (es ∷ []) []

  unfoldable pub remove_state : S → State → Option S
  remove_state s es = m.update s none [] (es ∷ [])
