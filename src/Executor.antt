-- ===== src/Executor.antt =====
-- The loop of Executor::run of klee/lib/Core/Executor.cpp over a search strategy, with the states it
-- owns: a fork, terminateState and updateStates. What an instruction does to the program it runs is
-- the parameter `execute`; the loop knows of it only which states are forked and which end. The seed
-- phase, the features and the process tree are left out.
mod Tests
pub mod Actions
pub mod Run
use learch.Prelude.{
  ◌>>=◌, ℕ, zero, suc, Bool, true, false, List, [], ◌∷◌, ◌++◌, Option, none, some, ◌==◌,
  if◌then◌else◌,
}
use learch.Searcher.{State, Searcher, contains, erase_first}
use learch.Searcher.Base.{is_empty}

-- `addedStates` and `removedStates`.
pub record Pending : Type 0 where
  pub added : List State
  pub removed : List State

abbrev pub nothing_pending : Pending
nothing_pending = record { added = []; removed = [] }

-- What an instruction does to the states: `fork` adds one, `terminateState` ends one.
pub data Action : Type 0 where
  fork : (es : State) → Action
  terminate : (es : State) → Action

-- `set::erase`, which passes over what is not there.
unfoldable pub erase_state : State → List State → List State
erase_state es [] = []
erase_state es (x ∷ xs) = if es == x then xs else x ∷ erase_state es xs

-- A state that was only just added has never reached the searcher.
unfoldable pub terminate_state : Pending → State → Pending
terminate_state p es =
    if contains es p.added
    then record p { added = erase_state es p.added }
    else record p { removed = p.removed ++ es ∷ [] }

unfoldable pub perform : Pending → Action → Pending
perform p (fork es) = record p { added = p.added ++ es ∷ [] }
perform p (terminate es) = terminate_state p es

unfoldable pub perform_all : Pending → List Action → Pending
perform_all p [] = p
perform_all p (a ∷ actions) = perform_all (perform p a) actions

-- `set::insert`.
unfoldable pub insert_state : State → List State → List State
insert_state es states = if contains es states then states else es ∷ states

unfoldable pub insert_all : (added states : List State) → List State
insert_all [] states = states
insert_all (es ∷ added) states = insert_all added (insert_state es states)

unfoldable pub erase_all : (removed states : List State) → List State
erase_all [] states = states
erase_all (es ∷ removed) states = erase_all removed (erase_state es states)

-- The states and the searcher.
pub record Executor (S : Type 0) : Type 0 where
  pub states : List State
  pub searcher : S

module _ {S : Type 0} (m : Searcher S) where
  unfoldable pub update_states : Executor S → Option State → Pending → Option (Executor S)
  update_states r current p = do
    s ← m.update r.searcher current p.added p.removed
    some (record { states = erase_all p.removed (insert_all p.added r.states); searcher = s })

  -- `random k` is what the generator gives `k` instructions before the halt, and `execute k` what the
  -- instruction, the timers and checkMemoryUsage then do to the pending lists.
  module _ (random : ℕ → ℕ) (execute : ℕ → List State → State → List Action) where
    unfoldable pub round : ℕ → Executor S → Option (Executor S)
    round k r = do
      chosen ← m.select r.searcher (random k)
      update_states (record r { searcher = chosen.1 }) (some chosen.0)
          (perform_all nothing_pending (execute k r.states chosen.0))

    -- `haltExecution` is set after `k` instructions.
    unfoldable pub loop : ℕ → Executor S → Option (Executor S)
    loop zero r = some r
    loop (suc k) r = if is_empty r.states then some r else (round k r >>= loop k)

    unfoldable pub run : ℕ → State → S → Option (Executor S)
    run k initial_state searcher = do
      s ← m.update searcher none (initial_state ∷ []) []
      loop k (record { states = initial_state ∷ []; searcher = s })
