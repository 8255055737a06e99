-- ===== src/Executor/Tests.antt =====
-- Runs of the executor's loop over the depth-first strategy.
use learch.Prelude.{ℕ, zero, suc, ◌+◌, ◌<◌, ◌≡◌, refl, List, [], ◌∷◌, Option, none, some, arith}
use learch.Searcher.{State, remove_all, erase_first, contains}
use learch.Searcher.Base.{dfs_searcher, dfs_update, dfs_remove, back, pop_back}
use learch.Searcher.Base.Laws.{dfs_searcher-Contract}
use learch.Searcher.Counting.{count}
use learch.Executor.{
  Action, fork, terminate, Executor, update_states, round, loop, run, perform_all, perform,
  terminate_state, insert_all, insert_state, erase_all, erase_state,
}
use learch.Executor.Run.{IsSynced, IsExecution, run-IsSynced}

abbrev sum : List State → ℕ
sum [] = 0
sum (x ∷ xs) = x + sum xs

-- An address that no state has.
abbrev unused : List State → State
unused states = suc (sum states)

count_above : (a : State) (states : List State) → sum states < a → count a states ≡ 0
count_above a [] h = refl
count_above a (x ∷ xs) h = ground (arith, count_above a xs)

-- Every instruction forks, but the last one before the halt ends its state.
abbrev fork_or_end : ℕ → List State → State → List Action
fork_or_end zero states x = terminate x ∷ []
fork_or_end (suc k) states x = fork (unused states) ∷ []

fork_or_end-IsExecution : IsExecution dfs_searcher-Contract (λ k. 0) fork_or_end
fork_or_end-IsExecution zero states x h = (omega arith, tt)
fork_or_end-IsExecution (suc k) states x h =
    (omega (arith, count_above (unused states) states (omega arith)), tt)

abbrev states_of : Option (Executor (List State)) → List State
states_of none = []
states_of (some r) = r.states

-- Three instructions leave two states of three.
run_three : states_of (run dfs_searcher (λ k. 0) fork_or_end 3 5 []) ≡ 6 ∷ 5 ∷ []
unfolding run loop round update_states perform_all perform terminate_state insert_all insert_state
    erase_all erase_state dfs_searcher dfs_update dfs_remove remove_all back pop_back erase_first
    contains
run_three = refl

run-IsSynced_example :
    (r : Executor (List State)) × (run dfs_searcher (λ k. 0) fork_or_end 3 5 [] ≡ some r)
    × IsSynced dfs_searcher-Contract r
run-IsSynced_example =
    run-IsSynced dfs_searcher-Contract (λ k. 0) fork_or_end 3 5 [] fork_or_end-IsExecution tt
      (λ x. refl)
