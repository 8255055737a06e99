-- ===== src/Searcher/Tests.antt =====
-- Runs of the strategies, and their theorems at concrete states.
use learch.Prelude.{
  ◌==◌, if◌then◌else◌, ℕ, ◌+◌, ◌≤◌, ◌<◌, ◌≡◌, refl, true, false, List, [], ◌∷◌, Option, none, some,
  arith, ltb,
}
use learch.Tree.Order.{numbers}
use learch.Searcher.{State, contains, contains?, erase_first, remove_all}
use learch.Searcher.Counting.{count}
use learch.Searcher.Contract.{IsCall, Contract, Always}
use learch.Searcher.Base.{
  dfs_searcher, dfs_update, dfs_remove, back, pop_back, random_element, bfs_searcher,
}
use learch.Searcher.Base.Laws.{dfs_searcher-Contract, bfs_searcher-Contract}
use learch.Searcher.Learned.{
  Learned, predict_all, batch, store, choose, best, best_from, learned_select, learned_searcher,
}
use learch.Searcher.Learned.Greedy.{IsGreedy, learned_select-IsGreedy, learned_searcher-Contract}
use learch.Searcher.Subpath.{
  Guided, select_set, get_subpath, rarity, guided_select, guided_searcher, get_subpath_count,
  same_subpath,
}
use learch.Searcher.Subpath.Laws.{
  Fit, after_select, IsRarest, guided_select-IsRarest, guided_searcher-Contract,
}
use learch.Searcher.Branching.{
  Branching, branching_select, branching_update, branching_searcher, next_last,
}
use learch.Searcher.Branching.Laws.{branching_searcher-Contract, branching_select_again}
use learch.Searcher.Batching.{
  Batching, Reading, is_spent, select_next, adapt_budget, batching_select, batching_searcher,
}
use learch.Searcher.Batching.Laws.{
  batching_searcher-Contract, is_spent-wraps, batching_select_again,
}
use learch.Searcher.Interleaved.{interleaved_searcher}
use learch.Searcher.Interleaved.Laws.{first_held, IsAligned, interleaved_searcher-Contract}
use learch.Searcher.Deepening.{Deepening, deepening_select, deepening_update}
use learch.Searcher.Deepening.Laws.{
  total, IsSplit, IsReady, deepening_update-total, deepening_select-total,
}

-- The model rates a state by its address. State 2 has a prediction already.
abbrev three_states : Learned ℕ
three_states = record {
  states = 1 ∷ 3 ∷ 2 ∷ [];
  predicted = λ x. x == 2;
  reward = λ x. if x == 2 then 2 else 0;
}

abbrev addresses : List State → List ℕ
addresses xs = xs

abbrev chosen : {S : Type 0} → Option (State × S) → Option State
chosen none = none
chosen (some r) = some r.0

-- The strategy after a selection that succeeds.
abbrev rest : {S : Type 0} → Option (State × S) → S → S
rest none s = s
rest (some r) s = r.1

abbrev after_greedy : Learned ℕ
after_greedy = rest (learned_select ltb 0 addresses false (λ rewards. 0) three_states) three_states

greedy_three : chosen (learned_select ltb 0 addresses false (λ rewards. 0) three_states) ≡ some 3
unfolding learned_select predict_all batch store choose best best_from
greedy_three = refl

once_in_three : (y : State) → count y three_states.states ≤ 1
once_in_three y = ground arith

learned_select-IsGreedy_example :
    (scored : State → ℕ) × IsGreedy numbers 0 addresses three_states after_greedy scored 3
unfolding learned_select predict_all batch store choose best best_from
learned_select-IsGreedy_example =
    learned_select-IsGreedy numbers 0 addresses (λ xs. refl) (λ rewards. 0) three_states 3
      after_greedy once_in_three refl

learned_searcher-Contract_example :
    Contract
      (learned_searcher ltb 0 addresses false (λ rewards. 0))
      (λ s x. count x s.states)
      Always
learned_searcher-Contract_example =
    learned_searcher-Contract ltb 0 addresses (λ xs. refl) false (λ rewards. 0) (λ rewards h. h)

-- Two states that took different sides of one branch.
abbrev side : State → List (ℕ × ℕ)
side x = (7, x) ∷ []

abbrev two_branches : State → List (ℕ × ℕ)
two_branches x = (5, 0) ∷ side x

abbrev two_sides : Guided
two_sides = record {
  states = 0 ∷ 1 ∷ [];
  branches = two_branches;
  counts = (side 0, 5) ∷ (side 1, 2) ∷ [];
}

-- Only the second branch of each state counts.
guided_select-IsRarest_example : IsRarest false 0 two_sides (after_select false 0 two_sides 1) 1
unfolding guided_select select_set rarity random_element get_subpath get_subpath_count same_subpath
guided_select-IsRarest_example =
    guided_select-IsRarest false 0 two_sides 3 1 (after_select false 0 two_sides 1) refl

guided_searcher-Contract_example :
    Contract (guided_searcher false 3) (λ g x. count x g.states) (λ g. Fit g.counts)
guided_searcher-Contract_example = guided_searcher-Contract false 3

abbrev deep : Branching (List State)
deep = record { base = 1 ∷ 2 ∷ []; last_state = none; last_select_stack_size = 0 }

abbrev deep_at : List State → Branching (List State)
deep_at states = record { base = states; last_state = some 2; last_select_stack_size = 4 }

branching_searcher-Contract_example :
    Contract
      (branching_searcher dfs_searcher (λ x. 4))
      (λ b x. count x b.base)
      (learch.Searcher.Branching.Laws.IsHeld (λ x. 4) dfs_searcher-Contract)
branching_searcher-Contract_example = branching_searcher-Contract (λ x. 4) dfs_searcher-Contract

branching_select_again_example :
    branching_select dfs_searcher (λ x. 4) (deep_at (2 ∷ [])) 9 ≡ some (2, deep_at (2 ∷ []))
unfolding branching_select branching_update dfs_searcher dfs_update dfs_remove back pop_back
    remove_all erase_first contains contains? next_last
branching_select_again_example =
    branching_select_again {m = dfs_searcher} (λ x. 4) dfs_searcher-Contract deep 0 9 2
      (deep_at (1 ∷ 2 ∷ [])) (deep_at (2 ∷ [])) [] (1 ∷ []) refl refl refl refl

abbrev batch_of : ℕ → Batching (List State)
batch_of begun = record {
  base = 1 ∷ 2 ∷ [];
  time_budget = 500;
  instruction_budget = 1000;
  last_state = some 2;
  last_start_time = 0;
  last_start_instructions = begun;
}

abbrev reading : ℕ → Reading
reading n = record { at_test = 400; at_measure = 410; at_start = 420; instructions = n }

batching_searcher-Contract_example :
    Contract
      (batching_searcher dfs_searcher (λ t. t) (reading 7))
      (λ b x. count x b.base)
      (learch.Searcher.Batching.Laws.IsHeld (λ t. t) (reading 7) dfs_searcher-Contract)
batching_searcher-Contract_example =
    batching_searcher-Contract (λ t. t) (reading 7) dfs_searcher-Contract

batching_select_again_example :
    batching_select dfs_searcher (λ t. t) (reading 900) (batch_of 100) 0 ≡ some (2, batch_of 100)
batching_select_again_example =
    batching_select_again dfs_searcher (λ t. t) (reading 900) (batch_of 100) 0 2 refl (omega arith)
      (omega arith) (omega arith) (omega arith)

-- The batch begins at instruction 2 ^ 32 + 5, and is spent before it executes one.
is_spent-wraps_example :
    is_spent (record (batch_of 5) { last_start_time = 420 }) (reading 4294967301) ≡ true
unfolding select_next adapt_budget dfs_searcher back
is_spent-wraps_example =
    is_spent-wraps dfs_searcher (λ t. t) (reading 4294967301) (reading 4294967301) (batch_of 0)
      (record (batch_of 5) { last_start_time = 420 }) 2 0 (omega arith) (omega arith) (omega arith)
      (omega arith) (omega arith) refl

interleaved_searcher-Contract_example :
    Contract
      (interleaved_searcher bfs_searcher)
      (λ r x. first_held bfs_searcher-Contract r.searchers x)
      (IsAligned bfs_searcher-Contract)
interleaved_searcher-Contract_example = interleaved_searcher-Contract bfs_searcher-Contract

-- One state runs, one is paused.
abbrev one_paused : Deepening (List State)
one_paused = record { base = 1 ∷ []; start_time = 10; time = 100; paused_states = 2 ∷ [] }

one_paused-IsSplit : IsSplit bfs_searcher-Contract one_paused
one_paused-IsSplit = record { base_inv = tt; distinct = λ x. ground arith }

one_paused-IsReady : IsReady bfs_searcher-Contract one_paused
one_paused-IsReady = record {
  split = one_paused-IsSplit;
  awake = λ h. absurd (ground (arith, h 1));
}

at_one : (x : State) → some 1 ≡ some x → 0 < count x (1 ∷ [])
at_one x e = ground arith

-- The running state forks and is then over its time.
fork-IsCall : IsCall (total bfs_searcher-Contract one_paused) (some 1) (3 ∷ []) (2 ∷ [])
fork-IsCall = record {
  fresh = λ x. ground arith;
  known = λ x. ground arith;
  present = λ x e. omega (arith, at_one x e);
}

deepening_update-total_example :
    (d' : Deepening (List State)) × (deepening_update bfs_searcher 200 one_paused
        (some 1)
        (3 ∷ [])
        (2 ∷ [])
      ≡ some d')
    × IsReady bfs_searcher-Contract d'
    × ((x : State)
        → total bfs_searcher-Contract d' x + count x (2 ∷ [])
          ≡ total bfs_searcher-Contract one_paused x + count x (3 ∷ []))
deepening_update-total_example =
    deepening_update-total bfs_searcher-Contract 200 one_paused (some 1) (3 ∷ []) (2 ∷ [])
      one_paused-IsSplit fork-IsCall at_one

deepening_select-total_example :
    (y : State) × (d' : Deepening (List State)) × (deepening_select bfs_searcher 30 one_paused 0
      ≡ some (y, d'))
    × (0 < count y (1 ∷ []))
    × ((z : State) → count z d'.base ≡ count z (1 ∷ []))
    × (d'.paused_states ≡ 2 ∷ [])
deepening_select-total_example =
    deepening_select-total bfs_searcher-Contract 30 one_paused 0 1 one_paused-IsReady (omega arith)
