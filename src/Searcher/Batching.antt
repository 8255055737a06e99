-- ===== src/Searcher/Batching.antt =====
-- BatchingSearcher of klee/lib/Core/Searcher.cpp: it stays with one state until a budget of time or
-- of instructions is spent. Times are microseconds that do not run backwards; the rounding of the
-- multiplication of a time span by 1.1 is the parameter `scale`.
pub mod Laws
use learch.Prelude.{
  ◌>>=◌, ℕ, ◌+◌, ◌-◌, ◌%◌, ◌^◌, Bool, true, false, ◌&&◌, ◌||◌, List, [], ◌∷◌, Option, none, some,
  ltb, if◌then◌else◌,
}
use learch.Searcher.{State, Searcher, contains?}

pub record Batching (S : Type 0) : Type 0 where
  pub base : S
  pub time_budget : ℕ
  pub instruction_budget : ℕ
  pub last_state : Option State
  pub last_start_time : ℕ
  pub last_start_instructions : ℕ

-- What one selection reads: the wall time at its test, at its measurement and at its end, and the
-- 64-bit count of instructions.
pub record Reading : Type 0 where
  pub at_test : ℕ
  pub at_measure : ℕ
  pub at_start : ℕ
  pub instructions : ℕ

-- A budget is spent; 0 stands for none.
unfoldable pub is_spent : {S : Type 0} → Batching S → Reading → Bool
is_spent b e =
    (ltb 0 b.time_budget && ltb b.time_budget (e.at_test - b.last_start_time))
    || (ltb 0 b.instruction_budget
        && ltb b.instruction_budget
            ((e.instructions + 2 ^ 64 - b.last_start_instructions) % 2 ^ 64))

module _ {S : Type 0} (m : Searcher S) (scale : ℕ → ℕ) (e : Reading) where
  -- The new time budget, where a state was left later than expected.
  unfoldable pub adapt_budget : Batching S → Option State → ℕ
  adapt_budget b none = b.time_budget
  adapt_budget b (some x) =
      let delta = e.at_measure - b.last_start_time in
      if ltb (scale b.time_budget) delta then delta else b.time_budget

  -- `lastStartInstructions` has 32 bits.
  unfoldable pub select_next : Batching S → ℕ → Option (State × Batching S)
  select_next b random = do
    r ← m.select b.base random
    some (
      r.0,
      record {
        base = r.1;
        time_budget = adapt_budget b b.last_state;
        instruction_budget = b.instruction_budget;
        last_state = some r.0;
        last_start_time = e.at_start;
        last_start_instructions = e.instructions % 2 ^ 32;
      },
    )

  unfoldable pub batching_select : Batching S → ℕ → Option (State × Batching S)
  batching_select b random = elim b.last_state [
    | none ↦ select_next b random
    | some x ↦ if is_spent b e then select_next b random else some (x, b)
  ]

  unfoldable pub batching_update :
      Batching S → Option State → List State → List State → Option (Batching S)
  batching_update b current added removed = do
    s ← m.update b.base current added removed
    some (record b {
      base = s;
      last_state = if contains? b.last_state removed then none else b.last_state;
    })

  unfoldable pub batching_searcher : Searcher (Batching S)
  batching_searcher = record {
    select = batching_select;
    update = batching_update;
    empty = λ b. m.empty b.base;
  }
