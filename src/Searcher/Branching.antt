-- ===== src/Searcher/Branching.antt =====
-- BranchingSearcher of klee/lib/Core/Searcher.cpp: it stays with one state until that state forks or
-- is removed. The depth of the state's stack is a parameter, as it is only recorded.
pub mod Laws
use learch.Prelude.{
  ◌>>=◌, ℕ, ◌+◌, ◌≤◌, ◌<◌, ◌≡◌, refl, sym, ap, ◌∙◌, ◌↔◌, Bool, true, false, not, ◌&&◌, List, [],
  ◌∷◌, Option, none, some, if◌then◌else◌, arith, Bool-cases, inl, inr, none≢some, some-pair,
}
use learch.Searcher.{State, Searcher, contains?}
use learch.Searcher.Base.{is_empty}
use learch.Searcher.Counting.{count, >>=-some, contains_none}
use learch.Searcher.Contract.{IsCall, Contract}

pub record Branching (S : Type 0) : Type 0 where
  pub base : S
  pub last_state : Option State
  pub last_select_stack_size : ℕ

abbrev pub is_some : Option State → Bool
is_some none = false
is_some (some x) = true

-- The state to stay with after an update.
unfoldable pub next_last : Option State → Option State → List State → List State → Option State
next_last last_state current added removed =
    let kept = if contains? last_state removed then none else last_state in
    if is_some current && not (is_empty added) then none else kept

module _ {S : Type 0} (m : Searcher S) (stack_size : State → ℕ) where
  unfoldable pub branching_select : Branching S → ℕ → Option (State × Branching S)
  branching_select b random = elim b.last_state [
    | some x ↦ some (x, b)
    | none ↦ m.select b.base random >>= λ r.
        some (
          r.0,
          record { base = r.1; last_state = some r.0; last_select_stack_size = stack_size r.0 },
        )
  ]

  unfoldable pub branching_update :
      Branching S → Option State → List State → List State → Option (Branching S)
  branching_update b current added removed = do
    s ← m.update b.base current added removed
    some (record b { base = s; last_state = next_last b.last_state current added removed })

  unfoldable pub branching_searcher : Searcher (Branching S)
  branching_searcher = record {
    select = branching_select;
    update = branching_update;
    empty = λ b. m.empty b.base;
  }
