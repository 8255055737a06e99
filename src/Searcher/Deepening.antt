-- ===== src/Searcher/Deepening.antt =====
-- IterativeDeepeningTimeSearcher of klee/lib/Core/Searcher.cpp: it pauses a state that ran for longer
-- than the time budget, and doubles the budget once every state is paused. Times are microseconds;
-- `start` and `now` are what the clock gives.
pub mod Laws
use learch.Prelude.{
  ◌>>=◌, ℕ, ◌-◌, ◌*◌, Bool, true, false, not, ◌&&◌, List, [], ◌∷◌, Option, none, some, ltb, ◌==◌,
  if◌then◌else◌,
}
use learch.Searcher.{State, Searcher, contains, add_state, remove_state}
use learch.Searcher.Base.{is_empty}
use learch.Executor.{erase_state, insert_state}

pub record Deepening (S : Type 0) : Type 0 where
  pub base : S
  pub start_time : ℕ
  pub time : ℕ
  pub paused_states : List State

-- `alt.erase(std::remove(alt.begin(), alt.end(), es), alt.end())`.
unfoldable pub remove_each : State → List State → List State
remove_each es [] = []
remove_each es (x ∷ xs) = if es == x then remove_each es xs else x ∷ remove_each es xs

-- The loop over the removed states: a paused one is not the base's to remove.
unfoldable pub pass_removed : (removed alt paused : List State) → List State × List State
pass_removed [] alt paused = (alt, paused)
pass_removed (es ∷ removed) alt paused = elim (contains es paused) [
  | true ↦ pass_removed removed (remove_each es alt) (erase_state es paused)
  | false ↦ pass_removed removed alt paused
]

module _ {S : Type 0} (m : Searcher S) where
  unfoldable pub deepening_select : (start : ℕ) → Deepening S → ℕ → Option (State × Deepening S)
  deepening_select start d random = do
    r ← m.select d.base random
    some (r.0, record d { base = r.1; start_time = start })

  -- The current state is paused when it lives on beyond its time.
  unfoldable pub pause :
      (elapsed : ℕ) → Deepening S → Option State → List State → Option (Deepening S)
  pause elapsed d none removed = some d
  pause elapsed d (some es) removed =
      if not (contains es removed) && ltb d.time elapsed
      then (remove_state m d.base es >>= λ s.
          some (record d { base = s; paused_states = insert_state es d.paused_states }))
      else some d

  unfoldable pub restart : Deepening S → Option (Deepening S)
  restart d =
      if m.empty d.base
      then (m.update d.base none d.paused_states [] >>= λ s.
          some (record d { base = s; time = d.time * 2; paused_states = [] }))
      else some d

  unfoldable pub deepening_update :
      (now : ℕ) → Deepening S → Option State → List State → List State → Option (Deepening S)
  deepening_update now d current added removed =
      let passed = pass_removed removed removed d.paused_states in
      m.update d.base current added passed.0 >>= λ s.
      pause (now - d.start_time) (record d { base = s; paused_states = passed.1 }) current removed
      >>= λ d'. restart d'

  unfoldable pub deepening_empty : Deepening S → Bool
  deepening_empty d = m.empty d.base && is_empty d.paused_states
