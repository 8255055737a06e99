-- ===== src/Searcher/Contract.antt =====
-- What the executor relies on in every strategy: which states it holds.
use learch.Prelude.{ℕ, ◌+◌, ◌≤◌, ◌<◌, ◌≡◌, ◌↔◌, true, List, Option, some}
use learch.Searcher.{State, Searcher}
use learch.Searcher.Counting.{count}

-- A call of `update` that the executor may make: a state that is added is new, one that is removed
-- is held or was just added, and the current state is held.
pub record IsCall (held : State → ℕ) (current : Option State) (added removed : List State)
    : Type 0 where
  pub fresh : (x : State) → held x + count x added ≤ 1
  pub known : (x : State) → count x removed ≤ held x + count x added
  pub present : (c : State) → current ≡ some c → 0 < held c

-- `held s x` is how often `s` holds the state `x`, and `Inv` is the strategy's own invariant.
pub record Contract {S : Type 0} (m : Searcher S) (held : S → State → ℕ) (Inv : S → Type 0)
    : Type 0 where
  -- An update adds and removes what it is told.
  pub update_held :
      (s : S) (current : Option State) (added removed : List State) (s' : S)
      → Inv s
      → IsCall (held s) current added removed
      → m.update s current added removed ≡ some s'
      → Inv s' × ((x : State) → held s' x + count x removed ≡ held s x + count x added)
  -- It never fails.
  pub update_found :
      (s : S) (current : Option State) (added removed : List State)
      → Inv s
      → IsCall (held s) current added removed
      → (s' : S) × (m.update s current added removed ≡ some s')
  -- A selected state is held, and selection holds on to every state.
  pub select_held :
      (s : S) (random : ℕ) (x : State) (s' : S)
      → Inv s
      → m.select s random ≡ some (x, s')
      → Inv s' × (0 < held s x) × ((y : State) → held s' y ≡ held s y)
  -- Selection succeeds wherever a state is held.
  pub select_found :
      (s : S) (random : ℕ) (x : State)
      → Inv s
      → 0 < held s x
      → (r : State × S) × (m.select s random ≡ some r)
  pub empty_held : (s : S) → Inv s → (m.empty s ≡ true) ↔ ((x : State) → held s x ≡ 0)

-- For a strategy without an invariant.
abbrev pub Always : {S : Type 0} → S → Type 0
Always s = Unit {0}
