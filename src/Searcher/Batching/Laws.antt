-- ===== src/Searcher/Batching/Laws.antt =====
-- BatchingSearcher over a strategy of which only the contract is known, and its two budgets.
use mathlib.Core.Path.{subst}
use learch.Prelude.{
  ℕ, ◌+◌, ◌-◌, ◌%◌, ◌^◌, ◌≤◌, ◌<◌, ◌≡◌, refl, sym, ap, ◌∙◌, Bool, true, ◌&&◌, ◌||◌, List, Option,
  none, some, ltb, if◌then◌else◌, arith, Bool-cases, Option-cases, inl, inr, none≢some, some-pair,
  some_injective,
}
use learch.Searcher.{State, Searcher, contains?}
use learch.Searcher.Counting.{count, >>=-some, >>=-found, contains_none}
use learch.Searcher.Contract.{IsCall, Contract}
use learch.Searcher.Batching.{
  Batching, Reading, is_spent, select_next, batching_select, batching_update, batching_searcher,
}

-- A last state that an update leaves was there before and is not removed.
last-contains? :
    (last_state : Option State) (removed : List State) (x : State)
    → (if contains? last_state removed then none else last_state) ≡ some x
    → (last_state ≡ some x) × (count x removed ≡ 0)
unfolding contains?
last-contains? none removed x h = absurd (none≢some h)
last-contains? (some y) removed x h = ground (arith, contains_none y removed)

module _ {S : Type 0} {m : Searcher S} (scale : ℕ → ℕ) (e : Reading) {held : S → State → ℕ}
    {Inv : S → Type 0} (c : Contract m held Inv) where
  -- The state that it stays with is held.
  pub record IsHeld (b : Batching S) : Type 0 where
    pub base_inv : Inv b.base
    pub last_held : (x : State) → b.last_state ≡ some x → 0 < held b.base x

  abbrev Selects : Batching S → State → Batching S → Type 0
  Selects b x b' = IsHeld b' × (0 < held b.base x) × ((y : State) → held b'.base y ≡ held b.base y)

  select_next-held :
      (b : Batching S) (random : ℕ) (x : State) (b' : Batching S)
      → IsHeld b
      → select_next m scale e b random ≡ some (x, b')
      → Selects b x b'
  unfolding select_next
  select_next-held b random x b' v h = >>=-some (m.select b.base random) _ h λ r e₁ h₁.
      let (p, q) = some-pair h₁ in
      let (i, present, same) = c.select_held b.base random r.0 r.1 v.base_inv e₁ in
      (
        subst IsHeld q (record {
          base_inv = i;
          last_held = λ z w. rw same (subst (λ t. 0 < held b.base t) (some_injective w) present);
        }),
        rw p at present,
        λ z. ap (λ t. held t.base z) (sym q) ∙ same z,
      )

  batching_select-held :
      (b : Batching S) (random : ℕ) (x : State) (b' : Batching S)
      → IsHeld b
      → batching_select m scale e b random ≡ some (x, b')
      → Selects b x b'
  unfolding batching_select
  batching_select-held b random x b' v h = elim (Option-cases b.last_state) [
    | inl n ↦ select_next-held b random x b' v (rw (n, batching_select) at h)
    | inr (y, l) ↦ elim (Bool-cases (is_spent b e)) [
      | inl spent ↦ select_next-held b random x b' v (rw (l, batching_select, spent) at h)
      | inr left ↦
          let (p, q) = some-pair (rw (l, batching_select, left) at h) in
          (subst IsHeld q v, rw p at (v.last_held y l), λ z. ap (λ t. held t.base z) (sym q))
    ]
  ]

  select_next-found :
      (b : Batching S) (random : ℕ) (x : State)
      → IsHeld b
      → 0 < held b.base x
      → (r : State × Batching S) × (select_next m scale e b random ≡ some r)
  unfolding select_next
  select_next-found b random x v h =
      let (r, e₁) = c.select_found b.base random x v.base_inv h in
      (_, >>=-found (m.select b.base random) _ e₁ refl)

  batching_select-found :
      (b : Batching S) (random : ℕ) (x : State)
      → IsHeld b
      → 0 < held b.base x
      → (r : State × Batching S) × (batching_select m scale e b random ≡ some r)
  unfolding batching_select
  batching_select-found b random x v h =
      let (r, e₁) = select_next-found b random x v h in
      elim (Option-cases b.last_state) [
        | inl n ↦ (r, rw (n, batching_select) e₁)
        | inr (y, l) ↦ elim (Bool-cases (is_spent b e)) [
          | inl spent ↦ (r, rw (l, batching_select, spent) e₁)
          | inr left ↦ ((y, b), ground arith)
        ]
      ]

  batching_update-IsHeld :
      (b : Batching S) (current : Option State) (added removed : List State) (b' : Batching S)
      → IsHeld b
      → IsCall (held b.base) current added removed
      → batching_update m scale e b current added removed ≡ some b'
      → IsHeld b' × ((x : State) → held b'.base x + count x removed ≡ held b.base x + count x added)
  unfolding batching_update
  batching_update-IsHeld b current added removed b' v call h =
      >>=-some (m.update b.base current added removed) _ h λ s e₁ h₁.
        let (i, moved) = c.update_held b.base current added removed s v.base_inv call e₁ in
        let q : record b {
          base = s;
          last_state = if contains? b.last_state removed then none else b.last_state;
        }
            ≡ b' =
          some_injective h₁ in
        (
          subst IsHeld q (record {
            base_inv = i;
            last_held = λ z w.
                let (stays, kept) = last-contains? b.last_state removed z w in
                omega (arith, moved z, v.last_held z stays);
          }),
          λ z. ap (λ t. held t.base z + count z removed) (sym q) ∙ moved z,
        )

  -- Over a strategy that keeps the contract, BatchingSearcher keeps it too, whatever it reads from
  -- the clock: the state that it stays with is always held, so it never selects a removed state.
  pub batching_searcher-Contract :
      Contract (batching_searcher m scale e) (λ b x. held b.base x) IsHeld
  unfolding batching_searcher batching_update
  batching_searcher-Contract = record {
    update_held = batching_update-IsHeld;
    update_found = λ b current added removed v call.
        let (s, e₁) = c.update_found b.base current added removed v.base_inv call in
        (
          record b {
            base = s;
            last_state = if contains? b.last_state removed then none else b.last_state;
          },
          rw e₁,
        );
    select_held = batching_select-held;
    select_found = batching_select-found;
    empty_held = λ b v. c.empty_held b.base v.base_inv;
  }

spent_at :
    (budget n k : ℕ)
    → 2 ^ 32 ≤ k
    → k ≤ n
    → n < 2 ^ 64
    → 0 < budget
    → budget < 2 ^ 32
    → (ltb 0 budget && ltb budget ((n + 2 ^ 64 - k % 2 ^ 32) % 2 ^ 64)) ≡ true
spent_at budget n k long later small on h = ground arith

or_true : (a b : Bool) → b ≡ true → (a || b) ≡ true
or_true a b h = ground arith

-- With an instruction budget, a batch that begins after 2 ^ 32 instructions of the whole run is
-- over at its next test, even before it executed one instruction: the recorded start keeps 32 bits
-- of the 64-bit count.
pub is_spent-wraps :
    {S : Type 0} (m : Searcher S) (scale : ℕ → ℕ) (begun e : Reading) (b b' : Batching S)
    (x : State) (random : ℕ)
    → 2 ^ 32 ≤ begun.instructions
    → begun.instructions ≤ e.instructions
    → e.instructions < 2 ^ 64
    → 0 < b.instruction_budget
    → b.instruction_budget < 2 ^ 32
    → select_next m scale begun b random ≡ some (x, b')
    → is_spent b' e ≡ true
unfolding select_next is_spent
is_spent-wraps m scale begun e b b' x random long later small on budget h =
    >>=-some (m.select b.base random) _ h λ r _ h₁.
      subst (λ t. is_spent t e ≡ true) (some-pair h₁).1
        (or_true _ _ (
          spent_at b.instruction_budget e.instructions begun.instructions long later small on
            budget))

-- BatchingSearcher selects its last state again and changes nothing, where neither the time budget
-- nor the instruction budget has been exceeded since the recorded start, and the instruction count
-- is a 64-bit number that is not below that start.
pub batching_select_again :
    {S : Type 0} (m : Searcher S) (scale : ℕ → ℕ) (e : Reading) (b : Batching S) (random : ℕ)
    (x : State)
    → b.last_state ≡ some x
    → e.at_test ≤ b.last_start_time + b.time_budget
    → b.last_start_instructions ≤ e.instructions
    → e.instructions < 2 ^ 64
    → e.instructions ≤ b.last_start_instructions + b.instruction_budget
    → batching_select m scale e b random ≡ some (x, b)
unfolding batching_select is_spent
batching_select_again m scale e b random x l time began small instructions = ground arith
